-- ===== src/Ide/Process.antt =====
-- bin/workspace_harbor_ide.py: `is_intellij_command` and `intellij_owned_port`, from the runs of
-- lsof and ps. A digit is an ASCII digit.
use serena_workspace_orchest.Prelude.{
  ℕ, any, Bool, false, not, ◌&&◌, ◌||◌, Option, none, some, List, [], ◌∷◌, ◌++◌, leb, ◌==◌,
  if◌then◌else◌,
}
use serena_workspace_orchest.Prelude.Strings.{
  codes, strip, split_lines, codes_eq, has_prefix, codes_member,
}
use serena_workspace_orchest.Prelude.Int.{ℤ, pos, int_eq}
use serena_workspace_orchest.Opener.Process.{PsRun, unavailable, completed}
use serena_workspace_orchest.Ide.Version.{is_digits}

-- The executables are the bundle's, as it is named and as it is resolved.
unfoldable pub is_intellij_command : List ℕ → List (List ℕ) → Bool
unfolding codes_eq has_prefix
is_intellij_command command executables =
    any (λ executable. codes_eq command executable || has_prefix (executable ++ 0x20 ∷ []) command)
      executables

-- A line `p` and the digits of a process.
unfoldable pub process_of : List ℕ → Option (List ℕ)
unfolding is_digits
process_of [] = none
process_of (c ∷ cs) = if c == b'p' && is_digits cs then some cs else none

-- The set of the processes, as a list without repetition.
unfoldable pub processes : List (List ℕ) → List (List ℕ)
unfolding process_of codes_member
processes [] = []
processes (line ∷ lines) =
    let rest = processes lines in
    elim (process_of line) [
      | none ↦ rest
      | some pid ↦ if codes_member pid rest then rest else pid ∷ rest
    ]

unfoldable pub listeners : PsRun → List (List ℕ)
unfolding processes split_lines
listeners unavailable = []
listeners (completed returncode stdout) =
    if int_eq returncode (pos 0) then processes (split_lines (codes stdout)) else []

unfoldable pub runs_intellij : List (List ℕ) → PsRun → Bool
unfolding is_intellij_command strip
runs_intellij executables unavailable = false
runs_intellij executables (completed returncode stdout) =
    int_eq returncode (pos 0) && is_intellij_command (strip (codes stdout)) executables

-- `isinstance(port, int) and 1 <= port <= 65535`
abbrev pub is_port : ℤ → Bool
is_port (pos n) = leb 1 n && leb n 65_535
is_port _ = false

unfoldable pub only_runs : List (List ℕ) → (List ℕ → PsRun) → List (List ℕ) → Bool
unfolding runs_intellij
only_runs executables ps (pid ∷ []) = runs_intellij executables (ps pid)
only_runs executables ps _ = false

unfoldable pub intellij_owned_port : ℤ → List (List ℕ) → PsRun → (List ℕ → PsRun) → Bool
unfolding listeners only_runs
intellij_owned_port port executables lsof ps =
    if not (is_port port) then false else only_runs executables ps (listeners lsof)
