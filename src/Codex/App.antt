-- ===== src/Codex/App.antt =====
-- bin/workspace_harbor_codex.py: the identity of the Codex app, from the runs of the commands that
-- tell of it.
use serena_workspace_orchest.Prelude.{
  ℕ, zero, suc, Bool, false, not, ◌&&◌, ◌||◌, Option, none, some, List, [], ◌∷◌, ltb, ◌==◌,
  if◌then◌else◌, length,
}
use serena_workspace_orchest.Prelude.Strings.{codes, strip, split_lines, codes_eq}
use serena_workspace_orchest.Prelude.Int.{ℤ, pos, int_eq}
use serena_workspace_orchest.Opener.Process.{PsRun, unavailable, completed}
use mathlib.Core.List.{reverse, List, []}
use serena_workspace_orchest.Prelude.Digits.{parse_int}
use serena_workspace_orchest.Prelude.Shell.{shell_split}

abbrev pub app_executable : List ℕ
app_executable = codes "/Applications/ChatGPT.app/Contents/MacOS/ChatGPT"

abbrev pub app_bundle_id : List ℕ
app_bundle_id = codes "com.openai.codex"

pub record CodexProcessIdentity : Type 0 where
  pub pid : ℤ
  pub started : List ℕ
  pub executable : List ℕ
  pub bundle_id : List ℕ

-- The results of `pgrep`, of `defaults read`, and of `ps` for each process.
pub record Machine : Type 0 where
  pub pgrep : PsRun
  pub defaults : PsRun
  pub ps : ℤ → PsRun

-- The lines that are numbers.
unfoldable pub numbers : List (List ℕ) → List ℤ
unfolding parse_int strip
numbers [] = []
numbers (line ∷ lines) = elim (parse_int 10 (strip line)) [
  | none ↦ numbers lines
  | some n ↦ n ∷ numbers lines
]

-- `_candidate_pids`
unfoldable pub candidate_pids : PsRun → List ℤ
unfolding numbers split_lines
candidate_pids unavailable = []
candidate_pids (completed returncode stdout) =
    if not (int_eq returncode (pos 0) || int_eq returncode (pos 1))
    then []
    else numbers (split_lines (codes stdout))

-- `s.strip("\n")`
unfoldable pub drop_newlines : List ℕ → List ℕ
drop_newlines [] = []
drop_newlines (c ∷ cs) = if c == 10 then drop_newlines cs else c ∷ cs

unfoldable pub strip_newlines : List ℕ → List ℕ
unfolding drop_newlines
strip_newlines s = reverse (drop_newlines (reverse (drop_newlines s)))

-- `s[:n]` and `s[n:]`
unfoldable pub take : ℕ → List ℕ → List ℕ
take zero s = []
take (suc n) [] = []
take (suc n) (c ∷ cs) = c ∷ take n cs

unfoldable pub drop : ℕ → List ℕ → List ℕ
drop zero s = s
drop (suc n) [] = []
drop (suc n) (c ∷ cs) = drop n cs

-- The start time fills 24 columns, and the first word behind it is the executable.
unfoldable pub read_columns : List ℕ → Option (List ℕ × List ℕ)
unfolding take drop strip shell_split
read_columns output =
    if ltb (length output) 25 then none else elim (shell_split (strip (drop 24 output))) [
      | none ↦ none
      | some words ↦ elim words [
        | [] ↦ none
        | command ∷ rest ↦ some (strip (take 24 output), command)
      ]
    ]

-- `_read_process`
unfoldable pub read_process : PsRun → Option (List ℕ × List ℕ)
unfolding read_columns strip_newlines
read_process unavailable = none
read_process (completed returncode stdout) =
    if not (int_eq returncode (pos 0)) then none else read_columns (strip_newlines (codes stdout))

-- `_bundle_identifier`
unfoldable pub bundle_identifier : PsRun → Option (List ℕ)
unfolding strip
bundle_identifier unavailable = none
bundle_identifier (completed returncode stdout) =
    if int_eq returncode (pos 0) then some (strip (codes stdout)) else none

-- `_bundle_identifier() == APP_BUNDLE_ID`
unfoldable pub has_bundle : Machine → Bool
unfolding bundle_identifier codes_eq
has_bundle machine = elim (bundle_identifier machine.defaults) [
  | none ↦ false
  | some id ↦ codes_eq id app_bundle_id
]

unfoldable pub identify : Machine → ℤ → Option CodexProcessIdentity
unfolding read_process codes_eq
identify machine pid = elim (read_process (machine.ps pid)) [
  | none ↦ none
  | some (started, executable) ↦
      if codes_eq executable app_executable
      then some (record {
        pid = pid;
        started = started;
        executable = executable;
        bundle_id = app_bundle_id;
      })
      else none
]

unfoldable pub find_codex_app_identity : Machine → Option CodexProcessIdentity
unfolding candidate_pids has_bundle identify
find_codex_app_identity machine = elim (candidate_pids machine.pgrep) [
  | [] ↦ none
  | pid ∷ others ↦ elim others [
    | [] ↦ if has_bundle machine then identify machine pid else none
    | second ∷ rest ↦ none
  ]
]

unfoldable pub identity_matches : Machine → CodexProcessIdentity → Bool
unfolding has_bundle read_process codes_eq
identity_matches machine identity =
    if not (codes_eq identity.bundle_id app_bundle_id)
      || not (codes_eq identity.executable app_executable)
    then false
    else if not (has_bundle machine)
    then false
    else elim (read_process (machine.ps identity.pid)) [
      | none ↦ false
      | some (started, executable) ↦
          codes_eq started identity.started && codes_eq executable identity.executable
    ]
