-- ===== src/Opener/Process.antt =====
-- bin/workspace_harbor_opener_queue.py: the coordination error, and the identity of a process as
-- `ps` prints it.
use serena_workspace_orchest.Prelude.{
  ℕ, Option, none, some, List, [], ◌∷◌, ◌++◌, String, if◌then◌else◌, not,
}
use serena_workspace_orchest.Prelude.Int.{ℤ, pos, int_eq}
use serena_workspace_orchest.Prelude.Results.{Result, ok, err, ◌>>=◌, or_raise}
use serena_workspace_orchest.Prelude.Strings.{codes, strip, split_lines, split_words}

-- What ends a call: a `CoordinationError` with its phase and message, or another exception, by
-- the name of its class.
pub data Failure : Type 0 where
  coordination : String → String → Failure
  uncaught : String → Failure

-- The result of one `subprocess.run`: it raised `OSError` or `TimeoutExpired`, or it completed.
pub data PsRun : Type 0 where
  unavailable : PsRun
  completed : ℤ → String → PsRun

-- The start time and the command of a process.
abbrev pub Details : Type 0
Details = List ℕ × List ℕ

-- `[line.strip() for line in lines if line.strip()]`
unfoldable pub stripped : List (List ℕ) → List (List ℕ)
unfolding strip
stripped [] = []
stripped (l ∷ ls) = elim (strip l) [ [] ↦ stripped ls | c ∷ cs ↦ (c ∷ cs) ∷ stripped ls ]

-- `" ".join(fields[:5]), fields[5]`
unfoldable pub start_and_command : List (List ℕ) → Option Details
start_and_command (a ∷ b ∷ c ∷ d ∷ e ∷ command ∷ rest) =
    some (a ++ (0x20 ∷ (b ++ (0x20 ∷ (c ++ (0x20 ∷ (d ++ (0x20 ∷ e))))))), command)
start_and_command _ = none

unfoldable pub first_row : List (List ℕ) → Result Failure (Option Details)
unfolding start_and_command split_words
first_row [] = ok none
first_row (line ∷ lines) = do
  details ←
      or_raise (start_and_command (split_words 5 line))
        (coordination "owner-identity" "process identity was malformed")
  ok (some details)

-- `_process_details`, from the run of `ps` for the process
unfoldable pub process_details : PsRun → Result Failure (Option Details)
unfolding first_row stripped split_lines
process_details unavailable = err (coordination "owner-identity" "process identity probe failed")
process_details (completed returncode stdout) =
    if not (int_eq returncode (pos 0))
    then ok none
    else first_row (stripped (split_lines (codes stdout)))

unfoldable pub read_process_start : PsRun → Result Failure (List ℕ)
unfolding process_details
read_process_start run = do
  details ← process_details run
  found ← or_raise details (coordination "owner-identity" "process identity unavailable")
  ok found.0
