-- ===== src/Bootstrap/Runs/Main.antt =====
-- bin/workspace_harbor_bootstrap.py: `_exit_status` and `main`.
use serena_workspace_orchest.Prelude.{
  ℕ, Bool, true, false, ◌&&◌, Option, none, some, List, [], ◌∷◌, String, if◌then◌else◌,
}
use serena_workspace_orchest.Prelude.Strings.{codes, str_eq}
use serena_workspace_orchest.Prelude.Results.{Result, ok, err}
use serena_workspace_orchest.Bootstrap.Decisions.{Stored, is_allowed, record_decision}
use serena_workspace_orchest.Bootstrap.Plans.Paths.{FilePath}
use serena_workspace_orchest.Bootstrap.Plans.Sources.{repository_at}
use serena_workspace_orchest.Bootstrap.Plans.Data.{
  Host, Raised, value_error, type_error, subprocess_error, os_error,
}
use serena_workspace_orchest.Bootstrap.Plans.Planning.{
  Status, ready, pending, not_needed, disabled, needs_decision, failed, invalid,
}
use serena_workspace_orchest.Bootstrap.Runs.Status.{Report, World, bootstrap_status}
use serena_workspace_orchest.Bootstrap.Runs.Approved.{current_digest}
use serena_workspace_orchest.Bootstrap.Runs.Commands.{Machine}
use serena_workspace_orchest.Bootstrap.Runs.Run.{run_bootstrap}
use serena_workspace_orchest.Bootstrap.Runs.Commands.{Machine}

-- `_exit_status`
unfoldable pub exit_status : Status → ℕ
exit_status ready = 0
exit_status pending = 0
exit_status not_needed = 0
exit_status disabled = 0
exit_status failed = 1
exit_status needs_decision = 3
exit_status invalid = 2

-- The commands of the command line, with their arguments.
pub data Command : Type 0 where
  show_status : Command
  run : Bool → Command
  decide : String → List String → Command

-- The subject and the decision that the arguments of `decide` give.
unfoldable pub decision_arguments : String → List String → Option (String × String)
decision_arguments category (subject ∷ decision ∷ []) =
    if str_eq category "language" then some (subject, decision) else none
decision_arguments category (decision ∷ []) =
    if str_eq category "tracking"
    then some ("serena-files", decision)
    else if str_eq category "command"
    then some ("current", decision)
    else none
decision_arguments category _ = none

abbrev pub with_decisions : World → Stored → World
with_decisions world decisions = record {
  files = world.files;
  success = world.success;
  decisions = decisions;
  started = world.started;
}

abbrev pub recorded_in : World → Result String Stored → Result Raised Status × World
recorded_in world (err message) = (err value_error, world)
recorded_in world (ok decisions) = (ok ready, with_decisions world decisions)

-- `record_decision` at a root, with the digest of the current command
abbrev pub decide_with :
    World
    → FilePath
    → (category : String) (subject : String) (decision : String) → Result Raised (Option String)
    → Result Raised Status × World
decide_with world root category subject decision (err e) = (err e, world)
decide_with world root category subject decision (ok digest) = recorded_in world (
    record_decision (repository_at world.files root digest) category subject decision
      world.decisions)

-- The digest is computed for an allowed decision on a command only.
abbrev digest_for : Host → World → FilePath → Bool → Result Raised (Option String)
digest_for host world root true = current_digest host world.files root
digest_for host world root false = ok none

-- The `decide` of `main`
unfoldable pub decide_at :
    Host → World → FilePath → String → List String → Result Raised Status × World
unfolding decision_arguments is_allowed
decide_at host world root category values = elim (decision_arguments category values) [
  | none ↦ (err value_error, world)
  | some (subject, decision) ↦ decide_with world root category subject decision (
      digest_for host world root
        (str_eq category "command" && is_allowed (codes category) decision))
]

-- The status that `main` prints; a `TypeError` ends the program with its traceback, which is `none`.
unfoldable pub printed : Result Raised Status → Option Status
printed (ok status) = some status
printed (err value_error) = some invalid
printed (err type_error) = none
printed (err subprocess_error) = some failed
printed (err (os_error permission)) = some failed

abbrev pub status_of : Result Raised Report → Result Raised Status
status_of (ok report) = ok report.status
status_of (err e) = err e

-- `main`, at a root that is a directory: the status that it prints, and what it leaves
unfoldable pub main_at : Host → Machine → FilePath → Command → World → Option Status × World
unfolding bootstrap_status run_bootstrap decide_at printed
main_at host machine root show_status world =
    (printed (status_of (bootstrap_status host world root)), world)
main_at host machine root (run force) world =
    let (r, after) = run_bootstrap host machine root force world in (printed (status_of r), after)
main_at host machine root (decide category values) world =
    let (r, after) = decide_at host world root category values in (printed r, after)

-- `main`: the exit status, which is 1 after a traceback; the root is `none` if `resolve_root` fails.
unfoldable pub main : Host → Machine → Option FilePath → Command → World → ℕ × World
unfolding main_at exit_status
main host machine none command world = (exit_status invalid, world)
main host machine (some root) command world =
    let (status, after) = main_at host machine root command world in (code_of status, after)
  where
    code_of : Option Status → ℕ
    code_of none = 1
    code_of (some status) = exit_status status
