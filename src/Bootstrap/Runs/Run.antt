-- ===== src/Bootstrap/Runs/Run.antt =====
-- bin/workspace_harbor_bootstrap.py: `_execute`, `run_bootstrap`, `_exit_status` and `main`. What a
-- command does to the files is a parameter, and so is what other runs do while this one waits for the
-- worktree's lock.
use serena_workspace_orchest.Prelude.{
  Bool, true, false, not, ◌&&◌, Option, none, some, List, [], String, if◌then◌else◌,
}
use serena_workspace_orchest.Prelude.Strings.{str_eq}
use serena_workspace_orchest.Prelude.Int.{ℤ}
use serena_workspace_orchest.Prelude.Results.{Result, ok, err}
use serena_workspace_orchest.Bootstrap.Decisions.{missing}
use serena_workspace_orchest.Bootstrap.Plans.Paths.{FilePath}
use serena_workspace_orchest.Bootstrap.Plans.Data.{
  Host, Raised, value_error, type_error, subprocess_error, os_error,
}
use serena_workspace_orchest.Bootstrap.Plans.Planning.{
  Status, ready, not_needed, disabled, needs_decision, failed, invalid, Planned, plan_repository,
}
use serena_workspace_orchest.Bootstrap.Runs.Status.{
  miss, executed, Kind, invalid_plan, process_error, inputs_changed, missing_marker,
  permission_denied, io_error, Failure, Report, World, are_markers_ready, write_success,
  bootstrap_status, is_ready,
}
use serena_workspace_orchest.Bootstrap.Runs.Tools.{sort_plans, bootstrap_fingerprint}
use serena_workspace_orchest.Bootstrap.Runs.Commands.{
  Machine, all_ran, stopped_at, run_plans, with_success,
}

-- `_failure_result`
unfoldable pub failure_result : Report → Kind → Option (String × ℤ) → Report
failure_result status kind stop = record {
  status = failed;
  plans = status.plans;
  decisions = status.decisions;
  fingerprint = status.fingerprint;
  cache = some miss;
  failure = some (failure_of stop);
  executed_plans = none;
}
  where
    failure_of : Option (String × ℤ) → Failure
    failure_of none = record { kind = kind; failed_plan = none; exit_code = none }
    failure_of (some (plan_id, code)) = record {
      kind = kind;
      failed_plan = some plan_id;
      exit_code = some code;
    }

abbrev pub blank : Report
blank = record {
  status = invalid;
  plans = [];
  decisions = [];
  fingerprint = none;
  cache = none;
  failure = none;
  executed_plans = none;
}

-- The handlers of an exception: `_operational_failure`, on the status so far
unfoldable pub handled : Report → Raised → Result Raised Report
unfolding failure_result
handled status value_error = err value_error
handled status type_error = err type_error
handled status subprocess_error = ok (failure_result status process_error none)
handled status (os_error permission) =
    ok (failure_result status (if permission then permission_denied else io_error) none)

abbrev pub recover : Report → Result Raised Report → Result Raised Report
recover status (ok report) = ok report
recover status (err e) = handled status e

-- A status with which a run ends before it starts a command.
unfoldable pub is_settled : Bool → Status → Bool
is_settled force disabled = true
is_settled force not_needed = true
is_settled force needs_decision = true
is_settled force ready = not force
is_settled force _ = false

abbrev pub executed_report : Report → List String → Report
executed_report status plan_ids = record {
  status = ready;
  plans = status.plans;
  decisions = status.decisions;
  fingerprint = status.fingerprint;
  cache = some executed;
  failure = status.failure;
  executed_plans = some plan_ids;
}

-- The plans of now are ready and have the fingerprint.
unfoldable pub is_unchanged : Host → World → FilePath → String → Planned → Bool
unfolding bootstrap_fingerprint
is_unchanged host world root fingerprint planned =
    is_ready planned.status
    && str_eq (bootstrap_fingerprint host world.files root planned.plans) fingerprint

-- What follows the loop, on the files that it left, with the plans of these files.
unfoldable pub write_result :
    Machine → String → Report → List String → World → Result Raised Report × World
unfolding write_success
write_result machine fingerprint status plan_ids world = elim machine.write_fault [
  | some permission ↦ (err (os_error permission), world)
  | none ↦ (ok (executed_report status plan_ids), with_success world (write_success fingerprint))
]

unfoldable pub check_result :
    Host → Machine → FilePath → String → Report → List String → World → Result Raised Report × World
unfolding plan_repository is_unchanged failure_result are_markers_ready write_result
check_result host machine root fingerprint status plan_ids world =
    elim (plan_repository host world.files root) [
      | err e ↦ (err e, world)
      | ok planned ↦
          if not (is_unchanged host world root fingerprint planned)
          then (ok (failure_result status inputs_changed none), world)
          else if not (are_markers_ready world.files status.plans)
          then (ok (failure_result status missing_marker none), world)
          else write_result machine fingerprint status plan_ids world
    ]

-- The part of a run that follows the removal of the success file.
unfoldable pub run_removed :
    Host → Machine → FilePath → String → Report → World → Result Raised Report × World
unfolding run_plans sort_plans failure_result check_result
run_removed host machine root fingerprint status world =
    let (r, after) = run_plans host machine (sort_plans status.plans) world in
    elim r [
      | err e ↦ (err e, after)
      | ok (stopped_at plan_id code kind) ↦
          (ok (failure_result status kind (some (plan_id, code))), after)
      | ok (all_ran plan_ids) ↦ check_result host machine root fingerprint status plan_ids after
    ]

-- The part of a run that starts commands, with the status's fingerprint and the removal's fault.
unfoldable pub run_with :
    Host
    → Machine
    → FilePath
    → Report
    → World
    → Option String
    → Option Bool
    → Result Raised Report × World
unfolding run_removed failure_result
run_with host machine root status world none fault =
    (ok (failure_result status invalid_plan none), world)
run_with host machine root status world (some fingerprint) (some permission) =
    (err (os_error permission), world)
run_with host machine root status world (some fingerprint) none =
    run_removed host machine root fingerprint status (with_success world missing)

-- The part of a run that starts commands, with a status that is not settled.
unfoldable pub run_pending :
    Host → Machine → FilePath → Report → World → Result Raised Report × World
unfolding run_with
run_pending host machine root status world =
    run_with host machine root status world status.fingerprint machine.remove_fault

abbrev pub recovered : Report → Result Raised Report × World → Result Raised Report × World
recovered status (r, world) = (recover status r, world)

-- The part of a run that holds the lock; an exception of it is handled with the status so far.
unfoldable pub run_locked :
    Host → Machine → FilePath → Bool → Report → World → Result Raised Report × World
unfolding bootstrap_status is_settled run_pending handled
run_locked host machine root force earlier world = elim (bootstrap_status host world root) [
  | err e ↦ (handled earlier e, world)
  | ok status ↦
      if is_settled force status.status
      then (ok status, world)
      else recovered status (run_pending host machine root status world)
]

-- `run_bootstrap`
unfoldable pub run_bootstrap :
    Host → Machine → FilePath → Bool → World → Result Raised Report × World
unfolding bootstrap_status is_settled run_locked handled
run_bootstrap host machine root force world = elim (bootstrap_status host world root) [
  | err e ↦ (handled blank e, world)
  | ok status ↦
      if is_settled force status.status then (ok status, world) else elim machine.lock_fault [
        | some permission ↦ (handled status (os_error permission), world)
        | none ↦ run_locked host machine root force status (machine.others world)
      ]
]
