-- ===== src/Bootstrap/Runs/Commands.antt =====
-- bin/workspace_harbor_bootstrap.py: `_timeout_seconds`, `_execute` and the loop over the plans. What a
-- command does to the files is a parameter, and so is what other runs do while this one waits for the
-- worktree's lock.
use serena_workspace_orchest.Prelude.{
  ℕ, zero, suc, Bool, Option, none, some, List, [], ◌∷◌, ◌++◌, String, if◌then◌else◌,
}
use serena_workspace_orchest.Prelude.Int.{ℤ, pos, negsuc, int_eq}
use serena_workspace_orchest.Prelude.Results.{Result, ok, err}
use serena_workspace_orchest.Bootstrap.Decisions.{Stored}
use serena_workspace_orchest.Bootstrap.Plans.Paths.{FilePath}
use serena_workspace_orchest.Bootstrap.Plans.Data.{Plan, Files, Host, Raised, value_error}
use serena_workspace_orchest.Bootstrap.Runs.Status.{Kind, process_error, command_failed, World}
use serena_workspace_orchest.Bootstrap.Runs.Tools.{tool_identity}

-- How the run of a command ends.
pub data Completion : Type 0 where
  returned : ℤ → Completion
  timed_out cannot_run : Completion

-- The commands, the other runs, and the faults of the locking, the removal and the writing: an
-- `OSError` that may be a permission error.
pub record Machine : Type 0 where
  pub command : FilePath → List String → FilePath → Files → Completion × Files
  pub others : World → World
  pub lock_fault : Option Bool
  pub remove_fault : Option Bool
  pub write_fault : Option Bool

-- `_timeout_seconds`, of the value of the variable as a number
unfoldable pub timeout_seconds : Option ℤ → Result Raised ℕ
timeout_seconds none = err value_error
timeout_seconds (some (negsuc n)) = err value_error
timeout_seconds (some (pos zero)) = err value_error
timeout_seconds (some (pos (suc n))) = ok (suc n)

pub data Execution : Type 0 where
  succeeded : Execution
  stopped : ℤ → Kind → Execution

unfoldable pub execution_of : Completion → Execution
execution_of timed_out = stopped (pos 124) process_error
execution_of cannot_run = stopped (pos 127) process_error
execution_of (returned code) =
    if int_eq code (pos 0) then succeeded else stopped code command_failed

abbrev with_started : World → Files → FilePath × List String × FilePath → World
with_started world files start = record {
  files = files;
  success = world.success;
  decisions = world.decisions;
  started = world.started ++ start ∷ [];
}

abbrev pub with_success : World → Stored → World
with_success world success = record {
  files = world.files;
  success = success;
  decisions = world.decisions;
  started = world.started;
}

-- The command of a program that was found.
unfoldable pub start_command :
    Machine → FilePath → List String → FilePath → World → Execution × World
unfolding execution_of
start_command machine program arguments cwd world =
    let (completion, files) = machine.command program arguments cwd world.files in
    (execution_of completion, with_started world files (program, arguments, cwd))

-- `_execute`
unfoldable pub execute : Host → Machine → Plan → World → Result Raised Execution × World
unfolding tool_identity timeout_seconds start_command
execute host machine plan world = elim plan.argv [
  | [] ↦ (ok succeeded, world)
  | name ∷ arguments ↦ elim (tool_identity host world.files name plan.cwd).0 [
    | none ↦ (ok (stopped (pos 127) process_error), world)
    | some program ↦ elim (timeout_seconds host.timeout) [
      | err e ↦ (err e, world)
      | ok seconds ↦
          let (execution, after) = start_command machine program arguments plan.cwd world in
          (ok execution, after)
    ]
  ]
]

-- How the loop over the plans ends: all ran, or one did not succeed.
pub data Ran : Type 0 where
  all_ran : List String → Ran
  stopped_at : String → ℤ → Kind → Ran

unfoldable pub after_plan : String → Result Raised Ran → Result Raised Ran
after_plan plan_id (ok (all_ran plan_ids)) = ok (all_ran (plan_id ∷ plan_ids))
after_plan plan_id r = r

-- The loop of `run_bootstrap`, over sorted plans
unfoldable pub run_plans : Host → Machine → List Plan → World → Result Raised Ran × World
unfolding execute after_plan
run_plans host machine [] world = (ok (all_ran []), world)
run_plans host machine (plan ∷ plans) world = elim plan.argv [
  | [] ↦ run_plans host machine plans world
  | _ ∷ _ ↦
      let (r, after) = execute host machine plan world in
      elim r [
        | err e ↦ (err e, after)
        | ok (stopped code kind) ↦ (ok (stopped_at plan.plan_id code kind), after)
        | ok succeeded ↦
            let (ran, last) = run_plans host machine plans after in
            (after_plan plan.plan_id ran, last)
      ]
]
