-- ===== src/Bootstrap/Runs/Outcome.antt =====
-- The outcomes of `run_bootstrap` (bin/workspace_harbor_bootstrap.py).
use serena_workspace_orchest.Prelude.{
  ◌≡◌, refl, subst, ap, ap, subst, ◌⊎◌, inl, inr, true, some, List, String, Bool-cases,
  Option-cases,
}
use serena_workspace_orchest.Prelude.Results.{Result, ok, Result-cases}
use serena_workspace_orchest.Bootstrap.Decisions.{missing}
use serena_workspace_orchest.Bootstrap.Plans.Paths.{FilePath}
use serena_workspace_orchest.Bootstrap.Plans.Data.{Host, Raised}
use serena_workspace_orchest.Bootstrap.Plans.Planning.{Planned, plan_repository}
use serena_workspace_orchest.Bootstrap.Runs.Status.{
  Report, World, are_markers_ready, write_success, bootstrap_status,
}
use serena_workspace_orchest.Bootstrap.Runs.Tools.{sort_plans}
use serena_workspace_orchest.Bootstrap.Runs.Run.{
  executed_report, is_unchanged, write_result, check_result,
}
use serena_workspace_orchest.Bootstrap.Runs.Commands.{Machine, all_ran, run_plans, with_success}
use serena_workspace_orchest.Bootstrap.Runs.Kept.{command_ids}

-- What was found before a success file is written: all plans ran in the order of their ids, the
-- plans of the files that they left have the fingerprint from before, and the markers are there.
pub record IsPrepared (host : Host) (machine : Machine) (root : FilePath) (world : World)
    (result : Result Raised Report × World) : Type 0 where
  pub status : Report
  pub fingerprint : String
  pub plan_ids : List String
  pub left : World
  pub planned : Planned
  pub was_pending : bootstrap_status host world root ≡ ok status
  pub has_fingerprint : status.fingerprint ≡ some fingerprint
  pub all_succeeded :
      run_plans host machine (sort_plans status.plans) (with_success world missing)
      ≡ (ok (all_ran plan_ids), left)
  pub ran_in_order : plan_ids ≡ command_ids (sort_plans status.plans)
  pub is_planned : plan_repository host left.files root ≡ ok planned
  pub is_same : is_unchanged host left root fingerprint planned ≡ true
  pub has_markers : are_markers_ready left.files status.plans ≡ true
  pub is_result :
      result ≡ (ok (executed_report status plan_ids), with_success left (write_success fingerprint))

-- A run from a world: the world is as before, or as the other runs left it, or there is no success
-- file, or the worktree is prepared.
pub data Outcome (host : Host) (machine : Machine) (root : FilePath) (world : World)
    (result : Result Raised Report × World) : Type 0 where
  untouched : result.1 ≡ world → Outcome host machine root world result
  waited : result.1 ≡ machine.others world → Outcome host machine root world result
  unprepared : result.1.success ≡ missing → Outcome host machine root world result
  prepared :
      IsPrepared host machine root (machine.others world) result
      → Outcome host machine root world result

-- What a check of the files that are left finds, if it writes the success file.
pub record IsPassed (host : Host) (machine : Machine) (root : FilePath) (fingerprint : String)
    (status : Report) (plan_ids : List String) (left : World)
    (result : Result Raised Report × World) : Type 0 where
  pub planned : Planned
  pub is_planned : plan_repository host left.files root ≡ ok planned
  pub is_same : is_unchanged host left root fingerprint planned ≡ true
  pub has_markers : are_markers_ready left.files status.plans ≡ true
  pub is_result :
      result ≡ (ok (executed_report status plan_ids), with_success left (write_success fingerprint))

pub checked :
    (host : Host) (machine : Machine) (root : FilePath) (fingerprint : String) (status : Report)
    (plan_ids : List String) (left : World)
    → ((check_result host machine root fingerprint status plan_ids left).1 ≡ left)
      ⊎ IsPassed host machine root fingerprint status plan_ids left
          (check_result host machine root fingerprint status plan_ids left)
unfolding check_result write_result
checked host machine root fingerprint status plan_ids left =
    elim (Result-cases (plan_repository host left.files root)) [
      | inr (failure, e) ↦ inl (rw (check_result, e) refl)
      | inl (planned, e) ↦ elim (Bool-cases (is_unchanged host left root fingerprint planned)) [
        | inr f ↦ inl (rw (check_result, e, f) refl)
        | inl f ↦ elim (Bool-cases (are_markers_ready left.files status.plans)) [
          | inr g ↦ inl (rw (check_result, e, f, g) refl)
          | inl g ↦ elim (Option-cases machine.write_fault) [
            | inr (permission, h) ↦ inl (rw (check_result, e, f, g, write_result, h) refl)
            | inl h ↦ inr (record {
              planned = planned;
              is_planned = e;
              is_same = f;
              has_markers = g;
              is_result = rw (check_result, e, f, g, write_result, h) refl;
            })
          ]
        ]
      ]
    ]

-- The outcomes of the part that holds the lock.
Locked : Host → Machine → FilePath → World → Result Raised Report × World → Type 0
Locked host machine root world result =
    (result.1 ≡ world) ⊎ (result.1.success ≡ missing) ⊎ IsPrepared host machine root world result
