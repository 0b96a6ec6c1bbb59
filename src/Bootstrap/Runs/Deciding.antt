-- ===== src/Bootstrap/Runs/Deciding.antt =====
-- What a decision on the custom command does to the runs (bin/workspace_harbor_bootstrap.py).
use serena_workspace_orchest.Prelude.{
  ◌∙◌, ◌≡◌, refl, sym, ap, subst, inl, inr, true, false, Option, some, List, [], ◌∷◌, String,
  Bool-cases,
}
use serena_workspace_orchest.Prelude.Strings.{is_empty, str_eq, eq_refl}
use serena_workspace_orchest.Prelude.Results.{Result, ok, err}
use serena_workspace_orchest.Json.{Fields, get}
use serena_workspace_orchest.Bootstrap.Decisions.{
  Stored, read_state, decision_subject, decision_key, entry, record_decision,
}
use serena_workspace_orchest.Bootstrap.Recorded.{record_decision-IsRecorded}
use serena_workspace_orchest.Bootstrap.Plans.Paths.{FilePath}
use serena_workspace_orchest.Bootstrap.Plans.Sources.{repository_at}
use serena_workspace_orchest.Bootstrap.Plans.Data.{Plan, Host, Raised, Files, value_error}
use serena_workspace_orchest.Bootstrap.Plans.Planning.{Status, ready, Planned, plan_repository}
use serena_workspace_orchest.Bootstrap.Runs.Status.{
  World, are_approved_in, bootstrap_status, status_of_planned, approved_status, is_ready,
}
use serena_workspace_orchest.Bootstrap.Runs.Approved.{
  current_digest, are_approved, is_plan_approved, is_approved, is_item_approved,
}
use serena_workspace_orchest.Bootstrap.Runs.Main.{decide_at, decide_with, recorded_in}

-- A recorded approval of a digest approves all plans.
approval_approves :
    (files : Files) (root : FilePath) (stored : Stored) (decisions : Fields)
    (digest : Option String) (evidence : String) (plans : List Plan)
    → read_state stored ≡ ok decisions
    → get (decision_key "command" "current") decisions ≡ some (entry "approve" evidence)
    → decision_subject (repository_at files root digest) "command" "current" ≡ ok evidence
    → are_approved files root (ok digest) stored plans ≡ ok true
unfolding are_approved is_plan_approved is_approved is_item_approved
approval_approves files root stored decisions digest evidence [] r g d = refl
approval_approves files root stored decisions digest evidence (plan ∷ plans) r g d =
    let rest = approval_approves files root stored decisions digest evidence plans r g d in
    elim (Bool-cases (str_eq plan.source "command")) [
      | inr e ↦ rw (are_approved, is_plan_approved, e) rest
      | inl e ↦
          rw
            (
              are_approved,
              is_plan_approved,
              e,
              r,
              is_approved,
              g,
              is_item_approved,
              d,
              eq_refl evidence,
            )
            rest
    ]

approved_with :
    (world after : World) (root : FilePath) (r : Result Raised (Option String)) (plans : List Plan)
    → ((s : String) → r ≡ ok (some s) → is_empty s ≡ false)
    → decide_with world root "command" "current" "approve" r ≡ (ok ready, after)
    → (after.files ≡ world.files)
      × (are_approved world.files root r after.decisions plans ≡ ok true)
unfolding repository_at
approved_with world after root (err e) plans filled h = absurd (no_value (ap (λ x. x.0) h))
  where
    no_value : ◌≡◌ {A = Result Raised Status} (err e) (ok ready) → ⊥
    no_value h = cc
approved_with world after root (ok digest) plans filled h =
    of_recorded
      (record_decision (repository_at world.files root digest) "command" "current" "approve"
        world.decisions)
      refl h
  where
    of_recorded :
        (r : Result String Stored)
        → record_decision
            (repository_at world.files root digest)
            "command"
            "current"
            "approve"
            world.decisions
          ≡ r
        → recorded_in world r ≡ (ok ready, after)
        → (after.files ≡ world.files)
          × (are_approved world.files root (ok digest) after.decisions plans ≡ ok true)
    of_recorded (err message) e h = absurd (no_value (ap (λ x. x.0) h))
      where
        no_value : ◌≡◌ {A = Result Raised Status} (err value_error) (ok ready) → ⊥
        no_value h = cc
    of_recorded (ok stored) e h =
        let (before, later, was, now, recorded) =
          record_decision-IsRecorded (repository_at world.files root digest) "command" "current"
            "approve" world.decisions stored (λ s same. filled s (ap ok same)) e in
        let key = decision_key "command" "current" in
        let found : get key later ≡ some (entry "approve" recorded.evidence) =
          recorded.lookups key ∙ rw (eq_refl key) refl in
        (
          sym (ap (λ (x : Result Raised Status × World). x.1.files) h),
          subst (λ x. are_approved world.files root (ok digest) x plans ≡ ok true)
              (ap (λ (x : Result Raised Status × World). x.1.decisions) h)
              (approval_approves world.files root stored later digest recorded.evidence plans now
                found recorded.is_evidence),
        )

decided_are_approved :
    (host : Host) (world after : World) (root : FilePath) (plans : List Plan)
    → ((s : String) → current_digest host world.files root ≡ ok (some s) → is_empty s ≡ false)
    → decide_at host world root "command" ("approve" ∷ []) ≡ (ok ready, after)
    → (after.files ≡ world.files) × (are_approved_in host after root plans ≡ ok true)
unfolding decide_at are_approved_in
decided_are_approved host world after root plans filled h =
    let digest = current_digest host world.files root in
    let (files, approved) = approved_with world after root digest plans filled h in
    (
      files,
      subst (λ f. are_approved f root (current_digest host f root) after.decisions plans ≡ ok true)
          (sym files) approved,
    )

-- After `decide ROOT command approve` succeeds, the plans that are ready do not wait for a decision
-- on the custom command: their status is that of approved plans. The digest of a command is not
-- empty.
pub decide_at-bootstrap_status :
    (host : Host) (world after : World) (root : FilePath) (planned : Planned)
    → ((s : String) → current_digest host world.files root ≡ ok (some s) → is_empty s ≡ false)
    → plan_repository host world.files root ≡ ok planned
    → is_ready planned.status ≡ true
    → decide_at host world root "command" ("approve" ∷ []) ≡ (ok ready, after)
    → bootstrap_status host after root ≡ approved_status host after root planned
unfolding bootstrap_status status_of_planned
decide_at-bootstrap_status host world after root planned filled e is_planned_ready h =
    let (files, approved) = decided_are_approved host world after root planned.plans filled h in
    let plan : plan_repository host after.files root ≡ ok planned =
      subst (λ f. plan_repository host f root ≡ ok planned) (sym files) e in
    rw (plan, is_planned_ready, approved) refl
