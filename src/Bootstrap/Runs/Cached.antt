-- ===== src/Bootstrap/Runs/Cached.antt =====
-- What a prepared worktree is to the next runs (bin/workspace_harbor_bootstrap.py).
use serena_workspace_orchest.Prelude.{
  ◌∙◌, ◌≡◌, refl, sym, ap, subst, inl, inr, Bool, true, false, ◌&&◌, Option, none, some, List, [],
  ◌∷◌, String, arith, Bool-cases,
}
use serena_workspace_orchest.Prelude.Strings.{eq_iff, eq_refl}
use serena_workspace_orchest.Prelude.Results.{Result, ok, ok-injective, ok_of_bind}
use serena_workspace_orchest.Bootstrap.Decisions.{Stored, missing, decision_subject}
use serena_workspace_orchest.Bootstrap.Plans.Paths.{FilePath}
use serena_workspace_orchest.Bootstrap.Plans.Sources.{repository_at}
use serena_workspace_orchest.Bootstrap.Plans.Data.{Plan, Files, Host, Raised}
use serena_workspace_orchest.Bootstrap.Plans.Planning.{Status, Planned, plan_repository}
use serena_workspace_orchest.Bootstrap.Runs.Status.{
  Report, World, are_markers_ready, are_tools_ready, write_success, read_success, bootstrap_status,
  is_ready, are_approved_in, approved_status, prepared_status, holds_fingerprint, report_of,
  unapproved, status_of_planned,
}
use serena_workspace_orchest.Bootstrap.Runs.Approved.{
  are_approved, is_plan_approved, and_then, is_approved, current_digest,
}
use serena_workspace_orchest.Bootstrap.Runs.Tools.{sort_plans, bootstrap_fingerprint}
use serena_workspace_orchest.Bootstrap.Runs.Run.{is_unchanged, run_bootstrap, is_settled}
use serena_workspace_orchest.Bootstrap.Runs.Commands.{Machine, Ran, with_success}
use serena_workspace_orchest.Bootstrap.Runs.Outcome.{IsPrepared}
use serena_workspace_orchest.Bootstrap.Runs.Kept.{Keeps, run_plans-Keeps}

-- A status with a fingerprint is one of approved plans.
pub record IsApproved (host : Host) (world : World) (root : FilePath) (status : Report)
    (fingerprint : String) : Type 0 where
  pub planned : Planned
  pub is_planned : plan_repository host world.files root ≡ ok planned
  pub is_planned_ready : is_ready planned.status ≡ true
  pub approved : are_approved_in host world root planned.plans ≡ ok true
  pub same_plans : status.plans ≡ planned.plans
  pub is_fingerprint : fingerprint ≡ bootstrap_fingerprint host world.files root planned.plans

of_approved :
    (host : Host) (world : World) (root : FilePath) (planned : Planned) (status : Report)
    (fingerprint : String)
    → approved_status host world root planned ≡ ok status
    → status.fingerprint ≡ some fingerprint
    → (status.plans ≡ planned.plans)
      × (fingerprint ≡ bootstrap_fingerprint host world.files root planned.plans)
unfolding approved_status prepared_status
of_approved host world root planned status fingerprint h has =
    let (recorded, e, rest) = ok_of_bind (read_success world.success) _ h in
    let same = ok-injective rest in
    (
      sym (ap (λ (r : Report). r.plans) same),
      some_injective (sym has ∙ sym (ap (λ (r : Report). r.fingerprint) same)),
    )
  where
    some_injective : {x y : String} → some x ≡ some y → x ≡ y
    some_injective {x} {y} h = cc

pub bootstrap_status-IsApproved :
    (host : Host) (world : World) (root : FilePath) (status : Report) (fingerprint : String)
    → bootstrap_status host world root ≡ ok status
    → status.fingerprint ≡ some fingerprint
    → IsApproved host world root status fingerprint
unfolding bootstrap_status status_of_planned
bootstrap_status-IsApproved host world root status fingerprint h has =
    let (planned, e, rest) = ok_of_bind (plan_repository host world.files root) _ h in
    elim (Bool-cases (is_ready planned.status)) [
      | inr f ↦ absurd (no_fingerprint (report_of planned) (ok-injective (rw (f) at rest)) refl)
      | inl f ↦
          let (approved, g, last) =
            ok_of_bind (are_approved_in host world root planned.plans) _ (rw (f) at rest) in
          elim (Bool-cases approved) [
            | inr is_not ↦
                absurd
                  (no_fingerprint (unapproved planned) (ok-injective (rw (is_not) at last)) refl)
            | inl is ↦
                let (plans, found) =
                  of_approved host world root planned status fingerprint (rw (is) at last) has in
                record {
                  planned = planned;
                  is_planned = e;
                  is_planned_ready = f;
                  approved = g ∙ ap ok is;
                  same_plans = plans;
                  is_fingerprint = found;
                }
          ]
    ]
  where
    no_fingerprint : (report : Report) → report ≡ status → report.fingerprint ≡ none → ⊥
    no_fingerprint report same is_none =
        cc (sym has ∙ sym (ap (λ (r : Report). r.fingerprint) same) ∙ is_none)

-- An approval depends on the digest and on the decisions.
are_approved-same :
    (files later : Files) (root : FilePath) (digest : Result Raised (Option String))
    (stored : Stored) (plans : List Plan)
    → are_approved later root digest stored plans ≡ are_approved files root digest stored plans
unfolding are_approved is_plan_approved is_approved decision_subject repository_at
are_approved-same files later root digest stored [] = refl
are_approved-same files later root digest stored (plan ∷ plans) =
    ap (and_then (is_plan_approved files root digest stored plan))
      (are_approved-same files later root digest stored plans)

are_approved_in-same :
    (host : Host) (world later : World) (root : FilePath) (plans : List Plan)
    → later.decisions ≡ world.decisions
    → plan_repository host later.files root ≡ plan_repository host world.files root
    → are_approved_in host later root plans ≡ are_approved_in host world root plans
unfolding are_approved_in current_digest
are_approved_in-same host world later root plans d h =
    rw (are_approved_in, d, current_digest, h)
      (are_approved-same world.files later.files root _ world.decisions plans)

approved_with_success :
    (host : Host) (world : World) (root : FilePath) (success : Stored) (plans : List Plan)
    → are_approved_in host (with_success world success) root plans
      ≡ are_approved_in host world root plans
unfolding are_approved_in
approved_with_success host world root success plans = refl

-- The checks of a status, passed.
checks_passed :
    (found fingerprint : String) (markers tools : Bool)
    → found ≡ fingerprint
    → markers ≡ true
    → tools ≡ true
    → holds_fingerprint (some fingerprint) found && markers && tools ≡ true
checks_passed found fingerprint markers tools same m t = rw (same, eq_refl fingerprint, m, t) refl

approved_status_of_recorded :
    (host : Host) (world : World) (root : FilePath) (planned : Planned) (fingerprint : String)
    → bootstrap_fingerprint host world.files root planned.plans ≡ fingerprint
    → are_markers_ready world.files planned.plans ≡ true
    → are_tools_ready host world.files planned.plans ≡ true
    → approved_status host (with_success world (write_success fingerprint)) root planned
      ≡ ok (prepared_status true fingerprint planned)
unfolding approved_status read_success write_success
approved_status_of_recorded host world root planned fingerprint found markers tools =
    let passed = checks_passed _ fingerprint _ _ found markers tools in rw (passed, found) refl

-- The status of plans that are ready and approved, with their success file.
status_of_recorded :
    (host : Host) (world : World) (root : FilePath) (planned : Planned) (fingerprint : String)
    → plan_repository host world.files root ≡ ok planned
    → are_approved_in host world root planned.plans ≡ ok true
    → is_unchanged host world root fingerprint planned ≡ true
    → are_markers_ready world.files planned.plans ≡ true
    → are_tools_ready host world.files planned.plans ≡ true
    → bootstrap_status host (with_success world (write_success fingerprint)) root
      ≡ ok (prepared_status true fingerprint planned)
unfolding bootstrap_status status_of_planned is_unchanged
status_of_recorded host world root planned fingerprint e approved same markers tools =
    let is_planned_ready : is_ready planned.status ≡ true = ground arith in
    let found : bootstrap_fingerprint host world.files root planned.plans ≡ fingerprint =
      ground
        (arith, eq_iff (bootstrap_fingerprint host world.files root planned.plans) fingerprint) in
    rw
      (
        e,
        is_planned_ready,
        approved_with_success host world root (write_success fingerprint) planned.plans ∙ approved,
      )
      (approved_status_of_recorded host world root planned fingerprint found markers tools)

run_of_ready :
    (host : Host) (machine : Machine) (root : FilePath) (world : World) (report : Report)
    → bootstrap_status host world root ≡ ok report
    → is_ready report.status ≡ true
    → run_bootstrap host machine root false world ≡ (ok report, world)
unfolding run_bootstrap is_settled
run_of_ready host machine root world report e h =
    let settled : is_settled false report.status ≡ true = settled_of report.status h in
    rw (run_bootstrap, e, settled) refl
  where
    settled_of : (status : Status) → is_ready status ≡ true → is_settled false status ≡ true
    settled_of status h = ground arith

-- After a run that prepared a worktree, if the plans of the files that it left are those from
-- before and their tools are there, the next run that is not forced, on any machine, starts no
-- command: it returns the status ready, from the cache, with the fingerprint, and leaves the world
-- as it is.
pub next_run_is_cached :
    (host : Host) (machine later : Machine) (root : FilePath) (world : World)
    (result : Result Raised Report × World) (p : IsPrepared host machine root world result)
    → plan_repository host p.left.files root ≡ plan_repository host world.files root
    → are_tools_ready host p.left.files p.status.plans ≡ true
    → run_bootstrap host later root false result.1
      ≡ (ok (prepared_status true p.fingerprint p.planned), result.1)
unfolding prepared_status Keeps
next_run_is_cached host machine later root world result p same tools =
    let a =
      bootstrap_status-IsApproved host world root p.status p.fingerprint p.was_pending
        p.has_fingerprint in
    let plans : p.planned ≡ a.planned = ok-injective (sym p.is_planned ∙ same ∙ a.is_planned) in
    let same_plans : p.status.plans ≡ p.planned.plans =
      a.same_plans ∙ ap (λ (q : Planned). q.plans) (sym plans) in
    let kept =
      run_plans-Keeps host machine (sort_plans p.status.plans) (with_success world missing) in
    let decisions : p.left.decisions ≡ world.decisions =
      subst (λ (r : Result Raised Ran × World). r.1.decisions ≡ world.decisions) p.all_succeeded
        kept.1 in
    let approved =
      are_approved_in-same host world p.left root p.planned.plans decisions same
      ∙ subst (λ (q : Planned). are_approved_in host world root q.plans ≡ ok true) (sym plans)
          a.approved in
    let status =
      status_of_recorded host p.left root p.planned p.fingerprint p.is_planned approved p.is_same
        (subst (λ x. are_markers_ready p.left.files x ≡ true) same_plans p.has_markers)
        (subst (λ x. are_tools_ready host p.left.files x ≡ true) same_plans tools) in
    subst
      (λ w.
        run_bootstrap host later root false w
        ≡ (ok (prepared_status true p.fingerprint p.planned), w))
      (sym (ap (λ (r : Result Raised Report × World). r.1) p.is_result))
      (run_of_ready host later root _ _ status refl)
