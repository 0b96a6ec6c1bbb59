-- ===== src/Bootstrap/Runs/Approval.antt =====
-- Which commands a run may start (bin/workspace_harbor_bootstrap.py).
use serena_workspace_orchest.Prelude.{
  any, ◌≡◌, refl, ◌⊎◌, inl, inr, Bool, true, false, Option, none, some, List, [], ◌∷◌, String,
  Bool-cases, Option-cases,
}
use serena_workspace_orchest.Prelude.Strings.{str_eq}
use serena_workspace_orchest.Prelude.Results.{Result, ok, err, Result-cases, ok-injective}
use serena_workspace_orchest.Json.{Value, obj, Fields, get, holds_str}
use serena_workspace_orchest.Bootstrap.Decisions.{
  Stored, read_state, decision_subject, decision_key,
}
use serena_workspace_orchest.Bootstrap.Plans.Paths.{FilePath}
use serena_workspace_orchest.Bootstrap.Plans.Sources.{repository_at}
use serena_workspace_orchest.Bootstrap.Plans.Data.{Plan, Files, Host, Raised}
use serena_workspace_orchest.Bootstrap.Plans.Planning.{Planned, plan_repository}
use serena_workspace_orchest.Bootstrap.Runs.Status.{
  Report, World, bootstrap_status, are_approved_in,
}
use serena_workspace_orchest.Bootstrap.Runs.Approved.{
  are_approved, is_plan_approved, is_approved, is_item_approved, and_then, current_digest,
}
use serena_workspace_orchest.Bootstrap.Runs.Run.{
  run_with, run_pending, run_locked, run_bootstrap, is_settled, recovered,
}
use serena_workspace_orchest.Bootstrap.Runs.Commands.{Machine}
use serena_workspace_orchest.Bootstrap.Runs.Cached.{bootstrap_status-IsApproved}

abbrev pub is_command : Plan → Bool
is_command plan = str_eq plan.source "command"

-- The recorded decision approves the digest.
pub record HasApproval (stored : Stored) (digest : Result Raised (Option String)) : Type 0 where
  pub decisions : Fields
  pub item : Fields
  pub command_digest : String
  pub is_read : read_state stored ≡ ok decisions
  pub is_recorded : get (decision_key "command" "current") decisions ≡ some (obj item)
  pub approves : holds_str "decision" item "approve" ≡ true
  pub is_current : digest ≡ ok (some command_digest)
  pub names_digest : holds_str "digest" item command_digest ≡ true

item_approval :
    (files : Files) (root : FilePath) (stored : Stored) (digest : Result Raised (Option String))
    (decisions : Fields) (value : Value)
    → read_state stored ≡ ok decisions
    → get (decision_key "command" "current") decisions ≡ some value
    → is_item_approved files root digest value ≡ ok true
    → HasApproval stored digest
unfolding is_item_approved decision_subject repository_at get
item_approval files root stored (ok (some s)) decisions (obj d) r g h =
    elim (Bool-cases (holds_str "decision" d "approve")) [
      | inr e ↦ cc (rw (is_item_approved, e) at h)
      | inl e ↦ record {
        decisions = decisions;
        item = d;
        command_digest = s;
        is_read = r;
        is_recorded = g;
        approves = e;
        is_current = refl;
        names_digest = ok-injective (rw (is_item_approved, e) at h);
      }
    ]
item_approval files root stored (ok none) decisions (obj d) r g h =
    elim (Bool-cases (holds_str "decision" d "approve")) [
      | inr e ↦ cc (rw (is_item_approved, e) at h)
      | inl e ↦ cc (rw (is_item_approved, e) at h)
    ]
item_approval files root stored (err raised) decisions (obj d) r g h =
    elim (Bool-cases (holds_str "decision" d "approve")) [
      | inr e ↦ cc (rw (is_item_approved, e) at h)
      | inl e ↦ cc (rw (is_item_approved, e) at h)
    ]
item_approval files root stored digest decisions value r g h = cc

plan_approval :
    (files : Files) (root : FilePath) (digest : Result Raised (Option String)) (stored : Stored)
    (plan : Plan)
    → is_command plan ≡ true
    → is_plan_approved files root digest stored plan ≡ ok true
    → HasApproval stored digest
unfolding is_plan_approved is_approved
plan_approval files root digest stored plan c h = elim (Result-cases (read_state stored)) [
  | inr (message, e) ↦ cc (rw (c, e) at h)
  | inl (decisions, e) ↦ elim (Option-cases (get (decision_key "command" "current") decisions)) [
    | inl f ↦ cc (rw (c, e, is_approved, f) at h)
    | inr (value, f) ↦
        item_approval files root stored digest decisions value e f (rw (c, e, is_approved, f) at h)
  ]
]

-- Plans that are approved hold no custom command, or it has an approval.
plans_approval :
    (files : Files) (root : FilePath) (digest : Result Raised (Option String)) (stored : Stored)
    (plans : List Plan)
    → are_approved files root digest stored plans ≡ ok true
    → (any is_command plans ≡ false) ⊎ HasApproval stored digest
unfolding are_approved
plans_approval files root digest stored [] h = inl refl
plans_approval files root digest stored (plan ∷ plans) h = elim (Bool-cases (is_command plan)) [
  | inl c ↦ inr (plan_approval files root digest stored plan c (first _ _ h).0)
  | inr c ↦ elim (plans_approval files root digest stored plans (first _ _ h).1) [
    | inl none_later ↦ inl (rw (c, none_later) refl)
    | inr approval ↦ inr approval
  ]
]
  where
    first :
        (r rest : Result Raised Bool) → and_then r rest ≡ ok true → (r ≡ ok true) × (rest ≡ ok true)
    first (ok true) rest h = (refl, h)
    first (ok false) rest h = cc
    first (err e) rest h = cc

-- The plans of a world, where a custom command is approved with the digest that it has now.
pub record IsPermitted (host : Host) (world : World) (root : FilePath) : Type 0 where
  pub planned : Planned
  pub is_planned : plan_repository host world.files root ≡ ok planned
  pub approval :
      (any is_command planned.plans ≡ false)
      ⊎ HasApproval world.decisions (current_digest host world.files root)

permitted :
    (host : Host) (world : World) (root : FilePath) (status : Report) (fingerprint : String)
    → bootstrap_status host world root ≡ ok status
    → status.fingerprint ≡ some fingerprint
    → IsPermitted host world root
unfolding are_approved_in
permitted host world root status fingerprint e has =
    let a = bootstrap_status-IsApproved host world root status fingerprint e has in
    record {
      planned = a.planned;
      is_planned = a.is_planned;
      approval =
          plans_approval world.files root (current_digest host world.files root) world.decisions
            a.planned.plans a.approved;
    }

run_with-IsPermitted :
    (host : Host) (machine : Machine) (root : FilePath) (world : World) (status : Report)
    (fingerprint : Option String) (fault : Option Bool)
    → bootstrap_status host world root ≡ ok status
    → status.fingerprint ≡ fingerprint
    → ((recovered status (run_with host machine root status world fingerprint fault)).1 ≡ world)
      ⊎ IsPermitted host world root
unfolding run_with
run_with-IsPermitted host machine root world status none fault e has = inl refl
run_with-IsPermitted host machine root world status (some fingerprint) fault e has =
    inr (permitted host world root status fingerprint e has)

run_locked-IsPermitted :
    (host : Host) (machine : Machine) (root : FilePath) (force : Bool) (earlier : Report)
    (world : World)
    → ((run_locked host machine root force earlier world).1 ≡ world) ⊎ IsPermitted host world root
unfolding run_locked run_pending
run_locked-IsPermitted host machine root force earlier world =
    elim (Result-cases (bootstrap_status host world root)) [
      | inr (failure, e) ↦ inl (rw (run_locked, e) refl)
      | inl (status, e) ↦ elim (Bool-cases (is_settled force status.status)) [
        | inl f ↦ inl (rw (run_locked, e, f) refl)
        | inr f ↦
            elim (run_with-IsPermitted host machine root world status status.fingerprint
              machine.remove_fault e refl) [
                | inl kept ↦ inl (rw (run_locked, e, f) kept)
                | inr p ↦ inr p
              ]
      ]
    ]

-- A run leaves the world as it was, or as the other runs left it while it waited for the lock, or
-- it was permitted: under the lock the plans held no custom command, or the recorded decision on
-- the custom command was to approve the digest that the command has now.
pub run_bootstrap-IsPermitted :
    (host : Host) (machine : Machine) (root : FilePath) (force : Bool) (world : World)
    → ((run_bootstrap host machine root force world).1 ≡ world)
      ⊎ ((run_bootstrap host machine root force world).1 ≡ machine.others world)
      ⊎ IsPermitted host (machine.others world) root
unfolding run_bootstrap
run_bootstrap-IsPermitted host machine root force world =
    elim (Result-cases (bootstrap_status host world root)) [
      | inr (failure, e) ↦ inl (rw (run_bootstrap, e) refl)
      | inl (status, e) ↦ elim (Bool-cases (is_settled force status.status)) [
        | inl f ↦ inl (rw (run_bootstrap, e, f) refl)
        | inr f ↦ elim (Option-cases machine.lock_fault) [
          | inr (permission, g) ↦ inl (rw (run_bootstrap, e, f, g) refl)
          | inl g ↦
              elim (run_locked-IsPermitted host machine root force status (machine.others world)) [
                | inl kept ↦ inr (inl (rw (run_bootstrap, e, f, g) kept))
                | inr p ↦ inr (inr p)
              ]
        ]
      ]
    ]
