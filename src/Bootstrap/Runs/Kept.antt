-- ===== src/Bootstrap/Runs/Kept.antt =====
-- What the commands of a run leave alone (bin/workspace_harbor_bootstrap.py).
use serena_workspace_orchest.Prelude.{
  ◌∙◌, ◌≡◌, refl, sym, ap, ap, inl, inr, List, [], ◌∷◌, String, Option-cases, List-cases,
}
use serena_workspace_orchest.Prelude.Results.{Result, ok, err, Result-cases}
use serena_workspace_orchest.Bootstrap.Plans.Data.{Plan, Host, Raised}
use serena_workspace_orchest.Bootstrap.Runs.Status.{World}
use serena_workspace_orchest.Bootstrap.Runs.Tools.{tool_identity}
use serena_workspace_orchest.Bootstrap.Runs.Commands.{
  Machine, timeout_seconds, execute, succeeded, stopped, Ran, all_ran, stopped_at, after_plan,
  run_plans, start_command,
}

-- A world with the success file and the decisions of another.
unfoldable pub Keeps : World → World → Type 0
Keeps world after = (after.success ≡ world.success) × (after.decisions ≡ world.decisions)

execute-Keeps :
    (host : Host) (machine : Machine) (plan : Plan) (world : World)
    → Keeps world (execute host machine plan world).1
unfolding Keeps execute start_command
execute-Keeps host machine plan world = elim (List-cases plan.argv) [
  | inl e ↦ rw (execute, e) (refl, refl)
  | inr (name, arguments, e) ↦
      elim (Option-cases (tool_identity host world.files name plan.cwd).0) [
        | inl f ↦ rw (execute, e, f) (refl, refl)
        | inr (program, f) ↦ elim (Result-cases (timeout_seconds host.timeout)) [
          | inl (seconds, g) ↦ rw (execute, e, f, g) (refl, refl)
          | inr (failure, g) ↦ rw (execute, e, f, g) (refl, refl)
        ]
      ]
]

-- The commands leave the success file and the decisions alone.
pub run_plans-Keeps :
    (host : Host) (machine : Machine) (plans : List Plan) (world : World)
    → Keeps world (run_plans host machine plans world).1
unfolding Keeps run_plans
run_plans-Keeps host machine [] world = (refl, refl)
run_plans-Keeps host machine (plan ∷ plans) world = elim (List-cases plan.argv) [
  | inl e ↦ rw (run_plans, e) (run_plans-Keeps host machine plans world)
  | inr (name, arguments, e) ↦
      let first = execute-Keeps host machine plan world in
      elim (Result-cases (execute host machine plan world).0) [
        | inr (failure, f) ↦ rw (run_plans, e, f) first
        | inl (stopped code kind, f) ↦ rw (run_plans, e, f) first
        | inl (succeeded, f) ↦
            let later = run_plans-Keeps host machine plans (execute host machine plan world).1 in
            rw (run_plans, e, f) (later.0 ∙ first.0, later.1 ∙ first.1)
      ]
]

-- The ids of the plans that have a command, in their order.
unfoldable pub command_ids : List Plan → List String
command_ids [] = []
command_ids (plan ∷ plans) =
    let rest = command_ids plans in elim plan.argv [ [] ↦ rest | _ ∷ _ ↦ plan.plan_id ∷ rest ]

all_ran_injective :
    {a b : List String} → ◌≡◌ {A = Result Raised Ran} (ok (all_ran a)) (ok (all_ran b)) → a ≡ b
all_ran_injective h = cc

after_plan-all_ran :
    (plan_id : String) (r : Result Raised Ran) (plan_ids : List String)
    → after_plan plan_id r ≡ ok (all_ran plan_ids)
    → (rest : List String) × (r ≡ ok (all_ran rest)) × (plan_ids ≡ plan_id ∷ rest)
unfolding after_plan
after_plan-all_ran plan_id (ok (all_ran rest)) plan_ids h = (rest, refl, sym (all_ran_injective h))
after_plan-all_ran plan_id (ok (stopped_at other code kind)) plan_ids h = cc
after_plan-all_ran plan_id (err e) plan_ids h = cc

-- A loop in which all plans ran executed the plans that have a command, each in its place.
pub run_plans-command_ids :
    (host : Host) (machine : Machine) (plans : List Plan) (world : World) (plan_ids : List String)
    → (run_plans host machine plans world).0 ≡ ok (all_ran plan_ids)
    → plan_ids ≡ command_ids plans
unfolding run_plans command_ids after_plan
run_plans-command_ids host machine [] world plan_ids h = sym (all_ran_injective h)
run_plans-command_ids host machine (plan ∷ plans) world plan_ids h = elim (List-cases plan.argv) [
  | inl e ↦
      rw (command_ids, e)
        (run_plans-command_ids host machine plans world plan_ids (rw (run_plans, e) at h))
  | inr (name, arguments, e) ↦ elim (Result-cases (execute host machine plan world).0) [
    | inr (failure, f) ↦ cc (rw (run_plans, e, f) at h)
    | inl (stopped code kind, f) ↦ cc (rw (run_plans, e, f) at h)
    | inl (succeeded, f) ↦
        let (rest, g, same) =
          after_plan-all_ran plan.plan_id _ plan_ids (rw (run_plans, e, f) at h) in
        let later =
          run_plans-command_ids host machine plans (execute host machine plan world).1 rest g in
        rw (command_ids, e) (same ∙ ap (λ ids. plan.plan_id ∷ ids) later)
  ]
]
