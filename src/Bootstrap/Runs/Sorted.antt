-- ===== src/Bootstrap/Runs/Sorted.antt =====
-- The order in which a run takes the plans (bin/workspace_harbor_bootstrap.py).
use serena_workspace_orchest.Prelude.{
  ℕ, suc, ◌∙◌, ◌≡◌, refl, ap, inl, inr, Bool, true, false, List, [], ◌∷◌, arith, if◌then◌else◌,
  Bool-cases,
}
use serena_workspace_orchest.Prelude.Strings.{codes, codes_before}
use serena_workspace_orchest.Bootstrap.Plans.Data.{Plan}
use serena_workspace_orchest.Bootstrap.Runs.Tools.{sort_plans, insert_plan}

-- No plan has an id that comes before that of the plan in front of it.
unfoldable pub IsSorted : List Plan → Type 0
IsSorted [] = Unit
IsSorted (plan ∷ []) = Unit
IsSorted (plan ∷ next ∷ plans) =
    (codes_before (codes next.plan_id) (codes plan.plan_id) ≡ false) × IsSorted (next ∷ plans)

-- How many plans pass a test.
abbrev pub count : (Plan → Bool) → List Plan → ℕ
count p [] = 0
count p (plan ∷ plans) = if p plan then suc (count p plans) else count p plans

codes_before-asymmetric : (xs ys : List ℕ) → codes_before xs ys ≡ true → codes_before ys xs ≡ false
unfolding codes_before
codes_before-asymmetric xs [] h = cc
codes_before-asymmetric [] (y ∷ ys) h = refl
codes_before-asymmetric (x ∷ xs) (y ∷ ys) h = ground (arith, codes_before-asymmetric xs ys)

insert_plan-IsSorted :
    (plan : Plan) (plans : List Plan) → IsSorted plans → IsSorted (insert_plan plan plans)
unfolding insert_plan IsSorted
insert_plan-IsSorted plan [] h = tt
insert_plan-IsSorted plan (p ∷ []) h =
    elim (Bool-cases (codes_before (codes p.plan_id) (codes plan.plan_id))) [
      | inl e ↦ rw (e) (codes_before-asymmetric (codes p.plan_id) (codes plan.plan_id) e, tt)
      | inr e ↦ rw (e) (e, tt)
    ]
insert_plan-IsSorted plan (p ∷ q ∷ plans) h =
    let later = insert_plan-IsSorted plan (q ∷ plans) h.1 in
    elim (Bool-cases (codes_before (codes p.plan_id) (codes plan.plan_id))) [
      | inr e ↦ rw (e) (e, h)
      | inl e ↦ elim (Bool-cases (codes_before (codes q.plan_id) (codes plan.plan_id))) [
        | inl f ↦ rw (e, f) (h.0, rw (f) at later)
        | inr f ↦
            rw (e, f) (codes_before-asymmetric (codes p.plan_id) (codes plan.plan_id) e, (f, h.1))
      ]
    ]

count-insert_plan :
    (p : Plan → Bool) (plan : Plan) (plans : List Plan)
    → count p (insert_plan plan plans) ≡ count p (plan ∷ plans)
unfolding insert_plan
count-insert_plan p plan [] = refl
count-insert_plan p plan (q ∷ plans) = ground (arith, count-insert_plan p plan plans)

plans_in_order : (plans : List Plan) → IsSorted (sort_plans plans)
unfolding sort_plans IsSorted
plans_in_order [] = tt
plans_in_order (plan ∷ plans) = insert_plan-IsSorted plan (sort_plans plans) (plans_in_order plans)

counted_plans : (p : Plan → Bool) (plans : List Plan) → count p (sort_plans plans) ≡ count p plans
unfolding sort_plans
counted_plans p [] = refl
counted_plans p (plan ∷ plans) =
    count-insert_plan p plan (sort_plans plans)
    ∙ ap (λ n. if p plan then suc n else n) (counted_plans p plans)

-- A run takes its plans in the order of their ids, and each as often as it was planned.
pub sort_plans-IsSorted :
    (plans : List Plan)
    → IsSorted (sort_plans plans) × ((p : Plan → Bool) → count p (sort_plans plans) ≡ count p plans)
sort_plans-IsSorted plans = (plans_in_order plans, λ p. counted_plans p plans)
