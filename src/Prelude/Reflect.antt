-- ===== src/Prelude/Reflect.antt =====
-- What the tests on texts and lists decide.
use Prim.Native.Nat.{ℕ}
use mathlib.Core.Path.{◌≡◌, refl, ap, subst, ◌∙◌}
use mathlib.Core.Logic.{inl, inr}
use mathlib.Core.Bool.{Bool, true}
use mathlib.Core.List.{List, [], ◌∷◌, ◌++◌}
use native.Mathlib.Omega.{arith}
use serena_workspace_orchest.Prelude.Tests.{Bool-cases}
use serena_workspace_orchest.Prelude.Lists.{any, Occurs}
use serena_workspace_orchest.Prelude.Strings.{codes_eq, has_prefix, codes_member}

pub codes_eq_refl : (s : List ℕ) → codes_eq s s ≡ true
unfolding codes_eq
codes_eq_refl [] = refl
codes_eq_refl (c ∷ cs) = ground (arith, codes_eq_refl cs)

pub codes_eq_lem : (s t : List ℕ) → codes_eq s t ≡ true → s ≡ t
unfolding codes_eq
codes_eq_lem [] [] h = refl
codes_eq_lem [] (d ∷ ds) h = cc
codes_eq_lem (c ∷ cs) [] h = cc
codes_eq_lem (c ∷ cs) (d ∷ ds) h = ground (arith, codes_eq_lem cs ds)

pub codes_eq_of : {s t : List ℕ} → s ≡ t → codes_eq s t ≡ true
codes_eq_of {s} {t} e = subst (λ x. codes_eq s x ≡ true) e (codes_eq_refl s)

pub has_prefix_append : (front back : List ℕ) → has_prefix front (front ++ back) ≡ true
unfolding has_prefix
has_prefix_append [] back = refl
has_prefix_append (c ∷ front) back = ground (arith, has_prefix_append front back)

pub prefix_parts :
    (front s : List ℕ) → has_prefix front s ≡ true → (back : List ℕ) × (s ≡ front ++ back)
unfolding has_prefix
prefix_parts [] s h = (s, refl)
prefix_parts (c ∷ front) [] h = cc
prefix_parts (c ∷ front) (d ∷ s) h =
    let same : d ≡ c = ground arith in
    let (back, e) = prefix_parts front s (ground arith) in
    (back, ap (λ x. x ∷ s) same ∙ ap (λ x. c ∷ x) e)

pub member-Occurs : (s : List ℕ) (ss : List (List ℕ)) → codes_member s ss ≡ true → Occurs s ss
unfolding codes_member
member-Occurs s [] h = cc
member-Occurs s (t ∷ ts) h = elim (Bool-cases (codes_eq s t)) [
  | inl e ↦ inl (codes_eq_lem s t e)
  | inr e ↦ inr (member-Occurs s ts (ground arith))
]

pub Occurs-member : (s : List ℕ) (ss : List (List ℕ)) → Occurs s ss → codes_member s ss ≡ true
unfolding codes_member
Occurs-member s [] o = absurd o
Occurs-member s (t ∷ ts) (inl e) = rw (codes_eq_of e) refl
Occurs-member s (t ∷ ts) (inr o) = ground (arith, Occurs-member s ts o)

pub any-Occurs :
    {A : Type 0} (p : A → Bool) (xs : List A)
    → any p xs ≡ true
    → (x : A) × Occurs x xs × (p x ≡ true)
any-Occurs p [] h = cc
any-Occurs p (y ∷ ys) h = elim (Bool-cases (p y)) [
  | inl e ↦ (y, inl refl, e)
  | inr e ↦ let (x, o, t) = any-Occurs p ys (ground arith) in (x, inr o, t)
]

pub Occurs-any :
    {A : Type 0} (p : A → Bool) (xs : List A) (x : A) → Occurs x xs → p x ≡ true → any p xs ≡ true
Occurs-any p [] x o t = absurd o
Occurs-any p (y ∷ ys) x (inl e) t = rw (subst (λ z. p z ≡ true) e t) refl
Occurs-any p (y ∷ ys) x (inr o) t = ground (arith, Occurs-any p ys x o t)
