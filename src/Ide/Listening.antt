-- ===== src/Ide/Listening.antt =====
-- Which processes a listing names (bin/workspace_harbor_ide.py).
use serena_workspace_orchest.Prelude.{
  ℕ, ◌≡◌, refl, sym, ap, subst, ◌∙◌, ◌⊎◌, inl, inr, true, false, ◌&&◌, none, some, List, [], ◌∷◌,
  arith, ◌==◌, if◌then◌else◌, Occurs, Bool-cases, Option-cases,
}
use serena_workspace_orchest.Prelude.Strings.{codes_member}
use serena_workspace_orchest.Prelude.Reflect.{member-Occurs, Occurs-member}
use serena_workspace_orchest.Ide.Version.{is_digits}
use serena_workspace_orchest.Ide.Process.{process_of, processes}

-- A line of what lsof prints is `p` and the digits of a process.
abbrev pub Listens : List (List ℕ) → List ℕ → Type 0
Listens lines pid = Occurs (b'p' ∷ pid) lines × (is_digits pid ≡ true)

process_of_lem :
    (line pid : List ℕ) → process_of line ≡ some pid → (line ≡ b'p' ∷ pid) × (is_digits pid ≡ true)
unfolding process_of
process_of_lem [] pid h = cc
process_of_lem (c ∷ cs) pid h = elim (Bool-cases (c == b'p' && is_digits cs)) [
  | inr e ↦ absurd (ground arith)
  | inl e ↦
      let same : cs ≡ pid = ground arith in
      let first : c ≡ b'p' = ground arith in
      let digits : is_digits cs ≡ true = ground arith in
      (
        ap (λ x. x ∷ cs) first ∙ ap (λ x. b'p' ∷ x) same,
        subst (λ x. is_digits x ≡ true) same digits,
      )
]

process_of-digits : (pid : List ℕ) → is_digits pid ≡ true → process_of (b'p' ∷ pid) ≡ some pid
unfolding process_of
process_of-digits pid h = rw (h) refl

-- The set with one more element.
abbrev with_one : List ℕ → List (List ℕ) → List (List ℕ)
with_one p rest = if codes_member p rest then rest else p ∷ rest

with_one-Occurs :
    (p q : List ℕ) (rest : List (List ℕ)) → Occurs q (with_one p rest) → (q ≡ p) ⊎ Occurs q rest
with_one-Occurs p q rest o = elim (Bool-cases (codes_member p rest)) [
  | inl e ↦ inr (rw (e) at o)
  | inr e ↦ rw (e) at o
]

Occurs-with_one :
    (p q : List ℕ) (rest : List (List ℕ)) → (q ≡ p) ⊎ Occurs q rest → Occurs q (with_one p rest)
Occurs-with_one p q rest o = elim (Bool-cases (codes_member p rest)) [
  | inr e ↦ rw (e) o
  | inl e ↦ rw (e) (elim o [
    | inl same ↦ subst (λ x. Occurs x rest) (sym same) (member-Occurs p rest e)
    | inr there ↦ there
  ])
]

processes-none :
    (line : List ℕ) (lines : List (List ℕ))
    → process_of line ≡ none
    → processes (line ∷ lines) ≡ processes lines
unfolding processes
processes-none line lines e = rw (processes, e) refl

processes-some :
    (line pid : List ℕ) (lines : List (List ℕ))
    → process_of line ≡ some pid
    → processes (line ∷ lines) ≡ with_one pid (processes lines)
unfolding processes
processes-some line pid lines e = rw (processes, e) refl

pub processes-Listens :
    (lines : List (List ℕ)) (pid : List ℕ) → Occurs pid (processes lines) → Listens lines pid
unfolding processes
processes-Listens [] pid o = absurd o
processes-Listens (line ∷ lines) pid o = elim (Option-cases (process_of line)) [
  | inl e ↦
      let (there, digits) =
        processes-Listens lines pid (subst (Occurs pid) (processes-none line lines e) o) in
      (inr there, digits)
  | inr (p, e) ↦
      let (named, digits) = process_of_lem line p e in
      elim (with_one-Occurs p pid (processes lines)
        (subst (Occurs pid) (processes-some line p lines e) o)) [
          | inl same ↦ (
            inl (ap (λ x. b'p' ∷ x) same ∙ sym named),
            subst (λ x. is_digits x ≡ true) (sym same) digits,
          )
          | inr there ↦ let (later, d) = processes-Listens lines pid there in (inr later, d)
        ]
]

pub Listens-processes :
    (lines : List (List ℕ)) (pid : List ℕ) → Listens lines pid → Occurs pid (processes lines)
unfolding processes
Listens-processes [] pid (o, d) = absurd o
Listens-processes (line ∷ lines) pid (inl same, d) =
    let named : process_of line ≡ some pid =
      subst (λ l. process_of l ≡ some pid) same (process_of-digits pid d) in
    subst (Occurs pid) (sym (processes-some line pid lines named))
      (Occurs-with_one pid pid (processes lines) (inl refl))
Listens-processes (line ∷ lines) pid (inr o, d) =
    let there = Listens-processes lines pid (o, d) in
    elim (Option-cases (process_of line)) [
      | inl e ↦ subst (Occurs pid) (sym (processes-none line lines e)) there
      | inr (p, e) ↦
          subst (Occurs pid) (sym (processes-some line p lines e))
            (Occurs-with_one p pid (processes lines) (inr there))
    ]

-- No element occurs again behind it.
abbrev pub IsDistinct : List (List ℕ) → Type 0
IsDistinct [] = Unit
IsDistinct (x ∷ xs) = (codes_member x xs ≡ false) × IsDistinct xs

with_one-IsDistinct :
    (p : List ℕ) (rest : List (List ℕ)) → IsDistinct rest → IsDistinct (with_one p rest)
with_one-IsDistinct p rest d = elim (Bool-cases (codes_member p rest)) [
  | inl e ↦ rw (e) d
  | inr e ↦ rw (e) (e, d)
]

pub processes-IsDistinct : (lines : List (List ℕ)) → IsDistinct (processes lines)
unfolding processes
processes-IsDistinct [] = tt
processes-IsDistinct (line ∷ lines) =
    let rest = processes-IsDistinct lines in
    elim (Option-cases (process_of line)) [
      | inl e ↦ subst IsDistinct (sym (processes-none line lines e)) rest
      | inr (p, e) ↦
          subst IsDistinct (sym (processes-some line p lines e))
            (with_one-IsDistinct p (processes lines) rest)
    ]

-- A set with one element only is the list of it.
pub single :
    (pid : List ℕ) (found : List (List ℕ))
    → IsDistinct found
    → Occurs pid found
    → ((other : List ℕ) → Occurs other found → other ≡ pid)
    → found ≡ pid ∷ []
single pid [] d o only = absurd o
single pid (x ∷ []) d o only = ap (λ y. y ∷ []) (only x (inl refl))
single pid (x ∷ y ∷ rest) (fresh, d) o only =
    let same : x ≡ y = only x (inl refl) ∙ sym (only y (inr (inl refl))) in
    absurd (cc (fresh, Occurs-member x (y ∷ rest) (inl same)))
