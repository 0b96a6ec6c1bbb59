-- ===== src/Bootstrap/Valid.antt =====
-- Which decisions are valid in the state (bin/workspace_harbor_bootstrap.py).
use serena_workspace_orchest.Prelude.{
  ℕ, ◌≡◌, refl, sym, subst, inl, inr, Bool, true, false, not, some, List, [], ◌∷◌, String, arith,
  if◌then◌else◌, Bool-cases,
}
use Prim.Native.String.{String}
use serena_workspace_orchest.Prelude.Strings.{
  codes, codes_eq, codes_member, member, is_empty, str_eq, eq_iff,
}
use serena_workspace_orchest.Prelude.Int.{pos}
use serena_workspace_orchest.Prelude.Results.{
  Result, ok, err, raise_if, or_raise, ok_of_bind, ok_of_then, ok-injective, or_raise-eq-ok,
}
use serena_workspace_orchest.Json.{Value, obj, Fields, field, end, get, put, holds_int, as_dict}
use serena_workspace_orchest.Prelude.Reflect.{codes_eq_refl}
use serena_workspace_orchest.Bootstrap.Decisions.{
  Stored, missing, corrupt, holding, supported_languages, all_codes, is_allowed, is_subject,
  split_key, is_valid_entry, is_valid_item, are_valid_items, read_dict, read_state, write_state,
  join, decision_key, decision_subject, entry, Repository, language_evidence, record_decision,
  language_decision, text_at, has_only,
}

pub are_valid_items-put :
    (key : String) (item : Value) (d : Fields)
    → is_valid_item key item ≡ true
    → are_valid_items d ≡ true
    → are_valid_items (put key item d) ≡ true
unfolding are_valid_items put
are_valid_items-put key item end v h = rw (v) refl
are_valid_items-put key item (field k w d) v h = elim (Bool-cases (str_eq k key)) [
  | inl e ↦
      let same : k ≡ key = ground (arith, eq_iff k key) in
      rw (e) (ground (arith, subst (λ x. is_valid_item x item ≡ true) (sym same) v))
  | inr e ↦ rw (e) (ground (arith, are_valid_items-put key item d v))
]

pub read_state-write_state :
    (d : Fields) → are_valid_items d ≡ true → read_state (write_state d) ≡ ok d
unfolding read_state read_dict write_state has_only get
read_state-write_state d h = rw (h) refl

read_dict-valid :
    (d decisions : Fields) → read_dict d ≡ ok decisions → are_valid_items decisions ≡ true
unfolding read_dict
read_dict-valid d decisions h =
    let (keys, h1) =
      ok_of_then
        (raise_if (not (has_only ("version" ∷ "decisions" ∷ []) d)) "invalid bootstrap state") _
        h in
    let (version, h2) =
      ok_of_then (raise_if (not (holds_int "version" d (pos 1))) "invalid bootstrap state") _ h1 in
    let (found, f, h3) =
      ok_of_bind
        (or_raise (serena_workspace_orchest.Bootstrap.Decisions.decisions_of (get "decisions" d))
          "invalid bootstrap state")
        _ h2 in
    let (valid, same) =
      ok_of_then (raise_if (not (are_valid_items found)) "invalid bootstrap decision") (ok found)
        h3 in
    subst (λ x. are_valid_items x ≡ true) (ok-injective same) (ground arith)

pub read_state-valid :
    (stored : Stored) (decisions : Fields)
    → read_state stored ≡ ok decisions
    → are_valid_items decisions ≡ true
unfolding read_state are_valid_items
read_state-valid missing decisions h = subst (λ x. are_valid_items x ≡ true) (ok-injective h) refl
read_state-valid corrupt decisions h = cc
read_state-valid (holding (obj d)) decisions h = read_dict-valid d decisions h
read_state-valid (holding _) decisions h = cc

codes_member-member :
    (s : String) (ss : List String)
    → member s ss ≡ true
    → codes_member (codes s) (all_codes ss) ≡ true
unfolding member codes_member all_codes
codes_member-member s [] h = cc
codes_member-member s (x ∷ ss) h = elim (Bool-cases (str_eq s x)) [
  | inl e ↦
      let same : s ≡ x = ground (arith, eq_iff s x) in
      rw (subst (λ y. codes_eq (codes s) (codes y) ≡ true) same (codes_eq_refl (codes s))) refl
  | inr e ↦ ground (arith, codes_member-member s ss (ground (arith, e)))
]

is_subject-language :
    (subject : String)
    → member subject supported_languages ≡ true
    → is_subject (codes "language") (codes subject) ≡ true
unfolding is_subject
is_subject-language subject h = codes_member-member subject supported_languages h

-- The key of a decision is split at its first colon.
split_key-decision_key :
    (subject : String)
    → (split_key (codes (decision_key "language" subject)) ≡ some (codes "language", codes subject))
      × (split_key (codes (decision_key "tracking" subject))
          ≡ some (codes "tracking", codes subject))
      × (split_key (codes (decision_key "command" subject)) ≡ some (codes "command", codes subject))
unfolding split_key decision_key
split_key-decision_key subject = (refl, refl, refl)

entry_is_valid :
    (category subject : List ℕ) (decision evidence : String) (d : Fields)
    → as_dict (entry decision evidence) ≡ some d
    → is_allowed category decision ≡ true
    → is_empty evidence ≡ false
    → is_subject category subject ≡ true
    → is_valid_entry category subject d ≡ true
unfolding is_valid_entry has_only text_at get
entry_is_valid category subject decision evidence d e a f s =
    subst (λ x. is_valid_entry category subject x ≡ true) (some_injective e) (rw (a, f, s) refl)
  where
    some_injective : {x y : Fields} → some x ≡ some y → x ≡ y
    some_injective {x} {y} h = cc

item_is_valid :
    (key category subject decision evidence : String)
    → split_key (codes key) ≡ some (codes category, codes subject)
    → is_allowed (codes category) decision ≡ true
    → is_empty evidence ≡ false
    → is_subject (codes category) (codes subject) ≡ true
    → is_valid_item key (entry decision evidence) ≡ true
unfolding is_valid_item
item_is_valid key category subject decision evidence s a f g =
    rw (is_valid_item, s)
      (entry_is_valid (codes category) (codes subject) decision evidence _ refl a f g)

subjects_known :
    (is_subject (codes "tracking") (codes "serena-files") ≡ true)
    × (is_subject (codes "command") (codes "current") ≡ true)
unfolding is_subject
subjects_known = (refl, refl)

language_evidence_is_filled :
    (repository : Repository) (language : String)
    → is_empty (language_evidence repository language) ≡ false
unfolding language_evidence
language_evidence_is_filled repository language =
    elim (Bool-cases (repository.has_source language)) [
      | inr e ↦ rw (e) refl
      | inl e ↦ elim (Bool-cases (repository.is_confirmed language)) [
        | inl f ↦ rw (e, f) refl
        | inr f ↦ rw (e, f) refl
      ]
    ]

-- A test that was passed on the way to a value.
passed :
    (b : Bool) (r : Result String String) (reason value : String)
    → (if b then r else err reason) ≡ ok value
    → (b ≡ true) × (r ≡ ok value)
passed true r reason value h = (refl, h)
passed false r reason value h = cc

language_is_valid :
    (repository : Repository) (subject decision evidence : String)
    → is_allowed (codes "language") decision ≡ true
    → decision_subject repository "language" subject ≡ ok evidence
    → is_valid_item (decision_key "language" subject) (entry decision evidence) ≡ true
unfolding decision_subject
language_is_valid repository subject decision evidence a h =
    let (known, found) =
      passed (member subject supported_languages) (ok (language_evidence repository subject))
        "unknown language" evidence h in
    item_is_valid (decision_key "language" subject) "language" subject decision evidence
      (split_key-decision_key subject).0 a
      (subst (λ x. is_empty x ≡ false) (ok-injective found)
        (language_evidence_is_filled repository subject))
      (is_subject-language subject known)

tracking_is_valid :
    (repository : Repository) (subject decision evidence : String)
    → is_allowed (codes "tracking") decision ≡ true
    → decision_subject repository "tracking" subject ≡ ok evidence
    → is_valid_item (decision_key "tracking" subject) (entry decision evidence) ≡ true
unfolding decision_subject
tracking_is_valid repository subject decision evidence a h =
    let (named, found) =
      passed (str_eq subject "serena-files") (ok "tracking") "tracking subject must be serena-files"
        evidence h in
    let same : subject ≡ "serena-files" = ground (arith, eq_iff subject "serena-files") in
    item_is_valid (decision_key "tracking" subject) "tracking" subject decision evidence
      (split_key-decision_key subject).1 a
      (subst (λ x. is_empty x ≡ false) (ok-injective found) refl)
      (subst (λ s. is_subject (codes "tracking") (codes s) ≡ true) (sym same) subjects_known.0)

command_is_valid :
    (repository : Repository) (subject decision evidence : String)
    → ((s : String) → repository.command_digest ≡ some s → is_empty s ≡ false)
    → is_allowed (codes "command") decision ≡ true
    → decision_subject repository "command" subject ≡ ok evidence
    → is_valid_item (decision_key "command" subject) (entry decision evidence) ≡ true
unfolding decision_subject
command_is_valid repository subject decision evidence filled a h =
    let (named, found) =
      passed (str_eq subject "current")
        (or_raise repository.command_digest "no current custom command")
        "command subject must be current" evidence h in
    let same : subject ≡ "current" = ground (arith, eq_iff subject "current") in
    item_is_valid (decision_key "command" subject) "command" subject decision evidence
      (split_key-decision_key subject).2 a
      (filled evidence (or_raise-eq-ok repository.command_digest "no current custom command" found))
      (subst (λ s. is_subject (codes "command") (codes s) ≡ true) (sym same) subjects_known.1)

unknown_category :
    (repository : Repository) (category subject evidence : String)
    → str_eq category "language" ≡ false
    → str_eq category "tracking" ≡ false
    → decision_subject repository category subject ≡ ok evidence
    → str_eq category "command" ≡ true
unfolding decision_subject
unknown_category repository category subject evidence e f h =
    elim (Bool-cases (str_eq category "command")) [
      | inl g ↦ g
      | inr g ↦ no_value (rw (e, f, g) at h)
    ]
  where
    no_value :
        {A : Type 0}
        → ◌≡◌ {A = Result String String} (err "unknown decision category") (ok evidence)
        → A
    no_value {A} h = cc

pub subject_is_valid :
    (repository : Repository) (category subject decision evidence : String)
    → ((s : String) → repository.command_digest ≡ some s → is_empty s ≡ false)
    → is_allowed (codes category) decision ≡ true
    → decision_subject repository category subject ≡ ok evidence
    → is_valid_item (decision_key category subject) (entry decision evidence) ≡ true
subject_is_valid repository category subject decision evidence filled a h =
    elim (Bool-cases (str_eq category "language")) [
      | inl e ↦
          as_literal "language" (ground (arith, eq_iff category "language"))
            (λ b g. language_is_valid repository subject decision evidence b g)
      | inr e ↦ elim (Bool-cases (str_eq category "tracking")) [
        | inl f ↦
            as_literal "tracking" (ground (arith, eq_iff category "tracking"))
              (λ b g. tracking_is_valid repository subject decision evidence b g)
        | inr f ↦
            let is_command = unknown_category repository category subject evidence e f h in
            as_literal "command" (ground (arith, eq_iff category "command"))
              (λ b g. command_is_valid repository subject decision evidence filled b g)
      ]
    ]
  where
    as_literal :
        (c : String)
        → category ≡ c
        → (is_allowed (codes c) decision ≡ true
            → decision_subject repository c subject ≡ ok evidence
            → is_valid_item (decision_key c subject) (entry decision evidence) ≡ true)
        → is_valid_item (decision_key category subject) (entry decision evidence) ≡ true
    as_literal c same proof =
        subst (λ x. is_valid_item (decision_key x subject) (entry decision evidence) ≡ true)
          (sym same)
          (proof (subst (λ x. is_allowed (codes x) decision ≡ true) same a)
            (subst (λ x. decision_subject repository x subject ≡ ok evidence) same h))
