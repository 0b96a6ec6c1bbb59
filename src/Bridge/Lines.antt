-- ===== src/Bridge/Lines.antt =====
-- The lines that the check of the configuration takes its values from
-- (bin/workspace_harbor_bridge.py, `parse_codex_mcp_get`).
use serena_workspace_orchest.Prelude.{
  ℕ, All, ◌≡◌, refl, sym, ap, ◌∙◌, ◌⊎◌, inl, inr, Bool, true, false, Option, none, some, List, [],
  ◌∷◌, ◌++◌, arith, if◌then◌else◌, ◌==◌, Bool-cases, Option-cases,
}
use serena_workspace_orchest.Prelude.Strings.{strip, codes_eq}
use serena_workspace_orchest.Prelude.Reflect.{codes_eq_lem, codes_eq_of}
use serena_workspace_orchest.Bridge.Config.{Fields, split_colon, set_field, read_fields}

-- A line has a key if it is, without the spaces around it, the key, a colon and a text.
abbrev pub HasKey : List ℕ → List ℕ → Type 0
HasKey key line = (text : List ℕ) × (strip line ≡ key ++ b':' ∷ text)

-- The last line with the key has the value, up to the spaces around it.
pub data LastValue (key value : List ℕ) : List (List ℕ) → Type 0 where
  here :
      (line : List ℕ) (lines : List (List ℕ)) (text : List ℕ)
      → strip line ≡ key ++ b':' ∷ text
      → strip text ≡ value
      → All (λ l. ¬ HasKey key l) lines
      → LastValue key value (line ∷ lines)
  later :
      (line : List ℕ) (lines : List (List ℕ))
      → LastValue key value lines
      → LastValue key value (line ∷ lines)

split_colon_lem : (s key text : List ℕ) → split_colon s ≡ some (key, text) → s ≡ key ++ b':' ∷ text
unfolding split_colon
split_colon_lem [] key text h = cc
split_colon_lem (c ∷ cs) key text h = elim (Bool-cases (c == b':')) [
  | inl e ↦
      let colon : c ≡ b':' = ground arith in
      let none_before : key ≡ [] = ground arith in
      let rest : cs ≡ text = ground arith in
      ap (λ x. x ∷ cs) colon
      ∙ ap (λ x. b':' ∷ x) rest
      ∙ ap (λ x. x ++ b':' ∷ text) (sym none_before)
  | inr e ↦ elim (Option-cases (split_colon cs)) [
    | inl f ↦ absurd (ground arith)
    | inr ((k, t), f) ↦
        let longer : c ∷ k ≡ key = ground arith in
        let rest : t ≡ text = ground arith in
        ap (λ x. c ∷ x) (split_colon_lem cs k t f)
        ∙ ap (λ x. x ++ b':' ∷ t) longer
        ∙ ap (λ x. key ++ b':' ∷ x) rest
  ]
]

abbrev first_part : List ℕ → Option (List ℕ × List ℕ) → List ℕ
first_part other none = other
first_part other (some (k, t)) = k

read_fields-none :
    (line : List ℕ) (lines : List (List ℕ)) (fields : Fields)
    → split_colon (strip line) ≡ none
    → read_fields (line ∷ lines) fields ≡ read_fields lines fields
unfolding read_fields
read_fields-none line lines fields e = rw (read_fields, e) refl

read_fields-some :
    (line k t : List ℕ) (lines : List (List ℕ)) (fields : Fields)
    → split_colon (strip line) ≡ some (k, t)
    → read_fields (line ∷ lines) fields ≡ read_fields lines (set_field k (strip t) fields)
unfolding read_fields
read_fields-some line k t lines fields e = rw (read_fields, e) refl

some_same :
    (b : Bool) (x y : List ℕ) (o : Option (List ℕ))
    → b ≡ true
    → (if b then some x else o) ≡ some y
    → x ≡ y
some_same b x y o e h = ground arith

past_other :
    (b : Bool) (x : List ℕ) (o p : Option (List ℕ))
    → b ≡ false
    → (if b then some x else o) ≡ p
    → o ≡ p
past_other b x o p e h = ground arith

module _ (key : List ℕ) (view : Fields → Option (List ℕ))
    (colonless : (text : List ℕ) → split_colon (key ++ b':' ∷ text) ≡ some (key, text))
    (set : (k v : List ℕ) (fields : Fields)
      → view (set_field k v fields) ≡ (if codes_eq k key then some v else view fields)) where
  no_key : (line : List ℕ) → split_colon (strip line) ≡ none → ¬ HasKey key line
  no_key line e (text, h) = cc (e, colonless text, ap split_colon h)

  other_key :
      (line k t : List ℕ)
      → split_colon (strip line) ≡ some (k, t)
      → codes_eq k key ≡ false
      → ¬ HasKey key line
  other_key line k t e d (text, h) =
      let same : k ≡ key = ap (first_part key) (sym e ∙ ap split_colon h ∙ colonless text) in
      cc (d, codes_eq_of same)

  -- A value was there before, or is that of the last line with the key.
  pub read_fields-LastValue :
      (lines : List (List ℕ)) (fields : Fields) (value : List ℕ)
      → view (read_fields lines fields) ≡ some value
      → LastValue key value lines ⊎ (All (λ l. ¬ HasKey key l) lines × (view fields ≡ some value))
  unfolding read_fields
  read_fields-LastValue [] fields value h = inr (tt, h)
  read_fields-LastValue (line ∷ lines) fields value h =
      elim (Option-cases (split_colon (strip line))) [
        | inl e ↦
            elim (read_fields-LastValue lines fields value
              (sym (ap view (read_fields-none line lines fields e)) ∙ h)) [
                | inl there ↦ inl (later line lines there)
                | inr (others, before) ↦ inr ((no_key line e, others), before)
              ]
        | inr ((k, t), e) ↦
            elim (read_fields-LastValue lines (set_field k (strip t) fields) value
              (sym (ap view (read_fields-some line k t lines fields e)) ∙ h)) [
                | inl there ↦ inl (later line lines there)
                | inr (others, before) ↦ elim (Bool-cases (codes_eq k key)) [
                  | inl same ↦ inl (
                      here line lines t
                        (split_colon_lem (strip line) k t e
                          ∙ ap (λ x. x ++ b':' ∷ t) (codes_eq_lem k key same))
                        (some_same _ _ _ _ same (sym (set k (strip t) fields) ∙ before)) others)
                  | inr other ↦ inr (
                    (other_key line k t e other, others),
                    past_other _ _ _ _ other (sym (set k (strip t) fields) ∙ before),
                  )
                ]
              ]
      ]
