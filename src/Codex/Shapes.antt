-- ===== src/Codex/Shapes.antt =====
-- The shapes of identifiers, and when a text is a UUID (bin/workspace_harbor_codex.py: `_uuid`).
use serena_workspace_orchest.Prelude.{
  ℕ, zero, suc, All, ◌≡◌, ◌≤◌, refl, sym, ap, subst, ◌∙◌, ◌⊎◌, inl, inr, true, ◌&&◌, Option, none,
  some, List, [], ◌∷◌, ◌++◌, String, arith, leb, ◌==◌, length, Bool-cases,
}
use serena_workspace_orchest.Prelude.Strings.{codes, text_length}
use serena_workspace_orchest.Prelude.Int.{ℤ}
use serena_workspace_orchest.Prelude.Digits.{hex_value, parse_int}
use serena_workspace_orchest.Codex.Identifiers.{is_hex, skip_hex, has_groups, is_uuid}

abbrev pub Between : ℕ → ℕ → ℕ → Type 0
Between low high c = (low ≤ c) × (c ≤ high)

abbrev pub IsHexDigit : ℕ → Type 0
IsHexDigit c = Between b'0' b'9' c ⊎ Between b'a' b'f' c ⊎ Between b'A' b'F' c

-- That many hexadecimal digits.
abbrev pub IsGroup : ℕ → List ℕ → Type 0
IsGroup n part = (length part ≡ n) × All IsHexDigit part

-- Each group behind a dash.
abbrev pub AreGroups : List ℕ → List ℕ → Type 0
AreGroups [] s = s ≡ []
AreGroups (n ∷ ns) s =
    (part : List ℕ) × (rest : List ℕ) × (s ≡ b'-' ∷ part ++ rest)
    × IsGroup n part
    × AreGroups ns rest

-- Groups of 8, 4, 4, 4 and 12 hexadecimal digits with dashes between them.
abbrev pub IsUuid : String → Type 0
IsUuid value =
    (part : List ℕ) × (rest : List ℕ) × (codes value ≡ part ++ rest)
    × IsGroup 8 part
    × AreGroups (4 ∷ 4 ∷ 4 ∷ 12 ∷ []) rest

abbrev pub IsLetter : ℕ → Type 0
IsLetter c =
    Between b'a' b'z' c
    ⊎ Between b'A' b'Z' c
    ⊎ Between b'0' b'9' c
    ⊎ (c ≡ b'.')
    ⊎ (c ≡ 0x5f)
    ⊎ (c ≡ b':')
    ⊎ (c ≡ b'-')

-- 1 to 128 letters, digits, dots, underscores, colons and dashes.
abbrev pub IsSafe : String → Type 0
IsSafe value = Between 1 128 (text_length value) × All IsLetter (codes value)

-- 32 characters that are a number to the base 16.
abbrev pub IsIncident : String → Type 0
IsIncident value = (text_length value ≡ 32) × (n : ℤ) × (parse_int 16 (codes value) ≡ some n)

is_hex-IsHexDigit : (c : ℕ) → is_hex c ≡ true → IsHexDigit c
unfolding is_hex hex_value
is_hex-IsHexDigit c h = elim (Bool-cases (leb b'0' c && leb c b'9')) [
  | inl e ↦ inl (ground arith, ground arith)
  | inr e ↦ elim (Bool-cases (leb b'a' c && leb c b'f')) [
    | inl f ↦ inr (inl (ground arith, ground arith))
    | inr f ↦ elim (Bool-cases (leb b'A' c && leb c b'F')) [
      | inl g ↦ inr (inr (ground arith, ground arith))
      | inr g ↦ absurd (ground arith)
    ]
  ]
]

IsHexDigit-is_hex : (c : ℕ) → IsHexDigit c → is_hex c ≡ true
unfolding is_hex hex_value
IsHexDigit-is_hex c (inl (a, b)) = ground arith
IsHexDigit-is_hex c (inr (inl (a, b))) = ground arith
IsHexDigit-is_hex c (inr (inr (a, b))) = ground arith

skip_hex-IsGroup :
    (n : ℕ) (s rest : List ℕ)
    → skip_hex n s ≡ some rest
    → (part : List ℕ) × (s ≡ part ++ rest) × IsGroup n part
unfolding skip_hex
skip_hex-IsGroup zero s rest h = ([], ground arith, (refl, tt))
skip_hex-IsGroup (suc n) [] rest h = cc
skip_hex-IsGroup (suc n) (c ∷ cs) rest h = elim (Bool-cases (is_hex c)) [
  | inr e ↦ absurd (cc (rw (e) at h))
  | inl e ↦
      let (part, split, (size, digits)) = skip_hex-IsGroup n cs rest (rw (e) at h) in
      (c ∷ part, ap (λ x. c ∷ x) split, (ap suc size, (is_hex-IsHexDigit c e, digits)))
]

IsGroup-skip_hex :
    (n : ℕ) (part rest : List ℕ) → IsGroup n part → skip_hex n (part ++ rest) ≡ some rest
unfolding skip_hex
IsGroup-skip_hex zero [] rest g = refl
IsGroup-skip_hex zero (c ∷ part) rest (size, digits) = absurd (omega (arith, size))
IsGroup-skip_hex (suc n) [] rest (size, digits) = absurd (omega (arith, size))
IsGroup-skip_hex (suc n) (c ∷ part) rest (size, (digit, digits)) =
    rw (IsHexDigit-is_hex c digit) (IsGroup-skip_hex n part rest (omega (arith, size), digits))

text_behind :
    (groups : List ℕ) (o : Option (List ℕ))
    → has_groups groups o ≡ true
    → (rest : List ℕ) × (o ≡ some rest) × (has_groups groups (some rest) ≡ true)
unfolding has_groups
text_behind groups none h = cc
text_behind groups (some rest) h = (rest, refl, h)

has_groups-AreGroups : (groups s : List ℕ) → has_groups groups (some s) ≡ true → AreGroups groups s
unfolding has_groups
has_groups-AreGroups [] [] h = refl
has_groups-AreGroups [] (c ∷ cs) h = cc
has_groups-AreGroups (n ∷ groups) [] h = cc
has_groups-AreGroups (n ∷ groups) (c ∷ cs) h = elim (Bool-cases (c == b'-')) [
  | inr e ↦ absurd (cc (rw (e) at h))
  | inl e ↦
      let (rest, skipped, further) = text_behind groups (skip_hex n cs) (rw (e) at h) in
      let (part, split, group) = skip_hex-IsGroup n cs rest skipped in
      let dash : c ≡ b'-' = ground arith in
      (
        part,
        rest,
        ap (λ x. x ∷ cs) dash ∙ ap (λ x. b'-' ∷ x) split,
        group,
        has_groups-AreGroups groups rest further,
      )
]

AreGroups-has_groups : (groups s : List ℕ) → AreGroups groups s → has_groups groups (some s) ≡ true
unfolding has_groups
AreGroups-has_groups [] s e = subst (λ x. has_groups [] (some x) ≡ true) (sym e) refl
AreGroups-has_groups (n ∷ groups) s (part, rest, split, group, others) =
    subst (λ x. has_groups (n ∷ groups) (some x) ≡ true) (sym split)
      (rw (IsGroup-skip_hex n part rest group) (AreGroups-has_groups groups rest others))

pub is_uuid-IsUuid : (value : String) → is_uuid value ≡ true → IsUuid value
unfolding is_uuid
is_uuid-IsUuid value h =
    let (rest, skipped, further) = text_behind (4 ∷ 4 ∷ 4 ∷ 12 ∷ []) (skip_hex 8 (codes value)) h in
    let (part, split, group) = skip_hex-IsGroup 8 (codes value) rest skipped in
    (part, rest, split, group, has_groups-AreGroups (4 ∷ 4 ∷ 4 ∷ 12 ∷ []) rest further)

pub IsUuid-is_uuid : (value : String) → IsUuid value → is_uuid value ≡ true
unfolding is_uuid
IsUuid-is_uuid value (part, rest, split, group, groups) =
    ap (λ s. has_groups (4 ∷ 4 ∷ 4 ∷ 12 ∷ []) (skip_hex 8 s)) split
    ∙ ap (has_groups (4 ∷ 4 ∷ 4 ∷ 12 ∷ [])) (IsGroup-skip_hex 8 part rest group)
    ∙ AreGroups-has_groups (4 ∷ 4 ∷ 4 ∷ 12 ∷ []) rest groups
