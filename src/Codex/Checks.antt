-- ===== src/Codex/Checks.antt =====
-- What the checks on identifiers decide (bin/workspace_harbor_codex.py: `_uuid`, `_incident_id` and
-- `_safe_identifier`).
use serena_workspace_orchest.Prelude.{
  ℕ, all, All, ◌≡◌, ◌≤◌, refl, ap, ◌∙◌, ◌↔◌, ◌⊎◌, inl, inr, Bool, true, false, not, ◌&&◌, ◌||◌,
  Option, none, some, List, [], ◌∷◌, String, arith, leb, ◌==◌, Bool-cases, leb→le, le→leb,
}
use serena_workspace_orchest.Prelude.Strings.{codes, text_length, is_empty, eq_iff}
use serena_workspace_orchest.Prelude.Int.{ℤ}
use serena_workspace_orchest.Prelude.Digits.{parse_int}
use serena_workspace_orchest.Prelude.Results.{ok, raise_if}
use serena_workspace_orchest.Codex.Identifiers.{
  is_uuid, check_uuid, is_hex_number, check_incident_id, is_allowed, is_safe_identifier,
  check_safe_identifier,
}
use serena_workspace_orchest.Codex.Shapes.{
  IsLetter, IsUuid, IsSafe, IsIncident, is_uuid-IsUuid, IsUuid-is_uuid,
}

both : (a b : Bool) → (a && b) ≡ true → (a ≡ true) × (b ≡ true)
both true b h = (refl, h)
both false b h = cc

is_allowed-IsLetter : (c : ℕ) → is_allowed c ≡ true → IsLetter c
is_allowed-IsLetter c h = elim (Bool-cases (leb b'a' c && leb c b'z')) [
  | inl e ↦ inl (ground arith, ground arith)
  | inr e ↦ elim (Bool-cases (leb b'A' c && leb c b'Z')) [
    | inl f ↦ inr (inl (ground arith, ground arith))
    | inr f ↦ elim (Bool-cases (leb b'0' c && leb c b'9')) [
      | inl g ↦ inr (inr (inl (ground arith, ground arith)))
      | inr g ↦ inr (inr (inr (one_of c (rw (e, f, g) at h))))
    ]
  ]
]
  where
    one_of :
        (c : ℕ)
        → (c == b'.' || c == 0x5f || c == b':' || c == b'-') ≡ true
        → (c ≡ b'.') ⊎ (c ≡ 0x5f) ⊎ (c ≡ b':') ⊎ (c ≡ b'-')
    one_of c h = elim (Bool-cases (c == b'.')) [
      | inl e ↦ inl (ground arith)
      | inr e ↦ elim (Bool-cases (c == 0x5f)) [
        | inl f ↦ inr (inl (ground arith))
        | inr f ↦ elim (Bool-cases (c == b':')) [
          | inl g ↦ inr (inr (inl (ground arith)))
          | inr g ↦ inr (inr (inr (ground arith)))
        ]
      ]
    ]

IsLetter-is_allowed : (c : ℕ) → IsLetter c → is_allowed c ≡ true
IsLetter-is_allowed c (inl (a, b)) = ground arith
IsLetter-is_allowed c (inr (inl (a, b))) = ground arith
IsLetter-is_allowed c (inr (inr (inl (a, b)))) = ground arith
IsLetter-is_allowed c (inr (inr (inr (inl e)))) = ground arith
IsLetter-is_allowed c (inr (inr (inr (inr (inl e))))) = ground arith
IsLetter-is_allowed c (inr (inr (inr (inr (inr (inl e)))))) = ground arith
IsLetter-is_allowed c (inr (inr (inr (inr (inr (inr e)))))) = ground arith

all-All : (cs : List ℕ) → all (λ c. is_allowed c) cs ≡ true → All IsLetter cs
all-All [] h = tt
all-All (c ∷ cs) h = elim (Bool-cases (is_allowed c)) [
  | inl e ↦ (is_allowed-IsLetter c e, all-All cs (rw (e) at h))
  | inr e ↦ absurd (cc (rw (e) at h))
]

All-all : (cs : List ℕ) → All IsLetter cs → all (λ c. is_allowed c) cs ≡ true
All-all [] a = refl
All-all (c ∷ cs) (letter, others) = rw (IsLetter-is_allowed c letter) (All-all cs others)

-- A text is not empty if it has a character.
not_empty : (value : String) → is_empty value ≡ false → 1 ≤ text_length value
not_empty value h = elim (Bool-cases (leb 1 (text_length value))) [
  | inl e ↦ ground arith
  | inr e ↦ absurd (cc (h, (eq_iff value "").1 (no_codes value (ground arith))))
]
  where
    no_codes : (s : String) → text_length s ≡ 0 → s ≡ ""
    no_codes String.[] z = refl
    no_codes (String.◌∷◌ c s) z = absurd (omega (arith, z))

has_character : (value : String) → 1 ≤ text_length value → is_empty value ≡ false
has_character value h = elim (Bool-cases (is_empty value)) [
  | inr e ↦ e
  | inl e ↦
      let no_text : text_length value ≡ 0 = ap (λ s. text_length s) ((eq_iff value "").0 e) in
      absurd (omega (arith, h, no_text))
]

is_safe_identifier-IsSafe : (value : String) → is_safe_identifier value ≡ true → IsSafe value
unfolding is_safe_identifier
is_safe_identifier-IsSafe value h =
    let (front, letters) =
      both (not (is_empty value) && leb (text_length value) 128)
        (all (λ c. is_allowed c) (codes value)) h in
    let (filled, short) = both (not (is_empty value)) (leb (text_length value) 128) front in
    (
      (not_empty value (negated (is_empty value) filled), leb→le (text_length value) 128 short),
      all-All (codes value) letters,
    )
  where
    negated : (b : Bool) → not b ≡ true → b ≡ false
    negated true h = cc
    negated false h = refl

IsSafe-is_safe_identifier : (value : String) → IsSafe value → is_safe_identifier value ≡ true
unfolding is_safe_identifier
IsSafe-is_safe_identifier value ((low, high), letters) =
    rw (has_character value low, le→leb (text_length value) 128 high, All-all (codes value) letters)
      refl

abbrev is_number : Option ℤ → Bool
is_number o = elim o [ none ↦ false | some n ↦ true ]

number_of : (o : Option ℤ) → is_number o ≡ true → (n : ℤ) × (o ≡ some n)
number_of none h = cc
number_of (some n) h = (n, refl)

eq_of : (a b : ℕ) → (a == b) ≡ true → a ≡ b
eq_of a b h = ground arith

of_eq : (a b : ℕ) → a ≡ b → (a == b) ≡ true
of_eq a b h = ground arith

is_hex_number-IsIncident : (value : String) → is_hex_number value ≡ true → IsIncident value
unfolding is_hex_number
is_hex_number-IsIncident value h =
    let (size, read) = both (text_length value == 32) (is_number (parse_int 16 (codes value))) h in
    let (n, e) = number_of (parse_int 16 (codes value)) read in
    (eq_of (text_length value) 32 size, n, e)

IsIncident-is_hex_number : (value : String) → IsIncident value → is_hex_number value ≡ true
unfolding is_hex_number
IsIncident-is_hex_number value (size, n, e) =
    ap (λ b. b && is_number (parse_int 16 (codes value))) (of_eq (text_length value) 32 size)
    ∙ ap is_number e

-- A check by a test passes exactly if the test does.
passes : (b : Bool) (reason : String) → raise_if (not b) reason ≡ ok tt → b ≡ true
passes true reason h = refl
passes false reason h = cc

passed : (b : Bool) (reason : String) → b ≡ true → raise_if (not b) reason ≡ ok tt
passed true reason h = refl
passed false reason h = cc

pub check_uuid_iff : (value reason : String) → (check_uuid value reason ≡ ok tt) ↔ IsUuid value
unfolding check_uuid
check_uuid_iff value reason = (
  λ h. is_uuid-IsUuid value (passes (is_uuid value) reason h),
  λ u. passed (is_uuid value) reason (IsUuid-is_uuid value u),
)

pub check_incident_id_iff : (value : String) → (check_incident_id value ≡ ok tt) ↔ IsIncident value
unfolding check_incident_id
check_incident_id_iff value = (
  λ h. is_hex_number-IsIncident value (passes (is_hex_number value) _ h),
  λ i. passed (is_hex_number value) _ (IsIncident-is_hex_number value i),
)

pub check_safe_identifier_iff :
    (value reason : String) → (check_safe_identifier value reason ≡ ok tt) ↔ IsSafe value
unfolding check_safe_identifier
check_safe_identifier_iff value reason = (
  λ h. is_safe_identifier-IsSafe value (passes (is_safe_identifier value) reason h),
  λ i. passed (is_safe_identifier value) reason (IsSafe-is_safe_identifier value i),
)
