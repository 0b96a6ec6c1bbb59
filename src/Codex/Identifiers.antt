-- ===== src/Codex/Identifiers.antt =====
-- bin/workspace_harbor_codex.py: the identifiers and times in an attestation.
use serena_workspace_orchest.Prelude.{
  ℕ, zero, suc, Bool, true, false, ◌&&◌, ◌||◌, Option, none, some, List, [], ◌∷◌, String, not, leb,
  all, if◌then◌else◌, ◌==◌,
}
use serena_workspace_orchest.Prelude.Strings.{codes, text_length, is_empty}
use serena_workspace_orchest.Prelude.Digits.{hex_value, parse_int}
use serena_workspace_orchest.Prelude.Results.{Result, ok, err, raise_if}

-- A `datetime`: its instant in microseconds, and whether it has a time zone.
pub record DateTime : Type 0 where
  pub instant : ℕ
  pub aware : Bool

-- A text as `datetime.fromisoformat` reads it: that of a time, or no time.
pub data TimeText : Type 0 where
  iso : DateTime → TimeText
  other : String → TimeText

-- A value of a heartbeat's dictionary.
pub data Any : Type 0 where
  text : String → Any
  flag : Bool → Any
  moment : DateTime → Any
  nothing : Any

-- `_aware`, with the reason of its `AttestationError`
unfoldable pub aware_instant : DateTime → String → Result String ℕ
aware_instant time reason = if time.aware then ok time.instant else err reason

unfoldable pub is_hex : ℕ → Bool
unfolding hex_value
is_hex c = elim (hex_value c) [ none ↦ false | some d ↦ true ]

-- The text behind n hexadecimal digits.
unfoldable pub skip_hex : ℕ → List ℕ → Option (List ℕ)
unfolding is_hex
skip_hex zero s = some s
skip_hex (suc n) [] = none
skip_hex (suc n) (c ∷ cs) = let rest = skip_hex n cs in if is_hex c then rest else none

-- Groups of hexadecimal digits with a dash between two groups.
unfoldable pub has_groups : List ℕ → Option (List ℕ) → Bool
unfolding skip_hex
has_groups groups none = false
has_groups [] (some []) = true
has_groups [] (some (c ∷ cs)) = false
has_groups (n ∷ groups) (some []) = false
has_groups (n ∷ groups) (some (c ∷ cs)) =
    let rest = has_groups groups (skip_hex n cs) in if c == b'-' then rest else false

-- `str(uuid.UUID(value)) == value.lower()`: the text has the canonical form, in either case.
unfoldable pub is_uuid : String → Bool
unfolding has_groups
is_uuid value = has_groups (4 ∷ 4 ∷ 4 ∷ 12 ∷ []) (skip_hex 8 (codes value))

-- `_uuid`
unfoldable pub check_uuid : String → String → Result String (Unit {0})
unfolding is_uuid
check_uuid value reason = raise_if (not (is_uuid value)) reason

-- 32 characters that `int(value, 16)` takes.
unfoldable pub is_hex_number : String → Bool
unfolding parse_int
is_hex_number value =
    text_length value == 32 && elim (parse_int 16 (codes value)) [ none ↦ false | some n ↦ true ]

-- `_incident_id`
unfoldable pub check_incident_id : String → Result String (Unit {0})
unfolding is_hex_number
check_incident_id value = raise_if (not (is_hex_number value)) "invalid-incident"

abbrev pub is_allowed : ℕ → Bool
is_allowed c =
    (leb b'a' c && leb c b'z')
    || (leb b'A' c && leb c b'Z')
    || (leb b'0' c && leb c b'9')
    || c == b'.'
    || c == 0x5f
    || c == b':'
    || c == b'-'

unfoldable pub is_safe_identifier : String → Bool
is_safe_identifier value =
    not (is_empty value) && leb (text_length value) 128 && all (λ c. is_allowed c) (codes value)

-- `_safe_identifier`
unfoldable pub check_safe_identifier : String → String → Result String (Unit {0})
unfolding is_safe_identifier
check_safe_identifier value reason = raise_if (not (is_safe_identifier value)) reason

unfoldable pub text_value : Any → String → Result String String
text_value (text s) reason = ok s
text_value _ reason = err reason
