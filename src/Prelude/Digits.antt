-- ===== src/Prelude/Digits.antt =====
-- `int(text)` and `int(text, 16)`, over ASCII digits.
use serena_workspace_orchest.Prelude.Tests.{◌==◌, leb, if◌then◌else◌}
use serena_workspace_orchest.Prelude.Strings.{strip}
use serena_workspace_orchest.Prelude.Int.{ℤ, pos, negsuc}
use Prim.Native.Nat.{ℕ, zero, suc, ◌+◌, ◌-◌, ◌*◌}
use mathlib.Core.Bool.{Bool, true, false, ◌&&◌, ◌||◌}
use mathlib.Core.Option.{Option, none, some}
use mathlib.Core.List.{List, [], ◌∷◌}

-- The value of a hexadecimal digit.
unfoldable pub hex_value : ℕ → Option ℕ
hex_value c =
    if leb b'0' c && leb c b'9'
    then some (c - b'0')
    else if leb b'a' c && leb c b'f'
    then some (c - b'a' + 10)
    else if leb b'A' c && leb c b'F'
    then some (c - b'A' + 10)
    else none

unfoldable pub digit_value : ℕ → ℕ → Option ℕ
unfolding hex_value
digit_value base c = elim (hex_value c) [
  | none ↦ none
  | some d ↦ if leb base d then none else some d
]

-- One character: a digit, or an underscore behind a digit. The flag says that a digit was last.
unfoldable pub digit_step : ℕ → ℕ → ℕ × Bool → Option (ℕ × Bool)
unfolding digit_value
digit_step base c (value, digit_last) =
    if c == 0x5f
    then (if digit_last then some (value, false) else none)
    else elim (digit_value base c) [ none ↦ none | some d ↦ some (value * base + d, true) ]

unfoldable pub digits_from : ℕ → List ℕ → ℕ × Bool → Option ℕ
unfolding digit_step
digits_from base [] (value, digit_last) = if digit_last then some value else none
digits_from base (c ∷ cs) state = elim (digit_step base c state) [
  | none ↦ none
  | some next ↦ digits_from base cs next
]

-- `0x` and one underscore may stand in front of hexadecimal digits.
unfoldable pub after_prefix : ℕ → List ℕ → List ℕ
after_prefix base (zero' ∷ x ∷ c ∷ cs) =
    if base == 16 && zero' == b'0' && (x == b'x' || x == b'X')
    then (if c == 0x5f then cs else c ∷ cs)
    else zero' ∷ x ∷ c ∷ cs
after_prefix base s = s

unfoldable pub signed : Bool → ℕ → ℤ
signed negative zero = pos zero
signed true (suc n) = negsuc n
signed false (suc n) = pos (suc n)

unfoldable pub parse_signed : Bool → ℕ → List ℕ → Option ℤ
unfolding digits_from after_prefix signed
parse_signed negative base s = elim (digits_from base (after_prefix base s) (0, false)) [
  | none ↦ none
  | some n ↦ some (signed negative n)
]

-- `int(text, base)` for the bases 10 and 16; `none` stands for `ValueError`.
unfoldable pub parse_int : ℕ → List ℕ → Option ℤ
unfolding parse_signed strip
parse_int base text = elim (strip text) [
  | [] ↦ none
  | c ∷ cs ↦
      if c == b'-'
      then parse_signed true base cs
      else if c == b'+'
      then parse_signed false base cs
      else parse_signed false base (c ∷ cs)
]
