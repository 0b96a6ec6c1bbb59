-- ===== src/Prelude/Strings.antt =====
-- Texts: the native `String` where texts are compared, and its code points where they are walked.
use Prim.Native.Nat.{ℕ, zero, suc}
use Prim.Native.Char.{code}
use Prim.Native.String.{String}
use mathlib.Core.Bool.{Bool, true, false, ◌&&◌, ◌||◌}
use mathlib.Core.List.{List, [], ◌∷◌, reverse}
use serena_workspace_orchest.Prelude.Tests.{◌==◌, leb, ltb, if◌then◌else◌}
use serena_workspace_orchest.Prelude.Lists.{length}
pub use text.Mathlib.Text.{◌==◌ as str_eq}
pub use text.Mathlib.TextEquality.{eq_iff}
pub use text.Mathlib.TextPositions.{eq_refl}

abbrev pub codes : String → List ℕ
codes String.[] = []
codes (String.◌∷◌ c s) = code c ∷ codes s

-- `len(s)`
abbrev pub text_length : String → ℕ
text_length s = length (codes s)

abbrev pub is_empty : String → Bool
is_empty s = str_eq s ""

-- `xs.startswith(ps)`
unfoldable pub has_prefix : List ℕ → List ℕ → Bool
has_prefix [] xs = true
has_prefix (p ∷ ps) [] = false
has_prefix (p ∷ ps) (x ∷ xs) = p == x && has_prefix ps xs

-- `part in xs`
unfoldable pub has_infix : List ℕ → List ℕ → Bool
unfolding has_prefix
has_infix part [] = has_prefix part []
has_infix part (x ∷ xs) = has_prefix part (x ∷ xs) || has_infix part xs

unfoldable pub contains : String → String → Bool
unfolding has_infix
contains part s = has_infix (codes part) (codes s)

-- `x in {s, t, ...}`
unfoldable pub member : String → List String → Bool
member x [] = false
member x (s ∷ ss) = str_eq x s || member x ss

-- A text that is held as code points equals a `String`.
unfoldable pub codes_eq : List ℕ → List ℕ → Bool
codes_eq [] [] = true
codes_eq (x ∷ xs) (y ∷ ys) = x == y && codes_eq xs ys
codes_eq _ _ = false

unfoldable pub codes_member : List ℕ → List (List ℕ) → Bool
unfolding codes_eq
codes_member x [] = false
codes_member x (y ∷ ys) = codes_eq x y || codes_member x ys

-- The characters that `str.split()` and `str.strip()` take for white space.
unfoldable pub is_space : ℕ → Bool
is_space c =
    (leb 9 c && leb c 13)
    || (leb 28 c && leb c 32)
    || c == 0x85
    || c == 0xa0
    || c == 0x1680
    || (leb 0x2000 c && leb c 0x200a)
    || c == 0x2028
    || c == 0x2029
    || c == 0x202f
    || c == 0x205f
    || c == 0x3000

unfoldable pub drop_spaces : List ℕ → List ℕ
unfolding is_space
drop_spaces [] = []
drop_spaces (c ∷ cs) = if is_space c then drop_spaces cs else c ∷ cs

-- `s.strip()`
unfoldable pub strip : List ℕ → List ℕ
unfolding drop_spaces
strip s = reverse (drop_spaces (reverse (drop_spaces s)))

-- The first word, and what follows it.
unfoldable pub span_word : List ℕ → List ℕ × List ℕ
unfolding is_space
span_word [] = ([], [])
span_word (c ∷ cs) =
    let (word, rest) = span_word cs in if is_space c then ([], c ∷ cs) else (c ∷ word, rest)

-- `s.split(None, n)`
unfoldable pub split_words : ℕ → List ℕ → List (List ℕ)
unfolding drop_spaces span_word
split_words zero s = elim (drop_spaces s) [ [] ↦ [] | c ∷ cs ↦ (c ∷ cs) ∷ [] ]
split_words (suc n) s = elim (drop_spaces s) [
  | [] ↦ []
  | c ∷ cs ↦ let (word, rest) = span_word (c ∷ cs) in word ∷ split_words n rest
]

-- `s.splitlines()`
unfoldable pub is_line_break : ℕ → Bool
is_line_break c =
    (leb 10 c && leb c 13) || (leb 28 c && leb c 30) || c == 0x85 || c == 0x2028 || c == 0x2029

add_to_first : ℕ → List (List ℕ) → List (List ℕ)
add_to_first c [] = (c ∷ []) ∷ []
add_to_first c (l ∷ ls) = (c ∷ l) ∷ ls

-- A carriage return before a line feed ends its line with it.
unfoldable pub split_lines : List ℕ → List (List ℕ)
unfolding add_to_first is_line_break has_prefix
split_lines [] = []
split_lines (c ∷ cs) =
    let rest = split_lines cs in
    if c == 13 && has_prefix (10 ∷ []) cs
    then rest
    else if is_line_break c
    then [] ∷ rest
    else add_to_first c rest

-- `xs < ys`
unfoldable pub codes_before : List ℕ → List ℕ → Bool
codes_before xs [] = false
codes_before [] (y ∷ ys) = true
codes_before (x ∷ xs) (y ∷ ys) = if ltb x y then true else x == y && codes_before xs ys
