-- ===== src/Prelude/Shell.antt =====
-- `shlex.split`: the words of a command line.
use Prim.Native.Nat.{ℕ}
use mathlib.Core.Bool.{Bool, true, false, ◌&&◌, ◌||◌}
use mathlib.Core.Option.{Option, none, some}
use mathlib.Core.List.{List, [], ◌∷◌, ◌++◌}
use serena_workspace_orchest.Prelude.Tests.{◌==◌, if◌then◌else◌}

-- Between words, in a word, in quotes of one kind, or behind a backslash (in quotes or not).
pub data Mode : Type 0 where
  between word : Mode
  quoted : ℕ → Mode
  escaped : Option ℕ → Mode

abbrev pub is_blank : ℕ → Bool
is_blank c = c == 32 || c == 9 || c == 13 || c == 10

abbrev pub is_quote : ℕ → Bool
is_quote c = c == 0x22 || c == 0x27

-- The mode and the word so far, and whether the word that was read has ended.
pub record Scan : Type 0 where
  pub mode : Mode
  pub token : List ℕ
  pub ends : Bool

unfoldable pub outside : ℕ → List ℕ → Scan
outside c token =
    if is_quote c
    then record { mode = quoted c; token = token; ends = false }
    else if c == 0x5c
    then record { mode = escaped none; token = token; ends = false }
    else record { mode = word; token = token ++ c ∷ []; ends = false }

unfoldable pub scan : Mode → List ℕ → ℕ → Scan
unfolding outside
scan between token c =
    if is_blank c then record { mode = between; token = []; ends = false } else outside c []
scan word token c =
    if is_blank c then record { mode = between; token = token; ends = true } else outside c token
scan (quoted q) token c =
    if c == q
    then record { mode = word; token = token; ends = false }
    else if c == 0x5c && q == 0x22
    then record { mode = escaped (some q); token = token; ends = false }
    else record { mode = quoted q; token = token ++ c ∷ []; ends = false }
scan (escaped none) token c = record { mode = word; token = token ++ c ∷ []; ends = false }
scan (escaped (some q)) token c = record {
  mode = quoted q;
  token = token ++ (if c == 0x5c || c == q then c ∷ [] else 0x5c ∷ c ∷ []);
  ends = false;
}

unfoldable pub finish : Mode → List ℕ → Option (List (List ℕ))
finish between token = some []
finish word token = some (token ∷ [])
finish _ token = none

unfoldable pub words_from : Mode → List ℕ → List ℕ → Option (List (List ℕ))
unfolding scan finish
words_from mode token [] = finish mode token
words_from mode token (c ∷ cs) =
    let next = scan mode token c in
    let rest = words_from next.mode (if next.ends then [] else next.token) cs in
    if next.ends then elim rest [ none ↦ none | some words ↦ some (next.token ∷ words) ] else rest

-- `none` stands for `ValueError`: a quotation that does not end, or a backslash at the end.
unfoldable pub shell_split : List ℕ → Option (List (List ℕ))
unfolding words_from
shell_split s = words_from between [] s
