-- ===== src/Json.antt =====
-- The values of `json.loads`, and the dictionary operations that the program uses on them.
use serena_workspace_orchest.Prelude.{
  ℕ, suc, ◌*◌, ◌^◌, ◌≡◌, refl, Bool, true, false, Option, none, some, List, [], ◌∷◌, String, arith,
  if◌then◌else◌,
}
use serena_workspace_orchest.Prelude.Int.{ℤ, pos, negsuc, int_eq}
use serena_workspace_orchest.Prelude.Strings.{str_eq, eq_iff}

-- `float m k` is the finite double m / 2^k.
mutual
  pub data Value : Type 0 where
    null : Value
    bool : Bool → Value
    int : ℤ → Value
    float : ℤ → ℕ → Value
    str : String → Value
    obj : Fields → Value
    arr : Items → Value

  pub data Fields : Type 0 where
    field : String → Value → Fields → Fields
    end : Fields

  pub data Items : Type 0 where
    cons : Value → Items → Items
    nil : Items

-- `d.get(k)`
unfoldable pub get : String → Fields → Option Value
get k end = none
get k (field j v d) = if str_eq j k then some v else get k d

-- `d[k] = v`
unfoldable pub put : String → Value → Fields → Fields
put k v end = field k v end
put k v (field j w d) = if str_eq j k then field j v d else field j w (put k v d)

pub get-put :
    (k j : String) (v : Value) (d : Fields)
    → get j (put k v d) ≡ (if str_eq k j then some v else get j d)
unfolding get put
get-put k j v end = refl
get-put k j v (field i w d) = ground (arith, eq_iff k j, eq_iff i k, eq_iff i j, get-put k j v d)

-- A `bool` is an `int` to `isinstance`.
abbrev pub as_int : Value → Option ℤ
as_int (int n) = some n
as_int (bool true) = some (pos 1)
as_int (bool false) = some (pos 0)
as_int _ = none

abbrev pub as_str : Value → Option String
as_str (str s) = some s
as_str _ = none

abbrev pub as_dict : Value → Option Fields
as_dict (obj d) = some d
as_dict _ = none

abbrev pub is_number : Value → Bool
is_number (int n) = true
is_number (bool b) = true
is_number (float m k) = true
is_number _ = false

abbrev scale : ℤ → ℕ → ℤ
scale (pos n) k = pos (n * 2 ^ k)
scale (negsuc n) k = negsuc ((suc n) * 2 ^ k)

-- `v == n` for a number n: a float equals an integer by value.
abbrev pub eq_int : Value → ℤ → Bool
eq_int (float m k) n = int_eq m (scale n k)
eq_int v n = elim (as_int v) [ none ↦ false | some m ↦ int_eq m n ]

-- `v == s` for a text s
abbrev pub eq_str : Value → String → Bool
eq_str (str t) s = str_eq t s
eq_str _ _ = false

-- `d.get(k) == n`, `d.get(k) == s`: a missing key gives None, which equals neither.
abbrev pub holds_int : String → Fields → ℤ → Bool
holds_int k d n = elim (get k d) [ none ↦ false | some v ↦ eq_int v n ]

abbrev pub holds_str : String → Fields → String → Bool
holds_str k d s = elim (get k d) [ none ↦ false | some v ↦ eq_str v s ]

-- The elements of a list, if all are dictionaries; a list of dictionaries as a value.
unfoldable pub dicts : Items → Option (List Fields)
dicts nil = some []
dicts (cons v vs) = elim (as_dict v) [
  | none ↦ none
  | some d ↦ elim (dicts vs) [ none ↦ none | some ds ↦ some (d ∷ ds) ]
]

unfoldable pub items : List Fields → Items
items [] = nil
items (d ∷ ds) = cons (obj d) (items ds)

pub dicts-items : (ds : List Fields) → dicts (items ds) ≡ some ds
unfolding dicts items
dicts-items [] = refl
dicts-items (d ∷ ds) = ground (arith, dicts-items ds)
