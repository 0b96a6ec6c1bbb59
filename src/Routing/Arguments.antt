-- ===== src/Routing/Arguments.antt =====
-- bin/serena_hybrid_routing.py: `_map_line` and `_map_inspection_arguments`.
use serena_workspace_orchest.Prelude.{
  ℕ, suc, ◌-◌, Bool, true, false, not, ◌&&◌, Option, none, some, List, [], ◌∷◌, String, leb, ◌==◌,
  if◌then◌else◌,
}
use serena_workspace_orchest.Prelude.Strings.{codes, codes_eq, is_empty, str_eq}
use serena_workspace_orchest.Prelude.Int.{ℤ, pos, negsuc, int_eq}
use serena_workspace_orchest.Prelude.Results.{Result, ok, err, ◌>>=◌, ◌>>◌, raise_if}
use serena_workspace_orchest.Json.{
  Value, null, bool, int, float, str, obj, arr, Fields, field, end, nil, cons, get, put,
}

-- The messages of a `RoutingError`.
pub data RoutingError : Type 0 where
  file_documentation search_dependencies select_inspections line_bounds : RoutingError
  unsupported_severity : Value → RoutingError

-- `d.pop(k, None)`, the dictionary that it leaves.
unfoldable pub remove : String → Fields → Fields
remove k end = end
remove k (field j v d) = let rest = remove k d in if str_eq j k then rest else field j v rest

-- `bool(v)`
abbrev pub truthy : Value → Bool
truthy null = false
truthy (bool b) = b
truthy (int n) = not (int_eq n (pos 0))
truthy (float m k) = not (int_eq m (pos 0))
truthy (str s) = not (is_empty s)
truthy (obj end) = false
truthy (obj (field k v d)) = true
truthy (arr nil) = false
truthy (arr (cons v vs)) = true

-- `bool(d.get(k))`
unfoldable pub is_set : String → Fields → Bool
unfolding get
is_set k d = elim (get k d) [ none ↦ false | some v ↦ truthy v ]

-- `upper`, as far as the name of a severity can come of it: the dotless i and the long s are the
-- other characters whose capital is an ASCII letter.
abbrev pub upper : ℕ → ℕ
upper c =
    if leb b'a' c && leb c b'z'
    then c - 32
    else if c == 0x131
    then b'I'
    else if c == 0x17f
    then b'S'
    else c

unfoldable pub uppercase : List ℕ → List ℕ
uppercase [] = []
uppercase (c ∷ cs) = upper c ∷ uppercase cs

-- `DIAGNOSTIC_SEVERITIES`
unfoldable pub severity_number : List ℕ → Option ℕ
unfolding codes_eq
severity_number name =
    if codes_eq name (codes "ERROR")
    then some 1
    else if codes_eq name (codes "WARNING")
    then some 2
    else if codes_eq name (codes "WEAK_WARNING")
    then some 3
    else if codes_eq name (codes "INFO")
    then some 3
    else none

unfoldable pub map_severity : Option Value → Result RoutingError ℕ
unfolding severity_number uppercase
map_severity none = ok 4
map_severity (some null) = ok 4
map_severity (some (str s)) = elim (severity_number (uppercase (codes s))) [
  | none ↦ err (unsupported_severity (str s))
  | some n ↦ ok n
]
map_severity (some v) = err (unsupported_severity v)

-- `_map_line`
unfoldable pub map_line : Option Value → ℤ → Result RoutingError ℤ
map_line none default = ok default
map_line (some null) default = ok default
map_line (some (int (pos (suc n)))) default = ok (pos n)
map_line (some v) default = err line_bounds

-- `_map_inspection_arguments`
unfoldable pub map_inspection_arguments : Fields → Result RoutingError Fields
unfolding is_set map_severity map_line remove put get
map_inspection_arguments arguments = do
  raise_if (is_set "inspection_names" arguments) select_inspections
  severity ← map_severity (get "min_severity" arguments)
  start ← map_line (get "start_line" arguments) (pos 0)
  last ← map_line (get "end_line" arguments) (negsuc 0)
  ok (
      put "end_line" (int last) (
        put "start_line" (int start)
          (put "min_severity" (int (pos severity)) (remove "inspection_names" arguments))))
