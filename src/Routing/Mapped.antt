-- ===== src/Routing/Mapped.antt =====
-- What becomes of the arguments of an inspection (bin/serena_hybrid_routing.py).
use serena_workspace_orchest.Prelude.{
  ℕ, suc, ◌≤◌, ◌≡◌, subst, inl, inr, Option, none, some, List, String, arith, if◌then◌else◌,
  Option-cases,
}
use serena_workspace_orchest.Prelude.Strings.{str_eq, eq_iff, codes}
use serena_workspace_orchest.Prelude.Int.{ℤ, pos, negsuc}
use serena_workspace_orchest.Prelude.Results.{ok, raise_if, ok_of_bind, ok_of_then, ok-injective}
use serena_workspace_orchest.Json.{Value, null, int, str, Fields, field, end, get, put, get-put}
use serena_workspace_orchest.Routing.Arguments.{
  remove, is_set, map_severity, severity_number, uppercase, map_line, map_inspection_arguments,
  select_inspections,
}

pub get-remove :
    (k j : String) (d : Fields) → get j (remove k d) ≡ (if str_eq k j then none else get j d)
unfolding get remove
get-remove k j end = ground arith
get-remove k j (field i v d) = ground (arith, eq_iff k j, eq_iff i k, eq_iff i j, get-remove k j d)

severity_number_bounds : (name : List ℕ) (n : ℕ) → severity_number name ≡ some n → (1 ≤ n) × (n ≤ 3)
unfolding severity_number
severity_number_bounds name n h = ground arith

map_severity_bounds : (v : Option Value) (n : ℕ) → map_severity v ≡ ok n → (1 ≤ n) × (n ≤ 4)
unfolding map_severity
map_severity_bounds none n h = ground arith
map_severity_bounds (some null) n h = ground arith
map_severity_bounds (some (str s)) n h =
    elim (Option-cases (severity_number (uppercase (codes s)))) [
      | inl e ↦ absurd (ground arith)
      | inr (m, e) ↦ ground (arith, severity_number_bounds (uppercase (codes s)) m e)
    ]
map_severity_bounds (some _) n h = absurd (ground arith)

-- The zero-based line that stands for a line of the arguments, or the default for none.
pub data IsLine (default : ℤ) : Option Value → ℤ → Type 0 where
  no_line : IsLine default none default
  null_line : IsLine default (some null) default
  from_one : (n : ℕ) → IsLine default (some (int (pos (suc n)))) (pos n)

map_line-IsLine :
    (v : Option Value) (default line : ℤ) → map_line v default ≡ ok line → IsLine default v line
unfolding map_line
map_line-IsLine none default line h = subst (λ l. IsLine default none l) (ok-injective h) no_line
map_line-IsLine (some null) default line h =
    subst (λ l. IsLine default (some null) l) (ok-injective h) null_line
map_line-IsLine (some (int (pos (suc n)))) default line h =
    subst (λ l. IsLine default (some (int (pos (suc n)))) l) (ok-injective h) (from_one n)
map_line-IsLine (some _) default line h = absurd (ground arith)

pub record IsMapped (arguments mapped : Fields) : Type 0 where
  pub severity : ℕ
  pub in_range : (1 ≤ severity) × (severity ≤ 4)
  pub start : ℤ
  pub start_line : IsLine (pos 0) (get "start_line" arguments) start
  pub last : ℤ
  pub end_line : IsLine (negsuc 0) (get "end_line" arguments) last
  pub lookups :
      (key : String)
      → get key mapped ≡ (
          if str_eq "end_line" key
          then some (int last)
          else if str_eq "start_line" key
          then some (int start)
          else if str_eq "min_severity" key
          then some (int (pos severity))
          else if str_eq "inspection_names" key
          then none
          else get key arguments)

-- The mapped arguments: the lookups at each key, from what is put.
get_mapped :
    (key : String) (d : Fields) (severity start last : Value)
    → get key (
        put "end_line" last
          (put "start_line" start (put "min_severity" severity (remove "inspection_names" d))))
      ≡ (if str_eq "end_line" key
          then some last
          else if str_eq "start_line" key
          then some start
          else if str_eq "min_severity" key
          then some severity
          else if str_eq "inspection_names" key
          then none
          else get key d)
get_mapped key d severity start last = rw (
  get-put "end_line" key last
      (put "start_line" start (put "min_severity" severity (remove "inspection_names" d))),
  get-put "start_line" key start (put "min_severity" severity (remove "inspection_names" d)),
  get-put "min_severity" key severity (remove "inspection_names" d),
  get-remove "inspection_names" key d,
)

-- If the arguments of an inspection are mapped: the severity is a number from 1 to 4, the bounds
-- are zero-based lines (from the first to the last line where none is given), no inspection is
-- selected, and every other argument is as it was.
pub map_inspection_arguments_lem :
    (arguments mapped : Fields)
    → map_inspection_arguments arguments ≡ ok mapped
    → IsMapped arguments mapped
unfolding map_inspection_arguments
map_inspection_arguments_lem arguments mapped h =
    let (unset, h1) =
      ok_of_then (raise_if (is_set "inspection_names" arguments) select_inspections) _ h in
    let (severity, s, h2) = ok_of_bind (map_severity (get "min_severity" arguments)) _ h1 in
    let (start, b, h3) = ok_of_bind (map_line (get "start_line" arguments) (pos 0)) _ h2 in
    let (last, e, h4) = ok_of_bind (map_line (get "end_line" arguments) (negsuc 0)) _ h3 in
    subst (IsMapped arguments) (ok-injective h4) (record {
      severity = severity;
      in_range = map_severity_bounds (get "min_severity" arguments) severity s;
      start = start;
      start_line = map_line-IsLine (get "start_line" arguments) (pos 0) start b;
      last = last;
      end_line = map_line-IsLine (get "end_line" arguments) (negsuc 0) last e;
      lookups = λ key. get_mapped key arguments (int (pos severity)) (int start) (int last);
    })
