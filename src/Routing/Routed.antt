-- ===== src/Routing/Routed.antt =====
-- Where a tool call goes (bin/serena_hybrid_routing.py).
use serena_workspace_orchest.Prelude.{
  ◌≡◌, sym, ap, subst, ◌∙◌, ◌⊎◌, inl, inr, Bool, true, false, Option, none, some, List, [], ◌∷◌,
  String, map, arith, if◌then◌else◌, Occurs, Bool-cases, Option-cases,
}
use serena_workspace_orchest.Prelude.Results.{
  Result, ok, err, raise_if, raise_if-eq-ok, ok_of_bind, ok_of_then, ok-injective, Result-cases,
}
use serena_workspace_orchest.Prelude.Strings.{str_eq, eq_iff}
use serena_workspace_orchest.Json.{Value, Fields, get}
use serena_workspace_orchest.Routing.Native.{FileSystem, is_native_relative_file}
use serena_workspace_orchest.Routing.Arguments.{
  RoutingError, select_inspections, truthy, is_set, remove, map_inspection_arguments,
}
use serena_workspace_orchest.Routing.Calls.{
  primary, secondary, RoutedToolCall, find_tool, routed_tools, drop_option, map_arguments, or_empty,
  call, to_secondary, route_tool_call,
}
use serena_workspace_orchest.Routing.Mapped.{get-remove, IsMapped, map_inspection_arguments_lem}
use serena_workspace_orchest.Routing.Inside.{IsInside, native-IsInside}

-- An option is missing, or its value counts as false.
abbrev pub IsUnset : String → Fields → Type 0
IsUnset key arguments =
    (get key arguments ≡ none) ⊎ ((v : Value) × (get key arguments ≡ some v) × (truthy v ≡ false))

-- An option that is not set is left out, and every other argument is as it was.
abbrev pub IsDropped : String → Fields → Fields → Type 0
IsDropped key arguments mapped =
    IsUnset key arguments
    × ((other : String)
        → get other mapped ≡ (if str_eq key other then none else get other arguments))

-- The six tools with a counterpart, its name, and what becomes of the arguments.
pub data IsTranslated : String → String → Fields → Fields → Type 0 where
  overview :
      (a m : Fields)
      → IsDropped "include_file_documentation" a m
      → IsTranslated "jet_brains_get_symbols_overview" "get_symbols_overview" a m
  symbol :
      (a m : Fields)
      → IsDropped "search_deps" a m
      → IsTranslated "jet_brains_find_symbol" "find_symbol" a m
  references :
      (a : Fields)
      → IsTranslated "jet_brains_find_referencing_symbols" "find_referencing_symbols" a a
  declaration : (a : Fields) → IsTranslated "jet_brains_find_declaration" "find_declaration" a a
  implementations :
      (a : Fields) → IsTranslated "jet_brains_find_implementations" "find_implementations" a a
  inspections :
      (a m : Fields)
      → IsUnset "inspection_names" a
      → IsMapped a m
      → IsTranslated "jet_brains_run_inspections" "get_diagnostics_for_file" a m

abbrev pub translated_tools : List String
translated_tools =
    "jet_brains_get_symbols_overview" ∷ "jet_brains_find_symbol"
    ∷ "jet_brains_find_referencing_symbols" ∷ "jet_brains_find_declaration"
    ∷ "jet_brains_find_implementations" ∷ "jet_brains_run_inspections" ∷ []

is_set-IsUnset : (key : String) (a : Fields) → is_set key a ≡ false → IsUnset key a
unfolding is_set
is_set-IsUnset key a h = elim (Option-cases (get key a)) [
  | inl e ↦ inl e
  | inr (v, e) ↦ inr (v, e, rw (is_set, e) at h)
]

drop_option-IsDropped :
    (key : String) (failure : RoutingError) (a m : Fields)
    → drop_option key failure a ≡ ok m
    → IsDropped key a m
unfolding drop_option
drop_option-IsDropped key failure a m h = elim (Bool-cases (is_set key a)) [
  | inl e ↦ absurd (cc (rw (drop_option, e) at h))
  | inr e ↦
      let same : remove key a ≡ m = ok-injective {E = RoutingError} (rw (drop_option, e) at h) in
      (is_set-IsUnset key a e, λ other. ap (λ d. get other d) (sym same) ∙ get-remove key other a)
]

not_selected : (a m : Fields) → map_inspection_arguments a ≡ ok m → IsUnset "inspection_names" a
unfolding map_inspection_arguments
not_selected a m h =
    let (unset, h1) = ok_of_then (raise_if (is_set "inspection_names" a) select_inspections) _ h in
    is_set-IsUnset "inspection_names" a
      (raise_if-eq-ok (is_set "inspection_names" a) select_inspections unset)

-- What is shown of a pair of the table: its arguments are translated.
abbrev Translates : Fields → Fields → String × String → Type 0
Translates a m (tool, target) = map_arguments tool a ≡ ok m → IsTranslated tool target a m

unchanged_by :
    (a m : Fields) (P : Fields → Fields → Type 0)
    → ((d : Fields) → P d d)
    → ◌≡◌ {A = Result RoutingError Fields} (ok a) (ok m)
    → P a m
unchanged_by a m P each h = subst (P a) (ok-injective h) (each a)

table-Translates :
    (a m : Fields) (pair : String × String) → Occurs pair routed_tools → Translates a m pair
unfolding map_arguments
table-Translates a m pair (inl e) =
    subst (Translates a m) (sym e)
      (λ h. overview a m (drop_option-IsDropped "include_file_documentation" _ a m h))
table-Translates a m pair (inr (inl e)) =
    subst (Translates a m) (sym e) (λ h. symbol a m (drop_option-IsDropped "search_deps" _ a m h))
table-Translates a m pair (inr (inr (inl e))) =
    subst (Translates a m) (sym e) (λ h. unchanged_by a m (IsTranslated _ _) references h)
table-Translates a m pair (inr (inr (inr (inl e)))) =
    subst (Translates a m) (sym e) (λ h. unchanged_by a m (IsTranslated _ _) declaration h)
table-Translates a m pair (inr (inr (inr (inr (inl e))))) =
    subst (Translates a m) (sym e) (λ h. unchanged_by a m (IsTranslated _ _) implementations h)
table-Translates a m pair (inr (inr (inr (inr (inr (inl e)))))) =
    subst (Translates a m) (sym e)
      (λ h. inspections a m (not_selected a m h) (map_inspection_arguments_lem a m h))
table-Translates a m pair (inr (inr (inr (inr (inr (inr e)))))) = absurd e

-- A tool that is found is in the table with its counterpart; one that is not found is none of its.
find_tool-Occurs :
    (name target : String) (tools : List (String × String))
    → find_tool name tools ≡ some target
    → Occurs (name, target) tools
unfolding find_tool
find_tool-Occurs name target [] h = cc
find_tool-Occurs name target ((tool, found) ∷ tools) h = elim (Bool-cases (str_eq tool name)) [
  | inr e ↦ inr (find_tool-Occurs name target tools (rw (find_tool, e) at h))
  | inl e ↦
      let same : tool ≡ name = (eq_iff tool name).0 e in
      let there : found ≡ target = some-injective (rw (find_tool, e) at h) in
      inl (ap (λ n. (n, target)) (sym same) ∙ ap (λ t. (tool, t)) (sym there))
]
  where
    some-injective : {A : Type 0} {x y : A} → Option.some x ≡ some y → x ≡ y
    some-injective h = cc

missing_tool :
    (name : String) (tools : List (String × String))
    → find_tool name tools ≡ none
    → ¬ Occurs name (map (λ pair. pair.0) tools)
unfolding find_tool
missing_tool name [] h o = absurd o
missing_tool name ((tool, found) ∷ tools) h o = elim (Bool-cases (str_eq tool name)) [
  | inl e ↦ cc (rw (find_tool, e) at h)
  | inr e ↦ elim o [
    | inl same ↦ cc (e, (eq_iff tool name).1 (sym same))
    | inr there ↦ missing_tool name tools (rw (find_tool, e) at h) there
  ]
]

-- The outcomes of a routed call.
pub data IsRouted (fs : FileSystem) (root tool_name : String) (arguments : Option Fields)
    (routed : RoutedToolCall) : Type 0 where
  unchanged :
      (¬ Occurs tool_name translated_tools)
        ⊎ (¬ IsInside fs root (get "relative_path" (or_empty arguments)))
      → routed ≡ call primary tool_name (or_empty arguments)
      → IsRouted fs root tool_name arguments routed
  translated :
      (target : String) (mapped : Fields)
      → IsInside fs root (get "relative_path" (or_empty arguments))
      → IsTranslated tool_name target (or_empty arguments) mapped
      → routed ≡ call secondary target mapped
      → IsRouted fs root tool_name arguments routed

-- A call that is routed goes to the secondary backend if its tool is one of six and its file is native,
-- with the tool's counterpart there: the overview and the search only if the option that the backend
-- lacks is not set, and then without it, an inspection with the mapped arguments, and the others as
-- they came. Otherwise it goes to the primary backend as it came.
pub route_tool_call_lem :
    (fs : FileSystem) (root tool_name : String) (arguments : Option Fields)
    (routed : RoutedToolCall)
    → route_tool_call fs root tool_name arguments ≡ ok routed
    → IsRouted fs root tool_name arguments routed
unfolding route_tool_call to_secondary
route_tool_call_lem fs root tool_name arguments routed h =
    let copied = or_empty arguments in
    let path = get "relative_path" copied in
    elim (Option-cases (find_tool tool_name routed_tools)) [
      | inl e ↦ unchanged (inl (missing_tool tool_name routed_tools e)) (ground arith)
      | inr (target, e) ↦ elim (Bool-cases (is_native_relative_file fs root path)) [
        | inr f ↦
            unchanged (inr (λ inside. cc (f, (native-IsInside fs root path).1 inside)))
              (ground arith)
        | inl f ↦
            let to : to_secondary tool_name target copied ≡ ok routed = ground arith in
            let (mapped, m, g) = ok_of_bind (map_arguments tool_name copied) _ to in
            translated target mapped ((native-IsInside fs root path).0 f)
              (table-Translates copied mapped (tool_name, target)
                (find_tool-Occurs tool_name target routed_tools e) m)
              (ground arith)
      ]
    ]

abbrev pub is_native_call : FileSystem → String → Option Fields → Bool
is_native_call fs root arguments =
    is_native_relative_file fs root (get "relative_path" (or_empty arguments))

to_secondary-err :
    (tool_name target : String) (arguments : Fields) (failure : RoutingError)
    → to_secondary tool_name target arguments ≡ err failure
    → map_arguments tool_name arguments ≡ err failure
unfolding to_secondary
to_secondary-err tool_name target arguments failure h =
    elim (Result-cases (map_arguments tool_name arguments)) [
      | inl (mapped, e) ↦ absurd (ground arith)
      | inr (other, e) ↦ ground arith
    ]

-- A call fails only on its way to the secondary backend, by the mapping of its arguments.
pub failure_is_native :
    (fs : FileSystem) (root tool_name : String) (arguments : Option Fields) (failure : RoutingError)
    → route_tool_call fs root tool_name arguments ≡ err failure
    → (is_native_call fs root arguments ≡ true)
      × (map_arguments tool_name (or_empty arguments) ≡ err failure)
unfolding route_tool_call
failure_is_native fs root tool_name arguments failure h =
    elim (Option-cases (find_tool tool_name routed_tools)) [
      | inl e ↦ absurd (ground arith)
      | inr (target, e) ↦ elim (Bool-cases (is_native_call fs root arguments)) [
        | inr f ↦ absurd (ground arith)
        | inl f ↦ (f, to_secondary-err tool_name target (or_empty arguments) failure (ground arith))
      ]
    ]
