-- ===== src/Routing/Calls.antt =====
-- bin/serena_hybrid_routing.py: `route_tool_call`.
use serena_workspace_orchest.Prelude.{Option, none, some, List, [], ◌∷◌, String, if◌then◌else◌}
use serena_workspace_orchest.Prelude.Strings.{str_eq}
use serena_workspace_orchest.Prelude.Results.{Result, ok, err, ◌>>=◌}
use serena_workspace_orchest.Json.{Fields, end, get}
use serena_workspace_orchest.Routing.Native.{FileSystem, is_native_relative_file}
use serena_workspace_orchest.Routing.Arguments.{
  RoutingError, file_documentation, search_dependencies, is_set, remove, map_inspection_arguments,
}

pub data Backend : Type 0 where
  primary secondary : Backend

pub record RoutedToolCall : Type 0 where
  pub backend : Backend
  pub tool_name : String
  pub arguments : Fields

abbrev pub routed_tools : List (String × String)
routed_tools =
    ("jet_brains_get_symbols_overview", "get_symbols_overview")
    ∷ ("jet_brains_find_symbol", "find_symbol")
    ∷ ("jet_brains_find_referencing_symbols", "find_referencing_symbols")
    ∷ ("jet_brains_find_declaration", "find_declaration")
    ∷ ("jet_brains_find_implementations", "find_implementations")
    ∷ ("jet_brains_run_inspections", "get_diagnostics_for_file")
    ∷ []

unfoldable pub find_tool : String → List (String × String) → Option String
find_tool name [] = none
find_tool name ((tool, target) ∷ tools) =
    if str_eq tool name then some target else find_tool name tools

-- `pop` of an option that the backend does not have: an error if it is set.
unfoldable pub drop_option : String → RoutingError → Fields → Result RoutingError Fields
unfolding is_set remove
drop_option key failure arguments =
    if is_set key arguments then err failure else ok (remove key arguments)

-- The arguments for the secondary backend.
unfoldable pub map_arguments : String → Fields → Result RoutingError Fields
unfolding drop_option map_inspection_arguments
map_arguments tool_name arguments =
    if str_eq tool_name "jet_brains_get_symbols_overview"
    then drop_option "include_file_documentation" file_documentation arguments
    else if str_eq tool_name "jet_brains_find_symbol"
    then drop_option "search_deps" search_dependencies arguments
    else if str_eq tool_name "jet_brains_run_inspections"
    then map_inspection_arguments arguments
    else ok arguments

-- `dict(arguments or {})`
abbrev pub or_empty : Option Fields → Fields
or_empty none = end
or_empty (some d) = d

abbrev pub call : Backend → String → Fields → RoutedToolCall
call backend tool_name arguments = record {
  backend = backend;
  tool_name = tool_name;
  arguments = arguments;
}

unfoldable pub to_secondary : String → String → Fields → Result RoutingError RoutedToolCall
unfolding map_arguments
to_secondary tool_name target arguments = do
  mapped ← map_arguments tool_name arguments
  ok (call secondary target mapped)

unfoldable pub route_tool_call :
    FileSystem → String → String → Option Fields → Result RoutingError RoutedToolCall
unfolding find_tool is_native_relative_file to_secondary get
route_tool_call fs root tool_name arguments =
    let copied = or_empty arguments in
    elim (find_tool tool_name routed_tools) [
      | none ↦ ok (call primary tool_name copied)
      | some target ↦
          if is_native_relative_file fs root (get "relative_path" copied)
          then to_secondary tool_name target copied
          else ok (call primary tool_name copied)
    ]
