-- ===== src/Tests/Routes.antt =====
-- Runs of bin/serena_hybrid_routing.py.
use serena_workspace_orchest.Prelude.{◌≡◌, ◌↔◌, refl, true, none, some, [], ◌∷◌, if◌then◌else◌}
use serena_workspace_orchest.Prelude.Results.{ok, err}
use serena_workspace_orchest.Prelude.Int.{pos, negsuc}
use serena_workspace_orchest.Prelude.Strings.{str_eq}
use serena_workspace_orchest.Json.{str, int, bool, Fields, field, end}
use serena_workspace_orchest.Routing.Native.{FileSystem, is_native_relative_file}
use serena_workspace_orchest.Routing.Arguments.{map_inspection_arguments, search_dependencies}
use serena_workspace_orchest.Routing.Calls.{call, secondary, route_tool_call}
use serena_workspace_orchest.Routing.Mapped.{IsMapped, map_inspection_arguments_lem}
use serena_workspace_orchest.Routing.Inside.{IsInside, native-IsInside}
use serena_workspace_orchest.Routing.Routed.{IsRouted, route_tool_call_lem}

abbrev files : FileSystem
files = record {
  resolve_root = λ root. some ("home" ∷ "user" ∷ "project" ∷ []);
  resolve = λ root path.
      if str_eq path "src/Main.CPP"
      then some ("home" ∷ "user" ∷ "project" ∷ "src" ∷ "Main.CPP" ∷ [])
      else none;
  is_file = λ candidate. true;
}

main_is_native : is_native_relative_file files "/project" (some (str "src/Main.CPP")) ≡ true
unfolding is_native_relative_file
main_is_native = refl

native-IsInside_example :
    (is_native_relative_file files "/project" (some (str "src/Main.CPP")) ≡ true)
    ↔ IsInside files "/project" (some (str "src/Main.CPP"))
native-IsInside_example = native-IsInside files "/project" (some (str "src/Main.CPP"))

abbrev inspection : Fields
inspection =
    field "relative_path" (str "src/Main.CPP")
      (field "min_severity" (str "warning") (field "start_line" (int (pos 5)) end))

abbrev inspected : Fields
inspected = field "relative_path" (str "src/Main.CPP") (
    field "min_severity" (int (pos 2))
      (field "start_line" (int (pos 4)) (field "end_line" (int (negsuc 0)) end)))

inspection_is_mapped : map_inspection_arguments inspection ≡ ok inspected
unfolding map_inspection_arguments
inspection_is_mapped = refl

map_inspection_arguments_lem_example : IsMapped inspection inspected
map_inspection_arguments_lem_example =
    map_inspection_arguments_lem inspection inspected inspection_is_mapped

inspection_is_routed :
    route_tool_call files "/project" "jet_brains_run_inspections" (some inspection)
    ≡ ok (call secondary "get_diagnostics_for_file" inspected)
unfolding route_tool_call
inspection_is_routed = refl

route_tool_call_lem_example :
    IsRouted files "/project" "jet_brains_run_inspections"
      (some inspection)
      (call secondary "get_diagnostics_for_file" inspected)
route_tool_call_lem_example =
    route_tool_call_lem files "/project" "jet_brains_run_inspections" (some inspection)
      (call secondary "get_diagnostics_for_file" inspected) inspection_is_routed

abbrev search : Fields
search = field "relative_path" (str "src/Main.CPP") (field "search_deps" (bool true) end)

search_fails :
    route_tool_call files "/project" "jet_brains_find_symbol" (some search)
    ≡ err search_dependencies
unfolding route_tool_call
search_fails = refl
