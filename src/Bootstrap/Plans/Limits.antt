-- ===== src/Bootstrap/Plans/Limits.antt =====
-- bin/workspace_harbor_bootstrap.py: `_boundary` and `_input`.
use serena_workspace_orchest.Prelude.{
  ◌&&◌, Option, none, some, List, [], ◌∷◌, String, if◌then◌else◌,
}
use serena_workspace_orchest.Prelude.Strings.{codes}
use serena_workspace_orchest.Json.{Value, str, Items, cons, nil}
use serena_workspace_orchest.Bootstrap.Plans.Paths.{
  FilePath, is_absolute, join_text, is_within, is_below,
}
use serena_workspace_orchest.Bootstrap.Plans.Data.{Files}

-- `_boundary`, or `none` where it raises a `ValueError`
unfoldable pub boundary_path : Files → FilePath → Value → Option FilePath
unfolding join_text is_below
boundary_path files root (str value) = elim (files.resolve_strict (join_text root (codes value))) [
  | none ↦ none
  | some candidate ↦
      if is_below root candidate && files.is_dir candidate then some candidate else none
]
boundary_path files root _ = none

-- `[_boundary(root, v) for v in values]`
unfoldable pub boundary_paths : Files → FilePath → Items → Option (List FilePath)
unfolding boundary_path
boundary_paths files root nil = some []
boundary_paths files root (cons v vs) = elim (boundary_path files root v) [
  | none ↦ none
  | some candidate ↦ elim (boundary_paths files root vs) [
    | none ↦ none
    | some candidates ↦ some (candidate ∷ candidates)
  ]
]

-- A path that must be in the root.
unfoldable pub if_within : FilePath → FilePath → Option FilePath
unfolding is_within
if_within root candidate = if is_within root candidate then some candidate else none

-- `_input`, or `none` where it raises a `ValueError`
unfoldable pub input_path : Files → FilePath → String → Option FilePath
unfolding is_absolute join_text if_within
input_path files root value =
    if is_absolute (codes value)
    then none
    else if_within root (files.resolve (join_text root (codes value)))

unfoldable pub input_paths : Files → FilePath → List String → Option (List FilePath)
unfolding input_path
input_paths files root [] = some []
input_paths files root (value ∷ values) = elim (input_path files root value) [
  | none ↦ none
  | some candidate ↦ elim (input_paths files root values) [
    | none ↦ none
    | some candidates ↦ some (candidate ∷ candidates)
  ]
]
