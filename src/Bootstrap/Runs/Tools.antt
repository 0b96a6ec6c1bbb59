-- ===== src/Bootstrap/Runs/Tools.antt =====
-- bin/workspace_harbor_bootstrap.py: `_tool_identity`, `_markers` and `bootstrap_fingerprint`.
use serena_workspace_orchest.Prelude.{
  any, map, Bool, ◌&&◌, Option, none, some, List, [], ◌∷◌, String, if◌then◌else◌,
}
use serena_workspace_orchest.Prelude.Strings.{codes, codes_before, contains, has_prefix, str_eq}
use serena_workspace_orchest.Bootstrap.Plans.Paths.{FilePath, child, is_absolute, join_text}
use serena_workspace_orchest.Bootstrap.Plans.Data.{Plan, PlanMaterial, Files, Host}
use serena_workspace_orchest.Bootstrap.Plans.Policy.{local_config}

abbrev pub is_program : Files → FilePath → Bool
is_program files path = files.is_file path && files.is_executable path

-- The first program of the name on the search path.
unfoldable pub find_program : Files → FilePath → String → List String → Option FilePath
unfolding join_text
find_program files cwd name [] = none
find_program files cwd name (entry ∷ entries) =
    let candidate = join_text (join_text cwd (codes entry)) (codes name) in
    let rest = find_program files cwd name entries in
    if is_program files candidate then some (files.resolve candidate) else rest

-- `_tool_identity`
unfoldable pub tool_identity : Host → Files → String → FilePath → Option FilePath × String
unfolding find_program is_absolute join_text contains
tool_identity host files name cwd =
    if is_absolute (codes name)
    then identify (some (join_text cwd (codes name)))
    else if contains "/" name
    then identify (some (files.resolve (join_text cwd (codes name))))
    else identify (find_program files cwd name host.path_entries)
  where
    identify : Option FilePath → Option FilePath × String
    identify none = (none, "unavailable")
    identify (some path) =
        if is_program files path then (some path, files.version path) else (none, "unavailable")

-- `_markers`
unfoldable pub markers_of : Plan → List FilePath
unfolding has_prefix
markers_of plan =
    if str_eq plan.source "command"
    then plan.markers
    else if any (λ name. has_prefix (codes name) (codes plan.ecosystem))
        ("npm" ∷ "pnpm" ∷ "yarn" ∷ "bun" ∷ [])
    then child plan.cwd "node_modules" ∷ []
    else if str_eq plan.ecosystem "uv"
    then child plan.cwd ".venv" ∷ []
    else []

-- `sorted(plans, key=lambda p: p["plan_id"])`
unfoldable pub insert_plan : Plan → List Plan → List Plan
unfolding codes_before
insert_plan plan [] = plan ∷ []
insert_plan plan (p ∷ ps) =
    let rest = insert_plan plan ps in
    if codes_before (codes p.plan_id) (codes plan.plan_id) then p ∷ rest else plan ∷ p ∷ ps

unfoldable pub sort_plans : List Plan → List Plan
unfolding insert_plan
sort_plans [] = []
sort_plans (plan ∷ plans) = insert_plan plan (sort_plans plans)

-- `[(path, _sha256(path)) for path in paths]`
abbrev pub hashed : Files → List FilePath → List (FilePath × String)
hashed files paths = map (λ path. (path, hash (files.sha256 path))) paths
  where
    hash : Option String → String
    hash none = "missing"
    hash (some digest) = digest

unfoldable pub plan_material : Host → Files → Plan → PlanMaterial
unfolding tool_identity markers_of
plan_material host files plan = record {
  plan = plan;
  inputs = hashed files plan.inputs;
  tool = tool_of plan.argv;
  markers = markers_of plan;
}
  where
    tool_of : List String → Option FilePath × String
    tool_of [] = (some (codes "native" ∷ []), "native")
    tool_of (name ∷ _) =
        if str_eq name "ide-managed"
        then (some (codes "native" ∷ []), "native")
        else tool_identity host files name plan.cwd

-- The files of configuration that are part of a fingerprint.
abbrev pub config_files : Host → FilePath → List FilePath
config_files host root =
    host.global_config ∷ local_config root ∷ child (child root ".codex") "tasks.toml" ∷ []

-- `bootstrap_fingerprint`
unfoldable pub bootstrap_fingerprint : Host → Files → FilePath → List Plan → String
unfolding plan_material sort_plans
bootstrap_fingerprint host files root plans = host.fingerprint_digest (record {
  root = root;
  plans = map (plan_material host files) (sort_plans plans);
  config = hashed files (config_files host root);
})
