-- ===== src/Bootstrap/Plans/Recipes.antt =====
-- bin/workspace_harbor_bootstrap.py: `_plan` and `_builtin`.
use serena_workspace_orchest.Prelude.{
  any, Bool, false, not, ◌&&◌, ◌||◌, Option, none, some, List, [], ◌∷◌, ◌++◌, String, if◌then◌else◌,
}
use serena_workspace_orchest.Prelude.Strings.{codes, has_prefix, has_infix, str_eq}
use serena_workspace_orchest.Prelude.Results.{Result, ok, err, ◌>>=◌}
use serena_workspace_orchest.Json.{str, obj, Fields, get}
use serena_workspace_orchest.Bootstrap.Plans.Paths.{FilePath, child}
use serena_workspace_orchest.Bootstrap.Plans.Sources.{contains_source, javascript_locks, jvm_builds}
use serena_workspace_orchest.Bootstrap.Plans.Data.{
  Plan, Document, undecodable, parsed, Files, Host, Raised, value_error, os_error,
}

-- A decision that a plan asks for: its code, and the path that it is about.
pub record Request : Type 0 where
  pub code : String
  pub about : Option FilePath

abbrev pub request : String → Request
request code = record { code = code; about = none }

-- `_plan`
unfoldable pub make_plan :
    Host → String → String → FilePath → List String → List FilePath → List FilePath → Plan
make_plan host source ecosystem cwd argv inputs markers = record {
  plan_id = host.plan_digest source ecosystem cwd argv;
  source = source;
  ecosystem = ecosystem;
  cwd = cwd;
  argv = argv;
  inputs = inputs;
  markers = markers;
}

unfoldable pub present : Files → FilePath → String → Bool
present files boundary name = files.is_file (child boundary name)

-- The names of which a file is present, in their order.
unfoldable pub present_names : Files → FilePath → List String → List String
unfolding present
present_names files boundary [] = []
present_names files boundary (name ∷ names) =
    let rest = present_names files boundary names in
    if present files boundary name then name ∷ rest else rest

-- `[boundary / name for name in names if present(name)]`
abbrev pub children : FilePath → List String → List FilePath
children boundary [] = []
children boundary (name ∷ names) = child boundary name ∷ children boundary names

-- A recipe's plan, whose inputs are files of the boundary.
unfoldable pub recipe : Host → FilePath → String → List String → List String → Plan
unfolding make_plan
recipe host boundary ecosystem argv names =
    make_plan host "recipe" ecosystem boundary argv (children boundary names) []

abbrev pub is_bun : String → Bool
is_bun name = has_prefix (codes "bun") (codes name)

-- `len({"bun" if n.startswith("bun") else n for n in js}) > 1`: both names of bun's lock count once.
unfoldable pub is_ambiguous : List String → Bool
is_ambiguous [] = false
is_ambiguous (name ∷ names) = any (λ other. not (is_bun name && is_bun other)) names

-- `isinstance(manager, str) and manager.startswith("yarn@")`
unfoldable pub is_yarn_berry : Fields → Bool
unfolding get has_prefix
is_yarn_berry manifest = elim (get "packageManager" manifest) [
  | some (str manager) ↦ has_prefix (codes "yarn@") (codes manager)
  | _ ↦ false
]

-- The plan of a JavaScript manager, for the first of the locks.
unfoldable pub javascript_plan : Host → Files → FilePath → String → Fields → Plan
unfolding recipe is_yarn_berry present
javascript_plan host files boundary lock manifest =
    let made : String → List String → Plan =
      λ ecosystem argv. recipe host boundary ecosystem argv ("package.json" ∷ lock ∷ []) in
    if str_eq lock "package-lock.json"
    then made "npm" ("npm" ∷ "ci" ∷ [])
    else if str_eq lock "pnpm-lock.yaml"
    then made "pnpm" ("pnpm" ∷ "install" ∷ "--frozen-lockfile" ∷ [])
    else if is_bun lock
    then made "bun" ("bun" ∷ "install" ∷ "--frozen-lockfile" ∷ [])
    else if is_yarn_berry manifest || present files boundary ".yarnrc.yml"
    then made "yarn-berry" ("yarn" ∷ "install" ∷ "--immutable" ∷ [])
    else made "yarn-classic" ("yarn" ∷ "install" ∷ "--frozen-lockfile" ∷ [])

-- A boundary's plan for JavaScript, or the decision that ends its planning.
pub data Javascript : Type 0 where
  no_plan : Javascript
  planned : Plan → Javascript
  asks : Request → Javascript

abbrev about_package : String → FilePath → Javascript
about_package code boundary = asks (record { code = code; about = some boundary })

unfoldable pub read_package : Document → Result Raised (Option Fields)
read_package (parsed (obj d)) = ok (some d)
read_package (parsed _) = ok none
read_package undecodable = err value_error
read_package _ = ok none

unfoldable pub javascript : Host → Files → FilePath → Result Raised Javascript
unfolding present present_names is_ambiguous javascript_plan read_package
javascript host files boundary =
    let js = present_names files boundary javascript_locks in
    if not (present files boundary "package.json")
    then ok no_plan
    else if is_ambiguous js
    then ok (about_package "ambiguous-javascript-manager" boundary)
    else elim js [
      | [] ↦ ok no_plan
      | lock ∷ _ ↦ read_package (files.document (child boundary "package.json")) >>= λ manifest.
          elim manifest [
            | none ↦ ok (about_package "invalid-package-json" boundary)
            | some d ↦ ok (planned (javascript_plan host files boundary lock d))
          ]
    ]

-- The plan for Python: uv before poetry, whose project file names it.
unfoldable pub python_plans : Host → Files → FilePath → Result Raised (List Plan)
unfolding present recipe has_infix
python_plans host files boundary =
    let pyproject = child boundary "pyproject.toml" in
    if not (present files boundary "pyproject.toml")
    then ok []
    else if present files boundary "uv.lock"
    then ok (
        recipe host boundary "uv" ("uv" ∷ "sync" ∷ "--frozen" ∷ [])
          ("pyproject.toml" ∷ "uv.lock" ∷ [])
        ∷ [])
    else if not (present files boundary "poetry.lock")
    then ok []
    else elim (files.text pyproject) [
      | err permission ↦ err (os_error permission)
      | ok text ↦ ok (
          if has_infix (codes "[tool.poetry]") text
          then recipe host boundary "poetry"
              ("poetry" ∷ "install" ∷ "--sync" ∷ "--no-interaction" ∷ [])
              ("pyproject.toml" ∷ "poetry.lock" ∷ [])
            ∷ []
          else [])
    ]

-- The plan for a language whose two project files are present, if it has sources.
unfoldable pub sourced_plans :
    Host → Files → FilePath → String → List String → String → String → String → List Plan
unfolding present recipe contains_source
sourced_plans host files boundary ecosystem argv project lock suffix =
    if present files boundary project
      && present files boundary lock
      && contains_source (suffix ∷ []) (files.tree boundary)
    then recipe host boundary ecosystem argv (project ∷ lock ∷ []) ∷ []
    else []

unfoldable pub managed_plans : Host → Files → FilePath → List Plan
unfolding present_names recipe
managed_plans host files boundary = elim (present_names files boundary jvm_builds) [
  | [] ↦ []
  | build ∷ builds ↦ recipe host boundary "ide-managed" [] (build ∷ builds) ∷ []
]

-- The plans of a boundary that follow those for JavaScript.
unfoldable pub other_plans :
    Host → Files → FilePath → List Plan → Result Raised (List Plan × List Request)
unfolding python_plans sourced_plans managed_plans
other_plans host files boundary plans = do
  python ← python_plans host files boundary
  ok (
    plans
        ++ (python
            ++ (sourced_plans host files boundary "rust" ("cargo" ∷ "fetch" ∷ "--locked" ∷ [])
                  "Cargo.toml" "Cargo.lock" ".rs"
                ++ (sourced_plans host files boundary "go" ("go" ∷ "mod" ∷ "download" ∷ []) "go.mod"
                      "go.sum" ".go"
                    ++ managed_plans host files boundary))),
    [],
  )

-- A decision on the JavaScript manager ends the planning of a boundary.
abbrev pub plans_after :
    Host → Files → FilePath → Javascript → Result Raised (List Plan × List Request)
plans_after host files boundary (asks requested) = ok ([], requested ∷ [])
plans_after host files boundary no_plan = other_plans host files boundary []
plans_after host files boundary (planned plan) = other_plans host files boundary (plan ∷ [])

-- `_builtin`
unfoldable pub builtin : Host → Files → FilePath → Result Raised (List Plan × List Request)
unfolding javascript other_plans
builtin host files boundary = javascript host files boundary >>= plans_after host files boundary
