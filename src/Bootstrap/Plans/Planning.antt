-- ===== src/Bootstrap/Plans/Planning.antt =====
-- bin/workspace_harbor_bootstrap.py: `_boundary`, `_input`, `_task_plan` and `plan_repository`.
use serena_workspace_orchest.Prelude.{
  Bool, true, false, not, ◌&&◌, Option, none, some, List, [], ◌∷◌, ◌++◌, String, if◌then◌else◌,
}
use serena_workspace_orchest.Prelude.Strings.{codes}
use serena_workspace_orchest.Prelude.Results.{Result, ok, err, ◌>>=◌}
use serena_workspace_orchest.Json.{bool, str, obj, Fields, get, as_str}
use serena_workspace_orchest.Bootstrap.Plans.Paths.{FilePath, join_text, is_within, path_member}
use serena_workspace_orchest.Bootstrap.Plans.Data.{Plan, Files, Host, Raised, type_error}
use serena_workspace_orchest.Bootstrap.Plans.Policy.{
  has_key, items_at, texts_at, dict_at, load_policy,
}
use serena_workspace_orchest.Bootstrap.Plans.Recipes.{Request, request, make_plan, builtin}
use serena_workspace_orchest.Bootstrap.Plans.Tasks.{task_plan}
use serena_workspace_orchest.Bootstrap.Plans.Limits.{boundary_paths, input_paths}

pub data Status : Type 0 where
  ready pending not_needed disabled needs_decision failed invalid : Status

-- What `plan_repository` returns, less the root, the policy's path and the recipe's version.
pub record Planned : Type 0 where
  pub status : Status
  pub plans : List Plan
  pub decisions : List Request

abbrev pub settled : Status → List Plan → Planned
settled status plans = record { status = status; plans = plans; decisions = [] }

abbrev pub asking : List Request → Planned
asking requests = record { status = needs_decision; plans = []; decisions = requests }

-- `bootstrap.get(key) is b`
unfoldable pub is_bool_at : String → Bool → Fields → Bool
unfolding get
is_bool_at key b d = elim (get key d) [ some (bool c) ↦ if b then c else not c | _ ↦ false ]

-- `command.get("cwd", ".")`
unfoldable pub cwd_text : Fields → String
unfolding get
cwd_text command = elim (get "cwd" command) [ some (str s) ↦ s | _ ↦ "." ]

-- The plan of a custom command, or `none` for an invalid one.
unfoldable pub command_plan : Host → Files → FilePath → Fields → Option Plan
unfolding cwd_text join_text is_within input_paths texts_at make_plan
command_plan host files root command =
    let cwd = join_text root (codes (cwd_text command)) in
    if not (files.is_dir cwd && is_within root (files.resolve cwd))
    then none
    else elim (input_paths files root (texts_at "inputs" command)) [
      | none ↦ none
      | some inputs ↦ elim (input_paths files root (texts_at "markers" command)) [
        | none ↦ none
        | some markers ↦ some (
            make_plan host "command" "custom" (files.resolve cwd) (texts_at "argv" command) inputs
              markers)
      ]
    ]

-- The boundaries that are included and not ignored, after the root.
unfoldable pub unless_ignored : List FilePath → List FilePath → List FilePath
unfolding path_member
unless_ignored ignored [] = []
unless_ignored ignored (candidate ∷ candidates) =
    let rest = unless_ignored ignored candidates in
    if path_member candidate ignored then rest else candidate ∷ rest

unfoldable pub boundaries_of : Files → FilePath → Fields → Option (List FilePath)
unfolding dict_at items_at boundary_paths unless_ignored
boundaries_of files root bootstrap = elim (dict_at "boundaries" bootstrap) [
  | none ↦ none
  | some boundaries ↦ elim (boundary_paths files root (items_at "ignore" boundaries)) [
    | none ↦ none
    | some ignored ↦ elim (boundary_paths files root (items_at "include" boundaries)) [
      | none ↦ none
      | some candidates ↦ some (root ∷ unless_ignored ignored candidates)
    ]
  ]
]

-- The plans and the decisions of all boundaries, in their order.
unfoldable pub builtins : Host → Files → List FilePath → Result Raised (List Plan × List Request)
unfolding builtin
builtins host files [] = ok ([], [])
builtins host files (boundary ∷ boundaries) = do
  (found, requested) ← builtin host files boundary
  (plans, decisions) ← builtins host files boundaries
  ok (found ++ plans, requested ++ decisions)

abbrev pub concluded : List Plan → List Request → Planned
concluded [] [] = settled not_needed []
concluded (plan ∷ plans) [] = settled ready (plan ∷ plans)
concluded plans (requested ∷ decisions) = asking (requested ∷ decisions)

-- The recipes of the boundaries, after the plans from before.
unfoldable pub plan_recipes : Host → Files → FilePath → Fields → List Plan → Result Raised Planned
unfolding is_bool_at boundaries_of builtins
plan_recipes host files root bootstrap plans =
    if is_bool_at "use_builtin_recipes" false bootstrap
    then ok (settled not_needed plans)
    else elim (boundaries_of files root bootstrap) [
      | none ↦ ok (asking (request "invalid-boundary" ∷ []))
      | some boundaries ↦
          builtins host files boundaries >>= λ result. ok (concluded (plans ++ result.0) result.1)
    ]

-- The plans with a configured task, after the plans of a command.
abbrev pub with_configured_task :
    Host → Files → FilePath → Fields → List Plan → Option Plan → Result Raised Planned
with_configured_task host files root bootstrap plans none =
    ok (asking (request "missing-configured-task" ∷ []))
with_configured_task host files root bootstrap plans (some plan) =
    if is_bool_at "use_builtin_recipes" true bootstrap
    then plan_recipes host files root bootstrap (plans ++ plan ∷ [])
    else ok (settled ready (plan ∷ []))

-- The plans with the task that is named bootstrap, if there is one.
abbrev pub with_bootstrap_task :
    Host → Files → FilePath → Fields → List Plan → Option Plan → Result Raised Planned
with_bootstrap_task host files root bootstrap plans none =
    plan_recipes host files root bootstrap plans
with_bootstrap_task host files root bootstrap plans (some plan) = ok (settled ready (plan ∷ []))

-- The plan of a task, after the plans of a command.
unfoldable pub plan_tasks : Host → Files → FilePath → Fields → List Plan → Result Raised Planned
unfolding has_key get is_bool_at task_plan plan_recipes
plan_tasks host files root bootstrap plans = elim (get "task" bootstrap) [
  | some task ↦ elim (as_str task) [
    | none ↦ err type_error
    | some name ↦
        task_plan host files root name >>= with_configured_task host files root bootstrap plans
  ]
  | none ↦
      if has_key "command" bootstrap
      then plan_recipes host files root bootstrap plans
      else task_plan host files root "bootstrap"
        >>= with_bootstrap_task host files root bootstrap plans
]

-- The plans with a custom command, or the decision on an invalid one.
abbrev pub with_command : Host → Files → FilePath → Fields → Option Plan → Result Raised Planned
with_command host files root bootstrap none = ok (asking (request "invalid-command" ∷ []))
with_command host files root bootstrap (some plan) =
    if is_bool_at "use_builtin_recipes" true bootstrap
    then plan_tasks host files root bootstrap (plan ∷ [])
    else ok (settled ready (plan ∷ []))

-- `plan_repository`, on the `bootstrap` of a policy that was loaded
unfoldable pub plan_bootstrap : Host → Files → FilePath → Fields → Result Raised Planned
unfolding get is_bool_at command_plan plan_tasks dict_at
plan_bootstrap host files root bootstrap =
    if is_bool_at "enabled" false bootstrap
    then ok (settled disabled [])
    else elim (get "command" bootstrap) [
      | none ↦ plan_tasks host files root bootstrap []
      | some (obj command) ↦
          with_command host files root bootstrap (command_plan host files root command)
      | some _ ↦ ok (asking (request "invalid-command" ∷ []))
    ]

-- `plan_repository`
unfoldable pub plan_repository : Host → Files → FilePath → Result Raised Planned
unfolding load_policy plan_bootstrap
plan_repository host files root = elim (load_policy host files root) [
  | err message ↦ ok (asking (request "invalid-policy" ∷ []))
  | ok bootstrap ↦ plan_bootstrap host files root bootstrap
]
