-- ===== src/Bootstrap/Plans/Tasks.antt =====
-- bin/workspace_harbor_bootstrap.py: `_task_plan`.
use serena_workspace_orchest.Prelude.{
  Bool, false, ◌||◌, Option, none, some, [], ◌∷◌, String, if◌then◌else◌,
}
use serena_workspace_orchest.Prelude.Strings.{str_eq}
use serena_workspace_orchest.Prelude.Int.{pos, int_eq}
use serena_workspace_orchest.Prelude.Results.{Result, ok, err, ◌>>=◌}
use serena_workspace_orchest.Json.{
  Value, str, obj, arr, Fields, field, end, Items, cons, nil, get, eq_str,
}
use serena_workspace_orchest.Bootstrap.Plans.Paths.{FilePath, child}
use serena_workspace_orchest.Bootstrap.Plans.Data.{
  Plan, Document, parsed, Files, Host, Raised, value_error, type_error,
}
use serena_workspace_orchest.Bootstrap.Plans.Recipes.{make_plan}

-- The values that a loop over a value takes: a text gives its characters, a dictionary its keys.
unfoldable pub iterate : Value → Result Raised Items
iterate (arr vs) = ok vs
iterate (str s) = ok (characters s)
  where
    characters : String → Items
    characters String.[] = nil
    characters (String.◌∷◌ c s) = cons (str (String.◌∷◌ c String.[])) (characters s)
iterate (obj d) = ok (keys d)
  where
    keys : Fields → Items
    keys end = nil
    keys (field k v d) = cons (str k) (keys d)
iterate _ = err type_error

-- The tasks that `codex-task list` prints.
unfoldable pub tasks_of : Value → Result Raised Items
unfolding get iterate
tasks_of (arr vs) = ok vs
tasks_of (obj d) = elim (get "tasks" d) [ none ↦ ok nil | some v ↦ iterate v ]
tasks_of _ = ok nil

-- `name in [x if isinstance(x, str) else x.get("name") for x in names if isinstance(x, (str, dict))]`
unfoldable pub has_task : String → Items → Bool
unfolding get
has_task name nil = false
has_task name (cons (str s) vs) = str_eq s name || has_task name vs
has_task name (cons (obj d) vs) =
    elim (get "name" d) [ none ↦ false | some v ↦ eq_str v name ] || has_task name vs
has_task name (cons _ vs) = has_task name vs

-- The plan that runs a task.
unfoldable pub plan_of_task : Host → FilePath → String → Plan
unfolding make_plan
plan_of_task host root name =
    make_plan host "task" "task" root (host.codex_task ∷ name ∷ "--json" ∷ [])
      (child (child root ".codex") "tasks.toml" ∷ []) []

-- The plan of a task, if it is one of those that are printed.
unfoldable pub task_of_output : Host → FilePath → String → Document → Result Raised (Option Plan)
unfolding tasks_of has_task plan_of_task
task_of_output host root name (parsed printed) = tasks_of printed >>= λ names.
    ok (if has_task name names then some (plan_of_task host root name) else none)
task_of_output host root name Document.undecodable = err value_error
task_of_output host root name _ = ok none

-- `_task_plan`
unfoldable pub task_plan : Host → Files → FilePath → String → Result Raised (Option Plan)
unfolding task_of_output
task_plan host files root name = elim (files.task_list root) [
  | none ↦ ok none
  | some (return_code, output) ↦
      if int_eq return_code (pos 0) then task_of_output host root name output else ok none
]
