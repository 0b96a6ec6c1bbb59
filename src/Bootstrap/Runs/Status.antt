-- ===== src/Bootstrap/Runs/Status.antt =====
-- bin/workspace_harbor_bootstrap.py: `_tool_identity`, `_markers`, `bootstrap_fingerprint`,
-- `_read_worktree_success`, `write_worktree_success` and `bootstrap_status`.
use serena_workspace_orchest.Prelude.{
  all, Bool, true, false, not, ◌&&◌, Option, none, some, List, [], ◌∷◌, String, if◌then◌else◌,
}
use serena_workspace_orchest.Prelude.Strings.{str_eq}
use serena_workspace_orchest.Prelude.Int.{ℤ, pos}
use serena_workspace_orchest.Prelude.Results.{Result, ok, err, ◌>>=◌, ◌>>◌, raise_if, or_raise}
use serena_workspace_orchest.Json.{int, str, obj, field, end, as_dict, holds_int}
use serena_workspace_orchest.Bootstrap.Decisions.{
  Stored, missing, corrupt, holding, has_only, text_at,
}
use serena_workspace_orchest.Bootstrap.Plans.Paths.{FilePath}
use serena_workspace_orchest.Bootstrap.Plans.Data.{Plan, Files, Host, Raised, value_error}
use serena_workspace_orchest.Bootstrap.Plans.Policy.{has_key}
use serena_workspace_orchest.Bootstrap.Plans.Recipes.{Request, request}
use serena_workspace_orchest.Bootstrap.Plans.Planning.{
  Status, ready, pending, needs_decision, Planned, plan_repository,
}
use serena_workspace_orchest.Bootstrap.Runs.Approved.{are_approved, current_digest}
use serena_workspace_orchest.Bootstrap.Runs.Tools.{bootstrap_fingerprint, markers_of, tool_identity}

pub data Cache : Type 0 where
  hit miss executed : Cache

-- The kinds of failure.
pub data Kind : Type 0 where
  invalid_plan process_error command_failed inputs_changed missing_marker : Kind
  permission_denied io_error : Kind

pub record Failure : Type 0 where
  pub kind : Kind
  pub failed_plan : Option String
  pub exit_code : Option ℤ

-- A result, less the texts of errors and the times.
pub record Report : Type 0 where
  pub status : Status
  pub plans : List Plan
  pub decisions : List Request
  pub fingerprint : Option String
  pub cache : Option Cache
  pub failure : Option Failure
  pub executed_plans : Option (List String)

-- What one run reads and writes: the files, the success file of the worktree, the decisions of the
-- repository, and the commands that were started: their executables, arguments and directories.
pub record World : Type 0 where
  pub files : Files
  pub success : Stored
  pub decisions : Stored
  pub started : List (FilePath × List String × FilePath)

-- `_read_worktree_success`: the fingerprint, if there is a record.
unfoldable pub read_success : Stored → Result Raised (Option String)
unfolding has_only has_key text_at
read_success missing = ok none
read_success corrupt = err value_error
read_success (holding v) = do
  d ← or_raise (as_dict v) value_error
  raise_if (not (has_only ("version" ∷ "fingerprint" ∷ []) d)) value_error
  raise_if (not (holds_int "version" d (pos 1))) value_error
  fingerprint ← or_raise (text_at "fingerprint" d) value_error
  ok (some fingerprint)

-- `write_worktree_success`: the file that it leaves
unfoldable pub write_success : String → Stored
write_success fingerprint =
    holding (obj (field "version" (int (pos 1)) (field "fingerprint" (str fingerprint) end)))

-- Whether the decisions of a world approve plans.
unfoldable pub are_approved_in : Host → World → FilePath → List Plan → Result Raised Bool
unfolding are_approved current_digest
are_approved_in host world root plans =
    are_approved world.files root (current_digest host world.files root) world.decisions plans

unfoldable pub are_markers_ready : Files → List Plan → Bool
unfolding markers_of
are_markers_ready files plans = all (λ plan. all files.exists (markers_of plan)) plans

abbrev pub has_path : Option FilePath × String → Bool
has_path (none, version) = false
has_path (some path, version) = true

unfoldable pub is_tool_ready : Host → Files → Plan → Bool
unfolding tool_identity
is_tool_ready host files plan = elim plan.argv [
  | [] ↦ true
  | name ∷ _ ↦ has_path (tool_identity host files name plan.cwd)
]

unfoldable pub are_tools_ready : Host → Files → List Plan → Bool
unfolding is_tool_ready
are_tools_ready host files plans = all (is_tool_ready host files) plans

abbrev pub report_of : Planned → Report
report_of planned = record {
  status = planned.status;
  plans = planned.plans;
  decisions = planned.decisions;
  fingerprint = none;
  cache = none;
  failure = none;
  executed_plans = none;
}

abbrev pub unapproved : Planned → Report
unapproved planned = report_of (record {
  status = needs_decision;
  plans = planned.plans;
  decisions = request "custom-command-approval" ∷ [];
})

-- The status of plans that are ready: prepared before with this fingerprint, or pending.
unfoldable pub prepared_status : Bool → String → Planned → Report
prepared_status is_prepared fingerprint planned = record {
  status = if is_prepared then ready else pending;
  plans = planned.plans;
  decisions = planned.decisions;
  fingerprint = some fingerprint;
  cache = some (if is_prepared then hit else miss);
  failure = none;
  executed_plans = none;
}

abbrev pub holds_fingerprint : Option String → String → Bool
holds_fingerprint none fingerprint = false
holds_fingerprint (some recorded) fingerprint = str_eq recorded fingerprint

abbrev pub is_ready : Status → Bool
is_ready ready = true
is_ready _ = false

-- The status of plans that are ready, once all are approved.
unfoldable pub approved_status : Host → World → FilePath → Planned → Result Raised Report
unfolding bootstrap_fingerprint read_success are_markers_ready are_tools_ready prepared_status
approved_status host world root planned = do
  recorded ← read_success world.success
  let fingerprint = bootstrap_fingerprint host world.files root planned.plans
  ok (
      prepared_status
        (holds_fingerprint recorded fingerprint
          && are_markers_ready world.files planned.plans
          && are_tools_ready host world.files planned.plans)
        fingerprint planned)

-- The status of plans that were made.
unfoldable pub status_of_planned : Host → World → FilePath → Planned → Result Raised Report
status_of_planned host world root planned =
    if not (is_ready planned.status)
    then ok (report_of planned)
    else are_approved_in host world root planned.plans >>= λ approved.
        if approved then approved_status host world root planned else ok (unapproved planned)

-- `bootstrap_status`
unfoldable pub bootstrap_status : Host → World → FilePath → Result Raised Report
bootstrap_status host world root =
    plan_repository host world.files root >>= status_of_planned host world root
