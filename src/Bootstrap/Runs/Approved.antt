-- ===== src/Bootstrap/Runs/Approved.antt =====
-- bin/workspace_harbor_bootstrap.py: the decisions on a custom command in `bootstrap_status`.
use serena_workspace_orchest.Prelude.{
  Bool, true, false, not, Option, none, some, List, [], ◌∷◌, String, if◌then◌else◌,
}
use serena_workspace_orchest.Prelude.Strings.{str_eq}
use serena_workspace_orchest.Prelude.Results.{Result, ok, err, ◌>>=◌}
use serena_workspace_orchest.Json.{Value, Fields, end, get, as_dict, holds_str}
use serena_workspace_orchest.Bootstrap.Decisions.{
  Stored, read_state, decision_subject, decision_key,
}
use serena_workspace_orchest.Bootstrap.Plans.Paths.{FilePath}
use serena_workspace_orchest.Bootstrap.Plans.Sources.{repository_at}
use serena_workspace_orchest.Bootstrap.Plans.Data.{Plan, Files, Host, Raised, value_error}
use serena_workspace_orchest.Bootstrap.Plans.Planning.{plan_repository}

-- The digest of the custom command that is planned now.
unfoldable pub current_digest : Host → Files → FilePath → Result Raised (Option String)
unfolding plan_repository
current_digest host files root = do
  planned ← plan_repository host files root
  ok (first_digest planned.plans)
  where
    first_digest : List Plan → Option String
    first_digest [] = none
    first_digest (plan ∷ plans) =
        if str_eq plan.source "command" then some (host.command_digest plan) else first_digest plans

abbrev pub dict_or_end : Option Fields → Fields
dict_or_end none = end
dict_or_end (some d) = d

-- Whether the item approves the custom command. `or` ends at a decision that is not to approve: only
-- then the digest, which may raise, is looked at.
unfoldable pub is_item_approved :
    Files → FilePath → Result Raised (Option String) → Value → Result Raised Bool
unfolding decision_subject repository_at
is_item_approved files root digest item =
    if not (holds_str "decision" (dict_or_end (as_dict item)) "approve")
    then ok false
    else digest >>= λ found.
        elim (decision_subject (repository_at files root found) "command" "current") [
          | err message ↦ err value_error
          | ok subject ↦ ok (holds_str "digest" (dict_or_end (as_dict item)) subject)
        ]

unfoldable pub is_approved :
    Files → FilePath → Result Raised (Option String) → Fields → Result Raised Bool
unfolding decision_key get is_item_approved
is_approved files root digest decisions = elim (get (decision_key "command" "current") decisions) [
  | none ↦ ok false
  | some item ↦ is_item_approved files root digest item
]

-- Only the plan of a custom command has to be approved.
unfoldable pub is_plan_approved :
    Files → FilePath → Result Raised (Option String) → Stored → Plan → Result Raised Bool
unfolding is_approved read_state
is_plan_approved files root digest stored plan =
    if not (str_eq plan.source "command") then ok true else elim (read_state stored) [
      | err message ↦ err value_error
      | ok decisions ↦ is_approved files root digest decisions
    ]

abbrev pub and_then : Result Raised Bool → Result Raised Bool → Result Raised Bool
and_then (ok true) rest = rest
and_then r rest = r

-- The loop of `bootstrap_status` over the plans, with the digest of `_decision_subject`.
unfoldable pub are_approved :
    Files → FilePath → Result Raised (Option String) → Stored → List Plan → Result Raised Bool
unfolding is_plan_approved
are_approved files root digest stored [] = ok true
are_approved files root digest stored (plan ∷ plans) =
    let rest = are_approved files root digest stored plans in
    and_then (is_plan_approved files root digest stored plan) rest
