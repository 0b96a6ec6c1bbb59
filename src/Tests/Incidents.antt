-- ===== src/Tests/Incidents.antt =====
-- Runs of bin/workspace_harbor_bridge.py's incidents.
use serena_workspace_orchest.Prelude.{ℕ, ◌≡◌, refl, true, false, none, some, [], ◌∷◌, String}
use serena_workspace_orchest.Prelude.Results.{ok}
use serena_workspace_orchest.Prelude.Int.{pos}
use serena_workspace_orchest.Codex.Identifiers.{TimeText, iso}
use serena_workspace_orchest.Bridge.Incident.{BridgeIncident, validate_incident}
use serena_workspace_orchest.Bridge.Store.{
  Record, holding, Directory, load, create, create_or_reuse_restart, transition, Change, Report,
  change, new_incident, find_file, put_file,
}
use serena_workspace_orchest.Bridge.Lookup.{IsDirectory, no_files, and_file}
use serena_workspace_orchest.Bridge.Transitions.{transition-IsRecorded, IsRecorded, stage}
use serena_workspace_orchest.Bridge.Lifecycle.{
  move, creation, Reach, here, after, IsLater, incidents_only_advance, closed_is_final,
}
use serena_workspace_orchest.Bridge.Reuse.{reuse_is_stable}

abbrev first_id : String
first_id = "0123456789abcdef0123456789abcdef"

abbrev time : ℕ → TimeText
time instant = iso (record { instant = instant; aware = true })

abbrev report : Report
report = record {
  id = first_id;
  root = "/home/user/project";
  root_digest = "0123456789abcdef01234567";
  thread_id = "thread-1";
  reason = "handshake-failed";
  now = time 1;
}

abbrev incident_at : String → TimeText → String → BridgeIncident
incident_at state updated_at reason = record {
  id = first_id;
  root = "/home/user/project";
  root_digest = "0123456789abcdef01234567";
  thread_id = "thread-1";
  created_at = time 1;
  updated_at = updated_at;
  state = state;
  restart_attempted = false;
  heartbeat_id = none;
  reason = reason;
  dogfood_restart = false;
  schema_version = pos 1;
}

abbrev diagnosing : BridgeIncident
diagnosing = incident_at "diagnosing" (time 1) "handshake-failed"

abbrev blocked : BridgeIncident
blocked = incident_at "closed-blocked" (time 2) "not-safe"

abbrev eligible : BridgeIncident
eligible = incident_at "restart-eligible" (time 1) "handshake-failed"

abbrev only : BridgeIncident → Directory
only incident = (first_id, holding incident) ∷ []

is_valid :
    (validate_incident diagnosing ≡ ok tt)
    × (validate_incident blocked ≡ ok tt)
    × (validate_incident eligible ≡ ok tt)
unfolding validate_incident
is_valid = (refl, refl, refl)

IsDirectory-diagnosing : IsDirectory (only diagnosing)
IsDirectory-diagnosing =
    and_file first_id (holding diagnosing) []
      (record { incident = diagnosing; holds = refl; valid = is_valid.0; named = refl }) no_files

IsDirectory-blocked : IsDirectory (only blocked)
IsDirectory-blocked =
    and_file first_id (holding blocked) []
      (record { incident = blocked; holds = refl; valid = is_valid.1; named = refl }) no_files

abbrev by : Change
by = record {
  reason = some "not-safe";
  restart_attempted = none;
  heartbeat_id = none;
  dogfood_restart = none;
}

closes :
    transition first_id "diagnosing" "closed-blocked" by (time 2) (only diagnosing)
    ≡ ok (only blocked, blocked)
unfolding transition serena_workspace_orchest.Bridge.Store.save
    serena_workspace_orchest.Bridge.Store.write_locked
closes = refl

loads :
    (load first_id (only diagnosing) ≡ ok diagnosing) × (load first_id (only blocked) ≡ ok blocked)
unfolding load
loads = (refl, refl)

transition-IsRecorded_example :
    IsRecorded first_id "closed-blocked" (only diagnosing) (only blocked) blocked
transition-IsRecorded_example =
    transition-IsRecorded first_id "diagnosing" "closed-blocked" by (time 2) (only diagnosing)
      (only blocked) blocked IsDirectory-diagnosing closes

abbrev closing : Reach (only diagnosing) (only blocked)
closing =
    after (only diagnosing) (only blocked) here
      (move first_id "diagnosing" "closed-blocked" by (time 2) blocked closes)

incidents_only_advance_example : IsLater diagnosing (load first_id (only blocked))
incidents_only_advance_example =
    incidents_only_advance (only diagnosing) (only blocked) first_id diagnosing
      IsDirectory-diagnosing loads.0 closing

abbrev second_report : Report
second_report = record {
  id = "1123456789abcdef0123456789abcdef";
  root = "/home/user/project";
  root_digest = "0123456789abcdef01234567";
  thread_id = "thread-1";
  reason = "handshake-failed";
  now = time 3;
}

abbrev second : BridgeIncident
second = record {
  id = "1123456789abcdef0123456789abcdef";
  root = "/home/user/project";
  root_digest = "0123456789abcdef01234567";
  thread_id = "thread-1";
  created_at = time 3;
  updated_at = time 3;
  state = "diagnosing";
  restart_attempted = false;
  heartbeat_id = none;
  reason = "handshake-failed";
  dogfood_restart = false;
  schema_version = pos 1;
}

abbrev two : Directory
two = (first_id, holding blocked) ∷ ("1123456789abcdef0123456789abcdef", holding second) ∷ []

second_is_created :
    (find_file "1123456789abcdef0123456789abcdef" (only blocked) ≡ none)
    × (create second_report "diagnosing" (only blocked) ≡ ok (two, second))
unfolding create find_file
second_is_created = (refl, refl)

blocked_stage : stage blocked.state ≡ 4
unfolding stage
blocked_stage = refl

closed_is_final_example : load first_id two ≡ ok blocked
closed_is_final_example =
    closed_is_final (only blocked) two first_id blocked IsDirectory-blocked loads.1 blocked_stage (
      after (only blocked) two here
        (creation second_report "diagnosing" second second_is_created.0 second_is_created.1))

first_is_made : create_or_reuse_restart report [] ≡ ok (only eligible, eligible)
unfolding create_or_reuse_restart
first_is_made = refl

reuse_is_stable_example :
    create_or_reuse_restart second_report (only eligible) ≡ ok (only eligible, eligible)
reuse_is_stable_example =
    reuse_is_stable report second_report [] (only eligible) eligible first_is_made refl refl
