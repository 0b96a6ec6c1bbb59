-- ===== src/Tests/Restart.antt =====
-- Runs of bin/workspace_harbor_codex.py on one task.
use serena_workspace_orchest.Prelude.{
  ℕ, ◌≡◌, refl, ◌↔◌, true, false, none, some, [], ◌∷◌, String, arith, if◌then◌else◌,
}
use serena_workspace_orchest.Prelude.Results.{ok, err}
use serena_workspace_orchest.Prelude.Int.{pos, int_eq}
use serena_workspace_orchest.Prelude.Strings.{codes}
use serena_workspace_orchest.Opener.Process.{completed}
use serena_workspace_orchest.Codex.Identifiers.{DateTime, TimeText, iso, other, text, flag, moment}
use serena_workspace_orchest.Codex.Attestation.{
  RestartAttestation, Evidence, build_restart_attestation, validate_restart_attestation, read_times,
  attestation,
}
use serena_workspace_orchest.Codex.Validity.{built_is_valid, valid-IsExclusive, IsExclusive}
use serena_workspace_orchest.Codex.App.{
  Machine, CodexProcessIdentity, find_codex_app_identity, identity_matches, candidate_pids,
  app_executable, app_bundle_id,
}
use serena_workspace_orchest.Codex.Found.{found_matches, matching_is_unique}
use serena_workspace_orchest.Codex.Policy.{load_policy, is_enabled, policy, holding}
use serena_workspace_orchest.Codex.Checkpoint.{RelaunchCheckpoint, load_checkpoint, checkpoint_dict}
use serena_workspace_orchest.Codex.Checked.{IsChecked, load_checkpoint-checkpoint_dict}
use serena_workspace_orchest.Json.{obj}

abbrev thread : String
thread = "0198c2f4-7a1b-7c3d-8e5f-0123456789ab"

abbrev incident_id : String
incident_id = "0123456789abcdef0123456789abcdef"

abbrev at : ℕ → DateTime
at instant = record { instant = instant; aware = true }

abbrev evidence : Evidence
evidence = record {
  current_thread = thread;
  host_id = "host-1";
  active_threads = thread ∷ [];
  unavailable_hosts = [];
  observed_at = at 1_000_000;
  heartbeat = record {
    id = text "heartbeat-1";
    target_thread_id = text thread;
    enabled = flag true;
    incident = text incident_id;
    next_run = moment (at 61_000_000);
  };
  incident = incident_id;
  active_children = [];
  unknown_threads = [];
  nonce = none;
}

abbrev nonce : String
nonce = "00112233445566778899aabbccddeeff"

abbrev built : RestartAttestation
built = record {
  current_thread = thread;
  host_id = "host-1";
  active_threads = thread ∷ [];
  unavailable_host_count = 0;
  observed_at = iso (at 1_000_000);
  heartbeat_id = "heartbeat-1";
  heartbeat_target = thread;
  heartbeat_next_run = iso (at 61_000_000);
  incident = incident_id;
  nonce = nonce;
  schema_version = 1;
}

build_runs : build_restart_attestation evidence nonce ≡ ok built
unfolding build_restart_attestation serena_workspace_orchest.Codex.Identifiers.check_uuid
    serena_workspace_orchest.Codex.Identifiers.check_incident_id
    serena_workspace_orchest.Codex.Identifiers.check_safe_identifier
    serena_workspace_orchest.Codex.Attestation.check_tasks
    serena_workspace_orchest.Codex.Attestation.check_heartbeat
    serena_workspace_orchest.Codex.Attestation.check_nonce
    serena_workspace_orchest.Codex.Attestation.nonce_value
    serena_workspace_orchest.Codex.Identifiers.aware_instant attestation
    serena_workspace_orchest.Codex.Identifiers.text_value
build_runs = refl

built_is_valid_example :
    validate_restart_attestation built thread incident_id (at 31_000_000) ≡ ok tt
built_is_valid_example =
    built_is_valid evidence nonce built 31_000_000 build_runs (omega arith) (omega arith)

valid-IsExclusive_example : IsExclusive built thread incident_id 31_000_000
valid-IsExclusive_example =
    valid-IsExclusive built thread incident_id 31_000_000 built_is_valid_example

abbrev zoneless : RestartAttestation
zoneless = record {
  current_thread = thread;
  host_id = "host-1";
  active_threads = thread ∷ [];
  unavailable_host_count = 0;
  observed_at = iso (record { instant = 1_000_000; aware = false });
  heartbeat_id = "heartbeat-1";
  heartbeat_target = thread;
  heartbeat_next_run = iso (at 61_000_000);
  incident = incident_id;
  nonce = nonce;
  schema_version = 1;
}

zoneless_fails : read_times zoneless ≡ err "invalid-attestation-time"
unfolding read_times
zoneless_fails = refl

abbrev mac : Machine
mac = record {
  pgrep = completed (pos 0) "4321\n";
  defaults = completed (pos 0) "com.openai.codex\n";
  ps = λ pid.
      if int_eq pid (pos 4321)
      then completed (pos 0)
          "Mon Jul  6 10:00:00 2026 /Applications/ChatGPT.app/Contents/MacOS/ChatGPT\n"
      else completed (pos 1) "";
}

abbrev app : CodexProcessIdentity
app = record {
  pid = pos 4321;
  started = codes "Mon Jul  6 10:00:00 2026";
  executable = app_executable;
  bundle_id = app_bundle_id;
}

app_is_found : find_codex_app_identity mac ≡ some app
unfolding find_codex_app_identity
app_is_found = refl

found_matches_example :
    (candidate_pids mac.pgrep ≡ pos 4321 ∷ []) × (identity_matches mac app ≡ true)
found_matches_example = found_matches mac app app_is_found

app_matches : identity_matches mac app ≡ true
unfolding identity_matches
app_matches = refl

matching_is_unique_example : ◌≡◌ {A = CodexProcessIdentity} app app
matching_is_unique_example = matching_is_unique mac app app app_matches app_matches refl

policy_is_on : is_enabled (load_policy (holding (obj (policy true)))) ≡ true
unfolding is_enabled load_policy
policy_is_on = refl

abbrev checkpoint : RelaunchCheckpoint
checkpoint = record {
  incident_id = incident_id;
  incident_store = "/state/incidents";
  root = "/project";
  thread_id = thread;
  heartbeat_id = "heartbeat-1";
  attestation_nonce = nonce;
  doctor_pid = pos 77;
  app_identity = record {
    pid = pos 4321;
    started = "Mon Jul  6 10:00:00 2026";
    executable = "/Applications/ChatGPT.app/Contents/MacOS/ChatGPT";
    bundle_id = "com.openai.codex";
  };
  created_at = "2026-07-06T10:00:00+00:00";
  schema_version = pos 1;
}

load_checkpoint-checkpoint_dict_example :
    (load_checkpoint (obj (checkpoint_dict checkpoint)) ≡ ok checkpoint) ↔ IsChecked checkpoint
load_checkpoint-checkpoint_dict_example = load_checkpoint-checkpoint_dict checkpoint

checkpoint_is_loaded : load_checkpoint (obj (checkpoint_dict checkpoint)) ≡ ok checkpoint
unfolding load_checkpoint checkpoint_dict
checkpoint_is_loaded = refl
