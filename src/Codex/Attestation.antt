-- ===== src/Codex/Attestation.antt =====
-- bin/workspace_harbor_codex.py: `build_restart_attestation` and `validate_restart_attestation`.
-- An error is the reason of its `AttestationError`.
use serena_workspace_orchest.Prelude.{
  ℕ, ◌+◌, Bool, true, false, ◌||◌, Option, none, some, List, [], ◌∷◌, String, not, ltb, ◌==◌,
  if◌then◌else◌,
}
use serena_workspace_orchest.Prelude.Strings.{str_eq, is_empty, member}
use serena_workspace_orchest.Prelude.Results.{Result, ok, err, ◌>>=◌, ◌>>◌, raise_if}
use serena_workspace_orchest.Codex.Identifiers.{
  DateTime, TimeText, iso, other, Any, text, flag, moment, aware_instant, check_uuid,
  check_incident_id, is_hex_number, check_safe_identifier, text_value,
}

abbrev pub seconds : ℕ
seconds = 1_000_000

abbrev pub state_schema_version : ℕ
state_schema_version = 1

abbrev pub heartbeat_min : ℕ
heartbeat_min = 30_000_000

abbrev pub heartbeat_max : ℕ
heartbeat_max = 180_000_000

abbrev pub attestation_max_age : ℕ
attestation_max_age = 30_000_000

pub record RestartAttestation : Type 0 where
  pub current_thread : String
  pub host_id : String
  pub active_threads : List String
  pub unavailable_host_count : ℕ
  pub observed_at : TimeText
  pub heartbeat_id : String
  pub heartbeat_target : String
  pub heartbeat_next_run : TimeText
  pub incident : String
  pub nonce : String
  pub schema_version : ℕ

-- The heartbeat's dictionary at the keys that are read; a missing key is `nothing`.
pub record Heartbeat : Type 0 where
  pub id : Any
  pub target_thread_id : Any
  pub enabled : Any
  pub incident : Any
  pub next_run : Any

pub record Evidence : Type 0 where
  pub current_thread : String
  pub host_id : String
  pub active_threads : List String
  pub unavailable_hosts : List String
  pub observed_at : DateTime
  pub heartbeat : Heartbeat
  pub incident : String
  pub active_children : List String
  pub unknown_threads : List String
  pub nonce : Option String

unfoldable pub has_duplicates : List String → Bool
unfolding member
has_duplicates [] = false
has_duplicates (x ∷ xs) = member x xs || has_duplicates xs

unfoldable pub check_uuids : List String → Result String (Unit {0})
check_uuids [] = ok tt
check_uuids (x ∷ xs) = do check_uuid x "invalid-active-thread"; check_uuids xs

abbrev pub non_empty {ℓ} : {A : Type ℓ} → List A → Bool
non_empty [] = false
non_empty (x ∷ xs) = true

abbrev pub is_only : List String → String → Bool
is_only (x ∷ []) current = str_eq x current
is_only _ current = false

-- The current task is the one active task, and nothing else is active, unknown or out of reach.
unfoldable pub check_tasks : Evidence → Result String (Unit {0})
unfolding has_duplicates check_uuids member
check_tasks e = do
  raise_if (has_duplicates e.active_threads) "duplicate-task-id"
  check_uuids e.active_threads
  raise_if (non_empty e.active_children) "active-child"
  raise_if (non_empty e.unknown_threads) "unknown-task-status"
  raise_if (non_empty e.unavailable_hosts) "unavailable-host"
  raise_if (not (member e.current_thread e.active_threads)) "current-task-missing"
  raise_if (not (is_only e.active_threads e.current_thread)) "second-active-task"

abbrev pub is_text : Any → String → Bool
is_text (text s) t = str_eq s t
is_text _ t = false

abbrev pub is_true : Any → Bool
is_true (flag b) = b
is_true _ = false

unfoldable pub moment_value : Any → Result String DateTime
moment_value (moment time) = ok time
moment_value _ = err "invalid-heartbeat-time"

-- The next run comes 30 to 180 seconds after the observation.
unfoldable pub check_delay : ℕ → ℕ → Result String (Unit {0})
check_delay observed next = do
  raise_if (ltb next (observed + heartbeat_min)) "heartbeat-too-soon"
  raise_if (ltb (observed + heartbeat_max) next) "heartbeat-too-late"

-- The checks on the heartbeat: its identifier and the instant of its next run.
unfoldable pub check_heartbeat : Evidence → ℕ → Result String (String × ℕ)
unfolding moment_value check_delay
check_heartbeat e observed = do
  heartbeat_id ← text_value e.heartbeat.id "invalid-heartbeat-id"
  check_safe_identifier heartbeat_id "invalid-heartbeat-id"
  raise_if (not (is_text e.heartbeat.target_thread_id e.current_thread)) "heartbeat-target-mismatch"
  raise_if (not (is_true e.heartbeat.enabled)) "heartbeat-disabled"
  raise_if (not (is_text e.heartbeat.incident e.incident)) "incident-mismatch"
  time ← moment_value e.heartbeat.next_run
  next ← aware_instant time "invalid-heartbeat-time"
  check_delay observed next
  ok (heartbeat_id, next)

-- `nonce or secrets.token_hex(16)`
unfoldable pub nonce_value : Option String → String → String
nonce_value none random = random
nonce_value (some nonce) random = if is_empty nonce then random else nonce

unfoldable pub check_nonce : String → Result String (Unit {0})
check_nonce nonce = raise_if (not (is_hex_number nonce)) "invalid-nonce"

unfoldable pub attestation : Evidence → ℕ → String → ℕ → String → RestartAttestation
attestation e observed heartbeat_id next nonce = record {
  current_thread = e.current_thread;
  host_id = e.host_id;
  active_threads = e.active_threads;
  unavailable_host_count = 0;
  observed_at = iso (record { instant = observed; aware = true });
  heartbeat_id = heartbeat_id;
  heartbeat_target = e.current_thread;
  heartbeat_next_run = iso (record { instant = next; aware = true });
  incident = e.incident;
  nonce = nonce;
  schema_version = state_schema_version;
}

-- `build_restart_attestation`; `random` is what `secrets.token_hex(16)` returns.
unfoldable pub build_restart_attestation : Evidence → String → Result String RestartAttestation
build_restart_attestation e random = do
  check_uuid e.current_thread "invalid-current-thread"
  check_safe_identifier e.host_id "invalid-host"
  check_incident_id e.incident
  check_tasks e
  observed ← aware_instant e.observed_at "invalid-observation-time"
  (heartbeat_id, next) ← check_heartbeat e observed
  check_nonce (nonce_value e.nonce random)
  ok (attestation e observed heartbeat_id next (nonce_value e.nonce random))

unfoldable pub from_iso : TimeText → Result String DateTime
from_iso (iso time) = ok time
from_iso (other s) = err "invalid-attestation-time"

-- The identifiers of an attestation, on their own.
unfoldable pub check_identifiers : RestartAttestation → Result String (Unit {0})
check_identifiers a = do
  raise_if (not (a.schema_version == state_schema_version)) "invalid-attestation-schema"
  check_uuid a.current_thread "invalid-current-thread"
  check_safe_identifier a.host_id "invalid-host"
  check_incident_id a.incident
  check_safe_identifier a.heartbeat_id "invalid-heartbeat-id"
  check_nonce a.nonce

-- The two parses, with the reasons that they raise.
unfoldable pub parse_times : RestartAttestation → Result String (ℕ × ℕ)
unfolding from_iso aware_instant
parse_times a = do
  observed_time ← from_iso a.observed_at
  observed ← aware_instant observed_time "invalid-observation-time"
  next_time ← from_iso a.heartbeat_next_run
  next ← aware_instant next_time "invalid-heartbeat-time"
  ok (observed, next)

-- `except ValueError`: an `AttestationError` is one, so every reason becomes the same.
unfoldable pub read_times : RestartAttestation → Result String (ℕ × ℕ)
unfolding parse_times
read_times a = elim (parse_times a) [
  | ok times ↦ ok times
  | err reason ↦ err "invalid-attestation-time"
]

unfoldable pub check_age : ℕ → ℕ → Result String (Unit {0})
check_age observed now = do
  raise_if (ltb now observed) "attestation-from-future"
  raise_if (ltb (observed + attestation_max_age) now) "attestation-expired"

unfoldable pub check_exclusive : RestartAttestation → String → Result String (Unit {0})
check_exclusive a current_thread = do
  raise_if (not (is_only a.active_threads current_thread)) "attestation-not-exclusive"
  raise_if (not (a.unavailable_host_count == 0)) "attestation-host-unavailable"
  raise_if (not (str_eq a.heartbeat_target current_thread)) "attestation-heartbeat-mismatch"

-- `validate_restart_attestation`
unfoldable pub validate_restart_attestation :
    RestartAttestation → String → String → DateTime → Result String (Unit {0})
validate_restart_attestation a current_thread incident now = do
  check_identifiers a
  raise_if (not (str_eq a.current_thread current_thread)) "attestation-thread-mismatch"
  raise_if (not (str_eq a.incident incident)) "attestation-incident-mismatch"
  (observed, next) ← read_times a
  check_delay observed next
  current ← aware_instant now "invalid-current-time"
  check_age observed current
  check_exclusive a current_thread
