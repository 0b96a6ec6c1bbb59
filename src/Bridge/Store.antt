-- ===== src/Bridge/Store.antt =====
-- bin/workspace_harbor_bridge.py: `IncidentStore`. Each operation holds the store's lock, so it is
-- one step on the directory's records.
use serena_workspace_orchest.Prelude.{
  Bool, false, not, ◌&&◌, Option, none, some, List, [], ◌∷◌, ◌++◌, String, if◌then◌else◌,
}
use serena_workspace_orchest.Prelude.Strings.{codes, codes_before, is_empty, str_eq, member}
use serena_workspace_orchest.Prelude.Int.{pos}
use serena_workspace_orchest.Prelude.Results.{Result, ok, err, ◌>>=◌, ◌>>◌, raise_if}
use serena_workspace_orchest.Codex.Identifiers.{TimeText}
use serena_workspace_orchest.Bridge.Incident.{
  BridgeIncident, is_hex_text, validate_incident, next_states,
}

-- A file holds a record with fields of the declared types, or does not decode to one.
pub data Record : Type 0 where
  malformed : Record
  holding : BridgeIncident → Record

-- The files `NAME.json` by their NAME, in the order of their names.
abbrev pub Directory : Type 0
Directory = List (String × Record)

-- The order of the files' names.
unfoldable pub is_before : String → String → Bool
unfolding codes_before
is_before a b = codes_before (codes a ++ codes ".json") (codes b ++ codes ".json")

unfoldable pub find_file : String → Directory → Option Record
find_file name [] = none
find_file name ((stored, file) ∷ files) =
    if str_eq stored name then some file else find_file name files

-- `os.replace`: the file takes the place of one of its name, or its own place in the order.
unfoldable pub put_file : String → Record → Directory → Directory
unfolding is_before
put_file name file [] = (name, file) ∷ []
put_file name file ((stored, old) ∷ files) =
    if str_eq stored name
    then (stored, file) ∷ files
    else if is_before name stored
    then (name, file) ∷ (stored, old) ∷ files
    else (stored, old) ∷ put_file name file files

-- `_decode`
unfoldable pub decode_record : Option Record → Result String BridgeIncident
unfolding validate_incident
decode_record none = err "invalid incident record"
decode_record (some malformed) = err "invalid incident record"
decode_record (some (holding incident)) = do validate_incident incident; ok incident

-- `_write_locked`
unfoldable pub write_locked : BridgeIncident → Directory → Result String Directory
unfolding validate_incident put_file
write_locked incident store = do
  validate_incident incident
  ok (put_file incident.id (holding incident) store)

-- `load`, with the check of `path_for`
unfoldable pub load : String → Directory → Result String BridgeIncident
unfolding is_hex_text decode_record find_file
load incident_id store = do
  raise_if (not (is_hex_text 32 incident_id)) "invalid incident id"
  decode_record (find_file incident_id store)

unfoldable pub save : BridgeIncident → Directory → Result String (Directory × BridgeIncident)
unfolding write_locked
save incident store = do saved ← write_locked incident store; ok (saved, incident)

-- What a new incident is made of: the canonical root and its digest, the task, `uuid4().hex` and
-- the time.
pub record Report : Type 0 where
  pub id : String
  pub root : String
  pub root_digest : String
  pub thread_id : String
  pub reason : String
  pub now : TimeText

unfoldable pub new_incident : Report → String → BridgeIncident
new_incident report state = record {
  id = report.id;
  root = report.root;
  root_digest = report.root_digest;
  thread_id = report.thread_id;
  created_at = report.now;
  updated_at = report.now;
  state = state;
  restart_attempted = false;
  heartbeat_id = none;
  reason = report.reason;
  dogfood_restart = false;
  schema_version = pos 1;
}

unfoldable pub create : Report → String → Directory → Result String (Directory × BridgeIncident)
unfolding save new_incident
create report state store = save (new_incident report state) store

abbrev pub is_reusable : Report → BridgeIncident → Bool
is_reusable report incident =
    str_eq incident.root report.root
    && str_eq incident.thread_id report.thread_id
    && str_eq incident.state "restart-eligible"

-- The loop of `create_or_reuse_restart`: the first incident to use again.
unfoldable pub find_reusable : Report → Directory → Result String (Option BridgeIncident)
unfolding decode_record
find_reusable report [] = ok none
find_reusable report ((name, file) ∷ files) =
    let rest = find_reusable report files in
    decode_record (some file) >>= λ incident.
    if is_reusable report incident then ok (some incident) else rest

unfoldable pub create_or_reuse_restart :
    Report → Directory → Result String (Directory × BridgeIncident)
unfolding find_reusable create
create_or_reuse_restart report store = find_reusable report store >>= λ found. elim found [
  | some incident ↦ ok (store, incident)
  | none ↦ create report "restart-eligible" store
]

-- The keyword arguments of `transition`; `none` leaves a field as it is.
pub record Change : Type 0 where
  pub reason : Option String
  pub restart_attempted : Option Bool
  pub heartbeat_id : Option String
  pub dogfood_restart : Option Bool

-- `reason or current.reason`
abbrev pub or_reason : Option String → String → String
or_reason none current = current
or_reason (some s) current = if is_empty s then current else s

abbrev pub or_flag : Option Bool → Bool → Bool
or_flag none current = current
or_flag (some b) current = b

abbrev pub or_option : Option String → Option String → Option String
or_option none current = current
or_option (some s) current = some s

unfoldable pub change : BridgeIncident → String → Change → TimeText → BridgeIncident
change current next_state by now = record {
  id = current.id;
  root = current.root;
  root_digest = current.root_digest;
  thread_id = current.thread_id;
  created_at = current.created_at;
  updated_at = now;
  state = next_state;
  restart_attempted = or_flag by.restart_attempted current.restart_attempted;
  heartbeat_id = or_option by.heartbeat_id current.heartbeat_id;
  reason = or_reason by.reason current.reason;
  dogfood_restart = or_flag by.dogfood_restart current.dogfood_restart;
  schema_version = current.schema_version;
}

unfoldable pub transition :
    String
    → String
    → String
    → Change
    → TimeText
    → Directory
    → Result String (Directory × BridgeIncident)
unfolding next_states member load change save
transition incident_id expected next_state by now store = do
  raise_if (not (member next_state (next_states expected))) "invalid incident transition"
  current ← load incident_id store
  raise_if (not (str_eq current.state expected)) "incident state changed"
  save (change current next_state by now) store

-- `close`: `load` and `transition` take the lock one after the other; `between` is what others do
-- to the store meanwhile.
unfoldable pub close :
    String
    → String
    → String
    → TimeText
    → (Directory → Directory)
    → Directory
    → Result String (Directory × BridgeIncident)
unfolding load transition
close incident_id terminal_state reason now between store = do
  current ← load incident_id store
  transition incident_id current.state terminal_state
      (record {
        reason = some reason;
        restart_attempted = none;
        heartbeat_id = none;
        dogfood_restart = none;
      })
      now (between store)
