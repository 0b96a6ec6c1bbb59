-- ===== src/Codex/Checkpoint.antt =====
-- bin/workspace_harbor_codex.py: `load_checkpoint`, from the value of `json.loads`. An error is the message or the name of the exception. The fields that the checks
-- read have the declared types; one of another type is an error here as well.
use serena_workspace_orchest.Prelude.{
  Bool, true, false, not, ◌&&◌, ◌||◌, none, some, List, [], ◌∷◌, String, ltb, ◌==◌,
}
use serena_workspace_orchest.Prelude.Strings.{str_eq, member}
use serena_workspace_orchest.Prelude.Int.{ℤ, pos}
use serena_workspace_orchest.Prelude.Results.{Result, ok, ◌>>=◌, ◌>>◌, raise_if, or_raise}
use serena_workspace_orchest.Json.{
  Value, int, str, obj, Fields, field, end, get, as_int, as_str, as_dict,
}
use serena_workspace_orchest.Codex.Identifiers.{
  check_incident_id, check_uuid, check_safe_identifier,
}

pub record Identity : Type 0 where
  pub pid : ℤ
  pub started : String
  pub executable : String
  pub bundle_id : String

pub record RelaunchCheckpoint : Type 0 where
  pub incident_id : String
  pub incident_store : String
  pub root : String
  pub thread_id : String
  pub heartbeat_id : String
  pub attestation_nonce : String
  pub doctor_pid : ℤ
  pub app_identity : Identity
  pub created_at : String
  pub schema_version : ℤ

unfoldable pub text_field : String → Fields → Result String String
unfolding get
text_field key d = do v ← or_raise (get key d) "TypeError"; or_raise (as_str v) "TypeError"

unfoldable pub int_field : String → Fields → Result String ℤ
unfolding get
int_field key d = do v ← or_raise (get key d) "TypeError"; or_raise (as_int v) "TypeError"

-- A key that is not a parameter is an error of the constructor.
unfoldable pub has_only : List String → Fields → Bool
unfolding member
has_only keys end = true
has_only keys (field k v d) = member k keys && has_only keys d

-- `CodexProcessIdentity(**payload)`
unfoldable pub read_identity : Fields → Result String Identity
unfolding text_field int_field has_only
read_identity d = do
  raise_if (not (has_only ("pid" ∷ "started" ∷ "executable" ∷ "bundle_id" ∷ []) d)) "TypeError"
  pid ← int_field "pid" d
  started ← text_field "started" d
  executable ← text_field "executable" d
  bundle_id ← text_field "bundle_id" d
  ok (record { pid = pid; started = started; executable = executable; bundle_id = bundle_id })

-- `schema_version` has the default 1.
unfoldable pub version_field : Fields → Result String ℤ
unfolding get
version_field d = elim (get "schema_version" d) [
  | none ↦ ok (pos 1)
  | some v ↦ or_raise (as_int v) "TypeError"
]

abbrev pub checkpoint_keys : List String
checkpoint_keys =
    "incident_id" ∷ "incident_store" ∷ "root" ∷ "thread_id" ∷ "heartbeat_id" ∷ "attestation_nonce"
    ∷ "doctor_pid" ∷ "app_identity" ∷ "created_at" ∷ "schema_version" ∷ []

-- `RelaunchCheckpoint(**payload)`
unfoldable pub read_checkpoint : Fields → Result String RelaunchCheckpoint
unfolding read_identity text_field int_field version_field has_only get
read_checkpoint d = do
  v ← or_raise (get "app_identity" d) "KeyError"
  payload ← or_raise (as_dict v) "TypeError"
  identity ← read_identity payload
  raise_if (not (has_only checkpoint_keys d)) "TypeError"
  incident_id ← text_field "incident_id" d
  incident_store ← text_field "incident_store" d
  root ← text_field "root" d
  thread_id ← text_field "thread_id" d
  heartbeat_id ← text_field "heartbeat_id" d
  attestation_nonce ← text_field "attestation_nonce" d
  doctor_pid ← int_field "doctor_pid" d
  created_at ← text_field "created_at" d
  schema_version ← version_field d
  ok (record {
    incident_id = incident_id;
    incident_store = incident_store;
    root = root;
    thread_id = thread_id;
    heartbeat_id = heartbeat_id;
    attestation_nonce = attestation_nonce;
    doctor_pid = doctor_pid;
    app_identity = identity;
    created_at = created_at;
    schema_version = schema_version;
  })

abbrev pub is_one : ℤ → Bool
is_one (pos n) = n == 1
is_one _ = false

abbrev pub is_positive : ℤ → Bool
is_positive (pos n) = ltb 0 n
is_positive _ = false

abbrev pub app_executable_text : String
app_executable_text = "/Applications/ChatGPT.app/Contents/MacOS/ChatGPT"

abbrev pub app_bundle_text : String
app_bundle_text = "com.openai.codex"

unfoldable pub check_checkpoint : RelaunchCheckpoint → Result String (Unit {0})
unfolding check_incident_id check_uuid check_safe_identifier
check_checkpoint c = do
  raise_if (not (is_one c.schema_version)) "invalid checkpoint schema"
  check_incident_id c.incident_id
  check_uuid c.thread_id "invalid checkpoint thread"
  check_safe_identifier c.heartbeat_id "invalid checkpoint heartbeat"
  raise_if (not (is_positive c.doctor_pid)) "invalid checkpoint pid"
  raise_if
      (not (str_eq c.app_identity.executable app_executable_text)
        || not (str_eq c.app_identity.bundle_id app_bundle_text))
      "invalid checkpoint identity"

-- `load_checkpoint`
unfoldable pub load_checkpoint : Value → Result String RelaunchCheckpoint
unfolding read_checkpoint check_checkpoint
load_checkpoint payload = do
  d ← or_raise (as_dict payload) "TypeError"
  checkpoint ← read_checkpoint d
  check_checkpoint checkpoint
  ok checkpoint

-- `asdict(value)`, as `write_private_dataclass` writes it.
unfoldable pub identity_dict : Identity → Fields
identity_dict i = field "pid" (int i.pid) (
    field "started" (str i.started)
      (field "executable" (str i.executable) (field "bundle_id" (str i.bundle_id) end)))

unfoldable pub checkpoint_dict : RelaunchCheckpoint → Fields
unfolding identity_dict
checkpoint_dict c = field "incident_id" (str c.incident_id) (
    field "incident_store" (str c.incident_store) (
      field "root" (str c.root) (
        field "thread_id" (str c.thread_id) (
          field "heartbeat_id" (str c.heartbeat_id) (
            field "attestation_nonce" (str c.attestation_nonce) (
              field "doctor_pid" (int c.doctor_pid) (
                field "app_identity" (obj (identity_dict c.app_identity)) (
                  field "created_at" (str c.created_at)
                    (field "schema_version" (int c.schema_version) end)))))))))
