-- ===== src/Opener/Owner.antt =====
-- bin/workspace_harbor_opener_queue.py: the identity of an owner, in memory and in a record.
use serena_workspace_orchest.Prelude.{
  Bool, true, false, ◌&&◌, ◌||◌, Option, none, some, String, not, ltb, if◌then◌else◌,
}
use serena_workspace_orchest.Prelude.Int.{ℤ, positive}
use serena_workspace_orchest.Prelude.Results.{Result, ok, err, ◌>>=◌, ◌>>◌, or_raise, raise_if}
use serena_workspace_orchest.Prelude.Strings.{is_empty, text_length, codes, codes_eq, has_infix}
use serena_workspace_orchest.Json.{
  int, str, Fields, field, end, get, as_int, as_str, holds_int, holds_str,
}
use serena_workspace_orchest.Opener.Process.{Failure, coordination, PsRun, Details, process_details}

pub record OwnerIdentity : Type 0 where
  pub request_id : String
  pub pid : ℤ
  pub process_started : String
  pub command_token : String

-- `ps` for each process, at one moment
abbrev pub Probe : Type 0
Probe = ℤ → PsRun

unfoldable pub is_positive : ℤ → Bool
is_positive n = elim (positive n) [ none ↦ false | some m ↦ true ]

-- `details[0] == started`, and `token in details[1]`
unfoldable pub started_at : Details → String → Bool
unfolding codes_eq
started_at details started = codes_eq details.0 (codes started)

unfoldable pub runs_command : Details → String → Bool
unfolding has_infix
runs_command details token = has_infix (codes token) details.1

unfoldable pub validate_owner : Probe → OwnerIdentity → Result Failure (Unit {0})
unfolding is_positive
validate_owner probe owner = do
  raise_if (is_empty owner.request_id || ltb 128 (text_length owner.request_id))
      (coordination "owner-identity" "request ID is invalid")
  raise_if
      (not (is_positive owner.pid)
        || is_empty owner.process_started
        || is_empty owner.command_token)
      (coordination "owner-identity" "owner identity is incomplete")
  details ← process_details (probe owner.pid)
  elim details [
    | none ↦ err (coordination "owner-identity" "caller process identity is stale")
    | some found ↦ do
      raise_if (not (started_at found owner.process_started))
          (coordination "owner-identity" "caller process identity is stale")
      raise_if (not (runs_command found owner.command_token))
          (coordination "owner-identity" "caller command identity is ambiguous")
  ]

unfoldable pub owner_record : String → OwnerIdentity → String → Fields
owner_record root owner phase = field "request_id" (str owner.request_id) (
    field "pid" (int owner.pid) (
      field "process_started" (str owner.process_started) (
        field "command_token" (str owner.command_token)
          (field "project_root" (str root) (field "phase" (str phase) end)))))

-- A non-empty text, and a positive integer, under a key.
unfoldable pub text_at : String → Fields → Option String
text_at k d = elim (get k d) [
  | none ↦ none
  | some v ↦ elim (as_str v) [ none ↦ none | some s ↦ if is_empty s then none else some s ]
]

unfoldable pub pid_at : String → Fields → Option ℤ
unfolding is_positive
pid_at k d = elim (get k d) [
  | none ↦ none
  | some v ↦ elim (as_int v) [ none ↦ none | some n ↦ if is_positive n then some n else none ]
]

-- `_record_identity`
unfoldable pub record_identity : Fields → String → Result Failure OwnerIdentity
unfolding text_at pid_at
record_identity r phase = do
  request_id ← or_raise (text_at "request_id" r) (coordination phase "owner record is malformed")
  pid ← or_raise (pid_at "pid" r) (coordination phase "owner record is malformed")
  process_started ←
      or_raise (text_at "process_started" r) (coordination phase "owner record is malformed")
  command_token ←
      or_raise (text_at "command_token" r) (coordination phase "owner record is malformed")
  ok (record {
    request_id = request_id;
    pid = pid;
    process_started = process_started;
    command_token = command_token;
  })

-- Whether the process of a known identity is still that process.
unfoldable pub identity_is_live : Option Details → OwnerIdentity → String → Result Failure Bool
unfolding started_at runs_command
identity_is_live none identity phase = ok false
identity_is_live (some details) identity phase =
    if not (started_at details identity.process_started)
    then ok false
    else if runs_command details identity.command_token
    then ok true
    else err (coordination phase "live owner command identity is ambiguous")

-- `_record_is_live`
unfoldable pub record_is_live : Probe → Fields → String → Result Failure Bool
unfolding record_identity identity_is_live
record_is_live probe r phase = do
  identity ← record_identity r phase
  details ← process_details (probe identity.pid)
  identity_is_live details identity phase

-- `_matches`
unfoldable pub matches : Fields → OwnerIdentity → Bool
matches r owner =
    holds_str "request_id" r owner.request_id
    && holds_int "pid" r owner.pid
    && holds_str "process_started" r owner.process_started
