-- ===== src/Bridge/Incident.antt =====
-- bin/workspace_harbor_bridge.py: a bridge incident and its validation.
use serena_workspace_orchest.Prelude.{
  ℕ, all, any, Bool, true, false, not, ◌&&◌, ◌||◌, Option, none, some, List, [], ◌∷◌, String, leb,
  ◌==◌, if◌then◌else◌, length,
}
use serena_workspace_orchest.Prelude.Strings.{codes, text_length, is_empty, str_eq, member}
use serena_workspace_orchest.Prelude.Int.{ℤ, pos, int_eq}
use serena_workspace_orchest.Prelude.Results.{Result, ◌>>◌, raise_if}
use serena_workspace_orchest.Codex.Identifiers.{TimeText, iso, other, is_allowed}

pub record BridgeIncident : Type 0 where
  pub id : String
  pub root : String
  pub root_digest : String
  pub thread_id : String
  pub created_at : TimeText
  pub updated_at : TimeText
  pub state : String
  pub restart_attempted : Bool
  pub heartbeat_id : Option String
  pub reason : String
  pub dogfood_restart : Bool
  pub schema_version : ℤ

abbrev pub incident_states : List String
incident_states =
    "diagnosing" ∷ "restart-eligible" ∷ "restart-prepared" ∷ "resume-pending" ∷ "closed-healthy"
    ∷ "closed-blocked" ∷ "closed-fresh-task-required" ∷ []

-- `ALLOWED_INCIDENT_TRANSITIONS.get(state, frozenset())`
unfoldable pub next_states : String → List String
next_states state =
    if str_eq state "diagnosing"
    then "restart-eligible" ∷ "closed-healthy" ∷ "closed-blocked" ∷ []
    else if str_eq state "restart-eligible"
    then "restart-prepared" ∷ "closed-blocked" ∷ []
    else if str_eq state "restart-prepared"
    then "resume-pending" ∷ "closed-blocked" ∷ []
    else if str_eq state "resume-pending"
    then "closed-healthy" ∷ "closed-fresh-task-required" ∷ []
    else []

abbrev pub is_low_hex : ℕ → Bool
is_low_hex c = (leb b'0' c && leb c b'9') || (leb b'a' c && leb c b'f')

-- `HEX_32`, `HEX_24`
unfoldable pub is_hex_text : ℕ → String → Bool
is_hex_text n s = text_length s == n && all (λ c. is_low_hex c) (codes s)

abbrev pub is_alphanumeric : ℕ → Bool
is_alphanumeric c =
    (leb b'a' c && leb c b'z') || (leb b'A' c && leb c b'Z') || (leb b'0' c && leb c b'9')

-- `SAFE_ID`
unfoldable pub safe_codes : List ℕ → Bool
safe_codes [] = false
safe_codes (c ∷ cs) = is_alphanumeric c && leb (length cs) 127 && all (λ d. is_allowed d) cs

unfoldable pub is_safe_id : String → Bool
unfolding safe_codes
is_safe_id s = safe_codes (codes s)

-- `REASON_CODE`: words of small letters and digits, with a dash between two words. The flag says
-- that a word's character was last.
unfoldable pub reason_from : Bool → List ℕ → Bool
reason_from in_word [] = in_word
reason_from in_word (c ∷ cs) =
    let after_dash = reason_from false cs in
    let after_letter = reason_from true cs in
    if c == b'-'
    then in_word && after_dash
    else ((leb b'a' c && leb c b'z') || (leb b'0' c && leb c b'9')) && after_letter

unfoldable pub is_reason_code : String → Bool
unfolding reason_from
is_reason_code s = reason_from false (codes s)

unfoldable pub is_aware_time : TimeText → Bool
is_aware_time (iso time) = time.aware
is_aware_time (other s) = false

abbrev pub has_newline : String → Bool
has_newline s = any (λ c. c == 10) (codes s)

abbrev pub is_safe_option : Option String → Bool
is_safe_option none = true
is_safe_option (some s) = is_safe_id s

-- `_validate_incident`
unfoldable pub validate_incident : BridgeIncident → Result String (Unit {0})
unfolding is_hex_text is_safe_id is_reason_code is_aware_time member
validate_incident incident = do
  raise_if (not (int_eq incident.schema_version (pos 1))) "invalid incident schema version"
  raise_if (not (is_hex_text 32 incident.id)) "invalid incident id"
  raise_if (not (is_hex_text 24 incident.root_digest)) "invalid incident root digest"
  raise_if (is_empty incident.root || has_newline incident.root) "invalid incident root"
  raise_if (not (is_safe_id incident.thread_id)) "invalid incident thread"
  raise_if (not (member incident.state incident_states)) "invalid incident state"
  raise_if (not (is_aware_time incident.created_at)) "invalid incident timestamp"
  raise_if (not (is_aware_time incident.updated_at)) "invalid incident timestamp"
  raise_if (not (is_reason_code incident.reason)) "invalid incident reason"
  raise_if (not (is_safe_option incident.heartbeat_id)) "invalid incident heartbeat"
