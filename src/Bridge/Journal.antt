-- ===== src/Bridge/Journal.antt =====
-- bin/workspace_harbor_bridge.py: the events of the bridge and `BridgeJournal`. How many bytes an
-- event's line has is a parameter.
use serena_workspace_orchest.Prelude.{
  ℕ, zero, suc, ◌+◌, ◌-◌, Bool, true, false, not, ◌&&◌, ◌||◌, Option, none, some, List, [], ◌∷◌,
  ◌++◌, String, ltb, leb, ◌==◌, if◌then◌else◌, length,
}
use serena_workspace_orchest.Prelude.Strings.{text_length, is_empty, str_eq, member}
use serena_workspace_orchest.Prelude.Int.{pos}
use serena_workspace_orchest.Json.{Value, int, float, eq_int}
use serena_workspace_orchest.Bridge.Incident.{is_hex_text, is_reason_code, has_newline}

pub record BridgeEvent : Type 0 where
  pub attempt_id : String
  pub timestamp : String
  pub root_digest : Option String
  pub service_key : Option String
  pub owner_source : Option String
  pub stage : String
  pub outcome : String
  pub reason : Option String
  pub duration_ms : Value
  pub schema_version : Value

abbrev pub allowed_owner_sources : List String
allowed_owner_sources =
    "explicit" ∷ "root-thread" ∷ "subagent-lineage" ∷ "codex-host" ∷ "process-fallback" ∷ []

abbrev pub allowed_stages : List String
allowed_stages =
    "project-resolution" ∷ "projectless-fallback" ∷ "ownership" ∷ "service-reused"
    ∷ "service-started" ∷ "secondary-service-started" ∷ "secondary-service-reused"
    ∷ "secondary-service-unavailable" ∷ "lease-inserted" ∷ "proxy-started" ∷ "hybrid-proxy-started"
    ∷ "proxy-exit" ∷ "lease-cleanup" ∷ "initialize" ∷ "tools-list" ∷ "handshake-cleanup" ∷ []

abbrev pub allowed_outcomes : List String
allowed_outcomes = "ok" ∷ "failed" ∷ "protected" ∷ "unavailable" ∷ []

-- `value is None or test(value)`
abbrev pub is_optional : (String → Bool) → Option String → Bool
is_optional test none = true
is_optional test (some s) = test s

abbrev pub is_duration : Value → Bool
is_duration (int (pos n)) = true
is_duration (float (pos m) k) = true
is_duration _ = false

unfoldable pub is_event_reason : String → Bool
unfolding is_reason_code
is_event_reason s = not (is_empty s) && leb (text_length s) 96 && is_reason_code s

-- `_validate_event` raises nothing.
unfoldable pub is_valid_event : BridgeEvent → Bool
unfolding is_hex_text member is_event_reason
is_valid_event e =
    eq_int e.schema_version (pos 1)
    && is_hex_text 32 e.attempt_id
    && not (is_empty e.timestamp || ltb 64 (text_length e.timestamp) || has_newline e.timestamp)
    && is_optional (λ s. is_hex_text 24 s) e.root_digest
    && is_optional (λ s. is_hex_text 20 s) e.service_key
    && is_optional (λ s. member s allowed_owner_sources) e.owner_source
    && member e.stage allowed_stages
    && member e.outcome allowed_outcomes
    && is_optional (λ s. is_event_reason s) e.reason
    && is_duration e.duration_ms

-- A line of a journal's file: its size in bytes, and the event that it decodes to, if it does.
pub record Line : Type 0 where
  pub bytes : ℕ
  pub event : Option BridgeEvent

-- The file `journal.jsonl` at 0, and its backups `journal.jsonl.1` and so on; `none` if missing.
abbrev pub Files : Type 0
Files = ℕ → Option (List Line)

unfoldable pub total_size : List Line → ℕ
total_size [] = 0
total_size (l ∷ ls) = l.bytes + total_size ls

unfoldable pub file_size : Option (List Line) → ℕ
unfolding total_size
file_size none = 0
file_size (some ls) = total_size ls

-- `if source.exists(): os.replace(source, destination)`, for a source below the destination.
unfoldable pub move_found : ℕ → Files → Option (List Line) → Files
move_found index files none = files
move_found index files (some ls) =
    λ i. if i == suc index then some ls else if i == index then none else files i

unfoldable pub move_up : ℕ → Files → Files
unfolding move_found
move_up index files = move_found index files (files index)

-- `for index in range(backups, 0, -1)`
unfoldable pub rotate : ℕ → Files → Files
unfolding move_up
rotate zero files = files
rotate (suc index) files = rotate index (move_up index files)

-- `_rotate_if_needed`
unfoldable pub rotate_if_needed : (max_bytes : ℕ) (backups : ℕ) (incoming : ℕ) → Files → Files
unfolding rotate file_size
rotate_if_needed max_bytes backups incoming files =
    let current = file_size (files 0) in
    if current == 0 || leb (current + incoming) max_bytes then files else rotate backups files

abbrev pub lines_of : Option (List Line) → List Line
lines_of none = []
lines_of (some ls) = ls

unfoldable pub write_line : Line → Files → Files
write_line l files = λ i. if i == 0 then some (lines_of (files 0) ++ l ∷ []) else files i

-- `append`; `ready` says that no file operation raises `OSError`.
unfoldable pub append :
    (size : BridgeEvent → ℕ) (max_bytes : ℕ) (backups : ℕ) (ready : Bool)
    → BridgeEvent
    → Files
    → Files × Bool
unfolding is_valid_event rotate_if_needed write_line
append size max_bytes backups ready event files =
    if is_valid_event event && ready
    then (
      write_line (record { bytes = size event; event = some event })
          (rotate_if_needed max_bytes backups (size event) files),
      true,
    )
    else (files, false)

abbrev pub is_digest : String → Option String → Bool
is_digest expected none = false
is_digest expected (some s) = str_eq s expected

-- The valid events of a root among lines.
unfoldable pub select : String → List Line → List BridgeEvent
unfolding is_valid_event
select expected [] = []
select expected (l ∷ ls) =
    let rest = select expected ls in
    elim l.event [
      | none ↦ rest
      | some event ↦
          if is_valid_event event && is_digest expected event.root_digest
          then event ∷ rest
          else rest
    ]

-- The files from the oldest backup on, and the journal last.
unfoldable pub records : String → ℕ → Files → List BridgeEvent
unfolding select
records expected zero files = select expected (lines_of (files 0))
records expected (suc index) files =
    select expected (lines_of (files (suc index))) ++ records expected index files

unfoldable pub drop_first : ℕ → List BridgeEvent → List BridgeEvent
drop_first zero events = events
drop_first (suc n) [] = []
drop_first (suc n) (event ∷ events) = drop_first n events

-- `recent`, with `records[-limit:]` at its end; a limit of 0 also stands for one below.
unfoldable pub recent : (backups : ℕ) → String → (limit : ℕ) → Files → List BridgeEvent
unfolding records drop_first
recent backups expected limit files =
    let found = records expected backups files in
    if limit == 0 then [] else drop_first (length found - limit) found
