-- ===== src/Bridge/Session.antt =====
-- bin/workspace_harbor_bridge.py: `run_handshake` from its checks to its end, with the events that it
-- appends to the journal (`_handshake_event`) and the signals to the proxy's group
-- (`_stop_diagnostic_group`).
use serena_workspace_orchest.Prelude.{
  ℕ, zero, suc, ◌+◌, Bool, false, not, Option, none, some, List, [], ◌∷◌, String, if◌then◌else◌,
  ◌++◌,
}
use serena_workspace_orchest.Prelude.Int.{ℤ}
use serena_workspace_orchest.Json.{int}
use serena_workspace_orchest.Prelude.Int.{pos}
use serena_workspace_orchest.Bridge.Journal.{BridgeEvent, Files, append}
use serena_workspace_orchest.Bridge.Start.{Environment, proxy_command, proxy_environment}
use serena_workspace_orchest.Bridge.Handshake.{
  Parser, Progress, beginning, is_over, Round, handshake_loop, HandshakeResult, conclude,
  is_bad_exit, by_stage,
}

pub data Signal : Type 0 where
  terminate kill : Signal

-- The proxy after the loop: `poll`, the wait on the path of a success, whether `killpg` finds its
-- group at either signal, and the exit codes that the waits after these give.
pub record Child : Type 0 where
  pub exited : Option ℤ
  pub waited : Option ℤ
  pub has_group : Bool
  pub on_terminate : Option ℤ
  pub has_group_left : Bool
  pub on_kill : Option ℤ

-- What a second of SIGTERM did not end.
abbrev pub kill_group : Child → Option ℤ → Option ℤ × List Signal
kill_group child (some code) = (some code, terminate ∷ [])
kill_group child none =
    (child.on_kill, if child.has_group_left then terminate ∷ kill ∷ [] else terminate ∷ [])

abbrev pub stop_running : Child → Option ℤ → Option ℤ × List Signal
stop_running child (some code) = (some code, [])
stop_running child none =
    if child.has_group then kill_group child child.on_terminate else (none, [])

-- `_stop_diagnostic_group`: the exit code that `poll` gives then, and the signals sent
unfoldable pub stop_diagnostic_group : Child → Option ℤ × List Signal
stop_diagnostic_group child = stop_running child child.exited

-- `process.wait(timeout=1)`, and the stop where it expires
abbrev pub wait_or_stop : Child → Option ℤ → Option ℤ × List Signal
wait_or_stop child (some code) = (some code, [])
wait_or_stop child none = stop_diagnostic_group child

-- The stage, the outcome and the reason of an event.
pub record Told : Type 0 where
  pub stage : String
  pub outcome : String
  pub reason : Option String

-- What is the same in all events of one attempt, and the time and the duration of each.
pub record Attempt : Type 0 where
  pub attempt_id : String
  pub root_digest : String
  pub timestamp : ℕ → String
  pub duration : ℕ → ℕ

-- The event of `_handshake_event`, with its number in the attempt
unfoldable pub handshake_event : Attempt → ℕ → Told → BridgeEvent
handshake_event attempt number told = record {
  attempt_id = attempt.attempt_id;
  timestamp = attempt.timestamp number;
  root_digest = some attempt.root_digest;
  service_key = none;
  owner_source = none;
  stage = told.stage;
  outcome = told.outcome;
  reason = told.reason;
  duration_ms = int (pos (attempt.duration number));
  schema_version = int (pos 1);
}

-- The journal after the events of an attempt; without a journal nothing is appended.
unfoldable pub append_events :
    (size : BridgeEvent → ℕ) (max_bytes : ℕ) (backups : ℕ) (ready : Bool)
    → Attempt
    → ℕ
    → List Told
    → Files
    → Files
unfolding handshake_event append
append_events size max_bytes backups ready attempt number [] files = files
append_events size max_bytes backups ready attempt number (told ∷ rest) files =
    append_events size max_bytes backups ready attempt (number + 1) rest
      (append size max_bytes backups ready (handshake_event attempt number told) files).0

-- What a handshake is started with: what its checks find, the broker and the resolved root as texts,
-- the environments, and whether `Popen` raises no `OSError` for a command and an environment.
pub record Surroundings : Type 0 where
  pub has_project : Bool
  pub has_broker : Bool
  pub broker : String
  pub root : String
  pub environ : Environment
  pub extra_environment : Option Environment
  pub popen : List String → Environment → Bool

unfoldable pub can_launch : Surroundings → Bool
unfolding proxy_environment
can_launch s =
    s.popen (proxy_command s.broker s.root) (proxy_environment s.extra_environment s.environ)

-- The end of a handshake: its result, its events, and the signals sent to the proxy.
pub record Session : Type 0 where
  pub result : HandshakeResult
  pub told : List Told
  pub signals : List Signal

abbrev pub unavailable : String → HandshakeResult
unavailable reason = record {
  status = "unavailable";
  reason = reason;
  initialize_ms = none;
  tools_list_ms = none;
  tool_count = 0;
  expected_tool_found = false;
  proxy_exit = none;
}

abbrev pub tells : String → String → Option String → Told
tells stage outcome reason = record { stage = stage; outcome = outcome; reason = reason }

-- The event of a launch that raised `OSError`.
abbrev pub launch_failed : Told
launch_failed = tells "initialize" "failed" (some "broker-launch-failed")

-- What a handshake without a proxy returns and tells.
abbrev pub unstarted : String → List Told → Session
unstarted reason told = record { result = unavailable reason; told = told; signals = [] }

-- The events of the answers to `initialize`, before another event.
unfoldable pub initialized_then : ℕ → Told → List Told
initialized_then zero last = last ∷ []
initialized_then (suc n) last = tells "initialize" "ok" none ∷ initialized_then n last

-- The event that ends a handshake whose loop is over.
abbrev pub last_told : Option ℤ → Progress → Option String → Told
last_told exit p (some failure) =
    tells (by_stage p "initialize" "tools-list") "failed" (some failure)
last_told exit p none =
    if is_bad_exit exit
    then tells "handshake-cleanup" "failed" (some "proxy-exit-nonzero")
    else tells "tools-list" "ok" none

abbrev pub end_child : Child → Option String → Option ℤ × List Signal
end_child child (some failure) = stop_diagnostic_group child
end_child child none = wait_or_stop child child.waited

-- What follows the loop; `left` is the proxy at the stop in `finally`.
unfoldable pub end_session : ℕ → Child → (left : Child) → Progress → Session
unfolding conclude initialized_then stop_diagnostic_group
end_session started child left p =
    let (exit, signals) = end_child child p.failure in
    record {
      result = conclude started exit p;
      told = initialized_then p.told (last_told exit p p.failure);
      signals = signals ++ (stop_diagnostic_group left).1;
    }

-- `run_handshake`; `none` while its loop is not over.
unfoldable pub run_handshake :
    Parser
    → ℕ
    → (started : ℕ) → (timeout : ℕ) → Surroundings
    → List Round
    → Child
    → (left : Child) → Option Session
unfolding handshake_loop end_session can_launch
run_handshake parse limit started timeout surroundings rounds child left =
    let p = handshake_loop parse limit (started + timeout) rounds beginning in
    if not surroundings.has_project
    then some (unstarted "project-missing" [])
    else if not surroundings.has_broker
    then some (unstarted "broker-missing" [])
    else if not (can_launch surroundings)
    then some (unstarted "broker-launch-failed" (launch_failed ∷ []))
    else if is_over p
    then some (end_session started child left p)
    else none
