-- ===== src/Tests/Doctor.antt =====
-- Runs of bin/workspace_harbor_bridge.py's journal, checks and handshake.
use serena_workspace_orchest.Prelude.{
  ℕ, zero, suc, ◌≡◌, refl, true, false, none, some, List, [], ◌∷◌, ◌++◌, String, arith,
  if◌then◌else◌, ◌+◌,
}
use serena_workspace_orchest.Prelude.Strings.{codes, split_lines, codes_eq}
use serena_workspace_orchest.Prelude.Int.{pos, negsuc}
use serena_workspace_orchest.Json.{int, str, bool, obj, arr, field, end, Items, cons, nil}
use serena_workspace_orchest.Bridge.Journal.{BridgeEvent, Line, Files, append, recent}
use serena_workspace_orchest.Bridge.Kept.{IsBounded, append-IsBounded}
use serena_workspace_orchest.Bridge.Handshake.{Parser, Round, chunk, stdout, HandshakeResult}
use serena_workspace_orchest.Bridge.Healthy.{handshake_ends}
use serena_workspace_orchest.Bridge.Session.{
  Told, handshake_event, append_events, can_launch, terminate, kill, Child, Surroundings, Session,
  Attempt, tells, run_handshake,
}
use serena_workspace_orchest.Bridge.Start.{lookup, proxy_environment, lookup-proxy_environment}
use serena_workspace_orchest.Bridge.Told.{IsAttempt, IsEnding, are_valid, run_handshake_lem}
use serena_workspace_orchest.Bridge.Reported.{Agrees, session_is_recent}
use serena_workspace_orchest.Bridge.Config as Config
use serena_workspace_orchest.Bridge.Configured.{IsConfigured, config-IsConfigured}
use serena_workspace_orchest.Bridge.Desktop as Desktop
use serena_workspace_orchest.Bridge.Desktop.{desktop_owner_lem}
use serena_workspace_orchest.Bridge.Incident.{is_hex_text}

abbrev event : BridgeEvent
event = record {
  attempt_id = "0123456789abcdef0123456789abcdef";
  timestamp = "2026-07-06T10:00:00Z";
  root_digest = some "0123456789abcdef01234567";
  service_key = none;
  owner_source = none;
  stage = "initialize";
  outcome = "ok";
  reason = none;
  duration_ms = int (pos 12);
  schema_version = int (pos 1);
}

-- The journal is full, and there is an older backup.
abbrev full : Files
full zero = some (record { bytes = 90; event = none } ∷ [])
full (suc zero) = some (record { bytes = 70; event = some event } ∷ [])
full (suc (suc i)) = none

full-IsBounded : IsBounded 100 full
unfolding serena_workspace_orchest.Bridge.Journal.file_size
full-IsBounded zero = omega arith
full-IsBounded (suc zero) = omega arith
full-IsBounded (suc (suc i)) = omega arith

append-IsBounded_example : IsBounded 100 (append (λ e. 60) 100 4 true event full).0
append-IsBounded_example =
    append-IsBounded (λ e. 60) 100 3 true event full full-IsBounded (omega arith)

event_is_appended : (append (λ e. 60) 100 4 true event full).1 ≡ true
unfolding append
event_is_appended = refl

-- The answers of a proxy, one character each.
abbrev answers : Parser
answers line =
    if codes_eq line (codes "1")
    then some (obj (field "id" (int (pos 1)) (field "result" (obj end) end)))
    else if codes_eq line (codes "2")
    then some (
        obj (
          field "id" (int (pos 2)) (
            field "result"
              (obj (
                field "tools" (arr (cons (obj (field "name" (str "activate_project") end)) nil))
                  end))
              end)))
    else none

abbrev rounds : List Round
rounds =
    record { now = 110; events = chunk stdout 120 (codes "1\n") ∷ []; exited = false }
    ∷ record {
      now = 130;
      events = chunk stdout 140 (codes "2") ∷ chunk stdout 145 (codes "\n") ∷ [];
      exited = false;
    }
    ∷ []

abbrev healthy : HandshakeResult
healthy = record {
  status = "healthy";
  reason = "handshake-complete";
  initialize_ms = some 20;
  tools_list_ms = some 25;
  tool_count = 1;
  expected_tool_found = true;
  proxy_exit = some (pos 0);
}

abbrev silence : List Round
silence =
    record { now = 110; events = []; exited = false }
    ∷ record { now = 12_100; events = []; exited = false }
    ∷ []

abbrev surroundings : Surroundings
surroundings = record {
  has_project = true;
  has_broker = true;
  broker = "/bin/broker";
  root = "/project";
  environ = ("CODEX_THREAD_ID", "task") ∷ ("HOME", "/home") ∷ [];
  extra_environment = some (("HOME", "/tmp") ∷ []);
  popen = λ command environment. true;
}

lookup-proxy_environment_example :
    lookup "HOME" (proxy_environment surroundings.extra_environment surroundings.environ)
    ≡ some "/tmp"
lookup-proxy_environment_example =
    lookup-proxy_environment "HOME" surroundings.extra_environment surroundings.environ

thread_is_hidden :
    lookup "CODEX_THREAD_ID" (proxy_environment surroundings.extra_environment surroundings.environ)
    ≡ none
unfolding lookup proxy_environment
thread_is_hidden = refl

-- The proxy that ends by itself.
abbrev ended : Child
ended = record {
  exited = some (pos 0);
  waited = some (pos 0);
  has_group = false;
  on_terminate = none;
  has_group_left = false;
  on_kill = none;
}

abbrev session : Session
session = record {
  result = healthy;
  told = tells "initialize" "ok" none ∷ tells "tools-list" "ok" none ∷ [];
  signals = [];
}

session_runs : run_handshake answers 1000 100 12_000 surroundings rounds ended ended ≡ some session
unfolding run_handshake codes_eq
session_runs = refl

-- A proxy that is silent up to the deadline, and that only SIGKILL ends.
abbrev stuck : Child
stuck = record {
  exited = none;
  waited = none;
  has_group = true;
  on_terminate = none;
  has_group_left = true;
  on_kill = some (negsuc 8);
}

abbrev stopped : Child
stopped = record stuck { exited = some (negsuc 8) }

abbrev silent : Session
silent = record {
  result = record {
    status = "failed";
    reason = "initialize-timeout";
    initialize_ms = none;
    tools_list_ms = none;
    tool_count = 0;
    expected_tool_found = false;
    proxy_exit = some (negsuc 8);
  };
  told = tells "initialize" "failed" (some "initialize-timeout") ∷ [];
  signals = terminate ∷ kill ∷ [];
}

silent_session :
    run_handshake answers 1000 100 12_000 surroundings silence stuck stopped ≡ some silent
unfolding run_handshake
silent_session = refl

handshake_ends_example :
    (s : Session) × (run_handshake answers 1000 100 12_000 surroundings silence stuck stopped
      ≡ some s)
handshake_ends_example =
    handshake_ends answers 1000 100 12_000 surroundings silence stuck stopped refl

abbrev attempt : Attempt
attempt = record {
  attempt_id = "0123456789abcdef0123456789abcdef";
  root_digest = "0123456789abcdef01234567";
  timestamp = λ number. "2026-07-06T10:00:00Z";
  duration = λ number. 20 + number;
}

attempt-IsAttempt : IsAttempt attempt
unfolding is_hex_text
attempt-IsAttempt = record { attempt_id = refl; root_digest = refl; timestamps = λ number. refl }

run_handshake_lem_example :
    IsEnding surroundings session × (are_valid attempt 0 session.told ≡ true)
run_handshake_lem_example =
    run_handshake_lem answers 1000 100 12_000 surroundings rounds ended ended session attempt
      session_runs attempt-IsAttempt

session_is_recent_example :
    (last : Told) × Agrees session.result last
    × (k : ℕ) × (older : List BridgeEvent) × (recent 4 "0123456789abcdef01234567" 20
          (append_events (λ e. 60) 100 4 true attempt 0 session.told full)
        ≡ older ++ handshake_event attempt k last ∷ [])
unfolding can_launch
session_is_recent_example =
    session_is_recent answers 1000 100 12_000 surroundings rounds ended ended session (λ e. 60) 100
      4 attempt 20 full session_runs refl refl refl attempt-IsAttempt (omega arith)

abbrev printed : List ℕ
printed =
    codes
      "serena\n  enabled: true\n  transport: stdio\n  command: /bin/broker\n  args: connect --context=codex --add-mode=query-projects --backend=JetBrains\n"

printed_is_healthy :
    (Config.check_codex_serena_config
      (Config.completed (pos 0) printed)
      (codes "/bin/broker")).status
    ≡ "healthy"
unfolding Config.check_codex_serena_config
printed_is_healthy = refl

config-IsConfigured_example :
    (stdout : List ℕ) × (Config.completed (pos 0) printed ≡ Config.completed (pos 0) stdout)
    × IsConfigured (split_lines stdout) (codes "/bin/broker")
config-IsConfigured_example =
    config-IsConfigured (Config.completed (pos 0) printed) (codes "/bin/broker") printed_is_healthy

abbrev host : String
host = "codex-host-0123456789abcdef01234567"

abbrev services : Items
services =
    cons
      (obj (
        field "project_root" (str "/project") (
          field "backend" (str "JetBrains")
            (field "healthy" (bool true) (field "owners" (arr (cons (str host) nil)) end)))))
      nil

host_is_found :
    Desktop.find_desktop_host_owner "/project" 1000
      (Desktop.completed (pos 0) 100 0 (some (arr services)))
    ≡ some host
unfolding Desktop.find_desktop_host_owner
host_is_found = refl
