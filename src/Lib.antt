-- ===== src/Lib.antt =====
-- Workspace Harbor keeps IntelliJ project windows, Serena services and Codex tasks from colliding.
-- Agents that run at the same time share it through small state files; this library models the
-- programs that read and write them.
--
-- Prelude         Lists, options, integers, results, and the text functions of Python that the
--                 programs use: split, strip, splitlines, int(text, base) and shlex.split.
-- Json            The values of json.loads, and dictionaries.
-- Opener          bin/workspace_harbor_opener_queue.py. Process: _process_details on what ps prints.
--                 Files: the private state files and the advisory lock. Owner: OwnerIdentity and the
--                 records of it. State: the queue's file, its validation and pruning. Launch: one
--                 round of acquire_launch, its loop, and release_launch. Operation: the operation of
--                 one worktree. Legacy: migrate_legacy_lock. CommandLine: release_all, _execute and
--                 the exit status of main. Released is about these, LegacyText and
--                 Removed about migrate_legacy_lock. Order, Entries, Turns, Moves, Fairness,
--                 Release, Identity, System, Waiting, Deadline and Operation.Single are about these.
-- Codex           bin/workspace_harbor_codex.py. Identifiers and Attestation: what allows a restart of
--                 the app. App: the identity of the running app. Checkpoint: load_checkpoint.
--                 Policy: RestartPolicyStore. Validity, Found, Shapes, Checks and Checked
--                 are about these.
-- Bootstrap       bin/workspace_harbor_bootstrap.py. Decisions: _read_state, record_decision and
--                 language_decision. Plans: load_policy and _deep_merge (Policy), language_evidence
--                 (Sources), _builtin (Recipes), _boundary and _input (Limits), _task_plan (Tasks) and
--                 plan_repository (Planning). Runs: _tool_identity and bootstrap_fingerprint (Tools),
--                 bootstrap_status (Approved, Status), _execute (Commands), run_bootstrap (Run) and
--                 main (Main). Valid, Recorded; Merged, Contained, Inside, Rooted, Confined; Kept,
--                 Outcome, Cached, Approval, Starts, Deciding and Sorted are about these.
-- Ide             bin/workspace_harbor_ide.py. Version: configured_app, app_version, config_dir
--                 and trusted_paths_file. Process: intellij_owned_port. Listening, Owned and
--                 Patch are about these.
-- Routing         bin/serena_hybrid_routing.py. Native: is_native_relative_file. Arguments and Calls:
--                 route_tool_call. Mapped, Suffixed, Inside and Routed are about these.
-- Bridge          bin/workspace_harbor_bridge.py. Incident and Store: IncidentStore. Journal: the
--                 events and BridgeJournal. Config: check_codex_serena_config. Desktop:
--                 find_desktop_host_owner. Handshake: the loop of run_handshake. Start: the
--                 command and the environment of the proxy. Session: the whole of run_handshake,
--                 with _handshake_event and _stop_diagnostic_group. Lookup, Transitions,
--                 Lifecycle, Reuse, Kept, Lines, Keys, Configured, Sound, Healthy, Told and
--                 Reported are about these.
-- Tests           Runs on concrete inputs.
--
-- How the parts meet: the opener queue lets one process at a time launch a project. The gateway routes
-- each tool call of a task to one of two backends. If the bridge of a task fails, an incident is
-- recorded (Bridge.Store), and the app is restarted only with a valid attestation of the one active
-- task (Codex.Attestation), under the policy (Codex.Policy), of the process that is found (Codex.App).
--
-- State and operations: a state file is the value that it holds (File, Stored, Directory), and an
-- operation maps it to the value that it leaves or to the error that it raises. An operation that
-- holds a file lock is one step. acquire_launch and acquire_operation leave the lock between two
-- rounds, so their loops run on a list of polls, each with what the other processes did to the file
-- before it (Poll.others), what ps shows and the clock's times; a loop that has used up the list is
-- `running`. The handshake's loop runs on a list of rounds in the same way. There is no other fuel.
-- Launch steps of several processes form the relation Opener.System.Step, and operations on incidents
-- Bridge.Lifecycle.Step.
--
-- Numbers and texts: times are natural numbers, microseconds in attestations and the units of the
-- caller's clock in the queue. Python's integers have no bounds, and are natural numbers or ℤ.
-- Decimal and hexadecimal digits are ASCII digits; a number in a state file that is no integer is
-- m / 2^k.
--
-- A bootstrap run maps the World that it finds (the files, the success file, the decisions and the
-- commands started so far) to the one that it leaves. Files is what the program can see of the file
-- system; what a command does to it and what other runs do while this one waits for the worktree's lock
-- are functions of Machine. A path is the list of its parts, and a YAML document a value of JSON.
--
-- Arguments of the model: the runs of ps, lsof, pgrep, defaults, codex and the broker; json.loads of the
-- proxy's lines; the size of a journal line; the file system of the gateway (FileSystem); the
-- hashes and the test for secrets of bootstrap; random identifiers, the clock and the canonical path of a root with its digest.
-- Taken as one step: the atomic write of a file by a temporary file, fsync and os.replace.
--
-- Not modelled: the parsing of command lines, the IntelliJ plugin in Java, and these scripts of bin/:
-- serena-worktree-broker, intellij-project-reaper, serena-project-doctor, serena-bridge-doctor,
-- serena-codex, serena-hybrid-mcp, intellij-project-trust; of workspace_harbor_bootstrap.py the texts
-- of results and repository_identity; and of
-- run_handshake the texts of the requests and writes to the proxy that fail.
pub mod Prelude
pub mod Bootstrap
pub mod Bridge
pub mod Codex
pub mod Ide
pub mod Json
pub mod Opener
pub mod Routing
pub mod Tests
