-- ===== src/Opener/CommandLine.antt =====
-- bin/workspace_harbor_opener_queue.py: the constructor of `OpenerCoordinator`, `release_all`,
-- `_execute` and `main`, on the state directory. The self check is not a command of the model.
use serena_workspace_orchest.Prelude.{
  ℕ, Bool, not, Option, none, some, List, [], ◌∷◌, String, if◌then◌else◌,
}
use mathlib.Core.List.{reverse}
use serena_workspace_orchest.Prelude.Strings.{codes, has_prefix, str_eq}
use serena_workspace_orchest.Prelude.Results.{Result, ok, err, ◌>>=◌, ◌>>◌, raise_if}
use serena_workspace_orchest.Opener.Process.{Failure, coordination, uncaught}
use serena_workspace_orchest.Opener.Files.{
  File, absent, present, Info, Place, private_directory, advisory_lock, ensure_private_directory,
}
use serena_workspace_orchest.Opener.Owner.{OwnerIdentity, Probe}
use serena_workspace_orchest.Opener.Launch.{
  Poll, Progressed, LaunchGrant, acquire_launch, release_launch,
}
use serena_workspace_orchest.Opener.Operation.{
  OperationGrant, OperationProgress, acquire_operation, release_operation,
}
use serena_workspace_orchest.Opener.Legacy.{LegacyLock, LegacyStatus, migrate_legacy_lock}

-- The record and the lock of one worktree's operation, by the digest of its root.
pub record Entry : Type 0 where
  pub digest : String
  pub place : Place
  pub file : File

-- The state directory: its status after `mkdir`, the queue with its lock, and the operations in the
-- order of their names.
pub record StateDir : Type 0 where
  pub folder : Info
  pub place : Place
  pub queue : File
  pub operations : List Entry

-- What a command finds outside the state directory. `has_poll` is whether the interval between two
-- rounds is positive, and `none` if it is no number.
pub record Setting : Type 0 where
  pub probe : Probe
  pub has_poll : Option Bool
  pub digest_of : String → String
  pub started : ℕ
  pub polls : List Poll
  pub legacy : Option LegacyLock

-- The commands, with a root as `resolve` gives it.
pub data Command : Type 0 where
  operation_acquire : String → ℕ → Command
  operation_release : String → Command
  launch_acquire : String → ℕ → Command
  launch_release release_all migrate_legacy : Command

pub data Answer : Type 0 where
  operation_acquired : OperationGrant → Answer
  launch_acquired : LaunchGrant → Answer
  released : String → Answer
  migrated : LegacyStatus → Answer

-- `OpenerCoordinator.__init__`
unfoldable pub check_coordinator : Setting → StateDir → Result Failure (Unit {0})
unfolding ensure_private_directory
check_coordinator setting dir = elim setting.has_poll [
  | none ↦ err (uncaught "ValueError")
  | some positive ↦
      raise_if (not positive) (coordination "state-invalid" "poll interval must be positive")
      >> ensure_private_directory dir.folder
]

-- The operation of a digest; its file and its lock may be missing.
unfoldable pub find_entry : String → List Entry → Entry
find_entry digest [] = record {
  digest = digest;
  place = record { folder = private_directory; lock = none };
  file = absent;
}
find_entry digest (e ∷ es) = if str_eq e.digest digest then e else find_entry digest es

-- The entry in place of that of its digest, or a new one.
unfoldable pub put_entry : Entry → List Entry → List Entry
put_entry entry [] = entry ∷ []
put_entry entry (e ∷ es) =
    let rest = put_entry entry es in if str_eq e.digest entry.digest then entry ∷ es else e ∷ rest

abbrev pub with_queue : StateDir → File → StateDir
with_queue dir queue = record {
  folder = dir.folder;
  place = dir.place;
  queue = queue;
  operations = dir.operations;
}

abbrev pub with_operations : StateDir → List Entry → StateDir
with_operations dir operations = record {
  folder = dir.folder;
  place = dir.place;
  queue = dir.queue;
  operations = operations;
}

abbrev pub with_file : Entry → File → Entry
with_file entry file = record { digest = entry.digest; place = entry.place; file = file }

-- The result of a command, which is `none` as long as the call is in its loop, and the directory
-- that it leaves.
abbrev pub Executed : Type 0
Executed = Option (Result Failure Answer) × StateDir

abbrev pub after_operation : StateDir → Entry → OperationProgress → Executed
after_operation dir entry (OperationProgress.done (ok grant) file) = (
  some (ok (operation_acquired grant)),
  with_operations dir (put_entry (with_file entry file) dir.operations),
)
after_operation dir entry (OperationProgress.done (err e) file) =
    (some (err e), with_operations dir (put_entry (with_file entry file) dir.operations))
after_operation dir entry (OperationProgress.running waited file) =
    (none, with_operations dir (put_entry (with_file entry file) dir.operations))

abbrev pub after_launch : StateDir → Progressed → Executed
after_launch dir (Progressed.done (ok grant) file) =
    (some (ok (launch_acquired grant)), with_queue dir file)
after_launch dir (Progressed.done (err e) file) = (some (err e), with_queue dir file)
after_launch dir (Progressed.running progress file) = (none, with_queue dir file)

-- A command that takes no loop: a failure leaves the directory as it is.
abbrev pub at_once : StateDir → String → Result Failure StateDir → Executed
at_once dir phase (ok dir') = (some (ok (released phase)), dir')
at_once dir phase (err e) = (some (err e), dir)

-- The `release_launch` of the coordinator, with its lock
unfoldable pub release_queue : OwnerIdentity → StateDir → Result Failure StateDir
unfolding advisory_lock release_launch
release_queue owner dir = do
  advisory_lock dir.place
  queue ← release_launch owner dir.queue
  ok (with_queue dir queue)

-- The `release_operation` of the coordinator, with its lock
unfoldable pub release_entry : OwnerIdentity → Entry → Result Failure Entry
unfolding advisory_lock release_operation
release_entry owner entry = do
  advisory_lock entry.place
  file ← release_operation owner entry.file
  ok (with_file entry file)

-- One operation of the loop of `release_all`, with what follows; what was released before a failure
-- stays released.
abbrev pub and_released :
    Entry
    → List Entry
    → Result Failure (Unit {0}) × List Entry
    → Result Failure Entry
    → Result Failure (Unit {0}) × List Entry
and_released entry entries (r, rest) (err e) = (err e, entry ∷ entries)
and_released entry entries (r, rest) (ok left) = (r, left ∷ rest)

-- An operation without a record is not in the loop.
abbrev pub release_next :
    OwnerIdentity
    → Entry
    → List Entry
    → Result Failure (Unit {0}) × List Entry
    → File
    → Result Failure (Unit {0}) × List Entry
release_next owner entry entries rest absent = and_released entry entries rest (ok entry)
release_next owner entry entries rest (present info contents) =
    and_released entry entries rest (release_entry owner entry)

-- The loop of `release_all`
unfoldable pub release_entries : OwnerIdentity → List Entry → Result Failure (Unit {0}) × List Entry
unfolding release_entry
release_entries owner [] = (ok tt, [])
release_entries owner (entry ∷ entries) =
    release_next owner entry entries (release_entries owner entries) entry.file

abbrev pub all_released : Result Failure (Unit {0}) → Result Failure Answer
all_released (ok u) = ok (released "all")
all_released (err e) = err e

-- The operations after the queue.
abbrev pub release_rest : OwnerIdentity → StateDir → Result Failure StateDir → Executed
release_rest owner dir (err e) = (some (err e), dir)
release_rest owner dir (ok left) =
    let (r, operations) = release_entries owner left.operations in
    (some (all_released r), with_operations left operations)

-- `release_all`
unfoldable pub release_everything : OwnerIdentity → StateDir → Executed
unfolding release_queue release_entries
release_everything owner dir = release_rest owner dir (release_queue owner dir)

abbrev pub migrated_at : StateDir → Result Failure LegacyStatus → Executed
migrated_at dir (ok status) = (some (ok (migrated status)), dir)
migrated_at dir (err e) = (some (err e), dir)

-- `_execute`, once the coordinator is made
unfoldable pub run_command : Setting → OwnerIdentity → Command → StateDir → Executed
unfolding acquire_operation acquire_launch release_queue release_entry release_everything
    migrate_legacy_lock find_entry put_entry
run_command setting owner (operation_acquire root deadline) dir =
    let entry = find_entry (setting.digest_of root) dir.operations in
    after_operation dir entry
      (acquire_operation setting.probe root owner deadline setting.started setting.polls entry.file)
run_command setting owner (operation_release root) dir =
    let entry = find_entry (setting.digest_of root) dir.operations in
    at_once dir "operation" (
      release_entry owner entry >>= λ left.
      ok (with_operations dir (put_entry left dir.operations)))
run_command setting owner (launch_acquire root deadline) dir =
    after_launch dir
      (acquire_launch setting.probe root owner deadline setting.started setting.polls dir.queue)
run_command setting owner launch_release dir = at_once dir "launch" (release_queue owner dir)
run_command setting owner release_all dir = release_everything owner dir
run_command setting owner migrate_legacy dir =
    migrated_at dir (migrate_legacy_lock setting.probe setting.legacy)

-- `_execute`
unfoldable pub execute : Setting → OwnerIdentity → Command → StateDir → Executed
unfolding check_coordinator run_command
execute setting owner command dir = elim (check_coordinator setting dir) [
  | err e ↦ (some (err e), dir)
  | ok u ↦ run_command setting owner command dir
]

-- `phase.endswith("-deadline")`
unfoldable pub is_deadline : String → Bool
unfolding has_prefix
is_deadline phase = has_prefix (reverse (codes "-deadline")) (reverse (codes phase))

-- `main`: the exit status. An `OSError` and a `ValueError` are reported, and other exceptions end the
-- program with their traceback: all give 1.
unfoldable pub exit_status : Result Failure Answer → ℕ
unfolding is_deadline
exit_status (ok answer) = 0
exit_status (err (coordination phase message)) = if is_deadline phase then 1 else 2
exit_status (err (uncaught name)) = 1
