-- ===== src/Opener/Operation.antt =====
-- bin/workspace_harbor_opener_queue.py: the single-flight operation of one worktree. Its record
-- stands in a file whose name is the digest of the root.
pub mod Single
use serena_workspace_orchest.Prelude.{
  ℕ, ◌-◌, ◌≡◌, refl, Bool, true, false, Option, none, some, List, [], ◌∷◌, String, not, leb,
  if◌then◌else◌,
}
use serena_workspace_orchest.Prelude.Results.{Result, ok, err, ◌>>=◌, ◌>>◌, raise_if}
use serena_workspace_orchest.Json.{Fields, holds_str}
use serena_workspace_orchest.Opener.Process.{Failure, coordination}
use serena_workspace_orchest.Opener.Files.{
  File, absent, Place, load_json, atomic_json_write, advisory_lock,
}
use serena_workspace_orchest.Opener.Owner.{
  OwnerIdentity, Probe, owner_record, record_is_live, matches, validate_owner,
}
use serena_workspace_orchest.Opener.Launch.{Poll}

pub record OperationGrant : Type 0 where
  pub wait_seconds : ℕ
  pub joined : Bool

pub data OperationAttempt : Type 0 where
  acquired : OperationGrant → OperationAttempt
  waits : OperationAttempt

-- `record is None or not _record_is_live(record, ...)`
unfoldable pub is_vacant : Probe → Option Fields → Result Failure Bool
is_vacant probe none = ok true
is_vacant probe (some r) = do live ← record_is_live probe r "operation-state"; ok (not live)

-- A live record of another process.
unfoldable pub join_operation :
    String
    → OwnerIdentity
    → OperationGrant
    → File
    → Option Fields
    → Result Failure (File × OperationAttempt)
join_operation root owner grant file none = ok (file, waits)
join_operation root owner grant file (some r) = do
  raise_if (not (holds_str "project_root" r root))
      (coordination "operation-state" "operation root does not match its key")
  ok (file, if matches r owner then acquired grant else waits)

-- A vacant operation becomes the caller's.
unfoldable pub claim_operation :
    String
    → OwnerIdentity
    → OperationGrant
    → File
    → Option Fields
    → Bool
    → Result Failure (File × OperationAttempt)
unfolding join_operation
claim_operation root owner grant file found vacant =
    if vacant
    then ok (atomic_json_write (owner_record root owner "opening"), acquired grant)
    else join_operation root owner grant file found

-- One round of the loop of `acquire_operation`, under the lock.
unfoldable pub operation_round :
    Probe
    → String
    → OwnerIdentity
    → (now : ℕ) → (started : ℕ) → (waited : Bool) → File
    → Result Failure (File × OperationAttempt)
unfolding is_vacant claim_operation
operation_round probe root owner now started waited file = do
  found ← load_json file "operation-state"
  vacant ← is_vacant probe found
  claim_operation root owner (record { wait_seconds = now - started; joined = waited }) file found
      vacant

pub data OperationProgress : Type 0 where
  done : Result Failure OperationGrant → File → OperationProgress
  running : Bool → File → OperationProgress

abbrev pub operation_deadline : Failure
operation_deadline =
    coordination "operation-deadline" "overall opener deadline reached waiting for worktree owner"

unfoldable pub after_operation_poll :
    (deadline : ℕ) (later : ℕ) (found : File)
    → (File → OperationProgress)
    → Result Failure (File × OperationAttempt)
    → OperationProgress
after_operation_poll deadline later found rest (err e) = done (err e) found
after_operation_poll deadline later found rest (ok (file, acquired grant)) = done (ok grant) file
after_operation_poll deadline later found rest (ok (file, waits)) =
    if leb deadline later then done (err operation_deadline) file else rest file

unfoldable pub operation_loop :
    String
    → OwnerIdentity
    → (deadline : ℕ) → (started : ℕ) → List Poll
    → Bool
    → File
    → OperationProgress
unfolding after_operation_poll
operation_loop root owner deadline started [] waited file = running waited file
operation_loop root owner deadline started (poll ∷ polls) waited file =
    after_operation_poll deadline poll.later (poll.others file)
      (λ file'. operation_loop root owner deadline started polls true file')
      (advisory_lock poll.place
        >> operation_round poll.probe root owner poll.now started waited (poll.others file))

-- `acquire_operation`
unfoldable pub acquire_operation :
    Probe
    → String
    → OwnerIdentity
    → (deadline : ℕ) → (started : ℕ) → List Poll
    → File
    → OperationProgress
unfolding operation_loop
acquire_operation probe root owner deadline started polls file = elim (validate_owner probe owner) [
  | err e ↦ done (err e) file
  | ok u ↦ operation_loop root owner deadline started polls false file
]

-- `release_operation`, under the lock: the caller's record is removed.
unfoldable pub release_operation : OwnerIdentity → File → Result Failure File
release_operation owner file = do
  found ← load_json file "operation-state"
  ok (elim found [ none ↦ file | some r ↦ if matches r owner then absent else file ])

-- The loop of `release_all` over the operation files, each with its lock.
unfoldable pub release_operations : OwnerIdentity → List (Place × File) → Result Failure (List File)
unfolding release_operation
release_operations owner [] = ok []
release_operations owner ((place, file) ∷ files) = do
  advisory_lock place
  released ← release_operation owner file
  rest ← release_operations owner files
  ok (released ∷ rest)
