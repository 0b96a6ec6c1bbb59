-- ===== src/Opener/Launch.antt =====
-- bin/workspace_harbor_opener_queue.py: the turn at the IntelliJ launch. One round of the polling
-- loop runs under the queue's lock, so it is one step; between two rounds other processes act.
use serena_workspace_orchest.Prelude.{
  ℕ, suc, ◌+◌, ◌-◌, Bool, true, false, ◌||◌, Option, none, some, List, [], ◌∷◌, ◌++◌, String, not,
  leb, length, if◌then◌else◌, ◌==◌,
}
use Prim.Native.Nat.{max}
use serena_workspace_orchest.Prelude.Int.{pos}
use serena_workspace_orchest.Prelude.Results.{Result, ok, err, ◌>>=◌, ◌>>◌}
use serena_workspace_orchest.Json.{int, float, str, Fields, put, holds_str}
use serena_workspace_orchest.Opener.Process.{Failure, coordination}
use serena_workspace_orchest.Opener.Files.{File, Place, advisory_lock}
use serena_workspace_orchest.Opener.Owner.{
  OwnerIdentity, Probe, matches, owner_record, validate_owner,
}
use serena_workspace_orchest.Opener.State.{
  QueueState, load_queue_state, write_queue, prune_dead_queue_entries,
}

-- Times are ticks of 2^-20 seconds.
pub record LaunchGrant : Type 0 where
  pub wait_seconds : ℕ
  pub maximum_position : ℕ
  pub queued : Option Bool

-- The variables that the loop carries.
pub record Progress : Type 0 where
  pub maximum_position : ℕ
  pub enqueued : Bool

pub data Attempt : Type 0 where
  acquired : LaunchGrant → Attempt
  waits : Progress → Attempt

unfoldable pub owns : Option Fields → OwnerIdentity → Bool
owns none owner = false
owns (some r) owner = matches r owner

-- `next((item for item in waiting if _matches(item, owner)), None)`
unfoldable pub find_match : List Fields → OwnerIdentity → Option Fields
find_match [] owner = none
find_match (r ∷ rs) owner = if matches r owner then some r else find_match rs owner

-- The place of the first match, which is where `waiting.index(matching)` finds it.
unfoldable pub index_match : List Fields → OwnerIdentity → ℕ
index_match [] owner = 0
index_match (r ∷ rs) owner = if matches r owner then 0 else suc (index_match rs owner)

unfoldable pub queue_entry : String → OwnerIdentity → ℕ → ℕ → Fields
unfolding owner_record put
queue_entry root owner sequence now =
    put "enqueued_at" (float (pos now) 20)
      (put "sequence" (int (pos sequence)) (owner_record root owner "queued"))

-- The caller's entry is found, or put at the end.
unfoldable pub join_queue :
    String → OwnerIdentity → ℕ → QueueState → Result Failure (QueueState × Bool)
unfolding find_match queue_entry
join_queue root owner now st = elim (find_match st.waiting owner) [
  | none ↦ ok (
    record st {
      next_sequence = st.next_sequence + 1;
      waiting = st.waiting ++ queue_entry root owner st.next_sequence now ∷ [];
    },
    true,
  )
  | some r ↦
      if not (holds_str "project_root" r root)
      then err (coordination "queue-state" "request ID is associated with another root")
      else ok (st, false)
]

-- The head of the waiting list becomes the owner.
unfoldable pub promote : QueueState → QueueState
promote st = elim st.waiting [
  | [] ↦ st
  | r ∷ rs ↦ record st { owner = some (put "phase" (str "launching") r); waiting = rs }
]

unfoldable pub position : QueueState → OwnerIdentity → ℕ
unfolding index_match
position st owner = elim st.owner [ none ↦ 0 | some r ↦ 1 ] + index_match st.waiting owner + 1

unfoldable pub head_matches : List Fields → OwnerIdentity → Bool
head_matches [] owner = false
head_matches (r ∷ rs) owner = matches r owner

-- `state["owner"] is None and state["waiting"][0] is matching`
unfoldable pub is_turn : QueueState → OwnerIdentity → Bool
unfolding head_matches
is_turn st owner = elim st.owner [ none ↦ head_matches st.waiting owner | some r ↦ false ]

-- The end of a round, when the caller is in the waiting list.
unfoldable pub settle :
    OwnerIdentity
    → (waited : ℕ) → (maximum : ℕ) → (enqueued : Bool) → (changed : Bool) → QueueState
    → File
    → File × Attempt
unfolding is_turn promote
settle owner waited maximum enqueued changed st file =
    if is_turn st owner
    then (
      write_queue (promote st),
      acquired
          (record { wait_seconds = waited; maximum_position = maximum; queued = some enqueued }),
    )
    else (
      if changed then write_queue st else file,
      waits (record { maximum_position = maximum; enqueued = enqueued }),
    )

-- One round, on a queue that has been loaded and pruned.
unfoldable pub launch_turn :
    String
    → OwnerIdentity
    → (now : ℕ) → (started : ℕ) → Progress
    → File
    → QueueState × Bool
    → Result Failure (File × Attempt)
unfolding owns join_queue position settle
launch_turn root owner now started progress file (st, pruned) =
    if owns st.owner owner
    then ok (
      if pruned then write_queue st else file,
      acquired (record {
        wait_seconds = now - started;
        maximum_position = progress.maximum_position;
        queued = none;
      }),
    )
    else (do
      (st', joined) ← join_queue root owner now st
      ok (
          settle owner (now - started) (max progress.maximum_position (position st' owner))
            (progress.enqueued || joined) (pruned || joined) st' file))

-- One round of the loop of `acquire_launch`, under the lock.
unfoldable pub launch_round :
    Probe
    → String
    → OwnerIdentity
    → (now : ℕ) → (started : ℕ) → Progress
    → File
    → Result Failure (File × Attempt)
unfolding launch_turn
launch_round probe root owner now started progress file = do
  st ← load_queue_state file
  pruned ← prune_dead_queue_entries probe st
  launch_turn root owner now started progress file pruned

-- What a round finds: what the other processes have made of the file since the last round, the
-- process table, the clock under the lock, and the clock at the deadline's test.
pub record Poll : Type 0 where
  pub others : File → File
  pub place : Place
  pub probe : Probe
  pub now : ℕ
  pub later : ℕ

-- The call has ended, or goes on when the polls given are used up.
pub data Progressed : Type 0 where
  done : Result Failure LaunchGrant → File → Progressed
  running : Progress → File → Progressed

abbrev pub queue_deadline : Failure
queue_deadline = coordination "queue-deadline" "overall opener deadline reached in launch queue"

-- What follows a round: the call ends, by the deadline at the latest, or goes on as `rest`.
unfoldable pub after_poll :
    (deadline : ℕ) (later : ℕ) (found : File)
    → (Progress → File → Progressed)
    → Result Failure (File × Attempt)
    → Progressed
after_poll deadline later found rest (err e) = done (err e) found
after_poll deadline later found rest (ok (file, acquired grant)) = done (ok grant) file
after_poll deadline later found rest (ok (file, waits progress)) =
    if leb deadline later then done (err queue_deadline) file else rest progress file

unfoldable pub launch_loop :
    String
    → OwnerIdentity
    → (deadline : ℕ) → (started : ℕ) → List Poll
    → Progress
    → File
    → Progressed
unfolding after_poll
launch_loop root owner deadline started [] progress file = running progress file
launch_loop root owner deadline started (poll ∷ polls) progress file =
    after_poll deadline poll.later (poll.others file)
      (λ progress' file'. launch_loop root owner deadline started polls progress' file')
      (advisory_lock poll.place
        >> launch_round poll.probe root owner poll.now started progress (poll.others file))

-- `acquire_launch`
unfoldable pub acquire_launch :
    Probe → String → OwnerIdentity → (deadline : ℕ) → (started : ℕ) → List Poll → File → Progressed
unfolding launch_loop
acquire_launch probe root owner deadline started polls file = elim (validate_owner probe owner) [
  | err e ↦ done (err e) file
  | ok u ↦
      launch_loop root owner deadline started polls
        (record { maximum_position = 1; enqueued = false }) file
]

unfoldable pub without : OwnerIdentity → List Fields → List Fields
without owner [] = []
without owner (r ∷ rs) = let rest = without owner rs in if matches r owner then rest else r ∷ rest

unfoldable pub release : OwnerIdentity → QueueState → QueueState
unfolding owns without
release owner st = record st {
  owner = if owns st.owner owner then none else st.owner;
  waiting = without owner st.waiting;
}

-- `release_launch`, under the lock
unfoldable pub release_launch : OwnerIdentity → File → Result Failure File
unfolding release owns without
release_launch owner file = do
  st ← load_queue_state file
  ok (
      if owns st.owner owner || not (length (without owner st.waiting) == length st.waiting)
      then write_queue (release owner st)
      else file)
