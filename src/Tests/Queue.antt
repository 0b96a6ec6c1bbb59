-- ===== src/Tests/Queue.antt =====
-- Runs of bin/workspace_harbor_opener_queue.py's launch queue.
use serena_workspace_orchest.Prelude.{
  ℕ, ◌≡◌, ◌↔◌, refl, Bool, true, false, Option, none, some, [], ◌∷◌, arith, subst, sym,
}
use serena_workspace_orchest.Prelude.Results.{Result, ok, err, ok-injective}
use serena_workspace_orchest.Json.{Fields, put, get, end}
use serena_workspace_orchest.Opener.Process.{Failure, process_details}
use serena_workspace_orchest.Opener.Files.{File, absent, load_json}
use serena_workspace_orchest.Opener.Owner.{
  OwnerIdentity, Probe, record_is_live, validate_owner, matches, record_identity,
}
use serena_workspace_orchest.Opener.State.{
  QueueState, load_queue_state, fresh_queue, is_absolute, prune_dead_queue_entries, encode, decode,
  write_queue,
}
use serena_workspace_orchest.Opener.Launch.{
  launch_round, Progress, Attempt, waits, release_launch, queue_entry, launch_loop,
}
use serena_workspace_orchest.Opener.Order.{IsQueue, IsQueueFile, decode-encode}
use serena_workspace_orchest.Opener.Entries.{IsCaller}
use serena_workspace_orchest.Opener.Turns.{launch_round-IsQueueFile, absent-IsQueueFile}
use serena_workspace_orchest.Opener.Moves.{Holds, Move, launch_round-Move}
use serena_workspace_orchest.Opener.Fairness.{is_granted, Eligible, granted_iff, owner_keeps_turn}
use serena_workspace_orchest.Tests.Data.{alice, bob, both, bob_only, root, late}
use serena_workspace_orchest.Opener.Deadline.{IsDone, launch_loop_ends}
use serena_workspace_orchest.Opener.System.{
  AllSame, World, after_round, mutual_exclusion, next, here, round,
}

abbrev pub starting : Progress
starting = record { maximum_position = 1; enqueued = false }

abbrev pub file_of : Result Failure (File × Attempt) → File
file_of (ok (file, outcome)) = file
file_of (err e) = absent

pub IsCaller-alice : IsCaller root alice
unfolding is_absolute serena_workspace_orchest.Opener.Owner.is_positive
IsCaller-alice = record {
  absolute = refl;
  request_id = refl;
  pid = refl;
  process_started = refl;
  command_token = refl;
}

pub IsCaller-bob : IsCaller root bob
unfolding is_absolute serena_workspace_orchest.Opener.Owner.is_positive
IsCaller-bob = record {
  absolute = refl;
  request_id = refl;
  pid = refl;
  process_started = refl;
  command_token = refl;
}

abbrev pub alice_round : Probe → ℕ → File → Result Failure (File × Attempt)
alice_round probe now file = launch_round probe root alice now 0 starting file

abbrev pub bob_round : Probe → ℕ → File → Result Failure (File × Attempt)
bob_round probe now file = launch_round probe root bob now 0 starting file

abbrev pub outcome_of : Result Failure (File × Attempt) → Attempt
outcome_of (ok (file, outcome)) = outcome
outcome_of (err e) = waits starting

-- The first takes the launch, the second waits behind it, and gets it when the first is gone.
abbrev pub after_alice : File
after_alice = file_of (alice_round both 5 absent)

abbrev pub after_bob : File
after_bob = file_of (bob_round both 6 after_alice)

-- To run the queue's code is to unfold all of it.
unfoldable pub running : Unit {0}
unfolding launch_round load_queue_state load_json prune_dead_queue_entries fresh_queue matches get
    put write_queue record_identity record_is_live process_details release_launch
running = tt

alice_granted : is_granted (outcome_of (alice_round both 5 absent)) ≡ true
unfolding running
alice_granted = refl

bob_waits : is_granted (outcome_of (bob_round both 6 after_alice)) ≡ false
unfolding running
bob_waits = refl

bob_granted : is_granted (outcome_of (bob_round bob_only 9 after_bob)) ≡ true
unfolding running
bob_granted = refl

Holds-absent : Holds absent fresh_queue
unfolding running
Holds-absent = record {
  loads = refl;
  order = record { version = refl; owned = tt; entries = tt; ordered = omega arith };
}

decode-encode_example :
    decode (encode fresh_queue) ≡ ok (record fresh_queue { others = encode fresh_queue })
decode-encode_example = decode-encode fresh_queue (Holds-absent.order)

launch_round-IsQueueFile_example : IsQueueFile after_alice
unfolding running
launch_round-IsQueueFile_example =
    launch_round-IsQueueFile both root alice 5 0 starting absent after_alice
      (outcome_of (alice_round both 5 absent)) IsCaller-alice absent-IsQueueFile refl

granted_iff_example :
    (is_granted (outcome_of (alice_round both 5 absent)) ≡ true) ↔ Eligible both fresh_queue alice
unfolding running
granted_iff_example =
    granted_iff root alice 5 0 starting absent both fresh_queue after_alice
      (outcome_of (alice_round both 5 absent)) IsCaller-alice Holds-absent refl

launch_round-Move_example :
    (live : QueueState) × (pruned : Bool) × (prune_dead_queue_entries both fresh_queue
      ≡ ok (live, pruned))
    × (q : QueueState) × Holds after_alice q
    × Move live alice
        (queue_entry root alice live.next_sequence 5)
        q
        (outcome_of (alice_round both 5 absent))
unfolding running
launch_round-Move_example =
    launch_round-Move root alice 5 0 starting absent both fresh_queue after_alice
      (outcome_of (alice_round both 5 absent)) IsCaller-alice Holds-absent refl

-- The queue that the first caller leaves, as the next load reads it.
abbrev pub queue_of : Result Failure QueueState → QueueState
queue_of (ok st) = st
queue_of (err e) = fresh_queue

pub Holds-after_alice : Holds after_alice (queue_of (load_queue_state after_alice))
unfolding running
Holds-after_alice =
    let (st, l, h) =
      launch_round-IsQueueFile both root alice 5 0 starting absent after_alice
        (outcome_of (alice_round both 5 absent)) IsCaller-alice absent-IsQueueFile refl in
    record { loads = refl; order = subst IsQueue (ok-injective (sym l)) h }

abbrev owner_of : Option Fields → Fields
owner_of none = end
owner_of (some r) = r

owner_keeps_turn_example :
    (q : QueueState) × Holds after_bob q
    × (q.owner ≡ some (owner_of (queue_of (load_queue_state after_alice)).owner))
    × (is_granted (outcome_of (bob_round both 6 after_alice))
        ≡ matches (owner_of (queue_of (load_queue_state after_alice)).owner) bob)
unfolding running
owner_keeps_turn_example =
    owner_keeps_turn root bob 6 0 starting after_alice both
      (queue_of (load_queue_state after_alice))
      (owner_of (queue_of (load_queue_state after_alice)).owner) after_bob
      (outcome_of (bob_round both 6 after_alice)) IsCaller-bob Holds-after_alice refl refl refl

abbrev after_both : World
after_both = record {
  file = after_bob;
  holders =
      after_round both bob (outcome_of (bob_round both 6 after_alice))
        (after_round both alice (outcome_of (alice_round both 5 absent)) []);
}

mutual_exclusion_example : AllSame (after_both.holders)
unfolding running
mutual_exclusion_example = mutual_exclusion absent fresh_queue {w = after_both} Holds-absent (
    next (next here (round both root alice 5 0 starting after_alice _ IsCaller-alice refl))
      (round both root bob 6 0 starting after_bob _ IsCaller-bob refl))

launch_loop_ends_example : IsDone (launch_loop root bob 50 0 (late ∷ []) starting after_alice)
unfolding running
launch_loop_ends_example = launch_loop_ends root bob 50 0 (late ∷ []) starting after_alice refl
