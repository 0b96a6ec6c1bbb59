-- ===== src/Opener/Turns.antt =====
-- Every round and every release leaves the launch queue in order
-- (bin/workspace_harbor_opener_queue.py).
use serena_workspace_orchest.Prelude.{
  ℕ, ◌≡◌, refl, Bool, true, false, List, [], ◌∷◌, String, if◌then◌else◌, All, arith, Bool-cases,
  inl, inr, subst,
}
use serena_workspace_orchest.Prelude.Results.{ok_of_bind, ok, ok-injective}
use serena_workspace_orchest.Json.{Fields, get, put}
use serena_workspace_orchest.Opener.Files.{File, absent, load_json}
use serena_workspace_orchest.Opener.Owner.{OwnerIdentity, Probe}
use serena_workspace_orchest.Opener.State.{
  QueueState, load_queue_state, write_queue, prune_dead_queue_entries, encode, fresh_queue,
}
use serena_workspace_orchest.Opener.Launch.{
  join_queue, promote, settle, launch_turn, launch_round, release, release_launch, without, owns,
  Attempt, Progress, is_turn,
}
use serena_workspace_orchest.Opener.Order.{
  IsEntry, IsQueue, IsQueueFile, Ascending, Ascending-lower, floor, number, load-write_queue,
  encode-IsQueue,
}
use serena_workspace_orchest.Opener.Entries.{
  IsCaller, prune-IsQueue, join_queue-IsQueue, promote-IsQueue,
}

pub write_queue-IsQueueFile : (st : QueueState) → IsQueue st → IsQueueFile (write_queue st)
write_queue-IsQueueFile st h =
    (record st { others = encode st }, load-write_queue st h, encode-IsQueue st h)

-- The file after a round that writes only what it has changed.
updated-IsQueueFile :
    (changed : Bool) (st : QueueState) (file : File)
    → IsQueue st
    → IsQueueFile file
    → IsQueueFile (if changed then write_queue st else file)
updated-IsQueueFile true st file h hf = write_queue-IsQueueFile st h
updated-IsQueueFile false st file h hf = hf

settle-IsQueueFile :
    (owner : OwnerIdentity) (waited maximum : ℕ) (enqueued changed : Bool) (st : QueueState)
    (file : File)
    → IsQueue st
    → IsQueueFile file
    → IsQueueFile (settle owner waited maximum enqueued changed st file).0
unfolding settle is_turn
settle-IsQueueFile owner waited maximum enqueued changed st file h hf =
    elim (Bool-cases (is_turn st owner)) [
      | inl turn ↦
          rw turn (write_queue-IsQueueFile (promote st) (promote-IsQueue st (ground arith) h))
      | inr other ↦ rw other (updated-IsQueueFile changed st file h hf)
    ]

launch_turn-IsQueueFile :
    (root : String) (owner : OwnerIdentity) (now started : ℕ) (progress : Progress)
    (file file' : File) (st : QueueState) (pruned : Bool) (outcome : Attempt)
    → IsCaller root owner
    → IsQueue st
    → IsQueueFile file
    → launch_turn root owner now started progress file (st, pruned) ≡ ok (file', outcome)
    → IsQueueFile file'
unfolding launch_turn
launch_turn-IsQueueFile root owner now started progress file file' st pruned outcome c h hf e =
    elim (Bool-cases (owns st.owner owner)) [
      | inl mine ↦
          let same : (if pruned then write_queue st else file) ≡ file' = ground arith in
          subst IsQueueFile same (updated-IsQueueFile pruned st file h hf)
      | inr other ↦
          let ((st', joined), j, last) =
            ok_of_bind (join_queue root owner now st) _ (rw other at e) in
          subst (λ (r : File × Attempt). IsQueueFile r.0) (ok-injective last)
            (settle-IsQueueFile owner _ _ _ _ st' file
              (join_queue-IsQueue root owner now st st' joined c j h) hf)
    ]

-- If the file holds a queue in order, a round of a validated caller that does not fail leaves a queue
-- in order in it, whatever the process table shows.
pub launch_round-IsQueueFile :
    (probe : Probe) (root : String) (owner : OwnerIdentity) (now started : ℕ) (progress : Progress)
    (file file' : File) (outcome : Attempt)
    → IsCaller root owner
    → IsQueueFile file
    → launch_round probe root owner now started progress file ≡ ok (file', outcome)
    → IsQueueFile file'
unfolding launch_round
launch_round-IsQueueFile probe root owner now started progress file file' outcome c (st, l, h) e =
    let ((st', pruned), p, turn) = ok_of_bind (prune_dead_queue_entries probe st) _ (rw l at e) in
    launch_turn-IsQueueFile root owner now started progress file file' st' pruned outcome c
      (prune-IsQueue probe st st' pruned p h) (st, l, h) turn

without-ordered :
    (owner : OwnerIdentity) (rs : List Fields) (low high : ℕ)
    → All IsEntry rs
    → Ascending low rs high
    → All IsEntry (without owner rs) × Ascending low (without owner rs) high
unfolding without
without-ordered owner [] low high es a = (tt, a)
without-ordered owner (r ∷ rs) low high es a =
    let ih = without-ordered owner rs (number r) high es.1 a.2 in
    ground (arith, ih, Ascending-lower low (number r) high (without owner rs))

pub release-IsQueue :
    (owner : OwnerIdentity) (st : QueueState) → IsQueue st → IsQueue (release owner st)
unfolding release
release-IsQueue owner st h =
    let w =
      without-ordered owner st.waiting (floor st.owner) st.next_sequence h.entries h.ordered in
    elim (Bool-cases (owns st.owner owner)) [
      | inl mine ↦ rw mine (record {
        version = h.version;
        owned = tt;
        entries = w.0;
        ordered =
            Ascending-lower 0 (floor st.owner) st.next_sequence (without owner st.waiting)
              (omega arith) w.1;
      })
      | inr other ↦
          rw other (record { version = h.version; owned = h.owned; entries = w.0; ordered = w.1 })
    ]

-- A release that does not fail keeps the queue in order.
pub release_launch-IsQueueFile :
    (owner : OwnerIdentity) (file file' : File)
    → IsQueueFile file
    → release_launch owner file ≡ ok file'
    → IsQueueFile file'
unfolding release_launch
release_launch-IsQueueFile owner file file' (st, l, h) e =
    subst IsQueueFile (ok-injective (rw l at e))
      (updated-IsQueueFile _ (release owner st) file (release-IsQueue owner st h) (st, l, h))

-- A file that is not there yet stands for the empty queue.
pub absent-IsQueueFile : IsQueueFile absent
unfolding load_queue_state load_json fresh_queue get put
absent-IsQueueFile =
    (fresh_queue, refl, record { version = refl; owned = tt; entries = tt; ordered = omega arith })
