-- ===== src/Tests/Waits.antt =====
-- A caller that waits at bin/workspace_harbor_opener_queue.py's launch queue until its turn comes.
use serena_workspace_orchest.Prelude.{◌≡◌, refl, sym, subst, true}
use serena_workspace_orchest.Prelude.Results.{ok, err, ok-injective}
use serena_workspace_orchest.Opener.Files.{File, absent}
use serena_workspace_orchest.Opener.State.{load_queue_state}
use serena_workspace_orchest.Opener.Launch.{release_launch, index_match}
use serena_workspace_orchest.Opener.Order.{IsQueue}
use serena_workspace_orchest.Opener.Turns.{launch_round-IsQueueFile}
use serena_workspace_orchest.Opener.Moves.{Holds}
use serena_workspace_orchest.Opener.Fairness.{is_granted}
use serena_workspace_orchest.Opener.Identity.{is_alive, same_identity}
use serena_workspace_orchest.Opener.Waiting.{
  is_waiting, History, begun, leave, StandsIn, waits_at_most, turn_comes,
}
use serena_workspace_orchest.Tests.Data.{alice, bob, both, root}
use serena_workspace_orchest.Tests.Queue.{
  starting, file_of, bob_round, outcome_of, after_alice, after_bob, queue_of, running, IsCaller-bob,
  Holds-after_alice,
}

Holds-after_bob : Holds after_bob (queue_of (load_queue_state after_bob))
unfolding running
Holds-after_bob =
    let (st, l, h) =
      launch_round-IsQueueFile both root bob 6 0 starting after_alice after_bob
        (outcome_of (bob_round both 6 after_alice)) IsCaller-bob
        (queue_of (load_queue_state after_alice), Holds-after_alice.loads, Holds-after_alice.order)
        refl in
    record { loads = refl; order = subst IsQueue (ok-injective (sym l)) h }

-- The first caller releases the launch, which the second waits for.
abbrev after_leave : File
after_leave = elim (release_launch alice after_bob) [ ok f ↦ f | err e ↦ absent ]

left_by_alice : History bob after_bob 0 after_leave
unfolding running same_identity
left_by_alice = leave alice after_leave begun refl refl

waits_at_most_example :
    StandsIn bob after_leave 0 (index_match (queue_of (load_queue_state after_bob)).waiting bob)
unfolding running is_waiting
waits_at_most_example =
    waits_at_most bob after_bob (queue_of (load_queue_state after_bob)) Holds-after_bob refl
      left_by_alice

turn_comes_example : is_granted (outcome_of (bob_round both 8 after_leave)) ≡ true
unfolding running is_waiting is_alive index_match
turn_comes_example =
    turn_comes bob after_bob (queue_of (load_queue_state after_bob))
      (queue_of (load_queue_state after_leave)) both root 8 0 starting
      (file_of (bob_round both 8 after_leave)) (outcome_of (bob_round both 8 after_leave))
      Holds-after_bob refl left_by_alice Holds-after_leave tt refl IsCaller-bob refl
  where
    Holds-after_leave : Holds after_leave (queue_of (load_queue_state after_leave))
    Holds-after_leave =
        let (q, h, waiting, before) =
          waits_at_most bob after_bob (queue_of (load_queue_state after_bob)) Holds-after_bob refl
            left_by_alice in
        record { loads = refl; order = subst IsQueue (ok-injective (sym h.loads)) h.order }
