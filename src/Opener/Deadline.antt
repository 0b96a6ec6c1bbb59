-- ===== src/Opener/Deadline.antt =====
-- The polling loop of `acquire_launch` (bin/workspace_harbor_opener_queue.py) ends, and what it
-- leaves behind.
use serena_workspace_orchest.Prelude.{
  ℕ, ◌≡◌, refl, Bool, true, List, [], ◌∷◌, String, any, All, leb, arith, Bool-cases, inl, inr, ◌⊎◌,
}
use serena_workspace_orchest.Prelude.Results.{ok_of_bind, Result, ok, err, ◌>>◌}
use serena_workspace_orchest.Opener.Process.{Failure}
use serena_workspace_orchest.Opener.Files.{File, advisory_lock}
use serena_workspace_orchest.Opener.Owner.{OwnerIdentity}
use serena_workspace_orchest.Opener.Launch.{
  Attempt, acquired, waits, Progress, Poll, Progressed, done, running, launch_round, launch_loop,
  after_poll,
}
use serena_workspace_orchest.Opener.Order.{IsQueueFile}
use serena_workspace_orchest.Opener.Entries.{IsCaller}
use serena_workspace_orchest.Opener.Turns.{launch_round-IsQueueFile}

-- A poll reaches the deadline's test at or after the deadline.
abbrev pub reaches : ℕ → List Poll → Bool
reaches deadline polls = any (λ poll. leb deadline poll.later) polls

abbrev pub IsDone : Progressed → Type 0
IsDone (done result file) = Unit
IsDone (running progress file) = ⊥

abbrev pub left_file : Progressed → File
left_file (done result file) = file
left_file (running progress file) = file

after_poll-IsDone :
    (deadline later : ℕ) (found : File) (rest : Progress → File → Progressed)
    (r : Result Failure (File × Attempt))
    → (leb deadline later ≡ true) ⊎ ((p : Progress) (f : File) → IsDone (rest p f))
    → IsDone (after_poll deadline later found rest r)
unfolding after_poll
after_poll-IsDone deadline later found rest (err e) h = tt
after_poll-IsDone deadline later found rest (ok (file, acquired grant)) h = tt
after_poll-IsDone deadline later found rest (ok (file, waits progress)) (inl over) = rw over tt
after_poll-IsDone deadline later found rest (ok (file, waits progress)) (inr ends) =
    elim (Bool-cases (leb deadline later)) [
      | inl over ↦ rw over tt
      | inr early ↦ rw early (ends progress file)
    ]

after_poll-left_file :
    (P : File → Type 0) (deadline later : ℕ) (found : File) (rest : Progress → File → Progressed)
    (r : Result Failure (File × Attempt))
    → P found
    → ((f : File) (outcome : Attempt) → r ≡ ok (f, outcome) → P f)
    → ((p : Progress) (f : File) → P f → P (left_file (rest p f)))
    → P (left_file (after_poll deadline later found rest r))
unfolding after_poll
after_poll-left_file P deadline later found rest (err e) h round more = h
after_poll-left_file P deadline later found rest (ok (file, acquired grant)) h round more =
    round file (acquired grant) refl
after_poll-left_file P deadline later found rest (ok (file, waits progress)) h round more =
    elim (Bool-cases (leb deadline later)) [
      | inl over ↦ rw over (round file (waits progress) refl)
      | inr early ↦ rw early (more progress file (round file (waits progress) refl))
    ]

module _ (root : String) (owner : OwnerIdentity) (deadline started : ℕ) where
  -- The loop ends at the latest in the first round whose deadline's test comes after the deadline.
  pub launch_loop_ends :
      (polls : List Poll) (progress : Progress) (file : File)
      → reaches deadline polls ≡ true
      → IsDone (launch_loop root owner deadline started polls progress file)
  unfolding launch_loop
  launch_loop_ends [] progress file h = absurd (ground arith)
  launch_loop_ends (poll ∷ polls) progress file h =
      after_poll-IsDone deadline poll.later _ _ _ (elim (Bool-cases (leb deadline poll.later)) [
        | inl over ↦ inl over
        | inr early ↦ inr (λ p f. launch_loop_ends polls p f (ground arith))
      ])

  -- If the other processes keep the queue in order, so does the loop, however it ends.
  pub launch_loop-IsQueueFile :
      (polls : List Poll) (progress : Progress) (file : File)
      → IsCaller root owner
      → All (λ (poll : Poll). (f : File) → IsQueueFile f → IsQueueFile (poll.others f)) polls
      → IsQueueFile file
      → IsQueueFile (left_file (launch_loop root owner deadline started polls progress file))
  unfolding launch_loop
  launch_loop-IsQueueFile [] progress file c others h = h
  launch_loop-IsQueueFile (poll ∷ polls) progress file c others h =
      let round = launch_round poll.probe root owner poll.now started progress (poll.others file) in
      after_poll-left_file (λ f. IsQueueFile f) deadline poll.later (poll.others file)
        (λ p f. launch_loop root owner deadline started polls p f)
        (advisory_lock poll.place >> round) (others.0 file h)
        (λ f outcome e.
          let (u, locked, granted) = ok_of_bind (advisory_lock poll.place) (λ x. round) e in
          launch_round-IsQueueFile poll.probe root owner poll.now started progress
            (poll.others file) f outcome c (others.0 file h) granted)
        (λ p f hf. launch_loop-IsQueueFile polls p f c others.1 hf)
