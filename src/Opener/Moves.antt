-- ===== src/Opener/Moves.antt =====
-- The rounds of the launch queue (bin/workspace_harbor_opener_queue.py) as moves of a first-in,
-- first-out line with at most one owner.
use serena_workspace_orchest.Prelude.{
  ℕ, ◌≡◌, refl, Bool, true, false, ◌||◌, Option, none, some, List, [], ◌∷◌, ◌++◌, String,
  if◌then◌else◌, arith, Bool-cases, List-cases, inl, inr, subst, ◌∙◌, ap, sym,
}
use serena_workspace_orchest.Prelude.Results.{Result-cases, ok_of_bind, ok-injective, ok}
use serena_workspace_orchest.Json.{str, Fields, put}
use serena_workspace_orchest.Opener.Files.{File}
use serena_workspace_orchest.Opener.Owner.{OwnerIdentity, Probe, matches, record_is_live}
use serena_workspace_orchest.Opener.State.{
  QueueState, load_queue_state, write_queue, encode, prune_owner, prune_waiting,
  prune_dead_queue_entries,
}
use serena_workspace_orchest.Opener.Launch.{
  Attempt, acquired, waits, LaunchGrant, Progress, owns, find_match, queue_entry, join_queue,
  is_turn, head_matches, promote, settle, launch_turn, launch_round,
}
use serena_workspace_orchest.Opener.Order.{IsQueue, load-write_queue, encode-IsQueue}
use serena_workspace_orchest.Opener.Entries.{
  IsCaller, prune-IsQueue, join_queue-IsQueue, promote-IsQueue,
}

-- The line with the caller in it: as it is, or with the caller's new record at its end.
abbrev pub line : List Fields → OwnerIdentity → Fields → List Fields
line ws owner entry = elim (find_match ws owner) [ none ↦ ws ++ entry ∷ [] | some r ↦ ws ]

-- What a round of `owner` may make of a queue `st` without dead records.
pub data Move (st : QueueState) (owner : OwnerIdentity) (entry : Fields) (q : QueueState)
    : Attempt → Type 0 where
  -- The caller has the turn already.
  keep :
      (grant : LaunchGrant)
      → grant.queued ≡ none
      → owns st.owner owner ≡ true
      → q.owner ≡ st.owner
      → q.waiting ≡ st.waiting
      → Move st owner entry q (acquired grant)
  -- Nobody has the turn, and the caller is the first in the line.
  take :
      (grant : LaunchGrant) (r : Fields) (rs : List Fields)
      → st.owner ≡ none
      → line st.waiting owner entry ≡ r ∷ rs
      → matches r owner ≡ true
      → q.owner ≡ some (put "phase" (str "launching") r)
      → q.waiting ≡ rs
      → Move st owner entry q (acquired grant)
  -- Another has the turn, or another is first.
  wait :
      (progress : Progress)
      → owns st.owner owner ≡ false
      → (st.owner ≡ none → head_matches (line st.waiting owner entry) owner ≡ false)
      → q.owner ≡ st.owner
      → q.waiting ≡ line st.waiting owner entry
      → Move st owner entry q (waits progress)

-- A queue in order that a file holds.
pub record Holds (file : File) (q : QueueState) : Type 0 where
  pub loads : load_queue_state file ≡ ok q
  pub order : IsQueue q

pub Holds-write_queue :
    (st : QueueState) → IsQueue st → Holds (write_queue st) (record st { others = encode st })
Holds-write_queue st h = record { loads = load-write_queue st h; order = encode-IsQueue st h }

prune_owner_same :
    (probe : Probe) (o o' : Option Fields) → prune_owner probe o ≡ ok (o', false) → o' ≡ o
unfolding prune_owner
prune_owner_same probe none o' e = ground arith
prune_owner_same probe (some r) o' e = ground arith

prune_waiting_same :
    (probe : Probe) (rs kept : List Fields) → prune_waiting probe rs ≡ ok (kept, false) → kept ≡ rs
unfolding prune_waiting
prune_waiting_same probe [] kept e = ground arith
prune_waiting_same probe (r ∷ rs) kept e =
    elim (Result-cases (record_is_live probe r "queue-state")) [
      | inr (f, dead) ↦ absurd (ground arith)
      | inl (live, l) ↦ elim (Result-cases (prune_waiting probe rs)) [
        | inr (f, dead) ↦ absurd (ground arith)
        | inl ((rest, more), p) ↦ ground (arith, prune_waiting_same probe rs rest)
      ]
    ]

-- A pruning that reports no change has made none.
pub prune_same :
    (probe : Probe) (st st' : QueueState)
    → prune_dead_queue_entries probe st ≡ ok (st', false)
    → st' ≡ st
unfolding prune_dead_queue_entries
prune_same probe st st' e =
    let ((owner, dropped), po, rest) = ok_of_bind (prune_owner probe st.owner) _ e in
    let ((waiting, thinned), pw, last) = ok_of_bind (prune_waiting probe st.waiting) _ rest in
    ground
      (arith, prune_owner_same probe st.owner owner, prune_waiting_same probe st.waiting waiting)

module _ (root : String) (owner : OwnerIdentity) (now started : ℕ) (progress : Progress)
    (file : File) where
  updated-Holds :
      (changed : Bool) (st : QueueState)
      → IsQueue st
      → (changed ≡ false → load_queue_state file ≡ ok st)
      → (q : QueueState) × Holds (if changed then write_queue st else file) q
        × (q.owner ≡ st.owner)
        × (q.waiting ≡ st.waiting)
  updated-Holds true st h l = (record st { others = encode st }, Holds-write_queue st h, refl, refl)
  updated-Holds false st h l = (st, record { loads = l refl; order = h }, refl, refl)

  join_queue-line :
      (st st' : QueueState) (joined : Bool)
      → join_queue root owner now st ≡ ok (st', joined)
      → (st'.owner ≡ st.owner)
        × (st'.waiting ≡ line st.waiting owner (queue_entry root owner st.next_sequence now))
        × (joined ≡ false → st' ≡ st)
  unfolding join_queue
  join_queue-line st st' joined e = ground arith

  settle-Move :
      (waited maximum : ℕ) (enqueued changed : Bool) (st st' : QueueState) (entry : Fields)
      → IsQueue st'
      → (changed ≡ false → load_queue_state file ≡ ok st')
      → owns st.owner owner ≡ false
      → st'.owner ≡ st.owner
      → st'.waiting ≡ line st.waiting owner entry
      → (q : QueueState) × Holds (settle owner waited maximum enqueued changed st' file).0 q
        × Move st owner entry q (settle owner waited maximum enqueued changed st' file).1
  unfolding settle is_turn promote
  settle-Move waited maximum enqueued changed st st' entry h l other o w =
      elim (Bool-cases (is_turn st' owner)) [
        | inr no_turn ↦ rw no_turn (
            let (q, hq, qo, qw) = updated-Holds changed st' h l in
            (q, hq, wait _ other (λ free. ground arith) (qo ∙ o) (qw ∙ w)))
        | inl turn ↦ elim (List-cases st'.waiting) [
          | inl e ↦ absurd (ground arith)
          | inr (r, rs, e) ↦ rw turn (
            record (promote st') { others = encode (promote st') },
            Holds-write_queue (promote st') (promote-IsQueue st' (ground arith) h),
            take _ r rs (ground arith) (ground arith) (ground arith) (ground arith) (ground arith),
          )
        ]
      ]

  launch_turn-Move :
      (st : QueueState) (pruned : Bool) (file' : File) (outcome : Attempt)
      → IsCaller root owner
      → IsQueue st
      → (pruned ≡ false → load_queue_state file ≡ ok st)
      → launch_turn root owner now started progress file (st, pruned) ≡ ok (file', outcome)
      → (q : QueueState) × Holds file' q
        × Move st owner (queue_entry root owner st.next_sequence now) q outcome
  unfolding launch_turn
  launch_turn-Move st pruned file' outcome c h l e = elim (Bool-cases (owns st.owner owner)) [
    | inl mine ↦
        let (q, hq, qo, qw) = updated-Holds pruned st h l in
        subst
          (λ (r : File × Attempt).
            (q : QueueState) × Holds r.0 q
            × Move st owner (queue_entry root owner st.next_sequence now) q r.1)
          (ok-injective (rw mine at e)) (q, hq, keep _ refl mine qo qw)
    | inr other ↦
        let ((st', joined), j, last) =
          ok_of_bind (join_queue root owner now st) _ (rw other at e) in
        let (o, w, unchanged) = join_queue-line st st' joined j in
        subst
          (λ (r : File × Attempt).
            (q : QueueState) × Holds r.0 q
            × Move st owner (queue_entry root owner st.next_sequence now) q r.1)
          (ok-injective last)
          (settle-Move _ _ _ (pruned || joined) st st' _
            (join_queue-IsQueue root owner now st st' joined c j h)
            (λ same. l (ground arith) ∙ ap ok (sym (unchanged (ground arith)))) other o w)
  ]

  -- If the file holds a queue in order, every round of a validated caller that does not fail prunes
  -- the dead records, makes one move of the line, and leaves the result, in order, in the file.
  pub launch_round-Move :
      (probe : Probe) (st : QueueState) (file' : File) (outcome : Attempt)
      → IsCaller root owner
      → Holds file st
      → launch_round probe root owner now started progress file ≡ ok (file', outcome)
      → (live : QueueState) × (pruned : Bool) × (prune_dead_queue_entries probe st
          ≡ ok (live, pruned))
        × (q : QueueState) × Holds file' q
        × Move live owner (queue_entry root owner live.next_sequence now) q outcome
  unfolding launch_round
  launch_round-Move probe st file' outcome c h e =
      let ((live, pruned), p, turn) =
        ok_of_bind (prune_dead_queue_entries probe st) _ (rw (h.loads) at e) in
      let (q, hq, move) =
        launch_turn-Move live pruned file' outcome c (prune-IsQueue probe st live pruned p h.order)
          (λ same. h.loads ∙ ap ok (sym (prune_same probe st live (ground arith)))) turn in
      (live, pruned, p, q, hq, move)
