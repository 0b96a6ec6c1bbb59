-- ===== src/Opener/Fairness.antt =====
-- Who gets the launch, and when (bin/workspace_harbor_opener_queue.py).
use serena_workspace_orchest.Prelude.{
  ℕ, ◌≡◌, refl, Bool, true, false, Option, none, some, List, [], ◌∷◌, String, arith, Option-cases,
  inl, inr, ◌⊎◌, ◌↔◌, ◌∙◌,
}
use serena_workspace_orchest.Prelude.Results.{ok_of_bind, ok}
use serena_workspace_orchest.Json.{Value, str, Fields, put, get, get-put}
use serena_workspace_orchest.Opener.Files.{File}
use serena_workspace_orchest.Prelude.Strings.{eq_refl}
use serena_workspace_orchest.Prelude.Int.{int_eq_iff}
use serena_workspace_orchest.Opener.Owner.{OwnerIdentity, Probe, matches, record_is_live}
use serena_workspace_orchest.Opener.State.{
  QueueState, prune_owner, prune_waiting, prune_dead_queue_entries,
}
use serena_workspace_orchest.Opener.Launch.{
  Attempt, acquired, waits, Progress, owns, find_match, queue_entry, head_matches, launch_round,
}
use serena_workspace_orchest.Opener.Entries.{IsCaller}
use serena_workspace_orchest.Opener.Moves.{Move, keep, take, wait, Holds, line, launch_round-Move}

abbrev pub is_granted : Attempt → Bool
is_granted (acquired grant) = true
is_granted (waits progress) = false

-- The process that wrote the record is gone.
abbrev pub Dead : Probe → Fields → Type 0
Dead probe r = record_is_live probe r "queue-state" ≡ ok false

abbrev pub Gone : Probe → Option Fields → Type 0
Gone probe none = Unit
Gone probe (some r) = Dead probe r

-- The record is the caller's, and its process lives.
abbrev pub HasTurn : Probe → Option Fields → OwnerIdentity → Type 0
HasTurn probe none owner = ⊥
HasTurn probe (some r) owner =
    (record_is_live probe r "queue-state" ≡ ok true) × (matches r owner ≡ true)

-- The first live record of the line is the caller's, or there is no live record.
abbrev pub IsFirst : Probe → List Fields → OwnerIdentity → Type 0
IsFirst probe [] owner = Unit
IsFirst probe (r ∷ rs) owner =
    (Dead probe r × IsFirst probe rs owner)
    ⊎ ((record_is_live probe r "queue-state" ≡ ok true) × (matches r owner ≡ true))

pub matches-put_phase :
    (v : Value) (r : Fields) (owner : OwnerIdentity)
    → matches (put "phase" v r) owner ≡ matches r owner
unfolding matches
matches-put_phase v r owner = ground (
  arith,
  get-put "phase" "request_id" v r,
  get-put "phase" "pid" v r,
  get-put "phase" "process_started" v r,
)

pub matches-queue_entry :
    (root : String) (owner : OwnerIdentity) (sequence now : ℕ)
    → matches (queue_entry root owner sequence now) owner ≡ true
unfolding matches queue_entry get
matches-queue_entry root owner sequence now =
    ground (
      arith,
      eq_refl owner.request_id,
      eq_refl owner.process_started,
      int_eq_iff owner.pid owner.pid,
    )

-- After the pruning the caller is at the head of the line exactly if its record is the first live.
head-IsFirst :
    (probe : Probe) (owner : OwnerIdentity) (entry : Fields) (ws kept : List Fields)
    (changed : Bool)
    → prune_waiting probe ws ≡ ok (kept, changed)
    → head_matches (line kept owner entry) owner ≡ true
    → IsFirst probe ws owner
unfolding prune_waiting head_matches find_match
head-IsFirst probe owner entry [] kept changed e h = tt
head-IsFirst probe owner entry (w ∷ ws) kept changed e h =
    let (live, l, rest) = ok_of_bind (record_is_live probe w "queue-state") _ e in
    let ((others, more), p, last) = ok_of_bind (prune_waiting probe ws) _ rest in
    ground (arith, head-IsFirst probe owner entry ws others more p)

IsFirst-head :
    (probe : Probe) (owner : OwnerIdentity) (entry : Fields) (ws kept : List Fields)
    (changed : Bool)
    → matches entry owner ≡ true
    → prune_waiting probe ws ≡ ok (kept, changed)
    → IsFirst probe ws owner
    → head_matches (line kept owner entry) owner ≡ true
unfolding prune_waiting head_matches find_match
IsFirst-head probe owner entry [] kept changed m e d = ground arith
IsFirst-head probe owner entry (w ∷ ws) kept changed m e d =
    let (live, l, rest) = ok_of_bind (record_is_live probe w "queue-state") _ e in
    let ((others, more), p, last) = ok_of_bind (prune_waiting probe ws) _ rest in
    ground (arith, IsFirst-head probe owner entry ws others more m p)

prune_owner-turn :
    (probe : Probe) (o o' : Option Fields) (owner : OwnerIdentity) (changed : Bool)
    → prune_owner probe o ≡ ok (o', changed)
    → ((owns o' owner ≡ true) ↔ HasTurn probe o owner) × ((o' ≡ none) ↔ Gone probe o)
unfolding prune_owner owns
prune_owner-turn probe none o' owner changed e = ground arith
prune_owner-turn probe (some r) o' owner changed e = ground arith

-- The parts of a pruning that succeeds.
pub prune_parts :
    (probe : Probe) (st live : QueueState) (pruned : Bool)
    → prune_dead_queue_entries probe st ≡ ok (live, pruned)
    → (a b : Bool) × (prune_owner probe st.owner ≡ ok (live.owner, a))
      × (prune_waiting probe st.waiting ≡ ok (live.waiting, b))
unfolding prune_dead_queue_entries
prune_parts probe st live pruned e =
    let ((owner, dropped), po, rest) = ok_of_bind (prune_owner probe st.owner) _ e in
    let ((waiting, thinned), pw, last) = ok_of_bind (prune_waiting probe st.waiting) _ rest in
    (dropped, thinned, ground arith, ground arith)

abbrev pub Eligible : Probe → QueueState → OwnerIdentity → Type 0
Eligible probe st owner =
    HasTurn probe st.owner owner ⊎ (Gone probe st.owner × IsFirst probe st.waiting owner)

Move-Eligible :
    (probe : Probe) (st live q : QueueState) (owner : OwnerIdentity) (entry : Fields) (a b : Bool)
    (outcome : Attempt)
    → matches entry owner ≡ true
    → prune_owner probe st.owner ≡ ok (live.owner, a)
    → prune_waiting probe st.waiting ≡ ok (live.waiting, b)
    → Move live owner entry q outcome
    → (is_granted outcome ≡ true) ↔ Eligible probe st owner
unfolding head_matches
Move-Eligible probe st live q owner entry a b _ m po pw (keep grant again mine o w) =
    let (turn, free) = prune_owner-turn probe st.owner live.owner owner a po in
    (λ g. inl (turn.0 mine), λ e. refl)
Move-Eligible probe st live q owner entry a b _ m po pw (take grant r rs none_owns first mine o w) =
    let (turn, free) = prune_owner-turn probe st.owner live.owner owner a po in
    (
      λ g. inr (
        free.0 none_owns,
        head-IsFirst probe owner entry st.waiting live.waiting b pw (ground arith),
      ),
      λ e. refl,
    )
Move-Eligible probe st live q owner entry a b _ m po pw (wait progress other blocked o w) =
    let (turn, free) = prune_owner-turn probe st.owner live.owner owner a po in
    (λ g. absurd (ground arith), refuse)
  where
    refuse : Eligible probe st owner → false ≡ true
    refuse (inl has) =
        ground (arith, (prune_owner-turn probe st.owner live.owner owner a po).0.1 has)
    refuse (inr (gone, first)) = ground (
      arith,
      blocked ((prune_owner-turn probe st.owner live.owner owner a po).1.1 gone),
      IsFirst-head probe owner entry st.waiting live.waiting b m pw first,
    )

prune_owner_live :
    (probe : Probe) (r : Fields) (o o' : Option Fields) (changed : Bool)
    → o ≡ some r
    → record_is_live probe r "queue-state" ≡ ok true
    → prune_owner probe o ≡ ok (o', changed)
    → o' ≡ some r
unfolding prune_owner
prune_owner_live probe r none o' changed e l p = ground arith
prune_owner_live probe r (some x) o' changed e l p = ground arith

Move-owned :
    (live q : QueueState) (owner : OwnerIdentity) (entry r : Fields) (outcome : Attempt)
    → live.owner ≡ some r
    → Move live owner entry q outcome
    → (q.owner ≡ some r) × (is_granted outcome ≡ matches r owner)
unfolding owns
Move-owned live q owner entry r _ o (keep grant again mine same w) = ground arith
Move-owned live q owner entry r _ o (take grant x xs free first mine same w) = ground arith
Move-owned live q owner entry r _ o (wait progress other blocked same w) = ground arith

-- After a grant the owner's record is the caller's.
Move-granted :
    (live q : QueueState) (owner : OwnerIdentity) (entry : Fields) (outcome : Attempt)
    → is_granted outcome ≡ true
    → Move live owner entry q outcome
    → (r : Fields) × (q.owner ≡ some r) × (matches r owner ≡ true)
unfolding owns
Move-granted live q owner entry _ g (keep grant again mine same w) =
    elim (Option-cases live.owner) [
      | inl e ↦ absurd (ground arith)
      | inr (r, e) ↦ (r, same ∙ e, ground arith)
    ]
Move-granted live q owner entry _ g (take grant x xs free first mine same w) =
    (put "phase" (str "launching") x, same, rw matches-put_phase mine)
Move-granted live q owner entry _ g (wait progress other blocked same w) = absurd (ground arith)

module _ (root : String) (owner : OwnerIdentity) (now started : ℕ) (progress : Progress)
    (file : File) where
  -- A round that does not fail grants the launch exactly if the caller has it and lives, or if the
  -- owner is gone and no live record of another stands before the caller's.
  pub granted_iff :
      (probe : Probe) (st : QueueState) (file' : File) (outcome : Attempt)
      → IsCaller root owner
      → Holds file st
      → launch_round probe root owner now started progress file ≡ ok (file', outcome)
      → (is_granted outcome ≡ true) ↔ Eligible probe st owner
  granted_iff probe st file' outcome c h e =
      let (live, pruned, p, q, hq, move) =
        launch_round-Move root owner now started progress file probe st file' outcome c h e in
      let (a, b, po, pw) = prune_parts probe st live pruned p in
      Move-Eligible probe st live q owner _ a b outcome
        (matches-queue_entry root owner live.next_sequence now) po pw move

  -- While the owner lives, a round leaves it the turn, and grants the launch to it alone.
  pub owner_keeps_turn :
      (probe : Probe) (st : QueueState) (r : Fields) (file' : File) (outcome : Attempt)
      → IsCaller root owner
      → Holds file st
      → st.owner ≡ some r
      → record_is_live probe r "queue-state" ≡ ok true
      → launch_round probe root owner now started progress file ≡ ok (file', outcome)
      → (q : QueueState) × Holds file' q
        × (q.owner ≡ some r)
        × (is_granted outcome ≡ matches r owner)
  owner_keeps_turn probe st r file' outcome c h o l e =
      let (live, pruned, p, q, hq, move) =
        launch_round-Move root owner now started progress file probe st file' outcome c h e in
      let (a, b, po, pw) = prune_parts probe st live pruned p in
      let stays = prune_owner_live probe r st.owner live.owner a o l po in
      let (same, granted) = Move-owned live q owner _ r outcome stays move in (q, hq, same, granted)

  pub grant_is_recorded :
      (probe : Probe) (st : QueueState) (file' : File) (outcome : Attempt)
      → IsCaller root owner
      → Holds file st
      → launch_round probe root owner now started progress file ≡ ok (file', outcome)
      → is_granted outcome ≡ true
      → (q : QueueState) × (r : Fields) × Holds file' q
        × (q.owner ≡ some r)
        × (matches r owner ≡ true)
  grant_is_recorded probe st file' outcome c h e g =
      let (live, pruned, p, q, hq, move) =
        launch_round-Move root owner now started progress file probe st file' outcome c h e in
      let (r, o, m) = Move-granted live q owner _ outcome g move in (q, r, hq, o, m)
