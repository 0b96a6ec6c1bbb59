-- ===== src/Opener/Waiting.antt =====
-- How long a caller waits at the launch queue (bin/workspace_harbor_opener_queue.py).
use serena_workspace_orchest.Prelude.{
  ℕ, All, ◌∙◌, ◌+◌, ◌≤◌, ◌≡◌, sym, subst, inl, inr, Bool, true, false, ◌&&◌, ◌||◌, none, some, List,
  [], ◌∷◌, ◌++◌, String, arith, Bool-cases, Option-cases, All-append,
}
use serena_workspace_orchest.Prelude.Results.{ok_of_bind, ok, ok-injective}
use serena_workspace_orchest.Json.{Fields}
use serena_workspace_orchest.Opener.Files.{File}
use serena_workspace_orchest.Opener.Owner.{OwnerIdentity, Probe, matches, record_is_live}
use serena_workspace_orchest.Opener.State.{QueueState, prune_waiting}
use serena_workspace_orchest.Opener.Launch.{
  Attempt, acquired, waits, Progress, find_match, index_match, queue_entry, launch_round,
  release_launch, without,
}
use serena_workspace_orchest.Opener.Order.{IsEntry}
use serena_workspace_orchest.Opener.Entries.{IsCaller, prune-IsQueue, queue_entry-IsEntry}
use serena_workspace_orchest.Opener.Moves.{Move, keep, take, wait, Holds, line, launch_round-Move}
use serena_workspace_orchest.Opener.Fairness.{is_granted, prune_parts, Gone, IsFirst, granted_iff}
use serena_workspace_orchest.Opener.Identity.{
  is_alive, same_identity, same_identity-of-matches, live_of_alive,
}
use serena_workspace_orchest.Opener.Release.{release_launch_lem}

-- The caller has a record in the line.
unfoldable pub is_waiting : OwnerIdentity → List Fields → Bool
is_waiting o [] = false
is_waiting o (r ∷ rs) = matches r o || is_waiting o rs

-- The turns that a round takes: the grant of a caller that has the turn already is none.
abbrev pub turns : Attempt → ℕ
turns (acquired grant) = elim grant.queued [ none ↦ 0 | some enqueued ↦ 1 ]
turns (waits progress) = 0

-- The caller stands in the line, with at most this many records before it.
abbrev pub Stands : OwnerIdentity → List Fields → ℕ → Type 0
Stands o rs place = (is_waiting o rs ≡ true) × (index_match rs o ≤ place)

prune_waiting-Stands :
    (probe : Probe) (o : OwnerIdentity) (rs kept : List Fields) (changed : Bool)
    → is_alive probe o ≡ true
    → All IsEntry rs
    → prune_waiting probe rs ≡ ok (kept, changed)
    → is_waiting o rs ≡ true
    → Stands o kept (index_match rs o)
unfolding prune_waiting is_waiting index_match
prune_waiting-Stands probe o [] kept changed alive h e w = absurd (ground arith)
prune_waiting-Stands probe o (r ∷ rs) kept changed alive h e w =
    let (live, l, rest) = ok_of_bind (record_is_live probe r "queue-state") _ e in
    let ((others, more), p, last) = ok_of_bind (prune_waiting probe rs) _ rest in
    elim (Bool-cases (matches r o)) [
      | inl m ↦ ground (arith, live_of_alive probe r o live h.0 m alive l)
      | inr m ↦
          let later = prune_waiting-Stands probe o rs others more alive h.1 p (ground arith) in
          ground (arith, later)
    ]

append-Stands :
    (o : OwnerIdentity) (rs more : List Fields)
    → is_waiting o rs ≡ true
    → (is_waiting o (rs ++ more) ≡ true) × (index_match (rs ++ more) o ≡ index_match rs o)
unfolding is_waiting index_match
append-Stands o [] more h = absurd (ground arith)
append-Stands o (r ∷ rs) more h = elim (Bool-cases (matches r o)) [
  | inl m ↦ ground (arith, m)
  | inr m ↦ let later = append-Stands o rs more (ground arith) in ground (arith, later)
]

line-Stands :
    (o owner : OwnerIdentity) (entry : Fields) (rs : List Fields) (place : ℕ)
    → Stands o rs place
    → Stands o (line rs owner entry) place
line-Stands o owner entry rs place h = elim (Option-cases (find_match rs owner)) [
  | inl e ↦
      let joined = append-Stands o rs (entry ∷ []) h.0 in
      rw (line, e) (joined.0, ground (arith, joined.1, h.1))
  | inr (r, e) ↦ rw (line, e) h
]

without-Stands :
    (o p : OwnerIdentity) (rs : List Fields) (place : ℕ)
    → All IsEntry rs
    → same_identity p o ≡ false
    → is_waiting o rs ≡ true
    → Stands o (without p rs) (index_match rs o)
unfolding is_waiting index_match without
without-Stands o p [] place h other w = absurd (ground arith)
without-Stands o p (r ∷ rs) place h other w = elim (Bool-cases (matches r o)) [
  | inl m ↦ ground (arith, m, same_identity-of-matches r p o h.0)
  | inr m ↦
      let later = without-Stands o p rs place h.1 other (ground arith) in ground (arith, m, later)
]

turns_le : (outcome : Attempt) → turns outcome ≤ 1
turns_le (waits progress) = omega arith
turns_le (acquired grant) = elim (Option-cases grant.queued) [
  | inl e ↦ rw (e) (omega arith)
  | inr (enqueued, e) ↦ rw (e) (omega arith)
]

-- The head of the line leaves it.
tail-Stands :
    (o owner : OwnerIdentity) (r : Fields) (rs : List Fields) (place : ℕ)
    → IsEntry r
    → matches r owner ≡ true
    → same_identity owner o ≡ false
    → Stands o (r ∷ rs) place
    → (is_waiting o rs ≡ true) × (1 + index_match rs o ≤ place)
unfolding is_waiting index_match
tail-Stands o owner r rs place h mine other s = elim (Bool-cases (matches r o)) [
  | inl m ↦ absurd (ground (arith, m, same_identity-of-matches r owner o h mine m))
  | inr m ↦ ground (arith, m, s)
]

-- A move of another caller that is given the turn shortens the line before the caller.
Move-Stands :
    (live q : QueueState) (owner o : OwnerIdentity) (entry : Fields) (outcome : Attempt) (place : ℕ)
    → Move live owner entry q outcome
    → All IsEntry (line live.waiting owner entry)
    → same_identity owner o && is_granted outcome ≡ false
    → Stands o live.waiting place
    → (is_waiting o q.waiting ≡ true) × (turns outcome + index_match q.waiting o ≤ place)
Move-Stands live q owner o entry _ place (keep grant again mine same w) h other s =
    rw (w, again) (s.0, omega (arith, s.1))
Move-Stands live q owner o entry _ place (wait progress mine blocked same w) h other s =
    let stays = line-Stands o owner entry live.waiting place s in
    rw (w) (stays.0, omega (arith, stays.1))
Move-Stands live q owner o entry _ place (take grant r rs free first mine same w) h other s =
    let stays =
      tail-Stands o owner r rs place (subst (All IsEntry) first h).0 mine (ground arith)
        (subst (λ x. Stands o x place) first (line-Stands o owner entry live.waiting place s)) in
    rw (w) (stays.0, omega (arith, stays.1, turns_le (acquired grant)))

line-IsEntry :
    (owner : OwnerIdentity) (entry : Fields) (rs : List Fields)
    → All IsEntry rs
    → IsEntry entry
    → All IsEntry (line rs owner entry)
line-IsEntry owner entry rs h e = elim (Option-cases (find_match rs owner)) [
  | inl f ↦ rw (line, f) (All-append IsEntry rs (entry ∷ []) (h, (e, tt)))
  | inr (r, f) ↦ rw (line, f) h
]

-- What happens to the file of the queue while a caller waits: rounds in which it is alive and is not
-- granted the launch, its own among them, and releases of others, with the number of turns taken.
pub data History (o : OwnerIdentity) (start : File) : ℕ → File → Type 0 where
  begun : History o start 0 start
  round :
      {taken : ℕ} {file : File} (probe : Probe) (root : String) (owner : OwnerIdentity)
      (now started : ℕ) (progress : Progress) (file' : File) (outcome : Attempt)
      → History o start taken file
      → IsCaller root owner
      → is_alive probe o ≡ true
      → same_identity owner o && is_granted outcome ≡ false
      → launch_round probe root owner now started progress file ≡ ok (file', outcome)
      → History o start (turns outcome + taken) file'
  leave :
      {taken : ℕ} {file : File} (owner : OwnerIdentity) (file' : File)
      → History o start taken file
      → same_identity owner o ≡ false
      → release_launch owner file ≡ ok file'
      → History o start taken file'

-- The caller stands in the line of the file, with this many records and turns before it at most.
abbrev pub StandsIn : OwnerIdentity → File → ℕ → ℕ → Type 0
StandsIn o file taken place =
    (q : QueueState) × Holds file q
    × (is_waiting o q.waiting ≡ true)
    × (taken + index_match q.waiting o ≤ place)

round-Stands :
    (o : OwnerIdentity) (taken place : ℕ) (file : File) (probe : Probe) (root : String)
    (owner : OwnerIdentity) (now started : ℕ) (progress : Progress) (file' : File)
    (outcome : Attempt)
    → StandsIn o file taken place
    → IsCaller root owner
    → is_alive probe o ≡ true
    → same_identity owner o && is_granted outcome ≡ false
    → launch_round probe root owner now started progress file ≡ ok (file', outcome)
    → StandsIn o file' (turns outcome + taken) place
round-Stands o taken place file probe root owner now started progress file' outcome (st, h, w, i) c
      alive other e =
    let (live, pruned, p, q, hq, move) =
      launch_round-Move root owner now started progress file probe st file' outcome c h e in
    let (a, b, po, pw) = prune_parts probe st live pruned p in
    let stands =
      prune_waiting-Stands probe o st.waiting live.waiting b alive h.order.entries pw w in
    let entries =
      line-IsEntry owner (queue_entry root owner live.next_sequence now) live.waiting
        (prune-IsQueue probe st live pruned p h.order).entries
        (queue_entry-IsEntry root owner live.next_sequence now c) in
    let later =
      Move-Stands live q owner o (queue_entry root owner live.next_sequence now) outcome
        (index_match st.waiting o) move entries other stands in
    (q, hq, later.0, omega (arith, later.1, i))

leave-Stands :
    (o : OwnerIdentity) (taken place : ℕ) (file : File) (owner : OwnerIdentity) (file' : File)
    → StandsIn o file taken place
    → same_identity owner o ≡ false
    → release_launch owner file ≡ ok file'
    → StandsIn o file' taken place
leave-Stands o taken place file owner file' (st, h, w, i) other e =
    let (q, hq, qo, qw) = release_launch_lem owner file file' st h e in
    let later = without-Stands o owner st.waiting 0 h.order.entries other w in
    (q, hq, rw (qw) later.0, rw (qw) (omega (arith, later.1, i)))

-- A caller that stands in the line waits for at most as many turns as there are records before its
-- own: in whatever happens while it is alive, does not release and is not granted the launch, the
-- turns that others take and the records still before it are together no more than the records that
-- were before it at first, and it still stands in the line.
pub waits_at_most :
    (o : OwnerIdentity) (start : File) (st : QueueState) {taken : ℕ} {file : File}
    → Holds start st
    → is_waiting o st.waiting ≡ true
    → History o start taken file
    → StandsIn o file taken (index_match st.waiting o)
waits_at_most o start st h w begun = (st, h, w, omega arith)
waits_at_most o start st h w
      (round probe root owner now started progress file' outcome past c alive other e) =
    round-Stands o _ _ _ probe root owner now started progress file' outcome
      (waits_at_most o start st h w past) c alive other e
waits_at_most o start st h w (leave owner file' past other e) =
    leave-Stands o _ _ _ owner file' (waits_at_most o start st h w past) other e

-- The record of a caller that is alive is live at the head of the line.
index_match-IsFirst :
    (probe : Probe) (o : OwnerIdentity) (rs kept : List Fields) (changed : Bool)
    → is_alive probe o ≡ true
    → All IsEntry rs
    → prune_waiting probe rs ≡ ok (kept, changed)
    → is_waiting o rs ≡ true
    → index_match rs o ≤ 0
    → IsFirst probe rs o
unfolding prune_waiting is_waiting index_match
index_match-IsFirst probe o [] kept changed alive h e w i = absurd (ground arith)
index_match-IsFirst probe o (r ∷ rs) kept changed alive h e w i =
    let (live, l, rest) = ok_of_bind (record_is_live probe r "queue-state") _ e in
    elim (Bool-cases (matches r o)) [
      | inl m ↦ inr (live_of_alive probe r o live h.0 m alive l, m)
      | inr m ↦ absurd (ground (arith, m))
    ]

-- The turn comes: when as many turns were taken as there were records before a caller that stands in
-- the line, is alive, does not release and was not granted the launch meanwhile, its next round that
-- does not fail, once the owner is gone, grants it the launch.
pub turn_comes :
    (o : OwnerIdentity) (start : File) (st : QueueState) {file : File} (q : QueueState)
    (probe : Probe) (root : String) (now started : ℕ) (progress : Progress) (file' : File)
    (outcome : Attempt)
    → Holds start st
    → is_waiting o st.waiting ≡ true
    → History o start (index_match st.waiting o) file
    → Holds file q
    → Gone probe q.owner
    → is_alive probe o ≡ true
    → IsCaller root o
    → launch_round probe root o now started progress file ≡ ok (file', outcome)
    → is_granted outcome ≡ true
turn_comes o start st {file} q probe root now started progress file' outcome h w past hq gone alive
      c e =
    let (found, held, waiting, before) = waits_at_most o start st h w past in
    let same : found ≡ q = ok-injective (sym held.loads ∙ hq.loads) in
    let (live, pruned, p, q', hq', move) =
      launch_round-Move root o now started progress file probe q file' outcome c hq e in
    let (a, b, po, pw) = prune_parts probe q live pruned p in
    let first =
      index_match-IsFirst probe o q.waiting live.waiting b alive hq.order.entries pw
        (subst (λ (x : QueueState). is_waiting o x.waiting ≡ true) same waiting)
        (subst (λ (x : QueueState). index_match x.waiting o ≤ 0) same (omega (arith, before))) in
    (granted_iff root o now started progress file probe q file' outcome c hq e).1
      (inr (gone, first))
