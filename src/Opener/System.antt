-- ===== src/Opener/System.antt =====
-- Any number of processes at the launch queue (bin/workspace_harbor_opener_queue.py): their rounds
-- and releases in any order, over one state file.
use serena_workspace_orchest.Prelude.{
  ℕ, ◌≡◌, refl, Bool, true, false, Option, none, some, List, [], ◌∷◌, String, not, All,
  if◌then◌else◌, arith, Bool-cases, inl, inr, subst, sym, ◌∙◌,
}
use serena_workspace_orchest.Prelude.Results.{ok_of_bind, ok}
use serena_workspace_orchest.Json.{Fields}
use serena_workspace_orchest.Opener.Files.{File}
use serena_workspace_orchest.Opener.Owner.{OwnerIdentity, Probe, matches, record_is_live}
use serena_workspace_orchest.Opener.State.{QueueState, prune_owner}
use serena_workspace_orchest.Opener.Launch.{Attempt, Progress, owns, launch_round, release_launch}
use serena_workspace_orchest.Opener.Order.{IsEntry, IsOwner}
use serena_workspace_orchest.Opener.Entries.{IsCaller}
use serena_workspace_orchest.Opener.Moves.{Holds, launch_round-Move}
use serena_workspace_orchest.Opener.Fairness.{
  is_granted, owner_keeps_turn, grant_is_recorded, prune_parts,
}
use serena_workspace_orchest.Opener.Identity.{
  is_alive, same_identity, same_identity-of-matches, live_of_alive,
}
use serena_workspace_orchest.Opener.Release.{release_launch_lem}

unfoldable pub keep_if : (OwnerIdentity → Bool) → List OwnerIdentity → List OwnerIdentity
keep_if p [] = []
keep_if p (o ∷ os) = let rest = keep_if p os in if p o then o ∷ rest else rest

-- The state file, and the callers that were granted the launch and have not released it since.
pub record World : Type 0 where
  pub file : File
  pub holders : List OwnerIdentity

abbrev pub after_round : Probe → OwnerIdentity → Attempt → List OwnerIdentity → List OwnerIdentity
after_round probe owner outcome holders =
    let left = keep_if (is_alive probe) holders in if is_granted outcome then owner ∷ left else left

-- A round that fails writes nothing. At a round the holders whose process is gone are dropped.
pub data Step (w : World) : World → Type 0 where
  round :
      (probe : Probe) (root : String) (owner : OwnerIdentity) (now started : ℕ)
      (progress : Progress) (file' : File) (outcome : Attempt)
      → IsCaller root owner
      → launch_round probe root owner now started progress w.file ≡ ok (file', outcome)
      → Step w (record { file = file'; holders = after_round probe owner outcome w.holders })
  leave :
      (owner : OwnerIdentity) (file' : File)
      → release_launch owner w.file ≡ ok file'
      → Step w
          (record { file = file'; holders = keep_if (λ o. not (same_identity o owner)) w.holders })

pub data Reach (w : World) : World → Type 0 where
  here : Reach w w
  next : {v u : World} → Reach w v → Step v u → Reach w u

abbrev pub Held : Option Fields → OwnerIdentity → Type 0
Held none o = ⊥
Held (some r) o = matches r o ≡ true

-- The file holds a queue in order, and its owner's record is that of every holder.
abbrev pub Inv : World → Type 0
Inv w = (q : QueueState) × Holds w.file q × All (Held q.owner) w.holders

keep_if-All {κ} :
    (P : OwnerIdentity → Type κ) (p : OwnerIdentity → Bool) (os : List OwnerIdentity)
    → All P os
    → All P (keep_if p os)
unfolding keep_if
keep_if-All P p [] h = tt
keep_if-All P p (o ∷ os) h = elim (Bool-cases (p o)) [
  | inl e ↦ rw (e, keep_if) (h.0, keep_if-All P p os h.1)
  | inr e ↦ rw (e, keep_if) (keep_if-All P p os h.1)
]

keep_if_first :
    (p : OwnerIdentity → Bool) (o : OwnerIdentity) (rest os : List OwnerIdentity)
    → keep_if p os ≡ o ∷ rest
    → p o ≡ true
unfolding keep_if
keep_if_first p o rest [] e = absurd (ground arith)
keep_if_first p o rest (x ∷ os) e = ground (arith, keep_if_first p o rest os)

-- The record of an owner that is checked in a round.
owner_is_checked :
    (probe : Probe) (o o' : Option Fields) (r : Fields) (changed : Bool)
    → prune_owner probe o ≡ ok (o', changed)
    → o ≡ some r
    → (live : Bool) × (record_is_live probe r "queue-state" ≡ ok live)
unfolding prune_owner
owner_is_checked probe none o' r changed p e = absurd (ground arith)
owner_is_checked probe (some x) o' r changed p e =
    let (live, l, last) = ok_of_bind (record_is_live probe x "queue-state") _ p in
    (live, ground arith)

IsOwner-IsEntry : (o : Option Fields) (r : Fields) → o ≡ some r → IsOwner o → IsEntry r
IsOwner-IsEntry none r e h = absurd (ground arith)
IsOwner-IsEntry (some x) r e h = subst IsEntry (cc) h.0

-- A holder that is alive still has its record in the queue after a round of any caller.
round-Held :
    (probe : Probe) (root : String) (owner : OwnerIdentity) (now started : ℕ) (progress : Progress)
    (file file' : File) (outcome : Attempt) (st : QueueState) (r : Fields) (o : OwnerIdentity)
    → IsCaller root owner
    → Holds file st
    → launch_round probe root owner now started progress file ≡ ok (file', outcome)
    → st.owner ≡ some r
    → matches r o ≡ true
    → is_alive probe o ≡ true
    → (q : QueueState) × Holds file' q × (q.owner ≡ some r) × (is_granted outcome ≡ matches r owner)
round-Held probe root owner now started progress file file' outcome st r o c h e so m alive =
    let (live, pruned, p, q, hq, move) =
      launch_round-Move root owner now started progress file probe st file' outcome c h e in
    let (a, b, po, pw) = prune_parts probe st live pruned p in
    let (l, checked) = owner_is_checked probe st.owner live.owner r a po so in
    owner_keeps_turn root owner now started progress file probe st r file' outcome c h so
      (live_of_alive probe r o l (IsOwner-IsEntry st.owner r so h.order.owned) m alive checked) e

Held-some :
    (o : Option Fields) (p : OwnerIdentity)
    → Held o p
    → (r : Fields) × (o ≡ some r) × (matches r p ≡ true)
Held-some none p h = absurd h
Held-some (some r) p h = (r, refl, h)

All-Held-granted :
    (granted : Bool) (r : Fields) (o : Option Fields) (owner : OwnerIdentity)
    (left : List OwnerIdentity)
    → o ≡ some r
    → granted ≡ matches r owner
    → All (Held o) left
    → All (Held o) (if granted then owner ∷ left else left)
All-Held-granted true r o owner left e g h = (subst (λ x. Held x owner) (sym e) (sym g), h)
All-Held-granted false r o owner left e g h = h

round-Inv :
    (probe : Probe) (root : String) (owner : OwnerIdentity) (now started : ℕ) (progress : Progress)
    (file file' : File) (outcome : Attempt) (holders : List OwnerIdentity)
    (left : List OwnerIdentity)
    → IsCaller root owner
    → launch_round probe root owner now started progress file ≡ ok (file', outcome)
    → Inv (record { file = file; holders = holders })
    → keep_if (is_alive probe) holders ≡ left
    → Inv (record { file = file'; holders = if is_granted outcome then owner ∷ left else left })
round-Inv probe root owner now started progress file file' outcome holders [] c e (st, h, held) k =
    elim (Bool-cases (is_granted outcome)) [
      | inl granted ↦
          let (q, r, hq, o, m) =
            grant_is_recorded root owner now started progress file probe st file' outcome c h e
              granted in
          rw granted (q, hq, (subst (λ x. Held x owner) (sym o) m, tt))
      | inr refused ↦
          let (live, pruned, p, q, hq, move) =
            launch_round-Move root owner now started progress file probe st file' outcome c h e in
          rw refused (q, hq, tt)
    ]
round-Inv probe root owner now started progress file file' outcome holders (x ∷ left) c e
      (st, h, held) k =
    let all =
      subst (All (Held st.owner)) k (keep_if-All (Held st.owner) (is_alive probe) holders held) in
    let (r, so, m) = Held-some st.owner x all.0 in
    let (q, hq, qo, granted) =
      round-Held probe root owner now started progress file file' outcome st r x c h e so m
        (keep_if_first (is_alive probe) x left holders k) in
    (
      q,
      hq,
      All-Held-granted (is_granted outcome) r q.owner owner (x ∷ left) qo granted
          (subst (λ (o : Option Fields). All (Held o) (x ∷ left)) (so ∙ sym qo) all),
    )

keep_if-others :
    (owner : OwnerIdentity) (r : Fields) (os : List OwnerIdentity)
    → IsEntry r
    → matches r owner ≡ true
    → All (Held (some r)) os
    → keep_if (λ o. not (same_identity o owner)) os ≡ []
unfolding keep_if
keep_if-others owner r [] h m held = refl
keep_if-others owner r (o ∷ os) h m held =
    ground
      (arith, same_identity-of-matches r o owner h held.0 m, keep_if-others owner r os h m held.1)

leave-Held :
    (owner : OwnerIdentity) (o : Option Fields) (os : List OwnerIdentity)
    → IsOwner o
    → All (Held o) os
    → All (Held (if owns o owner then none else o)) (keep_if (λ p. not (same_identity p owner)) os)
unfolding owns
leave-Held owner none os h held = keep_if-All (Held none) (λ p. not (same_identity p owner)) os held
leave-Held owner (some r) os h held = elim (Bool-cases (matches r owner)) [
  | inl mine ↦ rw (mine, keep_if-others owner r os h.0 mine held) tt
  | inr other ↦ rw other (keep_if-All (Held (some r)) (λ p. not (same_identity p owner)) os held)
]

-- Every step keeps the queue in order and the holders in agreement with it.
pub Step-Inv : {w u : World} → Step w u → Inv w → Inv u
Step-Inv {w} (round probe root owner now started progress file' outcome c e) inv =
    round-Inv probe root owner now started progress w.file file' outcome w.holders _ c e inv refl
Step-Inv {w} (leave owner file' e) (st, h, held) =
    let (q, hq, o, ws) = release_launch_lem owner w.file file' st h e in
    (
      q,
      hq,
      subst
          (λ (x : Option Fields).
            All (Held x) (keep_if (λ p. not (same_identity p owner)) w.holders))
          (sym o) (leave-Held owner st.owner w.holders h.order.owned held),
    )

pub Reach-Inv : {w u : World} → Inv w → Reach w u → Inv u
Reach-Inv inv here = inv
Reach-Inv inv (next r s) = Step-Inv s (Reach-Inv inv r)

abbrev pub AllSame : List OwnerIdentity → Type 0
AllSame [] = Unit
AllSame (o ∷ os) = All (λ p. same_identity o p ≡ true) os × AllSame os

Held-AllSame :
    (q : Option Fields) (os : List OwnerIdentity) → IsOwner q → All (Held q) os → AllSame os
Held-AllSame q [] h held = tt
Held-AllSame q (o ∷ os) h held = (others os held.1, Held-AllSame q os h held.1)
  where
    others : (ps : List OwnerIdentity) → All (Held q) ps → All (λ p. same_identity o p ≡ true) ps
    others [] hs = tt
    others (p ∷ ps) hs =
        let (r, e, m) = Held-some q o held.0 in
        (
          same_identity-of-matches r o p (IsOwner-IsEntry q r e h) m (subst (λ x. Held x p) e hs.0),
          others ps hs.1,
        )

-- In every history that starts with a queue in order and no holder, any two callers that were
-- granted the launch, have not released it, and were alive at every round since, are one.
pub mutual_exclusion :
    (file : File) (st : QueueState) {w : World}
    → Holds file st
    → Reach (record { file = file; holders = [] }) w
    → AllSame w.holders
mutual_exclusion file st {w} h r =
    let (q, hq, held) = Reach-Inv (st, h, tt) r in
    Held-AllSame q.owner w.holders hq.order.owned held
