-- ===== src/Opener/Release.antt =====
-- What a release does to the launch queue (bin/workspace_harbor_opener_queue.py).
use serena_workspace_orchest.Prelude.{
  ◌≡◌, ◌≤◌, refl, false, ◌||◌, none, List, [], ◌∷◌, not, length, ◌==◌, if◌then◌else◌, arith,
  Bool-cases, inl, inr, subst,
}
use serena_workspace_orchest.Prelude.Results.{ok-injective, ok}
use serena_workspace_orchest.Json.{Fields}
use serena_workspace_orchest.Opener.Files.{File}
use serena_workspace_orchest.Opener.Owner.{OwnerIdentity}
use serena_workspace_orchest.Opener.State.{QueueState, encode}
use serena_workspace_orchest.Opener.Launch.{owns, find_match, without, release, release_launch}
use serena_workspace_orchest.Opener.Turns.{release-IsQueue}
use serena_workspace_orchest.Opener.Moves.{Holds, Holds-write_queue}

length-without-le :
    (owner : OwnerIdentity) (rs : List Fields) → length (without owner rs) ≤ length rs
unfolding without
length-without-le owner [] = omega arith
length-without-le owner (r ∷ rs) = ground (arith, length-without-le owner rs)

without_same :
    (owner : OwnerIdentity) (rs : List Fields)
    → length (without owner rs) ≡ length rs
    → without owner rs ≡ rs
unfolding without
without_same owner [] h = refl
without_same owner (r ∷ rs) h = ground (arith, length-without-le owner rs, without_same owner rs)

find_match-without :
    (owner : OwnerIdentity) (rs : List Fields) → find_match (without owner rs) owner ≡ none
unfolding find_match without
find_match-without owner [] = refl
find_match-without owner (r ∷ rs) = ground (arith, find_match-without owner rs)

-- A release clears the turn if the caller has it, takes the caller's records from the line, and
-- leaves the rest as it was, in order.
pub release_launch_lem :
    (owner : OwnerIdentity) (file file' : File) (st : QueueState)
    → Holds file st
    → release_launch owner file ≡ ok file'
    → (q : QueueState) × Holds file' q
      × (q.owner ≡ (if owns st.owner owner then none else st.owner))
      × (q.waiting ≡ without owner st.waiting)
unfolding release_launch release
release_launch_lem owner file file' st h e =
    elim (Bool-cases
      (owns st.owner owner || not (length (without owner st.waiting) == length st.waiting))) [
        | inl changed ↦
            subst
              (λ f.
                (q : QueueState) × Holds f q
                × (q.owner ≡ (if owns st.owner owner then none else st.owner))
                × (q.waiting ≡ without owner st.waiting))
              (rw changed at (ok-injective (rw (h.loads) at e)))
              (
                record (release owner st) { others = encode (release owner st) },
                Holds-write_queue (release owner st) (release-IsQueue owner st h.order),
                refl,
                refl,
              )
        | inr same ↦
            subst
              (λ f.
                (q : QueueState) × Holds f q
                × (q.owner ≡ (if owns st.owner owner then none else st.owner))
                × (q.waiting ≡ without owner st.waiting))
              (rw same at (ok-injective (rw (h.loads) at e)))
              (st, h, ground arith, ground (arith, without_same owner st.waiting))
      ]

-- After its release the caller neither has the turn nor stands in the line.
pub released_owns_nothing :
    (owner : OwnerIdentity) (file file' : File) (st : QueueState)
    → Holds file st
    → release_launch owner file ≡ ok file'
    → (q : QueueState) × Holds file' q
      × (owns q.owner owner ≡ false)
      × (find_match q.waiting owner ≡ none)
unfolding owns
released_owns_nothing owner file file' st h e =
    let (q, hq, o, w) = release_launch_lem owner file file' st h e in
    (q, hq, ground arith, ground (arith, find_match-without owner st.waiting))
