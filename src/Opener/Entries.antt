-- ===== src/Opener/Entries.antt =====
-- The entries of the launch queue through pruning, joining and promotion
-- (bin/workspace_harbor_opener_queue.py).
use serena_workspace_orchest.Prelude.{
  ℕ, suc, ◌+◌, ◌≡◌, refl, Bool, true, false, ◌≤◌, ◌<◌, Option, none, some, List, [], ◌∷◌, ◌++◌,
  String, All, arith, Option-cases, inl, inr, subst, All-append, List-cases, zero,
}
use serena_workspace_orchest.Prelude.Results.{Result-cases, ok_of_bind, ok}
use serena_workspace_orchest.Prelude.Strings.{str_eq, is_empty}
use serena_workspace_orchest.Json.{Value, str, Fields, get, put, get-put}
use serena_workspace_orchest.Opener.Owner.{
  OwnerIdentity, Probe, record_identity, record_is_live, text_at, pid_at, is_positive,
}
use serena_workspace_orchest.Opener.State.{
  QueueState, sequence_at, check_phase, root_is_valid, is_absolute, prune_waiting, prune_owner,
  prune_dead_queue_entries, time_is_valid,
}
use serena_workspace_orchest.Opener.Launch.{join_queue, queue_entry, promote, find_match}
use serena_workspace_orchest.Opener.Order.{
  IsEntry, IsOwner, IsQueue, Ascending, Ascending-lower, Ascending-bound, floor, number,
}

-- The caller, as `validate_owner` lets it pass, and its root, which `resolve` makes absolute.
pub record IsCaller (root : String) (owner : OwnerIdentity) : Type 0 where
  pub absolute : is_absolute root ≡ true
  pub request_id : is_empty owner.request_id ≡ false
  pub pid : is_positive owner.pid ≡ true
  pub process_started : is_empty owner.process_started ≡ false
  pub command_token : is_empty owner.command_token ≡ false

text_at-put :
    (k j : String) (v : Value) (d : Fields)
    → str_eq k j ≡ false
    → text_at j (put k v d) ≡ text_at j d
unfolding text_at
text_at-put k j v d h = ground (arith, get-put k j v d)

pid_at-put :
    (k j : String) (v : Value) (d : Fields) → str_eq k j ≡ false → pid_at j (put k v d) ≡ pid_at j d
unfolding pid_at
pid_at-put k j v d h = ground (arith, get-put k j v d)

sequence_at-put :
    (k j : String) (v : Value) (d : Fields)
    → str_eq k j ≡ false
    → sequence_at j (put k v d) ≡ sequence_at j d
unfolding sequence_at
sequence_at-put k j v d h = ground (arith, get-put k j v d)

-- A record whose phase is set keeps its identity and its number.
record_identity-put_phase :
    (v : Value) (r : Fields) (phase : String)
    → record_identity (put "phase" v r) phase ≡ record_identity r phase
unfolding record_identity
record_identity-put_phase v r phase = rw (
  text_at-put "phase" "request_id" v r refl,
  pid_at-put "phase" "pid" v r refl,
  text_at-put "phase" "process_started" v r refl,
  text_at-put "phase" "command_token" v r refl,
)

launching-IsEntry : (r : Fields) → IsEntry r → IsEntry (put "phase" (str "launching") r)
unfolding check_phase
launching-IsEntry r h = record {
  identity = h.identity;
  identified = rw record_identity-put_phase h.identified;
  rooted = rw get-put h.rooted;
  timed = rw get-put h.timed;
  phased = rw get-put refl;
}

pub queue_entry-IsEntry :
    (root : String) (owner : OwnerIdentity) (sequence now : ℕ)
    → IsCaller root owner
    → IsEntry (queue_entry root owner sequence now)
unfolding queue_entry record_identity get root_is_valid check_phase time_is_valid
queue_entry-IsEntry root owner sequence now h = record {
  identity = owner;
  identified = ground (arith, h.request_id, h.pid, h.process_started, h.command_token);
  rooted = h.absolute;
  timed = refl;
  phased = refl;
}

prune_waiting-ordered :
    (probe : Probe) (rs kept : List Fields) (changed : Bool) (low high : ℕ)
    → prune_waiting probe rs ≡ ok (kept, changed)
    → All IsEntry rs
    → Ascending low rs high
    → All IsEntry kept × Ascending low kept high
unfolding prune_waiting
prune_waiting-ordered probe [] kept changed low high e es a = ground arith
prune_waiting-ordered probe (r ∷ rs) kept changed low high e es a =
    elim (Result-cases (record_is_live probe r "queue-state")) [
      | inr (f, dead) ↦ absurd (ground arith)
      | inl (live, l) ↦ elim (Result-cases (prune_waiting probe rs)) [
        | inr (f, dead) ↦ absurd (ground arith)
        | inl ((rest, more), p) ↦
            let ih = prune_waiting-ordered probe rs rest more (number r) high p es.1 a.2 in
            ground (arith, ih, Ascending-lower low (number r) high rest)
      ]
    ]

prune_owner-IsOwner :
    (probe : Probe) (o o' : Option Fields) (changed : Bool)
    → prune_owner probe o ≡ ok (o', changed)
    → IsOwner o
    → IsOwner o' × (floor o' ≤ floor o)
unfolding prune_owner
prune_owner-IsOwner probe none o' changed e h = ground arith
prune_owner-IsOwner probe (some r) o' changed e h = ground arith

pub prune-IsQueue :
    (probe : Probe) (st st' : QueueState) (changed : Bool)
    → prune_dead_queue_entries probe st ≡ ok (st', changed)
    → IsQueue st
    → IsQueue st'
unfolding prune_dead_queue_entries
prune-IsQueue probe st st' changed e h =
    let ((owner, dropped), po, rest) = ok_of_bind (prune_owner probe st.owner) _ e in
    let ((waiting, thinned), pw, last) = ok_of_bind (prune_waiting probe st.waiting) _ rest in
    let o = prune_owner-IsOwner probe st.owner owner dropped po h.owned in
    let w =
      prune_waiting-ordered probe st.waiting waiting thinned (floor st.owner) st.next_sequence pw
        h.entries h.ordered in
    let same : record st { owner = owner; waiting = waiting } ≡ st' = ground arith in
    subst IsQueue same (record {
      version = h.version;
      owned = o.0;
      entries = w.0;
      ordered = Ascending-lower (floor owner) (floor st.owner) st.next_sequence waiting o.1 w.1;
    })

Ascending-snoc :
    (low high : ℕ) (rs : List Fields) (r : Fields)
    → sequence_at "sequence" r ≡ some high
    → Ascending low rs high
    → Ascending low (rs ++ r ∷ []) (high + 1)
Ascending-snoc low high [] r s a = ground arith
Ascending-snoc low high (q ∷ rs) r s a = (a.0, a.1, Ascending-snoc (number q) high rs r s a.2)

queue_entry-sequence :
    (root : String) (owner : OwnerIdentity) (sequence now : ℕ)
    → 0 < sequence
    → sequence_at "sequence" (queue_entry root owner sequence now) ≡ some sequence
unfolding queue_entry get sequence_at
queue_entry-sequence root owner zero now h = elim h [ ]
queue_entry-sequence root owner (suc s) now h = refl

pub join_queue-IsQueue :
    (root : String) (owner : OwnerIdentity) (now : ℕ) (st st' : QueueState) (joined : Bool)
    → IsCaller root owner
    → join_queue root owner now st ≡ ok (st', joined)
    → IsQueue st
    → IsQueue st'
unfolding join_queue
join_queue-IsQueue root owner now st st' joined c e h =
    elim (Option-cases (find_match st.waiting owner)) [
      | inl new ↦
          let entry = queue_entry root owner st.next_sequence now in
          let same : record st {
            next_sequence = st.next_sequence + 1;
            waiting = st.waiting ++ entry ∷ [];
          }
              ≡ st' =
            ground arith in
          subst IsQueue same (record {
            version = h.version;
            owned = h.owned;
            entries =
                All-append IsEntry st.waiting (entry ∷ [])
                  (h.entries, (queue_entry-IsEntry root owner st.next_sequence now c, tt));
            ordered =
                Ascending-snoc (floor st.owner) st.next_sequence st.waiting entry
                  (queue_entry-sequence root owner st.next_sequence now (
                    ground (
                      arith,
                      Ascending-bound (floor st.owner) st.next_sequence st.waiting h.ordered,
                    )))
                  h.ordered;
          })
      | inr (r, found) ↦ let same : st ≡ st' = ground arith in subst IsQueue same h
    ]

pub promote-IsQueue : (st : QueueState) → st.owner ≡ none → IsQueue st → IsQueue (promote st)
unfolding promote
promote-IsQueue st free h = elim (List-cases st.waiting) [
  | inl e ↦ let same : st ≡ promote st = ground arith in subst IsQueue same h
  | inr (r, rs, e) ↦
      let head = put "phase" (str "launching") r in
      let same : record st { owner = some head; waiting = rs } ≡ promote st = ground arith in
      let entries = subst (All IsEntry) e h.entries in
      let ordered = subst (λ ws. Ascending (floor st.owner) ws st.next_sequence) e h.ordered in
      let numbered = sequence_at-put "phase" "sequence" (str "launching") r refl in
      subst IsQueue same (record {
        version = h.version;
        owned = (
          launching-IsEntry r entries.0,
          ground (arith, numbered, ordered),
          ground (arith, numbered, ordered),
        );
        entries = entries.1;
        ordered = ground (arith, numbered, ordered);
      })
]
