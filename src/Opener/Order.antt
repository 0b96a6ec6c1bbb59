-- ===== src/Opener/Order.antt =====
-- The invariant of the launch queue (bin/workspace_harbor_opener_queue.py): its records are
-- complete, and their sequence numbers rise from the owner through the waiting list to the next.
use serena_workspace_orchest.Prelude.{
  ℕ, ◌≡◌, refl, true, false, ◌≤◌, ◌<◌, Option, none, some, List, [], ◌∷◌, ◌==◌, any, map, All,
  arith, Option-cases, inl, inr, ◌++◌,
}
use serena_workspace_orchest.Prelude.Int.{pos}
use serena_workspace_orchest.Prelude.Results.{ok}
use serena_workspace_orchest.Json.{Fields, get, holds_int, get-put, dicts-items, arr, int, items}
use serena_workspace_orchest.Opener.Owner.{OwnerIdentity, record_identity}
use serena_workspace_orchest.Opener.Files.{File, load_json-atomic_json_write}
use serena_workspace_orchest.Opener.State.{
  QueueState, sequence_at, check_phase, root_is_valid, time_is_valid, check_entry, check_entries,
  is_sorted, decode, encode, owner_at, waiting_at, owner_value, load_queue_state, waiting_sequences,
  owner_list, write_queue,
}

-- What `check_entry` asks of a record, its number apart.
pub record IsEntry (r : Fields) : Type 0 where
  pub identity : OwnerIdentity
  pub identified : record_identity r "queue-state" ≡ ok identity
  pub rooted : root_is_valid (get "project_root" r) ≡ true
  pub timed : time_is_valid (get "enqueued_at" r) ≡ true
  pub phased : check_phase (get "phase" r) ≡ ok tt

-- The sequence number of a record, 0 if it has none.
abbrev pub number : Fields → ℕ
number r = elim (sequence_at "sequence" r) [ none ↦ 0 | some s ↦ s ]

abbrev pub numbers : List Fields → List ℕ
numbers = map number

-- The numbers rise strictly, above `low` and below `high`.
abbrev pub Ascending : ℕ → List Fields → ℕ → Type 0
Ascending low [] high = low < high
Ascending low (r ∷ rs) high =
    (sequence_at "sequence" r ≡ some (number r)) × (low < number r) × Ascending (number r) rs high

abbrev pub IsOwner : Option Fields → Type 0
IsOwner none = Unit
IsOwner (some r) = IsEntry r × (sequence_at "sequence" r ≡ some (number r)) × (0 < number r)

abbrev pub floor : Option Fields → ℕ
floor none = 0
floor (some r) = number r

pub record IsQueue (st : QueueState) : Type 0 where
  pub version : holds_int "version" st.others (pos 1) ≡ true
  pub owned : IsOwner st.owner
  pub entries : All IsEntry st.waiting
  pub ordered : Ascending (floor st.owner) st.waiting st.next_sequence

pub Ascending-lower :
    (low low' high : ℕ) (rs : List Fields)
    → low ≤ low'
    → Ascending low' rs high
    → Ascending low rs high
Ascending-lower low low' high [] h a = omega arith
Ascending-lower low low' high (r ∷ rs) h a = (a.0, omega arith, a.2)

pub Ascending-bound : (low high : ℕ) (rs : List Fields) → Ascending low rs high → low < high
Ascending-bound low high [] a = a
Ascending-bound low high (r ∷ rs) a = omega (arith, Ascending-bound (number r) high rs a.2)

any_fresh :
    (n low : ℕ) (seen : List ℕ) → All (λ s. s ≤ low) seen → low < n → any (λ s. s == n) seen ≡ false
any_fresh n low [] h lt = refl
any_fresh n low (s ∷ seen) h lt = ground (arith, any_fresh n low seen h.1 lt)

All-weaken :
    (low low' : ℕ) (seen : List ℕ) → All (λ s. s ≤ low) seen → low ≤ low' → All (λ s. s ≤ low') seen
All-weaken low low' [] h le = tt
All-weaken low low' (s ∷ seen) h le = (omega arith, All-weaken low low' seen h.1 le)

check_entry-IsEntry :
    (low n : ℕ) (seen : List ℕ) (r : Fields)
    → All (λ s. s ≤ low) seen
    → IsEntry r
    → sequence_at "sequence" r ≡ some n
    → low < n
    → check_entry seen r ≡ ok n
unfolding check_entry
check_entry-IsEntry low n seen r h e s lt =
    rw (e.identified, s, any_fresh n low seen h lt, e.rooted, e.timed, e.phased)

check_entries-Ascending :
    (low high : ℕ) (seen : List ℕ) (rs : List Fields)
    → All (λ s. s ≤ low) seen
    → All IsEntry rs
    → Ascending low rs high
    → check_entries seen rs ≡ ok (numbers rs)
unfolding check_entries
check_entries-Ascending low high seen [] h es a = refl
check_entries-Ascending low high seen (r ∷ rs) h es a = rw (
  check_entry-IsEntry low (number r) seen r h es.0 a.0 a.1,
  check_entries-Ascending (number r) high (number r ∷ seen) rs
      (omega arith, All-weaken low (number r) seen h (omega arith)) es.1 a.2,
)

is_sorted-numbers :
    (low high : ℕ) (rs : List Fields) → Ascending low rs high → is_sorted (numbers rs) ≡ true
unfolding is_sorted
is_sorted-numbers low high [] a = refl
is_sorted-numbers low high (r ∷ []) a = refl
is_sorted-numbers low high (r ∷ q ∷ rs) a =
    ground (arith, is_sorted-numbers (number r) high (q ∷ rs) a.2)

check_records :
    (owner : Option Fields) (waiting : List Fields) (high : ℕ)
    → IsOwner owner
    → All IsEntry waiting
    → Ascending (floor owner) waiting high
    → (check_entries [] (owner_list owner ++ waiting) ≡ ok (numbers (owner_list owner ++ waiting)))
      × (is_sorted (waiting_sequences owner (numbers (owner_list owner ++ waiting))) ≡ true)
unfolding waiting_sequences
check_records none waiting high o es a =
    (check_entries-Ascending 0 high [] waiting tt es a, is_sorted-numbers 0 high waiting a)
check_records (some r) waiting high o es a = (
  check_entries-Ascending 0 high [] (r ∷ waiting) tt (o.0, es) (o.1, o.2, a),
  is_sorted-numbers (number r) high waiting a,
)

module _ (st : QueueState) where
  get-encode_owner : get "owner" (encode st) ≡ some (owner_value st.owner)
  unfolding encode
  get-encode_owner = simp get-put

  get-encode_waiting : get "waiting" (encode st) ≡ some (arr (items st.waiting))
  unfolding encode
  get-encode_waiting = simp get-put

  get-encode_version : get "version" (encode st) ≡ get "version" st.others
  unfolding encode
  get-encode_version = simp get-put

  get-encode_next_sequence : get "next_sequence" (encode st) ≡ some (int (pos st.next_sequence))
  unfolding encode
  get-encode_next_sequence = simp get-put

  owner_at-encode : owner_at (encode st) ≡ some st.owner
  unfolding owner_at
  owner_at-encode = elim (Option-cases st.owner) [
    | inl e ↦ rw (get-encode_owner, owner_at) (rw (e, owner_value))
    | inr (r, e) ↦ rw (get-encode_owner, owner_at) (rw (e, owner_value))
  ]

  waiting_at-encode : waiting_at (encode st) ≡ some st.waiting
  unfolding waiting_at
  waiting_at-encode = rw (get-encode_waiting, waiting_at) (dicts-items st.waiting)

  version-encode : IsQueue st → holds_int "version" (encode st) (pos 1) ≡ true
  version-encode h = rw (get-encode_version, holds_int) h.version

  next_sequence-encode :
      0 < st.next_sequence → sequence_at "next_sequence" (encode st) ≡ some st.next_sequence
  unfolding sequence_at
  next_sequence-encode h = rw (get-encode_next_sequence, sequence_at) (ground arith)

  -- What is written by a queue in order is accepted by the next load, and read as the same queue.
  pub decode-encode : IsQueue st → decode (encode st) ≡ ok (record st { others = encode st })
  unfolding decode
  decode-encode h =
      let (checked, sorted) =
        check_records st.owner st.waiting st.next_sequence h.owned h.entries h.ordered in
      ground (
        arith,
        version-encode h,
        next_sequence-encode (
            ground (arith, Ascending-bound (floor st.owner) st.next_sequence st.waiting h.ordered)),
        owner_at-encode,
        waiting_at-encode,
        get-encode_owner,
        checked,
        sorted,
      )

  pub load-write_queue :
      IsQueue st → load_queue_state (write_queue st) ≡ ok (record st { others = encode st })
  unfolding load_queue_state write_queue
  load-write_queue h = rw (load_json-atomic_json_write (encode st) "queue-state") (decode-encode h)

  pub encode-IsQueue : IsQueue st → IsQueue (record st { others = encode st })
  encode-IsQueue h = record {
    version = version-encode h;
    owned = h.owned;
    entries = h.entries;
    ordered = h.ordered;
  }

-- The file holds no queue yet, or one in order.
abbrev pub IsQueueFile : File → Type 0
IsQueueFile file = (st : QueueState) × (load_queue_state file ≡ ok st) × IsQueue st
