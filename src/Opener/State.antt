-- ===== src/Opener/State.antt =====
-- bin/workspace_harbor_opener_queue.py: the state of the launch queue, read with its validation
-- and written back.
use serena_workspace_orchest.Prelude.{
  ℕ, Bool, true, false, ◌&&◌, ◌||◌, Option, none, some, List, [], ◌∷◌, ◌++◌, String, not, ◌==◌, leb,
  if◌then◌else◌, any,
}
use serena_workspace_orchest.Prelude.Int.{pos, positive}
use serena_workspace_orchest.Prelude.Results.{Result, ok, err, ◌>>=◌, ◌>>◌, or_raise, raise_if}
use serena_workspace_orchest.Prelude.Strings.{codes, has_prefix, str_eq}
use serena_workspace_orchest.Json.{
  Value, null, int, arr, obj, str, Fields, end, get, put, as_int, holds_int, is_number, dicts,
  items,
}
use serena_workspace_orchest.Opener.Process.{Failure, coordination, uncaught}
use serena_workspace_orchest.Opener.Files.{File, load_json, atomic_json_write}
use serena_workspace_orchest.Opener.Owner.{Probe, record_identity, record_is_live}

-- `others` is the whole dictionary that was read; what is written replaces three of its keys.
pub record QueueState : Type 0 where
  pub next_sequence : ℕ
  pub owner : Option Fields
  pub waiting : List Fields
  pub others : Fields

abbrev pub malformed : Failure
malformed = coordination "queue-state" "queue state is malformed"

abbrev pub malformed_entry : Failure
malformed_entry = coordination "queue-state" "queue entry is malformed"

unfoldable pub fresh_queue : QueueState
fresh_queue = record {
  next_sequence = 1;
  owner = none;
  waiting = [];
  others = put "version" (int (pos 1)) end;
}

-- `isinstance(v, int) and v >= 1` under a key
unfoldable pub sequence_at : String → Fields → Option ℕ
sequence_at k d = elim (get k d) [
  | none ↦ none
  | some v ↦ elim (as_int v) [ none ↦ none | some n ↦ positive n ]
]

-- `state.get("owner") is None`, or a dictionary
unfoldable pub owner_at : Fields → Option (Option Fields)
owner_at d = elim (get "owner" d) [
  | none ↦ some none
  | some null ↦ some none
  | some (obj r) ↦ some (some r)
  | some _ ↦ none
]

unfoldable pub waiting_at : Fields → Option (List Fields)
unfolding dicts
waiting_at d = elim (get "waiting" d) [ none ↦ none | some (arr vs) ↦ dicts vs | some _ ↦ none ]

unfoldable pub is_absolute : String → Bool
unfolding has_prefix
is_absolute path = has_prefix (b'/' ∷ []) (codes path)

-- `phase not in {"queued", "launching"}`: a list or a dictionary has no hash.
unfoldable pub check_phase : Option Value → Result Failure (Unit {0})
check_phase (some (str phase)) =
    raise_if (not (str_eq phase "queued" || str_eq phase "launching")) malformed_entry
check_phase (some (arr vs)) = err (uncaught "TypeError")
check_phase (some (obj d)) = err (uncaught "TypeError")
check_phase _ = err malformed_entry

unfoldable pub root_is_valid : Option Value → Bool
unfolding is_absolute
root_is_valid (some (str path)) = is_absolute path
root_is_valid _ = false

unfoldable pub time_is_valid : Option Value → Bool
time_is_valid none = false
time_is_valid (some v) = is_number v

-- One round of the loop over the records: the sequence number, which none before it has.
unfoldable pub check_entry : List ℕ → Fields → Result Failure ℕ
unfolding sequence_at check_phase root_is_valid time_is_valid
check_entry sequences r = do
  identity ← record_identity r "queue-state"
  sequence ← or_raise (sequence_at "sequence" r) malformed_entry
  raise_if (any (λ s. s == sequence) sequences) malformed_entry
  raise_if (not (root_is_valid (get "project_root" r))) malformed_entry
  raise_if (not (time_is_valid (get "enqueued_at" r))) malformed_entry
  check_phase (get "phase" r)
  ok sequence

-- The sequence numbers of the records, in their order.
unfoldable pub check_entries : List ℕ → List Fields → Result Failure (List ℕ)
unfolding check_entry
check_entries sequences [] = ok []
check_entries sequences (r ∷ rs) = do
  sequence ← check_entry sequences r
  rest ← check_entries (sequence ∷ sequences) rs
  ok (sequence ∷ rest)

abbrev pub owner_list : Option Fields → List Fields
owner_list none = []
owner_list (some r) = r ∷ []

-- `waiting_sequences == sorted(waiting_sequences)`
unfoldable pub is_sorted : List ℕ → Bool
is_sorted [] = true
is_sorted (x ∷ []) = true
is_sorted (x ∷ y ∷ ys) = leb x y && is_sorted (y ∷ ys)

-- `sequences` holds the owner's number first, if there is an owner.
unfoldable pub waiting_sequences : Option Fields → List ℕ → List ℕ
waiting_sequences none sequences = sequences
waiting_sequences (some r) [] = []
waiting_sequences (some r) (s ∷ sequences) = sequences

-- The checks on a dictionary that was read. `state["owner"]` fails if the key is missing.
unfoldable pub decode : Fields → Result Failure QueueState
unfolding sequence_at owner_at waiting_at check_entries is_sorted waiting_sequences
decode d = do
  raise_if (not (holds_int "version" d (pos 1))) malformed
  next ← or_raise (sequence_at "next_sequence" d) malformed
  owner ← or_raise (owner_at d) malformed
  waiting ← or_raise (waiting_at d) malformed
  present ← or_raise (get "owner" d) (uncaught "KeyError")
  sequences ← check_entries [] (owner_list owner ++ waiting)
  raise_if (not (is_sorted (waiting_sequences owner sequences)))
      (coordination "queue-state" "queue order is malformed")
  ok (record { next_sequence = next; owner = owner; waiting = waiting; others = d })

-- `_load_queue_state`
unfoldable pub load_queue_state : File → Result Failure QueueState
unfolding decode
load_queue_state file = do
  loaded ← load_json file "queue-state"
  elim loaded [ none ↦ ok fresh_queue | some d ↦ decode d ]

abbrev pub owner_value : Option Fields → Value
owner_value none = null
owner_value (some r) = obj r

-- The dictionary that is written.
unfoldable pub encode : QueueState → Fields
unfolding items
encode st = put "waiting" (arr (items st.waiting)) (
    put "owner" (owner_value st.owner) (put "next_sequence" (int (pos st.next_sequence)) st.others))

unfoldable pub write_queue : QueueState → File
unfolding encode atomic_json_write
write_queue st = atomic_json_write (encode st)

-- The live records of the waiting list, and whether one was dropped.
unfoldable pub prune_waiting : Probe → List Fields → Result Failure (List Fields × Bool)
prune_waiting probe [] = ok ([], false)
prune_waiting probe (r ∷ rs) = do
  live ← record_is_live probe r "queue-state"
  (kept, changed) ← prune_waiting probe rs
  ok (if live then (r ∷ kept, changed) else (kept, true))

unfoldable pub prune_owner : Probe → Option Fields → Result Failure (Option Fields × Bool)
prune_owner probe none = ok (none, false)
prune_owner probe (some r) = do
  live ← record_is_live probe r "queue-state"
  ok (if live then (some r, false) else (none, true))

-- `_prune_dead_queue_entries`
unfoldable pub prune_dead_queue_entries : Probe → QueueState → Result Failure (QueueState × Bool)
unfolding prune_owner prune_waiting
prune_dead_queue_entries probe st = do
  (owner, dropped) ← prune_owner probe st.owner
  (waiting, thinned) ← prune_waiting probe st.waiting
  ok (record st { owner = owner; waiting = waiting }, dropped || thinned)
