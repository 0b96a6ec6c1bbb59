-- ===== src/Opener/Released.antt =====
-- What `release-all` leaves in the state directory (bin/workspace_harbor_opener_queue.py).
use serena_workspace_orchest.Prelude.{
  All, ◌∙◌, ◌≡◌, refl, sym, ap, subst, inl, inr, Bool, false, Option, none, some, List, [], ◌∷◌,
  Bool-cases, Option-cases,
}
use serena_workspace_orchest.Prelude.Results.{
  Result, ok, err, Result-cases, ok_of_bind, ok_of_then, ok-injective,
}
use serena_workspace_orchest.Opener.Process.{Failure}
use serena_workspace_orchest.Opener.Files.{File, absent, present, load_json, advisory_lock}
use serena_workspace_orchest.Opener.Owner.{OwnerIdentity, matches}
use serena_workspace_orchest.Opener.State.{QueueState}
use serena_workspace_orchest.Opener.Launch.{owns, find_match, release_launch}
use serena_workspace_orchest.Opener.Operation.{release_operation}
use serena_workspace_orchest.Opener.Moves.{Holds}
use serena_workspace_orchest.Opener.Release.{released_owns_nothing}
use serena_workspace_orchest.Opener.CommandLine.{
  Entry, StateDir, Setting, Answer, Executed, execute, run_command, release_all, check_coordinator,
  release_queue, release_entry, release_entries, release_everything, and_released, release_next,
  release_rest, all_released, with_operations,
}

-- The file holds the caller's record.
unfoldable pub has_record : OwnerIdentity → File → Bool
unfolding load_json matches
has_record owner file = elim (load_json file "operation-state") [
  | err e ↦ false
  | ok found ↦ elim found [ none ↦ false | some r ↦ matches r owner ]
]

release_operation-has_record :
    (owner : OwnerIdentity) (file left : File)
    → release_operation owner file ≡ ok left
    → has_record owner left ≡ false
unfolding release_operation has_record
release_operation-has_record owner file left h =
    let (found, l, last) = ok_of_bind (load_json file "operation-state") _ h in
    elim (Option-cases found) [
      | inl e ↦
          let same : file ≡ left = ok-injective (rw (e) at last) in
          subst (λ f. has_record owner f ≡ false) same (rw (has_record, l, e) refl)
      | inr (r, e) ↦ elim (Bool-cases (matches r owner)) [
        | inl m ↦ subst (λ f. has_record owner f ≡ false) (ok-injective (rw (e, m) at last)) refl
        | inr m ↦
            let same : file ≡ left = ok-injective (rw (e, m) at last) in
            subst (λ f. has_record owner f ≡ false) same (rw (has_record, l, e, m) refl)
      ]
    ]

release_entry-has_record :
    (owner : OwnerIdentity) (entry left : Entry)
    → release_entry owner entry ≡ ok left
    → has_record owner left.file ≡ false
unfolding release_entry
release_entry-has_record owner entry left h =
    let (locked, rest) = ok_of_then (advisory_lock entry.place) _ h in
    let (file, f, last) = ok_of_bind (release_operation owner entry.file) _ rest in
    subst (λ (e : Entry). has_record owner e.file ≡ false) (ok-injective last)
      (release_operation-has_record owner entry.file file f)

-- No entry holds a record of the caller.
unfoldable pub AreReleased : OwnerIdentity → List Entry → Type 0
AreReleased owner entries = All (λ (e : Entry). has_record owner e.file ≡ false) entries

and_released-AreReleased :
    (owner : OwnerIdentity) (entry : Entry) (entries : List Entry)
    (rest : Result Failure (Unit {0}) × List Entry) (r : Result Failure Entry) {u : Unit {0}}
    → ((left : Entry) → r ≡ ok left → has_record owner left.file ≡ false)
    → (rest.0 ≡ ok u → AreReleased owner rest.1)
    → (and_released entry entries rest r).0 ≡ ok u
    → AreReleased owner (and_released entry entries rest r).1
unfolding AreReleased
and_released-AreReleased owner entry entries rest (err e) here later h = cc
and_released-AreReleased owner entry entries rest (ok left) here later h = (here left refl, later h)

release_next-AreReleased :
    (owner : OwnerIdentity) (entry : Entry) (entries : List Entry)
    (rest : Result Failure (Unit {0}) × List Entry) (file : File) {u : Unit {0}}
    → entry.file ≡ file
    → (rest.0 ≡ ok u → AreReleased owner rest.1)
    → (release_next owner entry entries rest file).0 ≡ ok u
    → AreReleased owner (release_next owner entry entries rest file).1
unfolding has_record
release_next-AreReleased owner entry entries rest absent e later h =
    and_released-AreReleased owner entry entries rest (ok entry)
      (λ left same.
        subst (λ (x : Entry). has_record owner x.file ≡ false) (ok-injective same)
          (subst (λ f. has_record owner f ≡ false) (sym e) refl))
      later h
release_next-AreReleased owner entry entries rest (present info contents) e later h =
    and_released-AreReleased owner entry entries rest (release_entry owner entry)
      (release_entry-has_record owner entry) later h

release_entries-AreReleased :
    (owner : OwnerIdentity) (entries : List Entry) {u : Unit {0}}
    → (release_entries owner entries).0 ≡ ok u
    → AreReleased owner (release_entries owner entries).1
unfolding release_entries AreReleased
release_entries-AreReleased owner [] h = tt
release_entries-AreReleased owner (entry ∷ entries) h =
    release_next-AreReleased owner entry entries (release_entries owner entries) entry.file refl
      (release_entries-AreReleased owner entries) h

-- What is left of a caller that has released everything: it neither has the turn at the launch nor
-- stands in the line, and no operation is its own.
pub record IsReleased (owner : OwnerIdentity) (dir : StateDir) : Type 0 where
  pub queue : QueueState
  pub is_queue : Holds dir.queue queue
  pub has_no_turn : owns queue.owner owner ≡ false
  pub is_not_waiting : find_match queue.waiting owner ≡ none
  pub has_no_operation : AreReleased owner dir.operations

rest-IsReleased :
    (owner : OwnerIdentity) (dir left dir' : StateDir) (st : QueueState) (answer : Answer)
    → Holds dir.queue st
    → release_queue owner dir ≡ ok left
    → release_rest owner dir (ok left) ≡ (some (ok answer), dir')
    → IsReleased owner dir'
unfolding release_queue
rest-IsReleased owner dir left dir' st answer h e last =
    let (locked, rest) = ok_of_then (advisory_lock dir.place) _ e in
    let (queue, f, same) = ok_of_bind (release_launch owner dir.queue) _ rest in
    let (q, hq, turn, waiting) = released_owns_nothing owner dir.queue queue st h f in
    let ended = release_entries owner left.operations in
    let found : dir' ≡ with_operations left ended.1 = sym (ap (λ (x : Executed). x.1) last) in
    let queue_left : dir'.queue ≡ queue =
      ap (λ (d : StateDir). d.queue) found
      ∙ sym (ap (λ (d : StateDir). d.queue) (ok-injective same)) in
    let operations_left : dir'.operations ≡ ended.1 = ap (λ (d : StateDir). d.operations) found in
    record {
      queue = q;
      is_queue = subst (λ f. Holds f q) (sym queue_left) hq;
      has_no_turn = turn;
      is_not_waiting = waiting;
      has_no_operation = subst (AreReleased owner) (sym operations_left) (
          release_entries-AreReleased owner left.operations
            (ended_well ended.0 (some_injective (ap (λ (x : Executed). x.0) last))));
    }
  where
    some_injective : {A : Type 0} {x y : A} → some x ≡ some y → x ≡ y
    some_injective h = cc

    ended_well : (r : Result Failure (Unit {0})) → all_released r ≡ ok answer → r ≡ ok tt
    ended_well (ok tt) h = refl
    ended_well (err failure) h = cc

everything-IsReleased :
    (owner : OwnerIdentity) (dir dir' : StateDir) (st : QueueState) (answer : Answer)
    (r : Result Failure StateDir)
    → Holds dir.queue st
    → release_queue owner dir ≡ r
    → release_rest owner dir r ≡ (some (ok answer), dir')
    → IsReleased owner dir'
everything-IsReleased owner dir dir' st answer (ok left) h f e =
    rest-IsReleased owner dir left dir' st answer h f e
everything-IsReleased owner dir dir' st answer (err failure) h f e =
    absurd (no_answer (ap (λ (x : Executed). x.0) e))
  where
    no_answer : ◌≡◌ {A = Option (Result Failure Answer)} (some (err failure)) (some (ok answer)) → ⊥
    no_answer h = cc

-- If `release-all` succeeds on a state directory whose queue is in order, nothing of the caller is
-- left: it neither has the turn at the launch nor stands in the line, and no operation of any
-- worktree is its own.
pub execute-IsReleased :
    (setting : Setting) (owner : OwnerIdentity) (dir dir' : StateDir) (st : QueueState)
    (answer : Answer)
    → Holds dir.queue st
    → execute setting owner release_all dir ≡ (some (ok answer), dir')
    → IsReleased owner dir'
unfolding execute run_command release_everything
execute-IsReleased setting owner dir dir' st answer h e =
    elim (Result-cases (check_coordinator setting dir)) [
      | inr (failure, f) ↦
          absurd (no_answer failure (ap (λ (x : Executed). x.0) (rw (execute, f) at e)))
      | inl (u, f) ↦
          everything-IsReleased owner dir dir' st answer (release_queue owner dir) h refl
            (rw (execute, f) at e)
    ]
  where
    no_answer :
        (failure : Failure)
        → ◌≡◌ {A = Option (Result Failure Answer)} (some (err failure)) (some (ok answer))
        → ⊥
    no_answer failure h = cc
