-- ===== src/Opener/Operation/Single.antt =====
-- One operation at a time for a worktree (bin/workspace_harbor_opener_queue.py).
use serena_workspace_orchest.Prelude.{
  ℕ, ◌≡◌, ◌↔◌, ◌⊎◌, Bool, true, false, Option, none, some, List, [], ◌∷◌, String, leb, arith,
  Bool-cases, inl, inr, any, subst, sym,
}
use serena_workspace_orchest.Prelude.Strings.{eq_refl}
use serena_workspace_orchest.Prelude.Int.{int_eq_iff}
use serena_workspace_orchest.Prelude.Results.{Result, ok, err, ok_of_bind}
use serena_workspace_orchest.Json.{Fields, holds_str, get}
use serena_workspace_orchest.Opener.Files.{File, absent, load_json, load_json-atomic_json_write}
use serena_workspace_orchest.Opener.Owner.{
  OwnerIdentity, Probe, owner_record, record_is_live, matches,
}
use serena_workspace_orchest.Opener.Launch.{Poll}
use serena_workspace_orchest.Opener.Operation.{
  OperationAttempt, acquired, waits, OperationProgress, done, running, is_vacant, join_operation,
  operation_round, after_operation_poll, operation_loop, release_operation, Failure, OperationGrant,
  claim_operation, coordination,
}

abbrev pub is_granted : OperationAttempt → Bool
is_granted (acquired grant) = true
is_granted waits = false

-- Nobody runs an operation on the worktree: there is no record, or its process is gone.
abbrev pub Vacant : Probe → Option Fields → Type 0
Vacant probe none = Unit
Vacant probe (some r) = record_is_live probe r "operation-state" ≡ ok false

-- The record is the caller's own.
abbrev pub Owned : Option Fields → OwnerIdentity → Type 0
Owned none owner = ⊥
Owned (some r) owner = matches r owner ≡ true

matches-owner_record :
    (root phase : String) (owner : OwnerIdentity)
    → matches (owner_record root owner phase) owner ≡ true
unfolding matches owner_record get
matches-owner_record root phase owner =
    ground (
      arith,
      eq_refl owner.request_id,
      eq_refl owner.process_started,
      int_eq_iff owner.pid owner.pid,
    )

is_vacant-Vacant :
    (probe : Probe) (found : Option Fields) (vacant : Bool)
    → is_vacant probe found ≡ ok vacant
    → (vacant ≡ true) ↔ Vacant probe found
unfolding is_vacant
is_vacant-Vacant probe none vacant e = ground arith
is_vacant-Vacant probe (some r) vacant e = ground arith

-- What a round that does not fail says and leaves.
abbrev pub Outcome : Type 0 → File → File → OwnerIdentity → OperationAttempt → Type 0
Outcome Claim file file' owner outcome =
    ((is_granted outcome ≡ true) ↔ Claim)
    × (is_granted outcome ≡ true
        → (r : Fields) × (load_json file' "operation-state" ≡ ok (some r))
          × (matches r owner ≡ true))
    × (is_granted outcome ≡ false → file' ≡ file)

module _ (root : String) (owner : OwnerIdentity) (grant : OperationGrant) (file : File) where
  claim_operation-Outcome :
      (found : Option Fields) (vacant : Bool) (file' : File) (outcome : OperationAttempt)
      → load_json file "operation-state" ≡ ok found
      → claim_operation root owner grant file found vacant ≡ ok (file', outcome)
      → Outcome ((vacant ≡ true) ⊎ Owned found owner) file file' owner outcome
  unfolding claim_operation join_operation
  claim_operation-Outcome found true file' outcome l e = (
    ground arith,
    λ g. (
      owner_record root owner "opening",
      subst (λ f. load_json f "operation-state" ≡ ok (some (owner_record root owner "opening")))
          (ground arith)
          (load_json-atomic_json_write (owner_record root owner "opening") "operation-state"),
      matches-owner_record root "opening" owner,
    ),
    λ g. absurd (ground arith),
  )
  claim_operation-Outcome none false file' outcome l e =
      (ground arith, λ g. absurd (ground arith), λ g. ground arith)
  claim_operation-Outcome (some r) false file' outcome l e =
      let same : file ≡ file' = ground arith in
      (
        ground arith,
        λ g. (r, subst (λ f. load_json f "operation-state" ≡ ok (some r)) same l, ground arith),
        λ g. sym same,
      )

-- The two outcomes: granted by the claim, with a record of the caller in the file, or not.
abbrev pub Settled : Type 0 → File → File → OwnerIdentity → OperationAttempt → Type 0
Settled Claim file file' owner outcome =
    ((is_granted outcome ≡ true)
      × Claim
      × ((r : Fields) × (load_json file' "operation-state" ≡ ok (some r))
          × (matches r owner ≡ true)))
    ⊎ ((is_granted outcome ≡ false) × (¬ Claim) × (file' ≡ file))

Outcome-Settled :
    (Claim : Type 0) (file file' : File) (owner : OwnerIdentity) (outcome : OperationAttempt)
    → Outcome Claim file file' owner outcome
    → Settled Claim file file' owner outcome
Outcome-Settled Claim file file' owner outcome (claimed, written, kept) =
    elim (Bool-cases (is_granted outcome)) [
      | inl g ↦ inl (g, claimed.0 g, written g)
      | inr w ↦ inr (w, (λ c. both_ways (claimed.1 c) w), kept w)
    ]
  where
    both_ways : is_granted outcome ≡ true → is_granted outcome ≡ false → ⊥
    both_ways g w = ground arith

-- A round that does not fail grants the operation exactly if nobody runs one or the caller does
-- already, and then the file holds a record of the caller; otherwise it leaves the file alone.
pub operation_granted_iff :
    (probe : Probe) (root : String) (owner : OwnerIdentity) (now started : ℕ) (waited : Bool)
    (file file' : File) (outcome : OperationAttempt) (found : Option Fields)
    → load_json file "operation-state" ≡ ok found
    → operation_round probe root owner now started waited file ≡ ok (file', outcome)
    → Settled (Vacant probe found ⊎ Owned found owner) file file' owner outcome
unfolding operation_round
operation_granted_iff probe root owner now started waited file file' outcome found l e =
    let (vacant, v, claim) = ok_of_bind (is_vacant probe found) _ (rw l at e) in
    let (granted, written, kept) =
      claim_operation-Outcome root owner _ file found vacant file' outcome l claim in
    let free = is_vacant-Vacant probe found vacant v in
    Outcome-Settled (Vacant probe found ⊎ Owned found owner) file file' owner outcome
      (ground arith, written, kept)

-- A live record of another worktree under the key is never taken over.
pub foreign_root_fails :
    (probe : Probe) (root : String) (owner : OwnerIdentity) (now started : ℕ) (waited : Bool)
    (file : File) (r : Fields)
    → load_json file "operation-state" ≡ ok (some r)
    → record_is_live probe r "operation-state" ≡ ok true
    → holds_str "project_root" r root ≡ false
    → operation_round probe root owner now started waited file
      ≡ err (coordination "operation-state" "operation root does not match its key")
unfolding operation_round is_vacant claim_operation join_operation
foreign_root_fails probe root owner now started waited file r l live other = ground arith

-- A release removes the caller's record, and leaves the file alone if the record is another's or
-- there is none.
pub release_operation_lem :
    (owner : OwnerIdentity) (file : File) (found : Option Fields)
    → load_json file "operation-state" ≡ ok found
    → (Owned found owner × (release_operation owner file ≡ ok absent))
      ⊎ (¬ (Owned found owner) × (release_operation owner file ≡ ok file))
unfolding release_operation
release_operation_lem owner file none l = inr (λ h. h, ground arith)
release_operation_lem owner file (some r) l = elim (Bool-cases (matches r owner)) [
  | inl mine ↦ inl (mine, ground arith)
  | inr other ↦ inr (λ h. ground arith, ground arith)
]

abbrev pub reaches : ℕ → List Poll → Bool
reaches deadline polls = any (λ poll. leb deadline poll.later) polls

abbrev pub IsDone : OperationProgress → Type 0
IsDone (done result file) = Unit
IsDone (running waited file) = ⊥

after_operation_poll-IsDone :
    (deadline later : ℕ) (found : File) (rest : File → OperationProgress)
    (r : Result Failure (File × OperationAttempt))
    → (leb deadline later ≡ true) ⊎ ((f : File) → IsDone (rest f))
    → IsDone (after_operation_poll deadline later found rest r)
unfolding after_operation_poll
after_operation_poll-IsDone deadline later found rest (err e) h = tt
after_operation_poll-IsDone deadline later found rest (ok (file, acquired grant)) h = tt
after_operation_poll-IsDone deadline later found rest (ok (file, waits)) (inl over) = rw over tt
after_operation_poll-IsDone deadline later found rest (ok (file, waits)) (inr ends) =
    elim (Bool-cases (leb deadline later)) [
      | inl over ↦ rw over tt
      | inr early ↦ rw early (ends file)
    ]

-- The loop ends at the latest in the first round whose deadline's test comes after the deadline.
pub operation_loop_ends :
    (root : String) (owner : OwnerIdentity) (deadline started : ℕ) (polls : List Poll)
    (waited : Bool) (file : File)
    → reaches deadline polls ≡ true
    → IsDone (operation_loop root owner deadline started polls waited file)
unfolding operation_loop
operation_loop_ends root owner deadline started [] waited file h = absurd (ground arith)
operation_loop_ends root owner deadline started (poll ∷ polls) waited file h =
    after_operation_poll-IsDone deadline poll.later _ _ _
      (elim (Bool-cases (leb deadline poll.later)) [
        | inl over ↦ inl over
        | inr early ↦
            inr (λ f. operation_loop_ends root owner deadline started polls true f (ground arith))
      ])
