-- ===== src/Bridge/Transitions.antt =====
-- What a transition of an incident does (bin/workspace_harbor_bridge.py).
use serena_workspace_orchest.Prelude.{
  ℕ, ◌≤◌, ◌<◌, ◌≡◌, refl, sym, ap, subst, ◌⊎◌, inl, inr, true, false, not, [], ◌∷◌, String, arith,
  if◌then◌else◌, Bool-cases, ◌∙◌,
}
use serena_workspace_orchest.Prelude.Strings.{str_eq, eq_iff, member}
use serena_workspace_orchest.Prelude.Results.{ok, raise_if, ok_of_bind, ok_of_then}
use serena_workspace_orchest.Codex.Identifiers.{TimeText}
use serena_workspace_orchest.Bridge.Incident.{BridgeIncident, validate_incident, next_states}
use serena_workspace_orchest.Bridge.Store.{Directory, load, save, transition, Change, change}
use serena_workspace_orchest.Bridge.Lookup.{
  IsDirectory, load_lem, load-id, load-save, save-IsDirectory, save_lem,
}

-- How far an incident has come: four stages of a restart, and the end.
unfoldable pub stage : String → ℕ
stage state =
    if str_eq state "diagnosing"
    then 0
    else if str_eq state "restart-eligible"
    then 1
    else if str_eq state "restart-prepared"
    then 2
    else if str_eq state "resume-pending"
    then 3
    else 4

pub stage_bound : (state : String) → stage state ≤ 4
unfolding stage
stage_bound state = ground arith

member_of_three :
    (x a b c : String) → member x (a ∷ b ∷ c ∷ []) ≡ true → (x ≡ a) ⊎ ((x ≡ b) ⊎ (x ≡ c))
unfolding member
member_of_three x a b c h = ground (arith, eq_iff x a, eq_iff x b, eq_iff x c)

member_of_none : (x : String) → member x [] ≡ false
unfolding member
member_of_none x = refl

member_of_two : (x a b : String) → member x (a ∷ b ∷ []) ≡ true → (x ≡ a) ⊎ (x ≡ b)
unfolding member
member_of_two x a b h = ground (arith, eq_iff x a, eq_iff x b)

-- The stages that a state's name has, computed.
stages :
    (stage "diagnosing" ≡ 0)
    × (stage "restart-eligible" ≡ 1)
    × (stage "restart-prepared" ≡ 2)
    × (stage "resume-pending" ≡ 3)
    × (stage "closed-healthy" ≡ 4)
    × (stage "closed-blocked" ≡ 4)
    × (stage "closed-fresh-task-required" ≡ 4)
unfolding stage
stages = (refl, refl, refl, refl, refl, refl, refl)

pub stage_rises :
    (state next : String) → member next (next_states state) ≡ true → stage state < stage next
unfolding next_states
stage_rises state next h = elim (Bool-cases (str_eq state "diagnosing")) [
  | inl a ↦
      elim (member_of_three next "restart-eligible" "closed-healthy" "closed-blocked"
        (ground arith)) [
          | inl e ↦ ground (arith, stages, eq_iff state "diagnosing")
          | inr (inl e) ↦ ground (arith, stages, eq_iff state "diagnosing")
          | inr (inr e) ↦ ground (arith, stages, eq_iff state "diagnosing")
        ]
  | inr a ↦ elim (Bool-cases (str_eq state "restart-eligible")) [
    | inl b ↦ elim (member_of_two next "restart-prepared" "closed-blocked" (ground arith)) [
      | inl e ↦ ground (arith, stages, eq_iff state "restart-eligible")
      | inr e ↦ ground (arith, stages, eq_iff state "restart-eligible")
    ]
    | inr b ↦ elim (Bool-cases (str_eq state "restart-prepared")) [
      | inl c ↦ elim (member_of_two next "resume-pending" "closed-blocked" (ground arith)) [
        | inl e ↦ ground (arith, stages, eq_iff state "restart-prepared")
        | inr e ↦ ground (arith, stages, eq_iff state "restart-prepared")
      ]
      | inr c ↦ elim (Bool-cases (str_eq state "resume-pending")) [
        | inl d ↦
            elim (member_of_two next "closed-healthy" "closed-fresh-task-required" (ground arith)) [
              | inl e ↦ ground (arith, stages, eq_iff state "resume-pending")
              | inr e ↦ ground (arith, stages, eq_iff state "resume-pending")
            ]
        | inr d ↦ absurd (ground (arith, member_of_none next))
      ]
    ]
  ]
]

-- The parts of a transition that succeeds.
pub record IsTransition (id expected next_state : String) (by : Change) (now : TimeText)
    (store store' : Directory) (updated : BridgeIncident) : Type 0 where
  pub current : BridgeIncident
  pub loaded : load id store ≡ ok current
  pub was : current.state ≡ expected
  pub allowed : member next_state (next_states expected) ≡ true
  pub update : updated ≡ change current next_state by now
  pub valid : validate_incident updated ≡ ok tt
  pub saved : save updated store ≡ ok (store', updated)

pub transition_lem :
    (id expected next_state : String) (by : Change) (now : TimeText) (store store' : Directory)
    (updated : BridgeIncident)
    → transition id expected next_state by now store ≡ ok (store', updated)
    → IsTransition id expected next_state by now store store' updated
unfolding transition
transition_lem id expected next_state by now store store' updated h =
    let (allowed, h1) =
      ok_of_then
        (raise_if (not (member next_state (next_states expected))) "invalid incident transition") _
        h in
    let (current, loaded, h2) = ok_of_bind (load id store) _ h1 in
    let (was, h3) =
      ok_of_then (raise_if (not (str_eq current.state expected)) "incident state changed") _ h2 in
    let (valid, put, same) = save_lem (change current next_state by now) store store' updated h3 in
    record {
      current = current;
      loaded = loaded;
      was = ground (arith, eq_iff current.state expected);
      allowed = ground arith;
      update = same;
      valid = subst (λ i. validate_incident i ≡ ok tt) (sym same) valid;
      saved = subst (λ i. save i store ≡ ok (store', updated)) (sym same) h3;
    }

-- What a transition leaves in the store.
pub record IsRecorded (id next_state : String) (store store' : Directory) (updated : BridgeIncident)
    : Type 0 where
  pub state : updated.state ≡ next_state
  pub named : updated.id ≡ id
  pub before : BridgeIncident
  pub loaded : load id store ≡ ok before
  pub same_task :
      (updated.root ≡ before.root)
      × (updated.thread_id ≡ before.thread_id)
      × (updated.created_at ≡ before.created_at)
  pub rises : stage before.state < stage updated.state
  pub lookups :
      (key : String) → load key store' ≡ (if str_eq id key then ok updated else load key store)
  pub filed : IsDirectory store'

-- In a store of valid records, each in the file of its identifier, a transition that succeeds goes
-- to the state it names, which is a later stage. The incident keeps its identifier, root, task and
-- time of creation, a later `load` returns it, every other incident is as before, and the store
-- is again one of valid records.
pub transition-IsRecorded :
    (id expected next_state : String) (by : Change) (now : TimeText) (store store' : Directory)
    (updated : BridgeIncident)
    → IsDirectory store
    → transition id expected next_state by now store ≡ ok (store', updated)
    → IsRecorded id next_state store store' updated
unfolding change
transition-IsRecorded id expected next_state by now store store' updated filed h =
    let t = transition_lem id expected next_state by now store store' updated h in
    let current = t.current in
    let (on_file, hex, ok_before) = load_lem id store current t.loaded in
    let same = t.update in
    let named : updated.id ≡ id = ap (λ i. i.id) same ∙ load-id id store current filed t.loaded in
    let state : updated.state ≡ next_state = ap (λ i. i.state) same in
    record {
      state = state;
      named = named;
      before = current;
      loaded = t.loaded;
      same_task = (ap (λ i. i.root) same, ap (λ i. i.thread_id) same, ap (λ i. i.created_at) same);
      rises =
          subst (λ s. stage current.state < stage s) (sym state)
            (subst (λ s. stage s < stage next_state) (sym t.was)
              (stage_rises expected next_state t.allowed));
      lookups = λ key. load-save updated store store' updated key t.saved ∙ (rw (named) refl);
      filed = save-IsDirectory updated store store' updated filed t.saved;
    }
