-- ===== src/Bridge/Lifecycle.antt =====
-- The life of an incident over any sequence of the store's operations
-- (bin/workspace_harbor_bridge.py).
use serena_workspace_orchest.Prelude.{
  ◌<◌, ◌≡◌, refl, sym, ap, subst, inl, inr, none, String, arith, Bool-cases, ◌∙◌,
}
use serena_workspace_orchest.Prelude.Strings.{str_eq, eq_iff}
use serena_workspace_orchest.Prelude.Results.{Result, ok, ok-injective}
use serena_workspace_orchest.Codex.Identifiers.{TimeText}
use serena_workspace_orchest.Bridge.Incident.{BridgeIncident}
use serena_workspace_orchest.Bridge.Store.{
  Directory, load, create, transition, Change, Report, find_file, new_incident,
}
use serena_workspace_orchest.Bridge.Lookup.{IsDirectory, load_lem, load-save, save-IsDirectory}
use serena_workspace_orchest.Bridge.Transitions.{stage, stage_bound, transition-IsRecorded}

-- One operation on the store; a new incident has an identifier that no file has. An operation that
-- fails, and one that finds an incident to use again, leave the store as it is.
pub data Step (store store' : Directory) : Type 0 where
  creation :
      (report : Report) (state : String) (made : BridgeIncident)
      → find_file report.id store ≡ none
      → create report state store ≡ ok (store', made)
      → Step store store'
  move :
      (id expected next_state : String) (by : Change) (now : TimeText) (updated : BridgeIncident)
      → transition id expected next_state by now store ≡ ok (store', updated)
      → Step store store'

pub data Reach (store : Directory) : Directory → Type 0 where
  here : Reach store store
  after : (middle last : Directory) → Reach store middle → Step middle last → Reach store last

-- The incident is still there, as it was or at a later stage.
pub data IsLater (incident : BridgeIncident) (later : Result String BridgeIncident) : Type 0 where
  unmoved : later ≡ ok incident → IsLater incident later
  moved :
      (next : BridgeIncident)
      → later ≡ ok next
      → stage incident.state < stage next.state
      → IsLater incident later

creation-load :
    (report : Report) (state : String) (store store' : Directory) (made : BridgeIncident)
    (id : String) (incident : BridgeIncident)
    → find_file report.id store ≡ none
    → create report state store ≡ ok (store', made)
    → load id store ≡ ok incident
    → load id store' ≡ ok incident
unfolding create new_incident
creation-load report state store store' made id incident fresh h loaded =
    let (found, hex, valid) = load_lem id store incident loaded in
    elim (Bool-cases (str_eq report.id id)) [
      | inl e ↦
          let same : report.id ≡ id = ground (arith, eq_iff report.id id) in absurd (ground arith)
      | inr e ↦ load-save (new_incident report state) store store' made id h ∙ (rw (e, loaded) refl)
    ]

Step-IsDirectory :
    (store store' : Directory) → IsDirectory store → Step store store' → IsDirectory store'
unfolding create
Step-IsDirectory store store' filed (creation report state made fresh h) =
    save-IsDirectory (new_incident report state) store store' made filed h
Step-IsDirectory store store' filed (move id expected next_state by now updated h) =
    (transition-IsRecorded id expected next_state by now store store' updated filed h).filed

step_lem :
    (store store' : Directory) (id : String) (incident : BridgeIncident)
    → IsDirectory store
    → Step store store'
    → load id store ≡ ok incident
    → IsLater incident (load id store')
step_lem store store' id incident filed (creation report state made fresh h) loaded =
    unmoved (creation-load report state store store' made id incident fresh h loaded)
step_lem store store' id incident filed (move other expected next_state by now updated h) loaded =
    let r = transition-IsRecorded other expected next_state by now store store' updated filed h in
    elim (Bool-cases (str_eq other id)) [
      | inl e ↦
          let same : other ≡ id = ground (arith, eq_iff other id) in
          let before : r.before ≡ incident =
            ok-injective (sym r.loaded ∙ ap (λ k. load k store) same ∙ loaded) in
          moved updated (r.lookups id ∙ (rw (e) refl))
            (subst (λ i. stage i.state < stage updated.state) before r.rises)
      | inr e ↦ unmoved (r.lookups id ∙ (rw (e, loaded) refl))
    ]

IsLater-twice :
    (incident : BridgeIncident) (first second : Result String BridgeIncident)
    → IsLater incident first
    → ((i : BridgeIncident) → first ≡ ok i → IsLater i second)
    → IsLater incident second
IsLater-twice incident first second (unmoved e) f = f incident e
IsLater-twice incident first second (moved next e r) f = elim (f next e) [
  | unmoved g ↦ moved next g r
  | moved last g s ↦ moved last g (omega (arith, r, s))
]

reach_lem :
    (store store' : Directory) (id : String) (incident : BridgeIncident)
    → IsDirectory store
    → load id store ≡ ok incident
    → Reach store store'
    → IsDirectory store' × IsLater incident (load id store')
reach_lem store store' id incident filed loaded here = (filed, unmoved loaded)
reach_lem store store' id incident filed loaded (after middle _ before step) =
    let (filed', later) = reach_lem store middle id incident filed loaded before in
    (
      Step-IsDirectory middle store' filed' step,
      IsLater-twice incident (load id middle) (load id store') later
          (λ i e. step_lem middle store' id i filed' step e),
    )

-- From a store of valid records, whatever operations follow: an incident stays in the store, and
-- its state is as it was or of a later stage.
pub incidents_only_advance :
    (store store' : Directory) (id : String) (incident : BridgeIncident)
    → IsDirectory store
    → load id store ≡ ok incident
    → Reach store store'
    → IsLater incident (load id store')
incidents_only_advance store store' id incident filed loaded steps =
    (reach_lem store store' id incident filed loaded steps).1

-- An incident that is closed is never changed again.
pub closed_is_final :
    (store store' : Directory) (id : String) (incident : BridgeIncident)
    → IsDirectory store
    → load id store ≡ ok incident
    → stage incident.state ≡ 4
    → Reach store store'
    → load id store' ≡ ok incident
closed_is_final store store' id incident filed loaded closed steps =
    elim (incidents_only_advance store store' id incident filed loaded steps) [
      | unmoved e ↦ e
      | moved next e r ↦ absurd (omega (arith, r, closed, stage_bound next.state))
    ]
