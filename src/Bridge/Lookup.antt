-- ===== src/Bridge/Lookup.antt =====
-- What an incident's file holds after a write (bin/workspace_harbor_bridge.py).
use serena_workspace_orchest.Prelude.{
  ◌≡◌, refl, sym, subst, inl, inr, true, not, some, [], ◌∷◌, String, arith, if◌then◌else◌,
  Bool-cases, Option-cases,
}
use serena_workspace_orchest.Prelude.Strings.{str_eq, eq_iff}
use serena_workspace_orchest.Prelude.Results.{
  ok, ◌>>◌, raise_if, ok_of_bind, ok_of_then, ok-injective,
}
use serena_workspace_orchest.Bridge.Incident.{BridgeIncident, is_hex_text, validate_incident}
use serena_workspace_orchest.Bridge.Store.{
  Record, malformed, holding, Directory, find_file, put_file, decode_record, write_locked, load,
  save, is_before,
}

pub find_file-put_file :
    (key name : String) (file : Record) (store : Directory)
    → find_file key (put_file name file store)
      ≡ (if str_eq name key then some file else find_file key store)
unfolding find_file put_file
find_file-put_file key name file [] = refl
find_file-put_file key name file ((stored, old) ∷ files) = elim (Bool-cases (str_eq stored name)) [
  | inl same ↦ ground (arith, eq_iff stored name)
  | inr e ↦ elim (Bool-cases (is_before name stored)) [
    | inl f ↦ ground arith
    | inr f ↦ ground (
      arith,
      find_file-put_file key name file files,
      eq_iff stored key,
      eq_iff name key,
      eq_iff stored name,
    )
  ]
]

-- An incident that is valid and stands in the file of its identifier.
pub record IsFiled (name : String) (file : Record) : Type 0 where
  pub incident : BridgeIncident
  pub holds : file ≡ holding incident
  pub valid : validate_incident incident ≡ ok tt
  pub named : incident.id ≡ name

pub data IsDirectory : Directory → Type 0 where
  no_files : IsDirectory []
  and_file :
      (name : String) (file : Record) (files : Directory)
      → IsFiled name file
      → IsDirectory files
      → IsDirectory ((name, file) ∷ files)

pub put_file-IsDirectory :
    (name : String) (file : Record) (store : Directory)
    → IsFiled name file
    → IsDirectory store
    → IsDirectory (put_file name file store)
unfolding put_file
put_file-IsDirectory name file [] filed no_files = and_file name file [] filed no_files
put_file-IsDirectory name file ((stored, old) ∷ files) filed (and_file _ _ _ before rest) =
    elim (Bool-cases (str_eq stored name)) [
      | inl e ↦
          let same : stored ≡ name = ground (arith, eq_iff stored name) in
          rw (e) (and_file stored file files (subst (λ n. IsFiled n file) (sym same) filed) rest)
      | inr e ↦ elim (Bool-cases (is_before name stored)) [
        | inl f ↦
            rw (e, f)
              (and_file name file ((stored, old) ∷ files) filed
                (and_file stored old files before rest))
        | inr f ↦
            rw (e, f)
              (and_file stored old (put_file name file files) before
                (put_file-IsDirectory name file files filed rest))
      ]
    ]

pub find_file-IsFiled :
    (key : String) (file : Record) (store : Directory)
    → IsDirectory store
    → find_file key store ≡ some file
    → IsFiled key file
unfolding find_file
find_file-IsFiled key file [] no_files h = absurd (ground arith)
find_file-IsFiled key file ((stored, old) ∷ files) (and_file _ _ _ filed rest) h =
    elim (Bool-cases (str_eq stored key)) [
      | inl e ↦
          let same : stored ≡ key = ground (arith, eq_iff stored key) in
          let here : old ≡ file = ground arith in
          subst (λ n. IsFiled n file) same (subst (IsFiled stored) here filed)
      | inr e ↦ find_file-IsFiled key file files rest (ground arith)
    ]

-- What `load` returns is valid and stands in the file of its identifier.
pub load_lem :
    (id : String) (store : Directory) (incident : BridgeIncident)
    → load id store ≡ ok incident
    → (find_file id store ≡ some (holding incident))
      × (is_hex_text 32 id ≡ true)
      × (validate_incident incident ≡ ok tt)
unfolding load decode_record
load_lem id store incident h =
    let (hex, decoded) =
      ok_of_then (raise_if (not (is_hex_text 32 id)) "invalid incident id") _ h in
    elim (Option-cases (find_file id store)) [
      | inl e ↦ absurd (ground arith)
      | inr (malformed, e) ↦ absurd (ground arith)
      | inr (holding i, e) ↦
          let checked : (validate_incident i >> ok i) ≡ ok incident = ground arith in
          let (valid, same) = ok_of_then (validate_incident i) (ok i) checked in
          let equal : i ≡ incident = ok-injective same in
          (
            ground (arith, equal),
            ground arith,
            subst (λ x. validate_incident x ≡ ok tt) equal valid,
          )
    ]

pub load-id :
    (id : String) (store : Directory) (incident : BridgeIncident)
    → IsDirectory store
    → load id store ≡ ok incident
    → incident.id ≡ id
load-id id store incident filed h =
    let (found, hex, valid) = load_lem id store incident h in
    let f = find_file-IsFiled id (holding incident) store filed found in
    let held = f.holds in
    let same : f.incident ≡ incident = ground arith in subst (λ i. i.id ≡ id) same f.named

pub save_lem :
    (incident : BridgeIncident) (store : Directory) (store' : Directory) (saved : BridgeIncident)
    → save incident store ≡ ok (store', saved)
    → (validate_incident incident ≡ ok tt)
      × (store' ≡ put_file incident.id (holding incident) store)
      × (saved ≡ incident)
unfolding save write_locked
save_lem incident store store' saved h =
    let (written, w, h1) =
      ok_of_bind (write_locked incident store) (λ saved. ok (saved, incident)) h in
    let (valid, put) =
      ok_of_then (validate_incident incident) (ok (put_file incident.id (holding incident) store))
        w in
    (valid, ground arith, ground arith)

pub save-IsDirectory :
    (incident : BridgeIncident) (store store' : Directory) (saved : BridgeIncident)
    → IsDirectory store
    → save incident store ≡ ok (store', saved)
    → IsDirectory store'
save-IsDirectory incident store store' saved filed h =
    let (valid, put, same) = save_lem incident store store' saved h in
    subst IsDirectory (sym put) (
      put_file-IsDirectory incident.id (holding incident) store
        (record { incident = incident; holds = refl; valid = valid; named = refl }) filed)

validate_incident-id :
    (incident : BridgeIncident)
    → validate_incident incident ≡ ok tt
    → is_hex_text 32 incident.id ≡ true
unfolding validate_incident
validate_incident-id incident h = ground arith

-- A later `load` of an incident that was saved returns it, and that of another is not affected.
pub load-save :
    (incident : BridgeIncident) (store store' : Directory) (saved : BridgeIncident) (id : String)
    → save incident store ≡ ok (store', saved)
    → load id store' ≡ (if str_eq incident.id id then ok incident else load id store)
unfolding load decode_record
load-save incident store store' saved id h =
    let (valid, put, same) = save_lem incident store store' saved h in
    elim (Bool-cases (is_hex_text 32 id)) [
      | inl hex ↦
          rw (put, hex, find_file-put_file id incident.id (holding incident) store)
            (elim (Bool-cases (str_eq incident.id id)) [
              | inl e ↦ rw (e, valid) refl
              | inr e ↦ rw (e) refl
            ])
      | inr plain ↦ elim (Bool-cases (str_eq incident.id id)) [
        | inl e ↦
            let equal : incident.id ≡ id = ground (arith, eq_iff incident.id id) in
            absurd (
              ground (
                arith,
                subst (λ x. is_hex_text 32 x ≡ true) equal (validate_incident-id incident valid),
              ))
        | inr e ↦ rw (e, plain) refl
      ]
    ]
