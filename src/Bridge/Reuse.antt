-- ===== src/Bridge/Reuse.antt =====
-- `create_or_reuse_restart` called again (bin/workspace_harbor_bridge.py).
use serena_workspace_orchest.Prelude.{
  ◌≡◌, refl, subst, inl, inr, true, none, some, [], ◌∷◌, String, arith, Bool-cases, Option-cases,
}
use serena_workspace_orchest.Prelude.Strings.{str_eq, eq_refl}
use serena_workspace_orchest.Prelude.Results.{ok, ok_of_bind}
use serena_workspace_orchest.Bridge.Incident.{BridgeIncident}
use serena_workspace_orchest.Bridge.Store.{
  holding, Directory, put_file, decode_record, create, create_or_reuse_restart, find_reusable,
  is_reusable, Report, new_incident, is_before, save,
}
use serena_workspace_orchest.Bridge.Lookup.{save_lem}

-- What the search finds after the write of the first incident that serves.
find_reusable-put_file :
    (report : Report) (name : String) (incident : BridgeIncident) (store : Directory)
    → decode_record (some (holding incident)) ≡ ok incident
    → is_reusable report incident ≡ true
    → find_reusable report store ≡ ok none
    → find_reusable report (put_file name (holding incident) store) ≡ ok (some incident)
unfolding find_reusable put_file
find_reusable-put_file report name incident [] decodes serves h = rw (decodes, serves) refl
find_reusable-put_file report name incident ((stored, old) ∷ files) decodes serves h =
    let (i, decoded, h1) = ok_of_bind (decode_record (some old)) _ h in
    elim (Bool-cases (str_eq stored name)) [
      | inl e ↦ rw (e, decodes, serves) refl
      | inr e ↦ elim (Bool-cases (is_before name stored)) [
        | inl f ↦ rw (e, f, decodes, serves) refl
        | inr f ↦ elim (Bool-cases (is_reusable report i)) [
          | inl g ↦ absurd (ground arith)
          | inr g ↦
              let rest : find_reusable report files ≡ ok none = ground arith in
              rw (e, f, decoded, g)
                (find_reusable-put_file report name incident files decodes serves rest)
        ]
      ]
    ]

-- The search reads the root and the task of the report, and nothing else of it.
find_reusable-same :
    (report report' : Report) (store : Directory)
    → report.root ≡ report'.root
    → report.thread_id ≡ report'.thread_id
    → find_reusable report store ≡ find_reusable report' store
unfolding find_reusable
find_reusable-same report report' [] root thread = refl
find_reusable-same report report' ((name, file) ∷ files) root thread =
    rw (root, thread, find_reusable-same report report' files root thread) refl

reuse_finds :
    (report : Report) (store store' : Directory) (incident : BridgeIncident)
    → create_or_reuse_restart report store ≡ ok (store', incident)
    → find_reusable report store' ≡ ok (some incident)
unfolding create_or_reuse_restart create decode_record new_incident
reuse_finds report store store' incident h =
    let (found, f, h1) = ok_of_bind (find_reusable report store) _ h in
    elim (Option-cases found) [
      | inr (i, e) ↦
          let same : (store ≡ store') × (i ≡ incident) = ground arith in
          subst (λ s. find_reusable report s ≡ ok (some incident)) same.0 (ground arith)
      | inl e ↦
          let made : save (new_incident report "restart-eligible") store ≡ ok (store', incident) =
            ground arith in
          let (valid, put, same) =
            save_lem (new_incident report "restart-eligible") store store' incident made in
          rw (put, same)
            (find_reusable-put_file report report.id (new_incident report "restart-eligible") store
              (rw (valid) refl) (ground (arith, eq_refl report.root, eq_refl report.thread_id))
              (ground arith))
    ]

-- Once `create_or_reuse_restart` has returned an incident, a further call for the same root and
-- task, whatever its identifier, reason and time, returns the same incident and leaves the store
-- as it is.
pub reuse_is_stable :
    (report report' : Report) (store store' : Directory) (incident : BridgeIncident)
    → create_or_reuse_restart report store ≡ ok (store', incident)
    → report'.root ≡ report.root
    → report'.thread_id ≡ report.thread_id
    → create_or_reuse_restart report' store' ≡ ok (store', incident)
unfolding create_or_reuse_restart
reuse_is_stable report report' store store' incident h root thread =
    rw
      (
        find_reusable-same report' report store' root thread,
        reuse_finds report store store' incident h,
      )
      refl
