-- ===== src/Codex/Validity.antt =====
-- An attestation that is built is valid for its 30 seconds, and one that is valid names the one
-- active task (bin/workspace_harbor_codex.py).
use serena_workspace_orchest.Prelude.{
  ℕ, ◌+◌, ◌≡◌, ◌≤◌, true, List, [], ◌∷◌, String, not, arith, subst,
}
use serena_workspace_orchest.Prelude.Strings.{str_eq, eq_iff, eq_refl}
use serena_workspace_orchest.Prelude.Results.{
  ok, err, raise_if, ok_of_bind, ok_of_then, ok-injective,
}
use serena_workspace_orchest.Codex.Identifiers.{
  DateTime, aware_instant, check_uuid, check_incident_id, check_safe_identifier, text_value,
}
use serena_workspace_orchest.Codex.Attestation.{
  RestartAttestation, Evidence, build_restart_attestation, validate_restart_attestation,
  attestation, check_tasks, check_heartbeat, check_delay, check_nonce, nonce_value,
  check_identifiers, read_times, check_age, check_exclusive, is_only, attestation_max_age,
  heartbeat_min, heartbeat_max, moment_value,
}

is_only_lem : (xs : List String) (x : String) → is_only xs x ≡ true → xs ≡ x ∷ []
is_only_lem [] x h = cc
is_only_lem (y ∷ []) x h = ground (arith, eq_iff y x)
is_only_lem (y ∷ z ∷ ys) x h = cc

is_only_self : (x : String) → is_only (x ∷ []) x ≡ true
is_only_self x = eq_refl x

check_delay_bounds :
    (observed next : ℕ)
    → check_delay observed next ≡ ok tt
    → (observed + heartbeat_min ≤ next) × (next ≤ observed + heartbeat_max)
unfolding check_delay
check_delay_bounds observed next h = ground arith

check_age_bounds :
    (observed now : ℕ)
    → check_age observed now ≡ ok tt
    → (observed ≤ now) × (now ≤ observed + attestation_max_age)
unfolding check_age
check_age_bounds observed now h = ground arith

check_age_fresh :
    (observed now : ℕ)
    → observed ≤ now
    → now ≤ observed + attestation_max_age
    → check_age observed now ≡ ok tt
unfolding check_age
check_age_fresh observed now h k = ground arith

check_tasks-only :
    (e : Evidence) → check_tasks e ≡ ok tt → is_only e.active_threads e.current_thread ≡ true
unfolding check_tasks
check_tasks-only e h = ground arith

check_heartbeat-delay :
    (e : Evidence) (observed next : ℕ) (id : String)
    → check_heartbeat e observed ≡ ok (id, next)
    → (check_safe_identifier id "invalid-heartbeat-id" ≡ ok tt)
      × (check_delay observed next ≡ ok tt)
unfolding check_heartbeat moment_value aware_instant text_value
check_heartbeat-delay e observed next id h = ground arith

check_exclusive_lem :
    (e : Evidence) (observed next : ℕ) (id nonce : String)
    → is_only e.active_threads e.current_thread ≡ true
    → check_exclusive (attestation e observed id next nonce) e.current_thread ≡ ok tt
unfolding check_exclusive attestation
check_exclusive_lem e observed next id nonce only = ground (arith, eq_refl e.current_thread)

check_identifiers_lem :
    (e : Evidence) (observed next : ℕ) (id nonce : String)
    → check_uuid e.current_thread "invalid-current-thread" ≡ ok tt
    → check_safe_identifier e.host_id "invalid-host" ≡ ok tt
    → check_incident_id e.incident ≡ ok tt
    → check_safe_identifier id "invalid-heartbeat-id" ≡ ok tt
    → check_nonce nonce ≡ ok tt
    → check_identifiers (attestation e observed id next nonce) ≡ ok tt
unfolding check_identifiers attestation
check_identifiers_lem e observed next id nonce a b c d f = ground arith

attestation_is_valid :
    (e : Evidence) (observed next now : ℕ) (id nonce : String)
    → check_identifiers (attestation e observed id next nonce) ≡ ok tt
    → check_exclusive (attestation e observed id next nonce) e.current_thread ≡ ok tt
    → check_delay observed next ≡ ok tt
    → check_age observed now ≡ ok tt
    → validate_restart_attestation
        (attestation e observed id next nonce)
        e.current_thread
        e.incident
        (record { instant = now; aware = true })
      ≡ ok tt
unfolding validate_restart_attestation attestation read_times aware_instant
attestation_is_valid e observed next now id nonce ids only delay age =
    ground (arith, ids, only, eq_refl e.current_thread, eq_refl e.incident)

aware_instant_lem :
    (t : DateTime) (reason : String) (n : ℕ) → aware_instant t reason ≡ ok n → t.instant ≡ n
unfolding aware_instant
aware_instant_lem t reason n h = ground arith

-- What is built by the evidence at hand is valid for the same task and incident until 30 seconds
-- after the observation.
pub built_is_valid :
    (e : Evidence) (random : String) (a : RestartAttestation) (now : ℕ)
    → build_restart_attestation e random ≡ ok a
    → e.observed_at.instant ≤ now
    → now ≤ e.observed_at.instant + attestation_max_age
    → validate_restart_attestation a e.current_thread e.incident
        (record { instant = now; aware = true })
      ≡ ok tt
unfolding build_restart_attestation
built_is_valid e random a now h after before =
    let (thread, h1) = ok_of_then (check_uuid e.current_thread "invalid-current-thread") _ h in
    let (host, h2) = ok_of_then (check_safe_identifier e.host_id "invalid-host") _ h1 in
    let (incident, h3) = ok_of_then (check_incident_id e.incident) _ h2 in
    let (tasks, h4) = ok_of_then (check_tasks e) _ h3 in
    let (observed, o, h5) =
      ok_of_bind (aware_instant e.observed_at "invalid-observation-time") _ h4 in
    let ((id, next), heart, h6) = ok_of_bind (check_heartbeat e observed) _ h5 in
    let (nonce, h7) = ok_of_then (check_nonce (nonce_value e.nonce random)) _ h6 in
    let (safe, delay) = check_heartbeat-delay e observed next id heart in
    let seen = aware_instant_lem e.observed_at "invalid-observation-time" observed o in
    let value = nonce_value e.nonce random in
    subst
      (λ x.
        validate_restart_attestation x e.current_thread e.incident
          (record { instant = now; aware = true })
        ≡ ok tt)
      (ok-injective h7)
      (attestation_is_valid e observed next now id value
        (check_identifiers_lem e observed next id value thread host incident safe nonce)
        (check_exclusive_lem e observed next id value (check_tasks-only e tasks)) delay
        (check_age_fresh observed now (omega (arith, seen)) (omega (arith, seen))))

-- What a valid attestation tells: it is of the given task and incident, which is the one active
-- task and the heartbeat's target, no host was out of reach, the heartbeat runs 30 to 180 seconds
-- after the observation, and the observation is at most 30 seconds old.
pub record IsExclusive (a : RestartAttestation) (current_thread : String) (incident : String)
    (now : ℕ) : Type 0 where
  pub thread : a.current_thread ≡ current_thread
  pub of_incident : a.incident ≡ incident
  pub alone : a.active_threads ≡ current_thread ∷ []
  pub hosts : a.unavailable_host_count ≡ 0
  pub target : a.heartbeat_target ≡ current_thread
  pub observed : ℕ
  pub next : ℕ
  pub times : read_times a ≡ ok (observed, next)
  pub delay : (observed + heartbeat_min ≤ next) × (next ≤ observed + heartbeat_max)
  pub age : (observed ≤ now) × (now ≤ observed + attestation_max_age)

check_exclusive-parts :
    (a : RestartAttestation) (thread : String)
    → check_exclusive a thread ≡ ok tt
    → (a.active_threads ≡ thread ∷ [])
      × (a.unavailable_host_count ≡ 0)
      × (a.heartbeat_target ≡ thread)
unfolding check_exclusive
check_exclusive-parts a thread h = (
  is_only_lem a.active_threads thread (ground arith),
  ground arith,
  ground (arith, eq_iff a.heartbeat_target thread),
)

pub valid-IsExclusive :
    (a : RestartAttestation) (thread incident : String) (now : ℕ)
    → validate_restart_attestation a thread incident (record { instant = now; aware = true })
      ≡ ok tt
    → IsExclusive a thread incident now
unfolding validate_restart_attestation aware_instant
valid-IsExclusive a thread incident now h =
    let (ids, h1) = ok_of_then (check_identifiers a) _ h in
    let (same, h2) = ok_of_then (raise_if (not (str_eq a.current_thread thread)) _) _ h1 in
    let (about, h3) = ok_of_then (raise_if (not (str_eq a.incident incident)) _) _ h2 in
    let ((observed, next), times, h4) = ok_of_bind (read_times a) _ h3 in
    let (delay, h5) = ok_of_then (check_delay observed next) _ h4 in
    let (age, only) = ok_of_then (check_age observed now) _ h5 in
    let (alone, hosts, target) = check_exclusive-parts a thread only in
    record {
      thread = ground (arith, eq_iff a.current_thread thread);
      of_incident = ground (arith, eq_iff a.incident incident);
      alone = alone;
      hosts = hosts;
      target = target;
      observed = observed;
      next = next;
      times = times;
      delay = check_delay_bounds observed next delay;
      age = check_age_bounds observed now age;
    }

-- Whatever is wrong with a time of an attestation, the reason that is raised is the same: that of
-- a time without a zone does not get out.
pub time_reason :
    (a : RestartAttestation) (reason : String)
    → read_times a ≡ err reason
    → reason ≡ "invalid-attestation-time"
unfolding read_times
time_reason a reason h = ground arith
