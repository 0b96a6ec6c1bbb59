-- ===== src/Codex/Checked.antt =====
-- The checkpoint of a restart, written and read (bin/workspace_harbor_codex.py).
use serena_workspace_orchest.Prelude.{
  ℕ, ◌≤◌, ◌↔◌, sym, ap, ◌≡◌, refl, subst, Bool, true, false, not, ◌||◌, String, arith,
}
use serena_workspace_orchest.Prelude.Strings.{str_eq, eq_iff}
use serena_workspace_orchest.Prelude.Int.{ℤ, pos}
use serena_workspace_orchest.Prelude.Results.{
  Result, err, ok, ◌>>◌, raise_if, or_raise, ok_of_bind, ok_of_then, ok-injective, raise_if-eq-ok,
}
use serena_workspace_orchest.Json.{Value, obj, as_dict}
use serena_workspace_orchest.Codex.Identifiers.{
  check_incident_id, check_uuid, check_safe_identifier,
}
use serena_workspace_orchest.Codex.Shapes.{IsIncident, IsUuid, IsSafe}
use serena_workspace_orchest.Codex.Checks.{
  check_incident_id_iff, check_uuid_iff, check_safe_identifier_iff,
}
use serena_workspace_orchest.Codex.Checkpoint.{
  RelaunchCheckpoint, read_checkpoint, check_checkpoint, load_checkpoint, checkpoint_dict, is_one,
  is_positive, app_executable_text, app_bundle_text,
}

-- The dictionary of a checkpoint is read as the checkpoint.
read_checkpoint-checkpoint_dict :
    (c : RelaunchCheckpoint) → read_checkpoint (checkpoint_dict c) ≡ ok c
unfolding read_checkpoint checkpoint_dict
read_checkpoint-checkpoint_dict c = refl

-- A checkpoint that is well formed.
pub record IsChecked (c : RelaunchCheckpoint) : Type 0 where
  pub schema : c.schema_version ≡ pos 1
  pub incident : IsIncident c.incident_id
  pub thread : IsUuid c.thread_id
  pub heartbeat : IsSafe c.heartbeat_id
  pub doctor : ℕ
  pub pid : (c.doctor_pid ≡ pos doctor) × (1 ≤ doctor)
  pub executable : c.app_identity.executable ≡ "/Applications/ChatGPT.app/Contents/MacOS/ChatGPT"
  pub bundle : c.app_identity.bundle_id ≡ "com.openai.codex"

is_one_lem : (n : ℤ) → is_one n ≡ true → n ≡ pos 1
is_one_lem (pos n) h = ground arith
is_one_lem _ h = absurd (ground arith)

is_positive_lem : (n : ℤ) → is_positive n ≡ true → (m : ℕ) × ((n ≡ pos m) × (1 ≤ m))
is_positive_lem (pos n) h = (n, (refl, ground arith))
is_positive_lem _ h = absurd (ground arith)

same_app :
    (a b : String)
    → (not (str_eq a app_executable_text) || not (str_eq b app_bundle_text)) ≡ false
    → (a ≡ app_executable_text) × (b ≡ app_bundle_text)
same_app a b h = ground (arith, eq_iff a app_executable_text, eq_iff b app_bundle_text)

true_of_not : (b : Bool) → not b ≡ false → b ≡ true
true_of_not b h = ground arith

check_checkpoint-IsChecked : (c : RelaunchCheckpoint) → check_checkpoint c ≡ ok tt → IsChecked c
unfolding check_checkpoint
check_checkpoint-IsChecked c h =
    let (a, h1) =
      ok_of_then (raise_if (not (is_one c.schema_version)) "invalid checkpoint schema") _ h in
    let (incident, h2) = ok_of_then (check_incident_id c.incident_id) _ h1 in
    let (thread, h3) = ok_of_then (check_uuid c.thread_id "invalid checkpoint thread") _ h2 in
    let (heartbeat, h4) =
      ok_of_then (check_safe_identifier c.heartbeat_id "invalid checkpoint heartbeat") _ h3 in
    let (p, h5) =
      ok_of_then (raise_if (not (is_positive c.doctor_pid)) "invalid checkpoint pid") _ h4 in
    let (executable, bundle) = same_app c.app_identity.executable c.app_identity.bundle_id (
      raise_if-eq-ok
        (not (str_eq c.app_identity.executable app_executable_text)
          || not (str_eq c.app_identity.bundle_id app_bundle_text))
        "invalid checkpoint identity" h5) in
    let (doctor, positive) = is_positive_lem c.doctor_pid (
      true_of_not (is_positive c.doctor_pid)
        (raise_if-eq-ok (not (is_positive c.doctor_pid)) "invalid checkpoint pid" p)) in
    record {
      schema = is_one_lem c.schema_version (
          true_of_not (is_one c.schema_version)
            (raise_if-eq-ok (not (is_one c.schema_version)) "invalid checkpoint schema" a));
      incident = (check_incident_id_iff c.incident_id).0 incident;
      thread = (check_uuid_iff c.thread_id "invalid checkpoint thread").0 thread;
      heartbeat =
          (check_safe_identifier_iff c.heartbeat_id "invalid checkpoint heartbeat").0 heartbeat;
      doctor = doctor;
      pid = positive;
      executable = executable;
      bundle = bundle;
    }

is_positive_of : {n : ℤ} (m : ℕ) → (n ≡ pos m) → 1 ≤ m → is_positive n ≡ true
is_positive_of m e low = subst (λ x. is_positive x ≡ true) (sym e) (ground arith)

then_ok :
    (check rest : Result String (Unit {0})) → check ≡ ok tt → rest ≡ ok tt → (check >> rest) ≡ ok tt
then_ok (err e) rest h k = cc
then_ok (ok done) rest h k = k

not_raised : (b : Bool) (reason : String) → b ≡ true → raise_if (not b) reason ≡ ok tt
not_raised true reason h = refl
not_raised false reason h = cc

the_app :
    (a b reason : String)
    → a ≡ app_executable_text
    → b ≡ app_bundle_text
    → raise_if (not (str_eq a app_executable_text) || not (str_eq b app_bundle_text)) reason ≡ ok tt
the_app a b reason e f =
    rw ((eq_iff a app_executable_text).1 e, (eq_iff b app_bundle_text).1 f) refl

one_of : {n : ℤ} → n ≡ pos 1 → is_one n ≡ true
one_of e = ap is_one e

IsChecked-check_checkpoint : (c : RelaunchCheckpoint) → IsChecked c → check_checkpoint c ≡ ok tt
unfolding check_checkpoint
IsChecked-check_checkpoint c h =
    let (doctor, low) = h.pid in
    then_ok _ _ (not_raised (is_one c.schema_version) "invalid checkpoint schema" (one_of h.schema))
      (then_ok _ _ ((check_incident_id_iff c.incident_id).1 h.incident) (
        then_ok _ _ ((check_uuid_iff c.thread_id "invalid checkpoint thread").1 h.thread) (
          then_ok _ _
            ((check_safe_identifier_iff c.heartbeat_id "invalid checkpoint heartbeat").1
              h.heartbeat)
            (then_ok _ _
              (not_raised (is_positive c.doctor_pid) "invalid checkpoint pid"
                (is_positive_of h.doctor doctor low))
              (the_app c.app_identity.executable c.app_identity.bundle_id
                "invalid checkpoint identity" h.executable h.bundle)))))

pub load_checkpoint-IsChecked :
    (payload : Value) (c : RelaunchCheckpoint) → load_checkpoint payload ≡ ok c → IsChecked c
unfolding load_checkpoint
load_checkpoint-IsChecked payload c h =
    let (d, dict, h1) = ok_of_bind (or_raise (as_dict payload) "TypeError") _ h in
    let (checkpoint, fields, h2) = ok_of_bind (read_checkpoint d) _ h1 in
    let (checked, same) = ok_of_then (check_checkpoint checkpoint) (ok checkpoint) h2 in
    subst IsChecked (ok-injective same) (check_checkpoint-IsChecked checkpoint checked)

-- A checkpoint that is written is read back exactly if it is of schema version 1, its incident is 32
-- characters that are a hexadecimal number, its task a UUID, its heartbeat an identifier of 1 to 128
-- safe characters, its process positive, and its identity that of the Codex app.
pub load_checkpoint-checkpoint_dict :
    (c : RelaunchCheckpoint) → (load_checkpoint (obj (checkpoint_dict c)) ≡ ok c) ↔ IsChecked c
unfolding load_checkpoint
load_checkpoint-checkpoint_dict c = (
  load_checkpoint-IsChecked (obj (checkpoint_dict c)) c,
  λ h. rw (read_checkpoint-checkpoint_dict c, IsChecked-check_checkpoint c h) refl,
)
