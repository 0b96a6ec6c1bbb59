-- ===== src/Opener/Removed.antt =====
-- When the old lock directory is removed (bin/workspace_harbor_opener_queue.py).
use serena_workspace_orchest.Prelude.{
  ◌≡◌, ◌≢◌, refl, ◌⊎◌, inl, inr, Bool, true, false, not, ◌&&◌, Option, none, some, String, arith,
  ◌==◌,
}
use serena_workspace_orchest.Prelude.Strings.{codes_eq}
use serena_workspace_orchest.Prelude.Reflect.{codes_eq_of}
use serena_workspace_orchest.Prelude.Results.{
  ok, raise_if, or_raise, ok_of_bind, ok_of_then, or_raise-eq-ok,
}
use serena_workspace_orchest.Opener.Process.{Failure, Details, process_details}
use serena_workspace_orchest.Opener.Files.{
  Info, Kind, directory, regular, is_directory, is_regular, validate_private_file,
}
use serena_workspace_orchest.Opener.Owner.{Probe}
use serena_workspace_orchest.Opener.Legacy.{
  LegacyLock, LegacyOwner, removed_dead, parse_owner, legacy_status, migrate_legacy_lock,
}
use serena_workspace_orchest.Opener.LegacyText.{NamesOwner, parse_owner-NamesOwner}

text_of :
    (text : Option String) (owner : LegacyOwner)
    → parse_owner text ≡ some owner
    → (t : String) × (text ≡ some t) × NamesOwner t owner
unfolding parse_owner
text_of none owner h = cc
text_of (some t) owner h = (t, refl, parse_owner-NamesOwner t owner h)

-- What holds of a lock directory that is removed: it is private and holds the owner's private file
-- alone, the file names an owner, and ps shows no such process or one that started at another time.
pub record IsStale (probe : Probe) (lock : LegacyLock) : Type 0 where
  pub is_directory : lock.info.kind ≡ directory
  pub directory_mode : lock.info.mode ≡ 0o700
  pub directory_mine : lock.info.mine ≡ true
  pub alone : lock.only_owner ≡ true
  pub is_file : lock.owner_info.kind ≡ regular
  pub file_mode : lock.owner_info.mode ≡ 0o600
  pub file_mine : lock.owner_info.mine ≡ true
  pub text : String
  pub is_text : lock.owner_text ≡ some text
  pub owner : LegacyOwner
  pub names : NamesOwner text owner
  pub details : Option Details
  pub shown : process_details (probe owner.pid) ≡ ok details
  pub gone :
      (details ≡ none)
      ⊎ ((found : Details) × (details ≡ some found) × (found.0 ≢ owner.process_started))

legacy_status-gone :
    (owner : LegacyOwner) (details : Option Details)
    → legacy_status owner details ≡ ok removed_dead
    → (details ≡ none)
      ⊎ ((found : Details) × (details ≡ some found) × (found.0 ≢ owner.process_started))
unfolding legacy_status
legacy_status-gone owner none e = inl refl
legacy_status-gone owner (some found) e =
    let other : codes_eq found.0 owner.process_started ≡ false = ground arith in
    inr (found, refl, λ same. cc (other, codes_eq_of same))

a_directory : (kind : Kind) → is_directory kind ≡ true → kind ≡ directory
a_directory directory h = refl
a_directory regular h = cc
a_directory Kind.other h = cc

a_regular : (kind : Kind) → is_regular kind ≡ true → kind ≡ regular
a_regular regular h = refl
a_regular directory h = cc
a_regular Kind.other h = cc

not_raised : (b : Bool) (failure : Failure) → raise_if (not b) failure ≡ ok tt → b ≡ true
not_raised true failure h = refl
not_raised false failure h = cc

private_directory-parts :
    (info : Info)
    → (is_directory info.kind && info.mode == 0o700 && info.mine) ≡ true
    → (info.kind ≡ directory) × (info.mode ≡ 0o700) × (info.mine ≡ true)
private_directory-parts info h =
    let kind : is_directory info.kind ≡ true = ground arith in
    (a_directory info.kind kind, ground arith, ground arith)

private_file-parts :
    (info : Info) (phase : String)
    → validate_private_file info phase ≡ ok tt
    → (info.kind ≡ regular) × (info.mode ≡ 0o600) × (info.mine ≡ true)
unfolding validate_private_file
private_file-parts info phase h =
    let (safe, mine) =
      ok_of_then (raise_if (not (is_regular info.kind && info.mode == 0o600)) _) _ h in
    let both = not_raised (is_regular info.kind && info.mode == 0o600) _ safe in
    let kind : is_regular info.kind ≡ true = ground (arith, both) in
    (a_regular info.kind kind, ground (arith, both), not_raised info.mine _ mine)

-- The old lock directory is removed only if it is a directory of the caller with mode 700, the file
-- `owner` is all that it holds and is a regular file of the caller with mode 600, its three lines name
-- a positive process number, a start time and an absolute project root, and ps shows no such process
-- or one that started at another time.
pub migrate_removes_dead_only :
    (probe : Probe) (lock : LegacyLock)
    → migrate_legacy_lock probe (some lock) ≡ ok removed_dead
    → IsStale probe lock
unfolding migrate_legacy_lock
migrate_removes_dead_only probe lock e =
    let (safe, e1) =
      ok_of_then
        (raise_if (not (is_directory lock.info.kind && lock.info.mode == 0o700 && lock.info.mine))
          _)
        _ e in
    let (only, e2) = ok_of_then (raise_if (not lock.only_owner) _) _ e1 in
    let (valid, e3) = ok_of_then (validate_private_file lock.owner_info "legacy-state") _ e2 in
    let (owner, parsed, e4) = ok_of_bind (or_raise (parse_owner lock.owner_text) _) _ e3 in
    let (details, shown, e5) = ok_of_bind (process_details (probe owner.pid)) _ e4 in
    let (is_dir, directory_mode, directory_mine) =
      private_directory-parts lock.info (not_raised _ _ safe) in
    let (is_file, file_mode, file_mine) = private_file-parts lock.owner_info "legacy-state" valid in
    let (text, is_text, names) =
      text_of lock.owner_text owner (or_raise-eq-ok (parse_owner lock.owner_text) _ parsed) in
    record {
      is_directory = is_dir;
      directory_mode = directory_mode;
      directory_mine = directory_mine;
      alone = not_raised lock.only_owner _ only;
      is_file = is_file;
      file_mode = file_mode;
      file_mine = file_mine;
      text = text;
      is_text = is_text;
      owner = owner;
      names = names;
      details = details;
      shown = shown;
      gone = legacy_status-gone owner details e5;
    }
