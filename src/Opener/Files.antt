-- ===== src/Opener/Files.antt =====
-- bin/workspace_harbor_opener_queue.py: the private state files. A file is seen through what
-- `lstat` and `json.loads` tell of it.
use serena_workspace_orchest.Prelude.{
  ℕ, ◌≡◌, refl, Bool, true, false, ◌&&◌, Option, none, some, String, not, ◌==◌,
}
use serena_workspace_orchest.Prelude.Results.{Result, ok, err, ◌>>◌, raise_if}
use serena_workspace_orchest.Json.{Value, obj, Fields, as_dict}
use serena_workspace_orchest.Opener.Process.{Failure, coordination, uncaught}

pub data Kind : Type 0 where
  directory regular other : Kind

-- `mine` says that the owner is the calling user.
pub record Info : Type 0 where
  pub kind : Kind
  pub mode : ℕ
  pub mine : Bool

abbrev pub is_directory : Kind → Bool
is_directory directory = true
is_directory _ = false

abbrev pub is_regular : Kind → Bool
is_regular regular = true
is_regular _ = false

-- What reading a file gives: no text of UTF-8, no JSON or no text at all, or a value.
pub data Contents : Type 0 where
  undecodable malformed : Contents
  json : Value → Contents

pub data File : Type 0 where
  absent : File
  present : Info → Contents → File

-- 0o600 and 0o700
abbrev pub private_file : Info
private_file = record { kind = regular; mode = 0o600; mine = true }

abbrev pub private_directory : Info
private_directory = record { kind = directory; mode = 0o700; mine = true }

-- `_ensure_private_directory`, after its `mkdir`
unfoldable pub ensure_private_directory : Info → Result Failure (Unit {0})
ensure_private_directory info =
    raise_if (not (is_directory info.kind && info.mode == 0o700 && info.mine))
      (coordination "state-invalid" "state directory is not private")

unfoldable pub validate_private_file : Info → String → Result Failure (Unit {0})
validate_private_file info phase = do
  raise_if (not (is_regular info.kind && info.mode == 0o600))
      (coordination phase "state file is not a private regular file")
  raise_if (not info.mine) (coordination phase "state file has an unexpected owner")

-- `_load_json`
unfoldable pub load_json : File → String → Result Failure (Option Fields)
unfolding validate_private_file
load_json absent phase = ok none
load_json (present info contents) phase = do
  validate_private_file info phase
  elim contents [
    | undecodable ↦ err (uncaught "UnicodeDecodeError")
    | malformed ↦ err (coordination phase "state JSON is malformed")
    | json v ↦ elim (as_dict v) [
      | none ↦ err (coordination phase "state JSON is not an object")
      | some d ↦ ok (some d)
    ]
  ]

-- What `_atomic_json_write` leaves in place of the file.
unfoldable pub atomic_json_write : Fields → File
atomic_json_write d = present private_file (json (obj d))

-- The directory of a state file and the lock file beside it, `none` before its first use.
pub record Place : Type 0 where
  pub folder : Info
  pub lock : Option Info

-- The checks on entering `_advisory_lock`. A lock file that it creates gets mode 0o600, and one
-- that was there has passed the check when it is opened.
unfoldable pub advisory_lock : Place → Result Failure (Unit {0})
unfolding ensure_private_directory validate_private_file
advisory_lock place = do
  ensure_private_directory place.folder
  elim place.lock [ none ↦ ok tt | some info ↦ validate_private_file info "state-invalid" ]

-- What is written is read back.
pub load_json-atomic_json_write :
    (d : Fields) (phase : String) → load_json (atomic_json_write d) phase ≡ ok (some d)
unfolding load_json atomic_json_write
load_json-atomic_json_write d phase = refl
