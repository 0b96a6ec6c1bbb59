-- ===== src/Opener/Legacy.antt =====
-- bin/workspace_harbor_opener_queue.py: the move from the old lock directory, which held one file
-- `owner` of `key=value` lines.
use serena_workspace_orchest.Prelude.{
  ℕ, Bool, false, ◌&&◌, ◌||◌, Option, none, some, List, [], ◌∷◌, String, not, if◌then◌else◌, ◌==◌,
}
use serena_workspace_orchest.Prelude.Int.{ℤ}
use serena_workspace_orchest.Prelude.Digits.{parse_int}
use serena_workspace_orchest.Prelude.Strings.{codes, codes_eq, has_infix, has_prefix, split_lines}
use serena_workspace_orchest.Prelude.Results.{Result, ok, err, ◌>>=◌, ◌>>◌, or_raise, raise_if}
use serena_workspace_orchest.Opener.Process.{Failure, coordination, Details, process_details}
use serena_workspace_orchest.Opener.Files.{Info, is_directory, validate_private_file}
use serena_workspace_orchest.Opener.Owner.{Probe, is_positive}

-- The old lock directory: its status, whether it holds the file `owner` and nothing else, and that
-- file's status and text, `none` if it cannot be read.
pub record LegacyLock : Type 0 where
  pub info : Info
  pub only_owner : Bool
  pub owner_info : Info
  pub owner_text : Option String

pub data LegacyStatus : Type 0 where
  absent removed_dead live : LegacyStatus

abbrev pub TextFields : Type 0
TextFields = List (List ℕ × List ℕ)

unfoldable pub field_of : String → TextFields → Option (List ℕ)
unfolding codes_eq
field_of key [] = none
field_of key ((k, v) ∷ fields) = if codes_eq k (codes key) then some v else field_of key fields

unfoldable pub has_key : List ℕ → TextFields → Bool
unfolding codes_eq
has_key key [] = false
has_key key ((k, v) ∷ fields) = codes_eq k key || has_key key fields

-- `line.partition("=")`; `none` if there is no separator.
unfoldable pub partition : List ℕ → Option (List ℕ × List ℕ)
partition [] = none
partition (c ∷ cs) =
    let rest = partition cs in
    if c == b'=' then some ([], cs) else elim rest [ none ↦ none | some (k, v) ↦ some (c ∷ k, v) ]

-- The fields in the order of their lines; `none` at a line with no separator or a key twice.
unfoldable pub parse_fields : List (List ℕ) → TextFields → Option TextFields
unfolding partition has_key
parse_fields [] fields = some fields
parse_fields (line ∷ lines) fields = elim (partition line) [
  | none ↦ none
  | some (key, value) ↦
      let rest = parse_fields lines ((key, value) ∷ fields) in
      if has_key key fields then none else rest
]

pub record LegacyOwner : Type 0 where
  pub pid : ℤ
  pub process_started : List ℕ

-- The keys are the three expected, and their values are valid.
unfoldable pub legacy_owner : TextFields → Option LegacyOwner
unfolding field_of is_positive
legacy_owner (a ∷ b ∷ c ∷ []) = elim (field_of "pid" (a ∷ b ∷ c ∷ [])) [
  | none ↦ none
  | some pid_text ↦ elim (field_of "process_started" (a ∷ b ∷ c ∷ [])) [
    | none ↦ none
    | some started ↦ elim (field_of "project_root" (a ∷ b ∷ c ∷ [])) [
      | none ↦ none
      | some root ↦ elim (parse_int 10 pid_text) [
        | none ↦ none
        | some pid ↦
            if is_positive pid && not (codes_eq started []) && has_prefix (b'/' ∷ []) root
            then some (record { pid = pid; process_started = started })
            else none
      ]
    ]
  ]
]
legacy_owner _ = none

unfoldable pub parse_owner : Option String → Option LegacyOwner
unfolding parse_fields legacy_owner
parse_owner none = none
parse_owner (some text) = elim (parse_fields (split_lines (codes text)) []) [
  | none ↦ none
  | some fields ↦ legacy_owner fields
]

-- A dead owner's directory is removed; a live one stays.
unfoldable pub legacy_status : LegacyOwner → Option Details → Result Failure LegacyStatus
unfolding codes_eq has_infix
legacy_status owner none = ok removed_dead
legacy_status owner (some details) =
    if not (codes_eq details.0 owner.process_started)
    then ok removed_dead
    else if has_infix (codes "open-codex-project-in-intellij") details.1
    then ok live
    else err (coordination "legacy-state" "legacy live owner identity is ambiguous")

-- `migrate_legacy_lock`; with `removed_dead` the directory and its file are deleted.
unfoldable pub migrate_legacy_lock : Probe → Option LegacyLock → Result Failure LegacyStatus
unfolding parse_owner legacy_status validate_private_file
migrate_legacy_lock probe none = ok absent
migrate_legacy_lock probe (some lock) = do
  raise_if (not (is_directory lock.info.kind && lock.info.mode == 0o700 && lock.info.mine))
      (coordination "legacy-state" "legacy opener lock directory is unsafe")
  raise_if (not lock.only_owner) (coordination "legacy-state" "legacy opener lock is malformed")
  validate_private_file lock.owner_info "legacy-state"
  owner ←
      or_raise (parse_owner lock.owner_text)
        (coordination "legacy-state" "legacy owner is malformed")
  details ← process_details (probe owner.pid)
  legacy_status owner details
