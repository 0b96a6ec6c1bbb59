-- ===== src/Bootstrap/Recorded.antt =====
-- What a recorded decision leaves (bin/workspace_harbor_bootstrap.py).
use serena_workspace_orchest.Prelude.{◌≡◌, subst, false, not, some, String, arith, if◌then◌else◌}
use Prim.Native.String.{String}
use serena_workspace_orchest.Prelude.Strings.{codes, is_empty, str_eq}
use serena_workspace_orchest.Prelude.Results.{ok, raise_if, ok_of_bind, ok_of_then, ok-injective}
use serena_workspace_orchest.Json.{Fields, get, put, get-put}
use serena_workspace_orchest.Bootstrap.Decisions.{
  Stored, is_allowed, read_state, decision_key, decision_subject, entry, Repository,
  record_decision,
}
use serena_workspace_orchest.Bootstrap.Valid.{
  are_valid_items-put, read_state-write_state, read_state-valid, subject_is_valid,
}

-- What a recorded decision leaves in the state.
pub record IsRecorded (repository : Repository) (category subject decision : String)
    (before after : Fields) : Type 0 where
  pub evidence : String
  pub is_evidence : decision_subject repository category subject ≡ ok evidence
  pub lookups :
      (key : String)
      → get key after ≡ (
          if str_eq (decision_key category subject) key
          then some (entry decision evidence)
          else get key before)

-- If a decision is recorded, the file that is left is valid again: it is read as the decisions from
-- before with the given one, and its evidence, at its key. The digest of a
-- command is not empty.
pub record_decision-IsRecorded :
    (repository : Repository) (category subject decision : String) (stored stored' : Stored)
    → ((s : String) → repository.command_digest ≡ some s → is_empty s ≡ false)
    → record_decision repository category subject decision stored ≡ ok stored'
    → (before : Fields) × (after : Fields) × (read_state stored ≡ ok before)
      × (read_state stored' ≡ ok after)
      × IsRecorded repository category subject decision before after
unfolding record_decision
record_decision-IsRecorded repository category subject decision stored stored' filled h =
    let (checked, h1) =
      ok_of_then (raise_if (not (is_allowed (codes category) decision)) "invalid decision") _ h in
    let (evidence, about, h2) = ok_of_bind (decision_subject repository category subject) _ h1 in
    let (before, was, h3) = ok_of_bind (read_state stored) _ h2 in
    let key = decision_key category subject in
    let after = put key (entry decision evidence) before in
    let valid =
      subject_is_valid repository category subject decision evidence filled (ground arith) about in
    let read = read_state-write_state after (
      are_valid_items-put key (entry decision evidence) before valid
        (read_state-valid stored before was)) in
    (
      before,
      after,
      was,
      subst (λ x. read_state x ≡ ok after) (ok-injective h3) read,
      record {
        evidence = evidence;
        is_evidence = about;
        lookups = λ j. get-put key j (entry decision evidence) before;
      },
    )
