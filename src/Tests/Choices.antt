-- ===== src/Tests/Choices.antt =====
-- A decision on bin/workspace_harbor_bootstrap.py's languages.
use serena_workspace_orchest.Prelude.{◌≡◌, refl, true, false, none, arith}
use serena_workspace_orchest.Prelude.Results.{ok}
use serena_workspace_orchest.Json.{Fields, field, end}
use serena_workspace_orchest.Bootstrap.Decisions.{
  Repository, Stored, missing, read_state, record_decision, write_state, entry,
}
use serena_workspace_orchest.Bootstrap.Recorded.{record_decision-IsRecorded, IsRecorded}

abbrev repository : Repository
repository = record {
  has_source = λ language. true;
  is_confirmed = λ language. false;
  command_digest = none;
}

abbrev recorded : Stored
recorded = write_state (field "language:rust" (entry "enable" "source-only") end)

rust_is_enabled : record_decision repository "language" "rust" "enable" missing ≡ ok recorded
unfolding record_decision
rust_is_enabled = refl

record_decision-IsRecorded_example :
    (before : Fields) × (after : Fields) × (read_state missing ≡ ok before)
    × (read_state recorded ≡ ok after)
    × IsRecorded repository "language" "rust" "enable" before after
record_decision-IsRecorded_example =
    record_decision-IsRecorded repository "language" "rust" "enable" missing recorded
      (λ s none_is. absurd (ground arith)) rust_is_enabled
