-- ===== src/Tests/Operations.antt =====
-- Runs of the worktree operations of bin/workspace_harbor_opener_queue.py.
use serena_workspace_orchest.Prelude.{
  ℕ, ◌≡◌, ◌↔◌, ◌⊎◌, refl, Bool, true, false, Option, none, some, List, [], ◌∷◌, String, arith, inl,
  inr,
}
use serena_workspace_orchest.Prelude.Results.{ok}
use serena_workspace_orchest.Prelude.Int.{pos}
use serena_workspace_orchest.Prelude.Strings.{codes}
use serena_workspace_orchest.Json.{get}
use serena_workspace_orchest.Opener.Process.{process_details, completed}
use serena_workspace_orchest.Opener.Files.{
  File, load_json, atomic_json_write, private_file, private_directory,
}
use serena_workspace_orchest.Opener.Owner.{owner_record, record_is_live, record_identity, matches}
use serena_workspace_orchest.Opener.Operation.{waits, operation_round, release_operation}
use serena_workspace_orchest.Opener.Operation.Single.{Settled, Vacant, Owned, operation_granted_iff}
use serena_workspace_orchest.Opener.Legacy.{LegacyLock, migrate_legacy_lock}
use serena_workspace_orchest.Opener.Removed.{IsStale, migrate_removes_dead_only}
use serena_workspace_orchest.Tests.Data.{alice, bob, both, bob_only, root}

-- The operation record of the first caller.
abbrev held : File
held = atomic_json_write (owner_record root alice "opening")

running_operations : Unit {0}
unfolding operation_round load_json atomic_json_write owner_record record_is_live record_identity
    matches get release_operation process_details
running_operations = tt

operation_granted_iff_example :
    Settled
      (Vacant both (some (owner_record root alice "opening"))
        ⊎ Owned (some (owner_record root alice "opening")) bob)
      held
      held
      bob
      waits
unfolding running_operations
operation_granted_iff_example =
    operation_granted_iff both root bob 5 0 false held held waits
      (some (owner_record root alice "opening")) refl refl

abbrev old_lock : LegacyLock
old_lock = record {
  info = private_directory;
  only_owner = true;
  owner_info = private_file;
  owner_text =
      some "pid=11\nprocess_started=Mon Jul 6 10:00:00 2026\nproject_root=/home/user/project\n";
}

migrate_removes_dead_only_example : IsStale bob_only old_lock
unfolding migrate_legacy_lock process_details serena_workspace_orchest.Prelude.Digits.parse_int
migrate_removes_dead_only_example = migrate_removes_dead_only bob_only old_lock refl

process_details_runs :
    process_details (completed (pos 0) "  Mon Jul  6 10:00:00 2026 /bin/sh -c run\n")
    ≡ ok (some (codes "Mon Jul 6 10:00:00 2026", codes "/bin/sh -c run"))
unfolding process_details
process_details_runs = refl
