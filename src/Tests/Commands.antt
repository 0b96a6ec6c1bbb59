-- ===== src/Tests/Commands.antt =====
-- Runs of bin/workspace_harbor_opener_queue.py's commands.
use serena_workspace_orchest.Prelude.{ℕ, ◌≡◌, refl, true, Option, none, some, [], ◌∷◌}
use serena_workspace_orchest.Opener.Files.{
  Place, private_directory, private_file, atomic_json_write,
}
use serena_workspace_orchest.Opener.Owner.{owner_record, validate_owner}
use serena_workspace_orchest.Opener.State.{load_queue_state}
use serena_workspace_orchest.Opener.CommandLine.{
  StateDir, Setting, released, Executed, execute, release_all, launch_acquire, exit_status,
}
use serena_workspace_orchest.Opener.Released.{IsReleased, execute-IsReleased}
use serena_workspace_orchest.Tests.Data.{alice, bob, both, root, late}
use serena_workspace_orchest.Tests.Queue.{after_alice, queue_of, running, Holds-after_alice}

abbrev place : Place
place = record { folder = private_directory; lock = some private_file }

abbrev setting : Setting
setting = record {
  probe = both;
  has_poll = some true;
  digest_of = λ text. text;
  started = 0;
  polls = late ∷ [];
  legacy = none;
}

-- The first caller has the turn at the launch, and an operation.
abbrev opening : StateDir
opening = record {
  folder = private_directory;
  place = place;
  queue = after_alice;
  operations =
      record {
        digest = "a";
        place = place;
        file = atomic_json_write (owner_record root alice "opening");
      }
      ∷ record {
        digest = "b";
        place = place;
        file = atomic_json_write (owner_record root bob "opening");
      }
      ∷ [];
}

abbrev exit_status_of : Executed → Option ℕ
unfolding exit_status
exit_status_of (none, dir) = none
exit_status_of (some r, dir) = some (exit_status r)

abbrev after_release : StateDir
after_release = (execute setting alice release_all opening).1

release_all_succeeds : exit_status_of (execute setting alice release_all opening) ≡ some 0
unfolding running execute exit_status validate_owner
release_all_succeeds = refl

execute-IsReleased_example : IsReleased alice after_release
unfolding running execute
execute-IsReleased_example =
    execute-IsReleased setting alice opening after_release (queue_of (load_queue_state after_alice))
      (released "all") Holds-after_alice refl

-- The second caller waits until the deadline.
deadline_passes : exit_status_of (execute setting bob (launch_acquire root 50) opening) ≡ some 1
unfolding running execute exit_status validate_owner
deadline_passes = refl
