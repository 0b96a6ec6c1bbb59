-- ===== src/Tests/Data.antt =====
-- Two callers of bin/workspace_harbor_opener_queue.py, and what `ps` prints of them.
use serena_workspace_orchest.Prelude.{String, if◌then◌else◌, some}
use serena_workspace_orchest.Opener.Process.{completed}
use serena_workspace_orchest.Opener.Launch.{Poll}
use serena_workspace_orchest.Opener.Owner.{OwnerIdentity, Probe}
use serena_workspace_orchest.Opener.Files.{private_directory, private_file}
use serena_workspace_orchest.Prelude.Int.{int_eq, pos}

abbrev pub alice : OwnerIdentity
alice = record {
  request_id = "request-a";
  pid = pos 11;
  process_started = "Mon Jul 6 10:00:00 2026";
  command_token = "opener";
}

abbrev pub bob : OwnerIdentity
bob = record {
  request_id = "request-b";
  pid = pos 12;
  process_started = "Mon Jul 6 10:00:05 2026";
  command_token = "opener";
}

abbrev pub root : String
root = "/home/user/project"

-- Both processes run.
abbrev pub both : Probe
both pid =
    if int_eq pid (pos 11)
    then completed (pos 0) "Mon Jul  6 10:00:00 2026     opener a\n"
    else if int_eq pid (pos 12)
    then completed (pos 0) "Mon Jul  6 10:00:05 2026     opener b\n"
    else completed (pos 1) ""

-- The first process has ended.
abbrev pub bob_only : Probe
bob_only pid =
    if int_eq pid (pos 12)
    then completed (pos 0) "Mon Jul  6 10:00:05 2026     opener b\n"
    else completed (pos 1) ""

abbrev pub late : Poll
late = record {
  others = λ f. f;
  place = record { folder = private_directory; lock = some private_file };
  probe = both;
  now = 6;
  later = 100;
}
