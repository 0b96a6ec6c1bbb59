-- ===== src/Bootstrap/Runs/Starts.antt =====
-- Where the commands of a run are started (bin/workspace_harbor_bootstrap.py).
use serena_workspace_orchest.Prelude.{all, Bool}
use serena_workspace_orchest.Bootstrap.Plans.Paths.{FilePath, is_within}
use serena_workspace_orchest.Bootstrap.Plans.Confined.{Confined}
use serena_workspace_orchest.Bootstrap.Runs.Status.{World}

-- All commands that were started were started in a directory of the root.
unfoldable pub are_starts_within : FilePath → World → Bool
unfolding is_within
are_starts_within root world = all (λ start. is_within root start.2) world.started
