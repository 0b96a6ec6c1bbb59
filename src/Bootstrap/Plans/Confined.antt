-- ===== src/Bootstrap/Plans/Confined.antt =====
-- All plans of a repository stay in its root (bin/workspace_harbor_bootstrap.py).
use serena_workspace_orchest.Prelude.{all, ◌≡◌, true, Option, none, some}
use serena_workspace_orchest.Prelude.Results.{Result, ok, err}
use serena_workspace_orchest.Bootstrap.Plans.Paths.{FilePath}
use serena_workspace_orchest.Bootstrap.Plans.Data.{Plan, Raised}
use serena_workspace_orchest.Bootstrap.Plans.Planning.{Planned}
use serena_workspace_orchest.Bootstrap.Plans.Contained.{is_contained}

-- All plans of a result lie in the root.
abbrev pub Confined : FilePath → Result Raised Planned → Type 0
Confined root (ok planned) = all (is_contained root) planned.plans ≡ true
Confined root (err e) = Unit

-- The plan of a task, if there is one, lies in the root.
abbrev OfTask : FilePath → Result Raised (Option Plan) → Type 0
OfTask root (ok (some plan)) = is_contained root plan ≡ true
OfTask root (ok none) = Unit
OfTask root (err e) = Unit
