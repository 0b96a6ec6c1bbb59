-- ===== src/Bootstrap/Plans/Data.antt =====
-- bin/workspace_harbor_bootstrap.py: `BootstrapPlan`, the material of a fingerprint, and what the
-- program reads of its surroundings. The hashes, the test for secrets and the runs of other programs
-- are parameters.
use serena_workspace_orchest.Prelude.{ℕ, Bool, Option, List, String}
use serena_workspace_orchest.Json.{Value}
use serena_workspace_orchest.Prelude.Int.{ℤ}
use serena_workspace_orchest.Prelude.Results.{Result}
use serena_workspace_orchest.Bootstrap.Plans.Paths.{FilePath}

-- `BootstrapPlan`, its paths as the lists of their parts.
pub record Plan : Type 0 where
  pub plan_id : String
  pub source : String
  pub ecosystem : String
  pub cwd : FilePath
  pub argv : List String
  pub inputs : List FilePath
  pub markers : List FilePath

-- What is read at the path of a YAML or a JSON file.
pub data Document : Type 0 where
  absent unreadable undecodable malformed : Document
  parsed : Value → Document

-- A directory: the names of its files, and its directories with whether they are symbolic links.
mutual
  pub data Tree : Type 0 where
    node : List (List ℕ) → Directories → Tree

  pub data Directories : Type 0 where
    sub : List ℕ → Bool → Tree → Directories → Directories
    leaf : Directories

-- The files at one moment. An `OSError` is `none`, and at `text` it says whether it is a permission
-- error; at `task_list` it is `none` if the run of `codex-task list` raises.
pub record Files : Type 0 where
  pub resolve : FilePath → FilePath
  pub resolve_strict : FilePath → Option FilePath
  pub exists : FilePath → Bool
  pub is_dir : FilePath → Bool
  pub is_file : FilePath → Bool
  pub is_executable : FilePath → Bool
  pub document : FilePath → Document
  pub text : FilePath → Result Bool (List ℕ)
  pub sha256 : FilePath → Option String
  pub tree : FilePath → Tree
  pub task_list : FilePath → Option (ℤ × Document)
  pub version : FilePath → String

-- The entry of a plan in the material.
pub record PlanMaterial : Type 0 where
  pub plan : Plan
  pub inputs : List (FilePath × String)
  pub tool : Option FilePath × String
  pub markers : List FilePath

-- The material of a fingerprint; the recipe's version and the runtime are the same in all of one run.
pub record Material : Type 0 where
  pub root : FilePath
  pub plans : List PlanMaterial
  pub config : List (FilePath × String)

pub record Host : Type 0 where
  pub codex_task : String
  pub global_config : FilePath
  pub path_entries : List String
  pub timeout : Option ℤ
  pub has_secret : String → Bool
  pub plan_digest : String → String → FilePath → List String → String
  pub command_digest : Plan → String
  pub fingerprint_digest : Material → String

-- The exceptions that leave the planning and the runs; a permission error is told from the others.
pub data Raised : Type 0 where
  value_error type_error subprocess_error : Raised
  os_error : Bool → Raised
