-- ===== src/Tests/Plans.antt =====
-- The plans and the runs of a Rust repository and of one with a custom command
-- (bin/workspace_harbor_bootstrap.py).
use serena_workspace_orchest.Prelude.{
  ◌≡◌, refl, subst, ◌⊎◌, Bool, true, false, Option, none, some, List, [], ◌∷◌, String,
  if◌then◌else◌,
}
use serena_workspace_orchest.Prelude.Strings.{codes, is_empty}
use serena_workspace_orchest.Prelude.Int.{pos}
use serena_workspace_orchest.Prelude.Results.{Result, ok}
use serena_workspace_orchest.Json.{bool, str, obj, arr, Fields, field, end, cons, nil, get}
use serena_workspace_orchest.Bootstrap.Decisions.{missing, record_decision, write_state, entry}
use serena_workspace_orchest.Bootstrap.Plans.Paths.{FilePath, child, path_member, path_eq}
use serena_workspace_orchest.Bootstrap.Plans.Data.{
  Plan, Document, absent, parsed, Tree, node, sub, leaf, Files, Host, Raised,
}
use serena_workspace_orchest.Bootstrap.Plans.Policy.{local_config, deep_merge}
use serena_workspace_orchest.Bootstrap.Plans.Merged.{get-deep_merge, is_unique, merged}
use serena_workspace_orchest.Bootstrap.Plans.Planning.{ready, Planned, plan_repository, settled}
use serena_workspace_orchest.Bootstrap.Plans.Confined.{Confined}
use serena_workspace_orchest.Bootstrap.Runs.Status.{
  World, Report, bootstrap_status, prepared_status, approved_status, status_of_planned,
  are_approved_in, are_tools_ready, unapproved,
}
use serena_workspace_orchest.Bootstrap.Runs.Approved.{current_digest}
use serena_workspace_orchest.Bootstrap.Runs.Commands.{Machine, returned}
use serena_workspace_orchest.Bootstrap.Runs.Run.{run_bootstrap}
use serena_workspace_orchest.Bootstrap.Runs.Main.{decide_at, with_decisions}
use serena_workspace_orchest.Bootstrap.Runs.Outcome.{Outcome, IsPrepared}
use serena_workspace_orchest.Bootstrap.Runs.Cached.{next_run_is_cached}
use serena_workspace_orchest.Bootstrap.Runs.Approval.{IsPermitted, run_bootstrap-IsPermitted}
use serena_workspace_orchest.Bootstrap.Runs.Deciding.{decide_at-bootstrap_status}
use serena_workspace_orchest.Bootstrap.Runs.Sorted.{IsSorted, count, sort_plans-IsSorted}
use serena_workspace_orchest.Bootstrap.Runs.Kept.{command_ids}
use serena_workspace_orchest.Bootstrap.Plans.Sources.{repository_at}
use serena_workspace_orchest.Bootstrap.Runs.Tools.{sort_plans}

abbrev root : FilePath
root = codes "r" ∷ []

abbrev cargo : FilePath
cargo = codes "bin" ∷ codes "cargo" ∷ []

abbrev known_files : List FilePath
known_files = child root "Cargo.toml" ∷ child root "Cargo.lock" ∷ cargo ∷ []

abbrev rust_tree : Tree
rust_tree =
    node (codes "Cargo.toml" ∷ codes "Cargo.lock" ∷ [])
      (sub (codes "src") false (node (codes "main.rs" ∷ []) leaf) leaf)

-- A repository whose local configuration is the given document.
abbrev files_with : Document → Files
files_with local = record {
  resolve = λ path. path;
  resolve_strict = λ path. some path;
  exists = λ path. path_member path known_files;
  is_dir = λ path. path_eq path root;
  is_file = λ path. path_member path known_files;
  is_executable = λ path. path_eq path cargo;
  document = λ path. if path_eq path (local_config root) then local else absent;
  text = λ path. ok [];
  sha256 = λ path. if path_member path known_files then some "hash" else none;
  tree = λ path. rust_tree;
  task_list = λ path. none;
  version = λ path. "1.0";
}

abbrev host : Host
host = record {
  codex_task = "/bin/codex-task";
  global_config = codes "config.yml" ∷ [];
  path_entries = "/usr/bin" ∷ "/bin" ∷ [];
  timeout = some (pos 1800);
  has_secret = λ text. false;
  plan_digest = λ source ecosystem cwd argv. ecosystem;
  command_digest = λ plan. "digest";
  fingerprint_digest = λ material. "fingerprint";
}

abbrev machine : Machine
machine = record {
  command = λ program arguments cwd files. (returned (pos 0), files);
  others = λ world. world;
  lock_fault = none;
  remove_fault = none;
  write_fault = none;
}

abbrev world_with : Document → World
world_with local = record {
  files = files_with local;
  success = missing;
  decisions = missing;
  started = [];
}

abbrev fresh : World
fresh = world_with absent

abbrev fetch : Plan
fetch = record {
  plan_id = "rust";
  source = "recipe";
  ecosystem = "rust";
  cwd = root;
  argv = "cargo" ∷ "fetch" ∷ "--locked" ∷ [];
  inputs = child root "Cargo.toml" ∷ child root "Cargo.lock" ∷ [];
  markers = [];
}

abbrev planned : Planned
planned = settled ready (fetch ∷ [])

fetch_is_planned : plan_repository host fresh.files root ≡ ok planned
unfolding plan_repository
fetch_is_planned = refl

abbrev pending_status : Report
pending_status = prepared_status false "fingerprint" planned

abbrev after_fetch : World
after_fetch = record {
  files = fresh.files;
  success = missing;
  decisions = missing;
  started = (cargo, "fetch" ∷ "--locked" ∷ [], root) ∷ [];
}

fetch_is_pending : bootstrap_status host fresh root ≡ ok pending_status
unfolding bootstrap_status status_of_planned are_approved_in approved_status plan_repository
fetch_is_pending = refl

abbrev first_run : Result Raised Report × World
first_run = run_bootstrap host machine root false fresh

abbrev fetched : IsPrepared host machine root fresh first_run
unfolding run_bootstrap bootstrap_status status_of_planned are_approved_in approved_status
    plan_repository command_ids
fetched = record {
  status = pending_status;
  fingerprint = "fingerprint";
  plan_ids = "rust" ∷ [];
  left = after_fetch;
  planned = planned;
  was_pending = refl;
  has_fingerprint = refl;
  all_succeeded = refl;
  ran_in_order = refl;
  is_planned = refl;
  is_same = refl;
  has_markers = refl;
  is_result = refl;
}

next_run_is_cached_example :
    run_bootstrap host machine root false first_run.1
    ≡ (ok (prepared_status true "fingerprint" planned), first_run.1)
unfolding run_bootstrap bootstrap_status status_of_planned are_approved_in approved_status
    plan_repository command_ids are_tools_ready
next_run_is_cached_example =
    next_run_is_cached host machine machine root fresh first_run fetched refl refl

run_bootstrap-IsPermitted_example :
    (first_run.1 ≡ fresh) ⊎ (first_run.1 ≡ fresh) ⊎ IsPermitted host fresh root
run_bootstrap-IsPermitted_example = run_bootstrap-IsPermitted host machine root false fresh

sort_plans-IsSorted_example :
    IsSorted (sort_plans (fetch ∷ fetch ∷ []))
    × ((p : Plan → Bool) → count p (sort_plans (fetch ∷ fetch ∷ [])) ≡ count p (fetch ∷ fetch ∷ []))
sort_plans-IsSorted_example = sort_plans-IsSorted (fetch ∷ fetch ∷ [])

-- The policy of a repository, over the global one.
abbrev global_policy : Fields
global_policy = field "bootstrap" (obj (field "enabled" (bool true) end)) end

abbrev local_policy : Fields
local_policy =
    field "bootstrap"
      (obj (
        field "command" (obj (field "argv" (arr (cons (str "cargo") (cons (str "build") nil))) end))
          end))
      end

get-deep_merge_example :
    get "bootstrap" (deep_merge global_policy local_policy)
    ≡ merged (get "bootstrap" global_policy) (get "bootstrap" local_policy)
unfolding is_unique
get-deep_merge_example = get-deep_merge "bootstrap" global_policy local_policy refl

abbrev custom : World
custom = world_with (parsed (obj local_policy))

abbrev build : Plan
build = record {
  plan_id = "custom";
  source = "command";
  ecosystem = "custom";
  cwd = root;
  argv = "cargo" ∷ "build" ∷ [];
  inputs = [];
  markers = [];
}

abbrev approved_world : World
approved_world =
    with_decisions custom (write_state (field "command:current" (entry "approve" "digest") end))

decide_at-bootstrap_status_example :
    bootstrap_status host approved_world root
    ≡ approved_status host approved_world root (settled ready (build ∷ []))
unfolding plan_repository current_digest decide_at record_decision repository_at
decide_at-bootstrap_status_example =
    decide_at-bootstrap_status host custom approved_world root (settled ready (build ∷ []))
      (λ s e. subst (λ t. is_empty t ≡ false) (digest_of s e) refl) refl refl refl
  where
    digest_of :
        (s : String)
        → ◌≡◌ {A = Result Raised (Option String)} (ok (some "digest")) (ok (some s))
        → "digest" ≡ s
    digest_of s h = cc

custom_command_waits :
    run_bootstrap host machine root true custom
    ≡ (ok (unapproved (settled ready (build ∷ []))), custom)
unfolding run_bootstrap bootstrap_status status_of_planned are_approved_in plan_repository
custom_command_waits = refl
