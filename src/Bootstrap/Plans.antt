-- ===== src/Bootstrap/Plans.antt =====
-- bin/workspace_harbor_bootstrap.py: the policy and the plans of a repository.
pub mod Paths
pub mod Data
pub mod Sources
pub mod Policy
pub mod Merged
pub mod Recipes
pub mod Limits
pub mod Tasks
pub mod Planning
pub mod Contained
pub mod Inside
pub mod Rooted
pub mod Confined
