-- ===== src/Bootstrap.antt =====
-- bin/workspace_harbor_bootstrap.py: the decisions of a repository, its plans and their runs.
pub mod Decisions
pub mod Valid
pub mod Recorded
pub mod Plans
pub mod Runs
