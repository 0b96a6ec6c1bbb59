-- ===== src/Bootstrap/Runs.antt =====
-- bin/workspace_harbor_bootstrap.py: the status of the plans, and the runs that prepare a worktree.
pub mod Tools
pub mod Approved
pub mod Status
pub mod Commands
pub mod Run
pub mod Main
pub mod Kept
pub mod Outcome
pub mod Cached
pub mod Approval
pub mod Starts
pub mod Deciding
pub mod Sorted
