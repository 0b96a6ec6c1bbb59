-- ===== src/Opener.antt =====
-- bin/workspace_harbor_opener_queue.py: the launch queue and the single-flight worktree operations.
pub mod Process
pub mod Files
pub mod Owner
pub mod State
pub mod Launch
pub mod Order
pub mod Entries
pub mod Turns
pub mod Moves
pub mod Fairness
pub mod Release
pub mod Identity
pub mod System
pub mod Waiting
pub mod CommandLine
pub mod Released
pub mod Deadline
pub mod Operation
pub mod Legacy
pub mod LegacyText
pub mod Removed
