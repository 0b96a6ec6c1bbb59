-- ===== src/Ide.antt =====
-- bin/workspace_harbor_ide.py: which IntelliJ is configured, and which processes are its own.
pub mod Version
pub mod Process
pub mod Patch
pub mod Listening
pub mod Owned
