-- ===== src/Codex.antt =====
-- bin/workspace_harbor_codex.py: the attestation that allows a restart of the Codex app, the
-- identity of the app, and the policy on restarts.
pub mod Identifiers
pub mod Attestation
pub mod Validity
pub mod App
pub mod Found
pub mod Policy
pub mod Checkpoint
pub mod Shapes
pub mod Checks
pub mod Checked
