-- ===== src/Bridge.antt =====
-- bin/workspace_harbor_bridge.py: the incidents of the bridge.
pub mod Incident
pub mod Store
pub mod Lookup
pub mod Transitions
pub mod Lifecycle
pub mod Reuse
pub mod Handshake
pub mod Sound
pub mod Healthy
pub mod Start
pub mod Session
pub mod Told
pub mod Reported
pub mod Journal
pub mod Kept
pub mod Config
pub mod Lines
pub mod Keys
pub mod Configured
pub mod Desktop
