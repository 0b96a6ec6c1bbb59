-- ===== src/Routing.antt =====
-- bin/serena_hybrid_routing.py: which backend of the hybrid gateway a tool call goes to.
pub mod Native
pub mod Arguments
pub mod Calls
pub mod Mapped
pub mod Suffixed
pub mod Inside
pub mod Routed
