-- ===== src/Calls.antt =====
-- voiceagent/calls: the lifecycle of a call session and the service that owns its table.
pub mod Lifecycle
pub mod Service
