-- ===== src/Followups.antt =====
-- voiceagent/followups: call outcomes, follow-up actions, and their scheduled execution.
pub mod Lifecycle
pub mod RetryPolicy
pub mod Outcomes
pub mod Service
pub mod Execution
