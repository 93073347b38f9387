-- ===== src/Workflow.antt =====
-- voiceagent/workflows: the call workflow's definition, its validation and its execution.
pub mod Graph
pub mod Config
pub mod Predicates
pub mod Service
pub mod Steps
pub mod Executor
