-- ===== src/Orchestrator.antt =====
-- internal/agent/orchestrator: a turn of the agent as a state machine of phases.
pub mod Retry
pub mod Steps
pub mod Loop
pub mod Run
