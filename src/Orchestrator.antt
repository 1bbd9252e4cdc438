-- ===== src/Orchestrator.antt =====
-- The orchestrator (services/orchestrator/recoup_orchestrator): the state of a run, its activities and the
-- workflow that drives them.
pub mod State
pub mod Supervisor
pub mod Activities
pub mod Load
pub mod Workflow
pub mod Grows
pub mod Bounds
pub mod Runs
pub mod Effects
pub mod Agent
pub mod AgentRuns
