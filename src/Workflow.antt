-- ===== src/Workflow.antt =====
-- The research-to-execution workflow: apps/server/src/orchestrator.
pub mod Proposal
pub mod State
pub mod Start
pub mod Approve
pub mod Events
pub mod Outcome
pub mod Spent
pub mod Steps
pub mod Once
pub mod Caps
pub mod Restart
