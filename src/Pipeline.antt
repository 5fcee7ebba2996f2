-- ===== src/Pipeline.antt =====
-- The execution pipeline: apps/server/src/execution-pipeline.
pub mod Signal
pub mod Gates
pub mod State
pub mod Execute
pub mod Stages
pub mod Run
pub mod Safety
pub mod Replay
