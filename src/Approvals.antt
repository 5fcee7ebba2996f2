-- ===== src/Approvals.antt =====
-- The approval queue for trade proposals: apps/server/src/approvals.
pub mod Service
pub mod Signals
pub mod Decisions
pub mod Final
pub mod Overlap
