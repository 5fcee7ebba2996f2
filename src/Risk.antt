-- ===== src/Risk.antt =====
-- Risk approval: apps/server/src/risk-engine.
pub mod Ticket
pub mod Cache
pub mod Redemption
pub mod Bounds
pub mod Rules
pub mod Engine
pub mod Figures
pub mod Limits
pub mod Verdict
pub mod Approval
pub mod Cooling
