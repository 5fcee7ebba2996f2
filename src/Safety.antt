-- ===== src/Safety.antt =====
-- Live trading safety: apps/server/src/safety.
pub mod Cancel
pub mod KillSwitch
pub mod CancelAll
pub mod Halting
pub mod Lifecycle
pub mod Shutdown
pub mod HardLimits
pub mod Limits
pub mod Exposure
pub mod Admission
pub mod Monotone
