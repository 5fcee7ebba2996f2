-- ===== src/Guard.antt =====
-- The loop guard: apps/server/src/core/loop-guard.ts.
pub mod LoopGuard
pub mod Depths
pub mod Cooldowns
pub mod Retries
