-- ===== src/Core.antt =====
-- The runtime's core package: packages/core/src.
pub mod Phases
pub mod Forward
