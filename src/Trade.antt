-- ===== src/Trade.antt =====
-- Trades made of fills: apps/server/src/trade-engine/trade-engine.ts.
pub mod State
pub mod Engine
pub mod Redelivery
pub mod Mirror
pub mod Aggregate
pub mod Closing
pub mod Late
