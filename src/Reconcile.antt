-- ===== src/Reconcile.antt =====
-- Reconciliation with the exchange: apps/server/src/safety/exchange-reconciliation.ts.
pub mod Report
pub mod Mitigation
pub mod Agreement
pub mod Stale
