-- ===== src/Tests.antt =====
-- Concrete runs of the modelled code.
mod Data
mod Orders
mod Safety
mod Risk
mod Approvals
mod Guard
mod Core
mod Pipeline
mod Workflow
mod Engine
mod Reconcile
mod Trade
