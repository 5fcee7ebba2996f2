-- ===== src/Order.antt =====
-- Orders: apps/server/src/order-manager.
pub mod Status
pub mod Data
pub mod Manager
pub mod Fill
pub mod Invariant
pub mod Edits
pub mod FillEdits
pub mod Creation
pub mod History
pub mod Answers
pub mod Fills
pub mod FillEffects
pub mod Retry
