-- ===== src/Plan/Remove.antt =====
-- Removing a plan: the orders of apps/web/src/lib/removeSteps.ts, and what holds of them.
pub mod Types
pub mod Sequence
pub mod Close
pub mod Vault
pub mod Runs
pub mod Again
