-- ===== src/Plan/Orders.antt =====
-- The orders of apps/web/src/lib/planSteps.ts: what each holds, how it is built, and what is said of it.
pub mod Kinds
pub mod Labels
pub mod Deposit
pub mod Exit
pub mod Switches
pub mod Titles
pub mod Outcome
