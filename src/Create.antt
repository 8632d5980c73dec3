-- ===== src/Create.antt =====
-- The create-plan form of apps/web/src/components/app/create/useCreatePlan.ts: what is read, what is derived from it,
-- what "Start plan" sends, and what a vault does with it.
pub mod Kinds
pub mod Types
pub mod Form
pub mod Links
pub mod StockLink
pub mod Decided
pub mod Submit
pub mod Estimates
pub mod Vault
pub mod Ready
pub mod Legs
pub mod Accepted
pub mod Runs
mod Tests
