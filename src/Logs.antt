-- ===== src/Logs.antt =====
-- The event logs of apps/web/src/hooks/useLogs.ts and the plans that are listed: which are live, what was bought,
-- and what holds of them.
pub mod Liveness
pub mod Visible
pub mod Latest
pub mod Hidden
pub mod Series
pub mod Reasons
pub mod Epochs
mod Tests
