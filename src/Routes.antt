-- ===== src/Routes.antt =====
-- The best swap route: `readBestRoute` of apps/web/src/hooks/useProtocol.ts, and what holds of its answer.
pub mod Path
pub mod Read
pub mod Walk
pub mod Candidates
pub mod Composed
pub mod Parts
pub mod Best
pub mod Highest
mod Tests
