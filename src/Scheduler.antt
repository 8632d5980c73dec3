-- ===== src/Scheduler.antt =====
-- The epoch scheduler, apps/scheduler/src/scheduler.ts.
pub mod Epoch
pub mod Types
pub mod Rpc
pub mod Monad
pub mod Texts
pub mod Time
pub mod Delay
pub mod Receipts
pub mod Caches
pub mod Jobs
pub mod Uncovered
pub mod Loop
pub mod Sending
pub mod Pace
pub mod Wake
pub mod Clock
pub mod Totals
pub mod Batches
pub mod Known
mod Tests
