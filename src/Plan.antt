-- ===== src/Plan.antt =====
-- The web app of apps/web: the orders a plan's owner sends, and the amounts they show.
pub mod Format
pub mod Funds
pub mod Estimate
pub mod Steps
pub mod Orders
pub mod Credit
pub mod Cover
pub mod Rows
pub mod Receipts
pub mod Remove
mod Tests
