-- ===== src/Cli.antt =====
-- The command-line tools of apps/scheduler: arguments, assets and transfers.
pub mod Result
pub mod Arguments
pub mod Assets
pub mod Transfer
pub mod Guards
mod Tests
