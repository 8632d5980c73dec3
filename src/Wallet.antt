-- ===== src/Wallet.antt =====
-- Transactions of the web app: apps/web/src/hooks/useTx.ts and the wallet modules beside it.
pub mod Errors
pub mod Describe
pub mod Sync
pub mod Chain
pub mod Sequence
pub mod Ends
pub mod Signing
pub mod Confirming
pub mod Run
pub mod Sends
pub mod Progress
pub mod Memory
mod Tests
