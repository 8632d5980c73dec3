-- ===== src/Market.antt =====
-- The stocks and the money of the web app, apps/web/src/hooks/useProtocol.ts: which stocks a vault buys and in which
-- order they are offered, what the vaults hold, and what it is worth.
pub mod Buyable
pub mod Ranking
pub mod Caps
pub mod Pinned
pub mod Places
pub mod Offers
pub mod Reading
pub mod Bought
pub mod Worth
mod Tests
