-- ===== src/Store.antt =====
-- The queries of apps/web/src/lib/persistedQuery.ts that outlive a page: the storage, the cache of a page and the events
-- that change them.
pub mod Entries
pub mod Visits
pub mod Latest
mod Tests
