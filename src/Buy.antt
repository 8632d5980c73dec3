-- ===== src/Buy.antt =====
-- The card that buys $DCA, apps/web/src/components/app/create/BuyDcaCard.tsx: what it shows, the order that is frozen when
-- Buy is pressed, and what "Try again" does with it.
pub mod Card
pub mod Order
pub mod Retry
pub mod Built
pub mod Floor
mod Tests
