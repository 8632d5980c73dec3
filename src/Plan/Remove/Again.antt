-- ===== src/Plan/Remove/Again.antt =====
-- A remove that stopped half-way: apps/web/src/lib/removeSteps.ts builds its orders from a fresh read of the
-- plan, so a second order takes up what the first has left.
use dca_protocol.Base.{false, Option, none, some, ◌≡◌}
use dca_protocol.Plan.Remove.Types.{FreshPlan}
use dca_protocol.Plan.Remove.Vault.{Held}
use dca_protocol.Plan.Remove.Runs.{cleared}

-- An unboosted plan has no shares, and a plan without shares has no boosted balance.
abbrev pub IsPlain : FreshPlan → Type 0
IsPlain p = (p.boosted ≡ false → p.boost_shares ≡ 0) × (p.boost_shares ≡ 0 → p.boost_value ≡ 0)

-- What a call that did not revert leaves: a plain plan that is cleared as the one before it.
data Keeps (p : FreshPlan) : Option Held → Type 0 where
  reverts : Keeps p none
  goes : {h : Held} → IsPlain h.plan → cleared h.plan ≡ cleared p → Keeps p (some h)
