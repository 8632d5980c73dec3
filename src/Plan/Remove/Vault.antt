-- ===== src/Plan/Remove/Vault.antt =====
-- What the calls of a remove order of apps/web/src/lib/removeSteps.ts do, as contracts/src/libraries/PlanExitLib.sol
-- and BoostLib.sol do it: an abstract vault at its address and one of its plans, without its fees, its events and the
-- other plans. What the strategy makes of a deposit is a parameter.
use dca_protocol.Base.{
  ℕ, ◌+◌, ◌*◌, ◌/◌, ◌-◌, Bool, true, false, String, not, ◌&&◌, List, [], ◌∷◌, ◌++◌, Option, none,
  some, ltb, ◌==◌, if◌then◌else◌, ◌≡◌, refl,
}
use dca_protocol.Base.Text.{str_eq}
use dca_protocol.Plan.Steps.{max_uint256, Arg, number, flag, account, hops, TxParams, TxStep}
use dca_protocol.Plan.Remove.Types.{FreshPlan, usdg_out, is_empty_plan}

-- What lending leaves: the shares minted for the plan, and what the pool then holds in all.
pub record Lent : Type 0 where
  pub shares : ℕ
  pub pool_assets : ℕ
  pub total_shares : ℕ

-- Where a plan is held, and how its vault stands: whether a purchase is running, whether boosting is open (the vault
-- not paused, a strategy set), and what the strategy makes of a deposit, if it takes it.
pub record Site : Type 0 where
  pub vault : String
  pub plan_id : ℕ
  pub pending : Bool
  pub boost_open : Bool
  pub lend : ℕ → Option Lent

-- A plan in the vault's index, or dropped from it.
pub record Held : Type 0 where
  pub plan : FreshPlan
  pub listed : Bool

abbrev pub amount_asked : ℕ → ℕ → ℕ
amount_asked asked all = if asked == max_uint256 then all else asked

-- Unboosting brings the boosted balance back and burns the shares.
abbrev pub unboosted : FreshPlan → FreshPlan
unboosted p = record p {
  boosted = false;
  usdg_idle = usdg_out p;
  boost_shares = 0;
  boost_value = 0;
}

-- `BoostLib.valueOf`
abbrev shares_value : ℕ → Lent → ℕ
shares_value shares l = shares * (l.pool_assets + 1) / (l.total_shares + 1)

-- Idle USDG is lent, and the plan marked.
unfoldable pub lent_out : FreshPlan → Option Lent → Option FreshPlan
lent_out p none = none
lent_out p (some l) = some (record p {
  boosted = true;
  usdg_idle = 0;
  boost_shares = p.boost_shares + l.shares;
  boost_value = shares_value (p.boost_shares + l.shares) l;
})

-- `BoostLib.setPlanBoost`
unfoldable pub set_boost : Site → FreshPlan → Bool → Option FreshPlan
set_boost s p true =
    if not s.boost_open
    then none
    else if p.usdg_idle == 0
    then some (record p { boosted = true })
    else lent_out p (s.lend p.usdg_idle)
set_boost s p false =
    some (if p.boost_shares == 0 then record p { boosted = false } else unboosted p)

unfoldable pub with_plan : Held → Option FreshPlan → Option Held
with_plan h none = none
with_plan h (some p) = some (record h { plan = p })

-- Idle USDG is paid out first; shares of a boosted balance stay.
abbrev pub paid_out : ℕ → FreshPlan → FreshPlan
paid_out amount p = record p {
  usdg_idle = p.usdg_idle - amount;
  boost_value = p.boost_value - (amount - p.usdg_idle);
}

abbrev pub claimed : ℕ → FreshPlan → FreshPlan
claimed amount p = record p { stock_accrued = p.stock_accrued - amount }

-- A call on the plan, or none when it reverts: an empty leg is a ZeroAmount, more than there is
-- InsufficientIdle or InsufficientAccrued, a plan that holds anything PlanNotEmpty, and a running
-- purchase EpochInProgress.
unfoldable pub after_withdraw : ℕ → Held → Option Held
after_withdraw amount h =
    if amount == 0
    then none
    else if ltb (usdg_out h.plan) amount
    then none
    else some (record h { plan = paid_out amount h.plan })

unfoldable pub after_claim : ℕ → Held → Option Held
after_claim amount h =
    if amount == 0
    then none
    else if ltb h.plan.stock_accrued amount
    then none
    else some (record h { plan = claimed amount h.plan })

unfoldable pub after_prune : Bool → Held → Option Held
after_prune pending h =
    if not (is_empty_plan h.plan)
    then none
    else if pending
    then none
    else some (record h { listed = false })

unfoldable pub after_close : Bool → Held → Option Held
after_close pending h = some (record h {
  plan = record (unboosted h.plan) { usdg_idle = 0; stock_accrued = 0 };
  listed = h.listed && pending;
})

-- What follows the plan's id: nothing, an amount, or a flag; other arguments do not decode.
unfoldable pub given_none : Option Held → List Arg → Option Held
given_none after [] = after
given_none after (a ∷ args) = none

unfoldable pub given_amount : (ℕ → Option Held) → List Arg → Option Held
given_amount after (number n ∷ []) = after n
given_amount after (number n ∷ b ∷ args) = none
given_amount after (flag b ∷ args) = none
given_amount after (account b ∷ args) = none
given_amount after (hops b ∷ args) = none
given_amount after [] = none

unfoldable pub given_flag : (Bool → Option Held) → List Arg → Option Held
given_flag after (flag b ∷ []) = after b
given_flag after (flag b ∷ c ∷ args) = none
given_flag after (number n ∷ args) = none
given_flag after (account b ∷ args) = none
given_flag after (hops b ∷ args) = none
given_flag after [] = none

unfoldable pub run_named : Site → Held → String → List Arg → Option Held
run_named s h name args =
    if str_eq name "setPlanBoost"
    then given_flag (λ (on : Bool). with_plan h (set_boost s h.plan on)) args
    else if str_eq name "withdrawIdle"
    then given_amount (λ (asked : ℕ). after_withdraw (amount_asked asked (usdg_out h.plan)) h) args
    else if str_eq name "claim"
    then given_amount (λ (asked : ℕ). after_claim (amount_asked asked h.plan.stock_accrued) h) args
    else if str_eq name "prunePlan"
    then given_none (after_prune s.pending h) args
    else if str_eq name "closePlan"
    then given_none (after_close s.pending h) args
    else none

-- A call on the plan names its id first.
unfoldable pub run_on : Site → Held → String → List Arg → Option Held
run_on s h name (number n ∷ args) = if n == s.plan_id then run_named s h name args else none
run_on s h name (flag b ∷ args) = none
run_on s h name (account b ∷ args) = none
run_on s h name (hops b ∷ args) = none
run_on s h name [] = none

-- A call of another contract, or on another plan, is none of the plan's.
unfoldable pub run_call : Site → Held → TxParams → Option Held
run_call s h c = if str_eq c.address s.vault then run_on s h c.function_name c.args else none

unfoldable pub run_calls : Site → Option Held → List TxStep → Option Held
run_calls at none steps = none
run_calls at (some h) [] = some h
run_calls at (some h) (s ∷ steps) = run_calls at (run_call at h s.params) steps

pub run_calls-append :
    (at : Site) (h : Option Held) (xs ys : List TxStep)
    → run_calls at h (xs ++ ys) ≡ run_calls at (run_calls at h xs) ys
unfolding run_calls
run_calls-append at none [] [] = refl
run_calls-append at none [] (y ∷ ys) = refl
run_calls-append at none (x ∷ xs) ys = none_stays ys
  where
    none_stays : (zs : List TxStep) → none ≡ run_calls at none zs
    none_stays [] = refl
    none_stays (z ∷ zs) = refl
run_calls-append at (some h) [] ys = refl
run_calls-append at (some h) (x ∷ xs) ys = run_calls-append at (run_call at h x.params) xs ys
