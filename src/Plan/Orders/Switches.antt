-- ===== src/Plan/Orders/Switches.antt =====
-- `buildBoostOrder`, `buildUnboostOrder` and `buildPauseOrder` of apps/web/src/lib/planSteps.ts.
use dca_protocol.Base.{
  ℕ, Bool, true, false, List, [], ◌∷◌, Option, none, some, String, ltb, if◌then◌else◌,
}
use dca_protocol.Base.Text.{template}
use dca_protocol.Plan.Format.{usd, fmt_pct, Fraction}
use dca_protocol.Plan.Steps.{number, flag, TxStep, flow_row, PlanRef, vault_call}
use dca_protocol.Plan.Orders.Kinds.{BoostOrder, UnboostOrder, PauseOrder}
use dca_protocol.Plan.Orders.Labels.{step_boost, step_unboost}

-- `apy !== undefined ? text of fmtPct(apy, true) : ""`
unfoldable pub rate_text : Option Fraction → String
rate_text none = ""
rate_text (some apy) = template (" at " ∷ fmt_pct (some apy) true ∷ " APY" ∷ [])

unfoldable pub switch_steps : PlanRef → String → String → Bool → List TxStep
switch_steps ref label' function on =
    record {
      label = label';
      params = vault_call ref function (number ref.plan_id ∷ flag on ∷ []) none;
    }
    ∷ []

unfoldable pub build_boost_order : PlanRef → ℕ → Option Fraction → BoostOrder
unfolding switch_steps
build_boost_order ref' usdg_idle apy' = record {
  base = record {
    ref = ref';
    steps = switch_steps ref' step_boost "setPlanBoost" true;
    flow =
        flow_row step_boost
          (if ltb 0 usdg_idle
            then template (
                "Lends the plan's "
                ∷ usd usdg_idle
                ∷ " of idle USDG on Morpho Blue"
                ∷ rate_text apy'
                ∷ ". Each buy pulls back what it spends; deposits are lent as they land."
                ∷ [])
            else template (
                "Nothing is waiting in the plan right now; from here on every deposit is lent on Morpho Blue"
                ∷ rate_text apy'
                ∷ "."
                ∷ []))
          "Earning on Morpho Blue" (if ltb 0 usdg_idle then some (usd usdg_idle) else none)
        ∷ [];
  };
  lend = usdg_idle;
  apy = apy';
}

unfoldable pub build_unboost_order : PlanRef → ℕ → ℕ → UnboostOrder
unfolding switch_steps
build_unboost_order ref' boost_value earned' = record {
  base = record {
    ref = ref';
    steps = switch_steps ref' step_unboost "setPlanBoost" false;
    flow =
        flow_row step_unboost
          (template (
            "Pulls "
            ∷ usd boost_value
            ∷ " back from Morpho Blue into the plan, earnings included. If the market is short of liquidity this fails and nothing moves."
            ∷ []))
          "Back in the plan" (some (usd boost_value))
        ∷ [];
  };
  back = boost_value;
  earned = earned';
}

pub record PauseInput : Type 0 where
  pub ref : PlanRef
  pub pause : Bool
  pub balance : ℕ
  pub boosted : Bool
  pub per_buy : ℕ
  pub next_buy : Option ℕ

unfoldable pub pause_label : Bool → String
pause_label pause = if pause then "Pause plan" else "Resume plan"

pause_detail : PauseInput → String
pause_detail i =
    if i.pause
    then template (
        "Skips every buy until you resume it. The "
        ∷ usd i.balance
        ∷ " stays in the plan"
        ∷ (if i.boosted then ", lent on Morpho Blue and still earning" else "")
        ∷ "; you can still deposit, withdraw and claim."
        ∷ [])
    else template (
        "Buys "
        ∷ i.ref.symbol
        ∷ " again from the next period: up to "
        ∷ usd i.per_buy
        ∷ " each period, or all the plan holds when that is less."
        ∷ [])

unfoldable pub build_pause_order : PauseInput → PauseOrder
unfolding switch_steps pause_label pause_detail
build_pause_order i = record {
  base = record {
    ref = i.ref;
    steps = switch_steps i.ref (pause_label i.pause) "setPlanPaused" i.pause;
    flow =
        flow_row (pause_label i.pause) (pause_detail i) (if i.pause then "Paused" else "Resumed")
          none
        ∷ [];
  };
  pause = i.pause;
  balance = i.balance;
  boosted = i.boosted;
  per_buy = i.per_buy;
  next_buy = i.next_buy;
}
