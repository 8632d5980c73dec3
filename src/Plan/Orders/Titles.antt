-- ===== src/Plan/Orders/Titles.antt =====
-- `planFlowTitles`, `planFlowDoneLine` and `planErrorHint` of apps/web/src/lib/planSteps.ts.
use dca_protocol.Base.{
  ℕ, Bool, true, false, List, [], ◌∷◌, Option, none, some, String, if◌then◌else◌, any,
}
use dca_protocol.Base.Int.{ℤ}
use dca_protocol.Base.Text.{template, str_eq}
use dca_protocol.Plan.Format.{usd, fmt_usd, fmt_pct, short, Fraction}
use dca_protocol.Plan.Orders.Kinds.{
  PlanOrder, deposit, withdraw, claim, boost, unboost, pause, base_of,
}
use dca_protocol.Plan.Orders.Exit.{stock_text}

-- The headings while it runs, when it is done, and when it failed.
pub record Titles : Type 0 where
  pub running : String
  pub done : String
  pub error : String

abbrev titles : String → String → String → Titles
titles r d e = record { running = r; done = d; error = e }

unfoldable pub plan_flow_titles : PlanOrder → Titles
plan_flow_titles (deposit o) = titles "Depositing" "Deposited" "Not deposited"
plan_flow_titles (withdraw o) = titles "Withdrawing" "Withdrawn" "Not withdrawn"
plan_flow_titles (claim o) =
    titles (template ("Claiming " ∷ o.base.ref.symbol ∷ []))
      (template (o.base.ref.symbol ∷ " claimed" ∷ [])) "Not claimed"
plan_flow_titles (boost o) = titles "Boosting your plan" "Plan boosted" "Not boosted"
plan_flow_titles (unboost o) = titles "Unboosting" "Plan unboosted" "Not unboosted"
plan_flow_titles (pause o) =
    if o.pause
    then titles "Pausing your plan" "Plan paused" "Not paused"
    else titles "Resuming your plan" "Plan resumed" "Not resumed"

unfoldable pub lent_suffix : Bool → String
lent_suffix boosted = if boosted then ", lent on Morpho Blue" else ""

balance_line : Option ℕ → Bool → String
unfolding lent_suffix
balance_line none boosted = "The plan is topped up."
balance_line (some b) boosted = template ("Plan balance ≈ " ∷ usd b ∷ lent_suffix boosted ∷ [])

earning_line : Option Fraction → String
earning_line none = "Earning on Morpho Blue"
earning_line (some apy) =
    template ("Earning " ∷ fmt_pct (some apy) true ∷ " APY on Morpho Blue" ∷ [])

-- Where a claim's stock went.
unfoldable pub claimed_line : Bool → String → String → String
claimed_line to_self amount recipient =
    if to_self
    then template (amount ∷ " is in your wallet" ∷ [])
    else template (amount ∷ " sent to " ∷ short (some recipient) ∷ [])

unfoldable pub paused_line : Bool → String
paused_line p = if p then "No buys until you resume it" else "Buying again from the next period"

unfoldable pub plan_flow_done_line : (ℤ → ℕ → String) → PlanOrder → String
unfolding balance_line earning_line
plan_flow_done_line units (deposit o) = balance_line o.balance_after o.boosted
plan_flow_done_line units (withdraw o) =
    template ("≈ " ∷ fmt_usd (some o.receive) ∷ " sent to your wallet" ∷ [])
plan_flow_done_line units (claim o) =
    claimed_line o.to_self (stock_text units o.base.ref o.receive) o.recipient
plan_flow_done_line units (boost o) = earning_line o.apy
plan_flow_done_line units (unboost o) = template (usd o.back ∷ " is back in the plan" ∷ [])
plan_flow_done_line units (pause o) = paused_line o.pause

is_claim : PlanOrder → Bool
is_claim (claim o) = true
is_claim (deposit o) = false
is_claim (withdraw o) = false
is_claim (boost o) = false
is_claim (unboost o) = false
is_claim (pause o) = false

-- The cases of the switch, in their order, each with the names that lead to it.
hints : PlanOrder → List (List String × String)
unfolding is_claim
hints o =
    (
      "EnforcedPause" ∷ [],
      "The protocol is paused right now. Withdrawals, claims and unboosting still work; deposits and boosting wait until it resumes.",
    )
    ∷ ("BoostUnavailable" ∷ [], "Boost is not available on this vault.")
    ∷ ("NotPlanOwner" ∷ [], "The connected wallet does not own this plan.")
    ∷ (
      "ZeroAmount" ∷ [],
      if is_claim o
          then template (
              "Nothing is left to claim — the "
              ∷ (base_of o).ref.symbol
              ∷ " was already sent."
              ∷ [])
          else "There is nothing left to move.",
    )
    ∷ (
      "InsufficientIdle" ∷ [],
      "The plan holds less than that now — a buy may have spent some of it. Close and try a smaller amount.",
    )
    ∷ (
      "InsufficientAccrued" ∷ [],
      template (
          "The plan holds less "
          ∷ (base_of o).ref.symbol
          ∷ " than that now. Close and try again."
          ∷ []),
    )
    ∷ ("BelowMinimum" ∷ [], "That is below the smallest deposit the vault accepts.")
    ∷ (
      "ERC4626ExceededMaxWithdraw" ∷ "ERC4626ExceededMaxRedeem" ∷ [],
      "Morpho Blue is short of liquidity for the boosted balance right now. Nothing moved; try again later.",
    )
    ∷ (
      "InsufficientOutput" ∷ [],
      "The ETH price moved beyond the tolerance, so nothing was swapped. Close and deposit again for a fresh quote.",
    )
    ∷ (
      "PriceImpactTooHigh" ∷ [],
      "That swap would move the ETH price too much, so nothing was swapped. Try a smaller amount, or pay with USDG.",
    )
    ∷ (
      "NoRoute" ∷ "PartialFill" ∷ [],
      "The pool cannot fill this ETH swap in full right now, so nothing was swapped. Try a smaller amount, or pay with USDG.",
    )
    ∷ []

hint_in : List (List String × String) → String → Option String
hint_in [] name = none
hint_in (c ∷ cs) name = if any (str_eq name) (c.0) then some (c.1) else hint_in cs name

unfoldable pub plan_error_hint : PlanOrder → Option String → Option String
unfolding hints hint_in
plan_error_hint o none = none
plan_error_hint o (some name) = hint_in (hints o) name
