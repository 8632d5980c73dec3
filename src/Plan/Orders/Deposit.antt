-- ===== src/Plan/Orders/Deposit.antt =====
-- `buildDepositOrder` of apps/web/src/lib/planSteps.ts.
use dca_protocol.Base.{
  ℕ, ◌+◌, Bool, List, [], ◌∷◌, Option, none, some, String, ltb, if◌then◌else◌, or_else,
}
use dca_protocol.Base.Int.{ℤ, pos}
use dca_protocol.Base.Text.{template}
use dca_protocol.Plan.Format.{usd, fmt_units, fmt_bps}
use dca_protocol.Plan.Steps.{
  step, number, account, erc20_abi, TxParams, TxStep, FlowStep, flow_row, PlanRef, vault_call,
}
use dca_protocol.Plan.Orders.Kinds.{Pay, DepositOrder}
use dca_protocol.Plan.Orders.Labels.{step_approve, step_deposit, optional_text}

pub record DepositInput : Type 0 where
  pub ref : PlanRef
  pub usdg : String
  pub pay : Pay
  pub amount : ℕ
  pub needs_approval : Bool
  pub min_usdg_out : Option ℕ
  pub tolerance_bps : Option ℕ
  pub deposit_fee_bps : ℕ
  pub credited : Option ℕ
  pub balance_before : ℕ
  pub boosted : Bool
  pub vault_name : String

lent_text : Bool → String
lent_text boosted = if boosted then " It is lent on Morpho Blue as it lands." else ""

unfoldable pub approve_params : DepositInput → TxParams
approve_params i = record {
  address = i.usdg;
  abi = erc20_abi;
  function_name = "approve";
  args = account i.ref.vault ∷ number i.amount ∷ [];
  value = none;
}

unfoldable pub approve_row : DepositInput → FlowStep
approve_row i = record {
  label = step_approve;
  detail =
      some (
        template
          ("Lets the " ∷ i.vault_name ∷ " take " ∷ usd i.amount ∷ " from your wallet." ∷ []));
  done = some "Approved";
  trailing = none;
  skipped =
      if i.needs_approval then none else some "Already approved — the vault can take this amount.";
  deferred = none;
}

unfoldable pub deposit_row : DepositInput → FlowStep
unfolding lent_text
deposit_row i =
    flow_row step_deposit
      (template (
        "Adds "
        ∷ usd i.amount
        ∷ " to the plan"
        ∷ (if ltb 0 i.deposit_fee_bps
            then template (", minus the " ∷ fmt_bps (some i.deposit_fee_bps) ∷ " deposit fee" ∷ [])
            else "")
        ∷ "."
        ∷ lent_text i.boosted
        ∷ []))
      "Deposited" (some (usd i.amount))

balance_after_deposit : ℕ → Option ℕ → Option ℕ
balance_after_deposit before none = none
balance_after_deposit before (some credited) = some (before + credited)

-- The calls, by the currency that is paid.
unfoldable pub steps_paid_in : Pay → DepositInput → List TxStep
steps_paid_in Pay.usdg i =
    let send : TxStep =
      step step_deposit
        (vault_call i.ref "depositUSDG" (number i.ref.plan_id ∷ number i.amount ∷ []) none) in
    if i.needs_approval then step step_approve (approve_params i) ∷ send ∷ [] else send ∷ []
steps_paid_in Pay.eth i =
    step step_deposit (
      vault_call i.ref "depositETH" (number i.ref.plan_id ∷ number (or_else i.min_usdg_out 0) ∷ [])
        (some i.amount))
    ∷ []

unfoldable pub deposit_steps : DepositInput → List TxStep
deposit_steps i = steps_paid_in i.pay i

module _ (format_units : ℤ → ℕ → String) where
  unfoldable pub eth_row : DepositInput → FlowStep
  unfolding lent_text
  eth_row i =
      let eth_text = template (fmt_units format_units (some (pos i.amount)) 18 4 ∷ " ETH" ∷ []) in
      flow_row step_deposit
        (template (
          "Swaps "
          ∷ eth_text
          ∷ " to USDG"
          ∷ optional_text i.credited (λ c. template (" (≈ " ∷ usd c ∷ ")" ∷ []))
          ∷ optional_text i.tolerance_bps
              (λ t. template (" within a " ∷ fmt_bps (some t) ∷ " tolerance" ∷ []))
          ∷ " and adds it to the plan. If the pool cannot fill it in full, nothing moves."
          ∷ lent_text i.boosted
          ∷ []))
        "Deposited" (some eth_text)

  unfoldable pub rows_paid_in : Pay → DepositInput → List FlowStep
  rows_paid_in Pay.usdg i = approve_row i ∷ deposit_row i ∷ []
  rows_paid_in Pay.eth i = eth_row i ∷ []

  unfoldable pub deposit_flow : DepositInput → List FlowStep
  deposit_flow i = rows_paid_in i.pay i

  unfoldable pub build_deposit_order : DepositInput → DepositOrder
  unfolding balance_after_deposit
  build_deposit_order i = record {
    base = record { ref = i.ref; steps = deposit_steps i; flow = deposit_flow i };
    pay = i.pay;
    amount = i.amount;
    credited = i.credited;
    balance_after = balance_after_deposit i.balance_before i.credited;
    boosted = i.boosted;
  }
