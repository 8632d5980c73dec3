-- ===== src/Create/Submit.antt =====
-- `submit` and `closeFlow` of apps/web/src/components/app/create/useCreatePlan.ts: the calls that are sent, the rows of
-- the dialog, and the order that is frozen for it.
use dca_protocol.Base.{
  ℕ, Bool, false, ◌&&◌, List, [], ◌∷◌, Option, none, some, String, ◌==◌, if◌then◌else◌, or_else,
}
use dca_protocol.Base.Int.{pos}
use dca_protocol.Base.Text.{template, str_eq, to_lower}
use dca_protocol.Plan.Format.{usd, fmt_units}
use dca_protocol.Plan.Steps.{
  step, number, flag, account, plan_vault_abi, erc20_abi, TxStep, FlowStep, flow_row,
}
use dca_protocol.Plan.Orders.Kinds.{Pay}
use dca_protocol.Plan.Orders.Labels.{step_approve}
use dca_protocol.Create.Kinds.{VaultKind, vault_meta}
use dca_protocol.Create.Types.{zero_address, Directory, Stock}
use dca_protocol.Create.Form.{
  Viem, FormView, at_worst, can_boost, upfront_wei, per_buy_wei, zap_quote, needs_approval,
}

abbrev pub step_start : String
step_start = "Start plan"

pub record Order : Type 0 where
  pub flow : List FlowStep
  pub symbol : String
  pub dca : Bool
  pub per_buy : ℕ
  pub kind : VaultKind
  pub funded : String
  pub boost : Bool

abbrev pub usdg_part : Pay → ℕ → ℕ
usdg_part Pay.usdg amount = amount
usdg_part Pay.eth amount = 0

abbrev pub eth_part : Pay → ℕ → ℕ
eth_part Pay.usdg amount = 0
eth_part Pay.eth amount = amount

-- `zapQuote.data ? ... : 0n`, where paid in ETH
abbrev pub least_out : Pay → Option ℕ → ℕ
least_out Pay.usdg quote = 0
least_out Pay.eth none = 0
least_out Pay.eth (some q) = at_worst q

-- `!!dca && stockObj?.address === dca.address`
abbrev is_dca : Option Stock → Stock → Bool
is_dca none stock = false
is_dca (some dca) stock = str_eq stock.address dca.address

abbrev boosted_text : Bool → String
boosted_text boosted = if boosted then " Idle USDG starts earning on Morpho Blue." else ""

module _ (viem : Viem) (f : FormView) where
  unfoldable pub usdg_amount : ℕ
  usdg_amount = usdg_part f.pay (or_else (upfront_wei viem f) 0)

  unfoldable pub eth_value : ℕ
  eth_value = eth_part f.pay (or_else (upfront_wei viem f) 0)

  unfoldable pub min_out : ℕ
  min_out = least_out f.pay (zap_quote viem f)

  unfoldable pub boosted : Bool
  boosted = f.boost && can_boost f

  unfoldable pub approve_step : Directory → String → TxStep
  approve_step dir vault = step step_approve (record {
    address = dir.usdg;
    abi = erc20_abi;
    function_name = "approve";
    args = account vault ∷ number usdg_amount ∷ [];
    value = none;
  })

  unfoldable pub start_step : String → String → ℕ → TxStep
  start_step vault stock_addr per_buy' = step step_start (record {
    address = vault;
    abi = plan_vault_abi;
    function_name = "createPlan";
    args =
        account stock_addr
        ∷ number per_buy'
        ∷ account zero_address
        ∷ number usdg_amount
        ∷ number 0
        ∷ number min_out
        ∷ flag boosted
        ∷ [];
    value = some eth_value;
  })

  unfoldable pub create_steps : Directory → String → String → ℕ → List TxStep
  create_steps dir vault stock_addr per_buy' =
      if needs_approval viem f
      then approve_step dir vault ∷ start_step vault stock_addr per_buy' ∷ []
      else start_step vault stock_addr per_buy' ∷ []

  vault_name : String
  vault_name = template (to_lower (vault_meta f.kind).label ∷ " vault" ∷ [])

  eth_text : String
  eth_text = template (fmt_units viem.format_units (some (pos eth_value)) 18 4 ∷ " ETH" ∷ [])

  unfoldable pub allow_row : FlowStep
  unfolding vault_name
  allow_row = record {
    label = step_approve;
    detail = some (
        template
          ("Lets the " ∷ vault_name ∷ " take " ∷ usd usdg_amount ∷ " from your wallet." ∷ []));
    done = some "Approved";
    trailing = none;
    skipped =
        if needs_approval viem f
        then none
        else some "Already approved — the vault can take this amount.";
    deferred = none;
  }

  start_text : Pay → String
  unfolding eth_text
  start_text Pay.usdg = template ("Funds the plan with " ∷ usd usdg_amount ∷ [])
  start_text Pay.eth = template ("Swaps " ∷ eth_text ∷ " to USDG, funds the plan" ∷ [])

  unfoldable pub start_row : FlowStep
  unfolding start_text
  start_row =
      flow_row step_start
        (template (start_text f.pay ∷ " and books the first buy." ∷ boosted_text boosted ∷ []))
        "Plan started" none

  unfoldable pub create_rows : Pay → List FlowStep
  create_rows Pay.usdg = allow_row ∷ start_row ∷ []
  create_rows Pay.eth = start_row ∷ []

  unfoldable pub create_flow : List FlowStep
  unfolding create_rows
  create_flow = create_rows f.pay

  funded_text : Pay → String
  unfolding eth_text
  funded_text Pay.usdg = usd usdg_amount
  funded_text Pay.eth = template (
      eth_text
      ∷ elim (zap_quote viem f) [ none ↦ "" | some q ↦ template (" (≈ " ∷ usd q ∷ ")" ∷ []) ]
      ∷ [])

  unfoldable pub order_of : Stock → ℕ → Order
  unfolding funded_text
  order_of stock per_buy' = record {
    flow = create_flow;
    symbol = stock.symbol;
    dca = is_dca f.dca stock;
    per_buy = per_buy';
    kind = f.kind;
    funded = funded_text f.pay;
    boost = boosted;
  }

  -- What is set and run, unless something is missing.
  unfoldable pub submit_of :
      Option String → Option Stock → Option ℕ → Option Directory → Option (Order × List TxStep)
  submit_of (some vault) (some stock) (some per_buy') (some dir) =
      if per_buy' == 0
      then none
      else some (order_of stock per_buy', create_steps dir vault stock.address per_buy')
  submit_of none stock per_buy' dir = none
  submit_of (some vault) none per_buy' dir = none
  submit_of (some vault) (some stock) none dir = none
  submit_of (some vault) (some stock) (some per_buy') none = none

  unfoldable pub submit : Option (Order × List TxStep)
  submit = submit_of f.vault f.stock_obj (per_buy_wei viem f) f.dir

-- The open order and the funding text, which a success clears.
pub record Dialog : Type 0 where
  pub order : Option Order
  pub upfront : String

unfoldable pub close_flow : Bool → Dialog → Dialog
close_flow was_done d = record { order = none; upfront = if was_done then "" else d.upfront }
