-- ===== src/Buy/Order.antt =====
-- `submit` of apps/web/src/components/app/create/BuyDcaCard.tsx: the calls of a buy and the rows of its dialog.
use dca_protocol.Base.{
  ℕ, Bool, false, List, [], ◌∷◌, ◌++◌, map, Option, none, some, String, ltb, drop, if◌then◌else◌,
}
use dca_protocol.Base.Int.{pos}
use dca_protocol.Base.Text.{template, join}
use dca_protocol.Plan.Format.{usd, fmt_units}
use dca_protocol.Plan.Steps.{
  step, number, account, hops, erc20_abi, aggregator_router_abi, weth_deposit_abi, TxStep, FlowStep,
  flow_row,
}
use dca_protocol.Plan.Orders.Kinds.{Pay}
use dca_protocol.Routes.Path.{RouteHop, BestRoute}
use dca_protocol.Create.Form.{Viem}
use dca_protocol.Buy.Card.{
  BuyView, token_decimals, token_symbol, token_label, pay_token, amount_wei, best, min_out,
  needs_approval,
}

pub record BuyOrder : Type 0 where
  pub id : ℕ
  pub pay : Pay
  pub flow : List FlowStep
  pub steps : List TxStep
  pub amount_in : ℕ
  pub quoted : ℕ
  pub min_out : ℕ
  pub tokens : List String
  pub requoting : Bool
  pub repriced : Option ℕ

abbrev pub wrap_label : String
wrap_label = "Wrap ETH"

-- `l.slice(0, -1)`
abbrev pub but_last {ℓ} : {A : Type ℓ} → List A → List A
but_last [] = []
but_last (x ∷ []) = []
but_last (x ∷ y ∷ xs) = x ∷ but_last (y ∷ xs)

module _ (viem : Viem) (v : BuyView) where
  buy_label : String
  buy_label = template ("Buy " ∷ token_symbol v ∷ [])

  unfoldable pub buy_step : Pay → ℕ → ℕ → List RouteHop → String → TxStep
  unfolding buy_label
  buy_step p amount_in min path recipient = step buy_label (record {
    address = v.dir.router;
    abi = aggregator_router_abi;
    function_name = "swapWithRoute";
    args =
        account (pay_token v.dir p)
        ∷ account v.dir.dca
        ∷ number amount_in
        ∷ number min
        ∷ account recipient
        ∷ hops path
        ∷ [];
    value = none;
  })

  abbrev units : ℕ → ℕ → String
  units n d = fmt_units viem.format_units (some (pos n)) d 4

  spend_text : Pay → ℕ → String
  spend_text Pay.usdg amount_in = usd amount_in
  spend_text Pay.eth amount_in = template (units amount_in 18 ∷ " WETH" ∷ [])

  through_text : List String → String
  through_text [] = ""
  through_text (t ∷ ts) = template ("through " ∷ join " → " (t ∷ ts) ∷ " " ∷ [])

  unfoldable pub buy_flow : Pay → ℕ → ℕ → List String → FlowStep
  unfolding buy_label spend_text through_text
  buy_flow p amount_in min tokens =
      flow_row buy_label
        (template (
          "Swaps "
          ∷ spend_text p amount_in
          ∷ " "
          ∷ through_text (map (token_label v) (but_last (drop 1 tokens)))
          ∷ "for at least "
          ∷ units min (token_decimals v)
          ∷ " "
          ∷ token_symbol v
          ∷ ", sent to your wallet."
          ∷ []))
        "Bought" none

  approve_label : Pay → String
  approve_label Pay.usdg = "Approve USDG"
  approve_label Pay.eth = "Approve WETH"

  unfoldable pub approve_buy : Pay → ℕ → TxStep
  unfolding approve_label
  approve_buy p amount_in = step (approve_label p) (record {
    address = pay_token v.dir p;
    abi = erc20_abi;
    function_name = "approve";
    args = account v.dir.router ∷ number amount_in ∷ [];
    value = none;
  })

  -- WETH for ETH, before the buy.
  unfoldable pub wrap_steps : Pay → ℕ → List TxStep
  wrap_steps Pay.usdg amount_in = []
  wrap_steps Pay.eth amount_in =
      step wrap_label (record {
        address = v.dir.weth;
        abi = weth_deposit_abi;
        function_name = "deposit";
        args = [];
        value = some amount_in;
      })
      ∷ []

  unfoldable pub buy_steps : ℕ → ℕ → List RouteHop → String → List TxStep
  buy_steps amount_in min path recipient =
      (if needs_approval viem v then approve_buy v.pay amount_in ∷ [] else [])
      ++ (wrap_steps v.pay amount_in ++ (buy_step v.pay amount_in min path recipient ∷ []))

  take_text_of : Pay → ℕ → String
  take_text_of Pay.usdg amount_in =
      template ("Lets the router take " ∷ usd amount_in ∷ " from your wallet." ∷ [])
  take_text_of Pay.eth amount_in = template (
      "Lets the router take "
      ∷ units amount_in 18
      ∷ " WETH from your wallet once it is wrapped."
      ∷ [])

  unfoldable pub approve_buy_row : ℕ → FlowStep
  unfolding approve_label take_text_of
  approve_buy_row amount_in = record {
    label = approve_label v.pay;
    detail = some (take_text_of v.pay amount_in);
    done = some "Approved";
    trailing = none;
    skipped =
        if needs_approval viem v
        then none
        else some "Already approved — the router can take this amount.";
    deferred = none;
  }

  unfoldable pub wrap_rows : Pay → ℕ → List FlowStep
  wrap_rows Pay.usdg amount_in = []
  wrap_rows Pay.eth amount_in =
      flow_row wrap_label
        (template (
          "Wraps "
          ∷ units amount_in 18
          ∷ " ETH into WETH, 1:1 — the router swaps tokens, not native ETH."
          ∷ []))
        "Wrapped" none
      ∷ []

  unfoldable pub buy_rows : ℕ → ℕ → List String → List FlowStep
  buy_rows amount_in min tokens =
      (approve_buy_row amount_in ∷ [])
      ++ (wrap_rows v.pay amount_in ++ (buy_flow v.pay amount_in min tokens ∷ []))

  unfoldable pub order_for : ℕ → String → ℕ → BestRoute → ℕ → BuyOrder
  order_for next_id recipient amount' best' min = record {
    id = next_id;
    pay = v.pay;
    flow = buy_rows amount' min best'.tokens;
    steps = buy_steps amount' min best'.path recipient;
    amount_in = amount';
    quoted = best'.amount_out;
    min_out = min;
    tokens = best'.tokens;
    requoting = false;
    repriced = none;
  }

  unfoldable pub submit_with :
      ℕ → Option String → Option ℕ → Option BestRoute → Option ℕ → Option BuyOrder
  submit_with next_id (some recipient) (some amount') (some best') (some min) =
      if ltb 0 amount' then some (order_for next_id recipient amount' best' min) else none
  submit_with next_id none amount' best' min = none
  submit_with next_id (some recipient) none best' min = none
  submit_with next_id (some recipient) (some amount') none min = none
  submit_with next_id (some recipient) (some amount') (some best') none = none

  -- The order that is frozen; its steps are what runs.
  unfoldable pub submit_buy : ℕ → Option BuyOrder
  submit_buy next_id =
      submit_with next_id v.address (amount_wei viem v) (best viem v) (min_out viem v)
