-- ===== src/Buy/Card.antt =====
-- The derived values of apps/web/src/components/app/create/BuyDcaCard.tsx. What the hooks have read is a record.
use dca_protocol.Base.{
  ℕ, ◌-◌, ◌*◌, ◌/◌, Bool, ◌&&◌, not, List, [], ◌∷◌, ◌++◌, map, Option, none, some, String, ltb,
  ◌==◌, if◌then◌else◌, or_else, is_some,
}
use dca_protocol.Base.Int.{pos}
use dca_protocol.Base.Text.{template, join}
use dca_protocol.Plan.Format.{short, fmt_units}
use dca_protocol.Plan.Orders.Kinds.{Pay}
use dca_protocol.Routes.Path.{BestRoute, same_addr}
use dca_protocol.Create.Types.{Directory}
use dca_protocol.Create.Form.{Viem, eth_gas_reserve, eth_max, exceeds, is_usdg, parse_in}

abbrev pub buy_slippage_bps : ℕ
buy_slippage_bps = 50

unfoldable pub with_slippage : ℕ → ℕ
with_slippage quoted = quoted * (10000 - buy_slippage_bps) / 10000

pub record BuyView : Type 0 where
  pub dir : Directory
  pub address : Option String
  pub pay : Pay
  pub amount : String
  pub usdg : Option ℕ
  pub eth : Option ℕ
  pub allowance : Option ℕ
  -- The best route of an amount from a token, once it is known.
  pub best_route : String → ℕ → Option BestRoute
  pub quote_pending : Bool
  pub no_route_at_probe : Bool
  pub route_at_probe : Bool
  pub decimals : Option ℕ
  pub symbol : Option String
  pub running : Bool

abbrev pub token_decimals : BuyView → ℕ
token_decimals v = or_else v.decimals 18

abbrev pub token_symbol : BuyView → String
token_symbol v = or_else v.symbol "$DCA"

unfoldable pub pay_token : Directory → Pay → String
pay_token d Pay.usdg = d.usdg
pay_token d Pay.eth = d.weth

abbrev balance_of : BuyView → Pay → ℕ
balance_of v Pay.usdg = or_else v.usdg 0
balance_of v Pay.eth = or_else v.eth 0

abbrev most_of : BuyView → Pay → ℕ
most_of v Pay.usdg = or_else v.usdg 0
most_of v Pay.eth = eth_max (or_else v.eth 0)

-- The route of an amount above zero.
abbrev route_for : BuyView → Option ℕ → Option BestRoute
route_for v none = none
route_for v (some n) = if n == 0 then none else v.best_route (pay_token v.dir v.pay) n

abbrev floor_of : Option BestRoute → Option ℕ
floor_of none = none
floor_of (some b) = some (with_slippage b.amount_out)

pay_text : Pay → String
pay_text Pay.usdg = "USDG"
pay_text Pay.eth = "ETH"

other_pay : Pay → String
other_pay Pay.usdg = "ETH"
other_pay Pay.eth = "USDG"

module _ (viem : Viem) (v : BuyView) where
  unfoldable pub amount_wei : Option ℕ
  amount_wei = parse_in viem v.pay v.amount

  unfoldable pub has_amount : Bool
  has_amount = exceeds amount_wei 0

  unfoldable pub best : Option BestRoute
  best = route_for v amount_wei

  unfoldable pub min_out : Option ℕ
  min_out = floor_of best

  unfoldable pub pay_max : ℕ
  pay_max = most_of v v.pay

  unfoldable pub insufficient : Bool
  insufficient = has_amount && exceeds amount_wei (balance_of v v.pay)

  unfoldable pub no_gas_left : Bool
  no_gas_left =
      not (is_usdg v.pay)
      && has_amount
      && not insufficient
      && exceeds amount_wei (eth_max (or_else v.eth 0))

  unfoldable pub quote_failed : Bool
  quote_failed = has_amount && not v.quote_pending && not (is_some best)

  unfoldable pub no_route_for_pay : Bool
  no_route_for_pay = quote_failed && v.no_route_at_probe

  unfoldable pub needs_approval : Bool
  needs_approval = has_amount && exceeds amount_wei (or_else v.allowance 0)

  unfoldable pub can_submit : Bool
  can_submit =
      is_some v.address
      && has_amount
      && not insufficient
      && not no_gas_left
      && is_some min_out
      && not v.running

  gas_hint : String → String
  gas_hint reserve =
      if ltb 0 (eth_max (or_else v.eth 0))
      then template (
          "Leave " ∷ reserve
          ∷ " ETH for gas — every step of the buy is paid for in ETH. MAX does this for you." ∷ [])
      else template (
          "Paying with ETH needs more than " ∷ reserve
          ∷ " ETH in your wallet: that much stays back for the gas of each step." ∷ [])

  unfoldable pub buy_hint : Option String
  unfolding pay_text other_pay gas_hint
  buy_hint =
      if insufficient
      then some (template ("Not enough " ∷ pay_text v.pay ∷ " in your wallet." ∷ []))
      else if no_gas_left
      then some (gas_hint (fmt_units viem.format_units (some (pos eth_gas_reserve)) 18 4))
      else if no_route_for_pay
      then some (
          template (
            "No route from "
            ∷ pay_text v.pay
            ∷ " to "
            ∷ token_symbol v
            ∷ " on this chain — pay with "
            ∷ other_pay v.pay
            ∷ " instead."
            ∷ []))
      else if quote_failed
      then some (
          if v.route_at_probe
          then "No quote for this amount — the route may be too thin. Try a smaller amount."
          else "No quote for this amount.")
      else none

-- How a token of a path reads.
unfoldable pub token_label : BuyView → String → String
token_label v a =
    if same_addr a v.dir.weth
    then "WETH"
    else if same_addr a v.dir.usdg
    then "USDG"
    else if same_addr a v.dir.dca
    then token_symbol v
    else short (some a)

abbrev lead_of : Pay → List String
lead_of Pay.usdg = []
lead_of Pay.eth = "ETH" ∷ []

unfoldable pub route_label : BuyView → Pay → List String → String
route_label v p tokens = join " → " (lead_of p ++ map (token_label v) tokens)
