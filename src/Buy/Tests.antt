-- ===== src/Buy/Tests.antt =====
-- A concrete buy for apps/web/src/components/app/create/BuyDcaCard.tsx: its order, a price that falls, and the theorem.
use dca_protocol.Base.{ℕ, ◌*◌, ◌^◌, false, [], ◌∷◌, none, some, length, ◌≡◌, refl, arith}
use dca_protocol.Base.Text.{decimal}
use dca_protocol.Plan.Format.{to_number}
use dca_protocol.Plan.Orders.Kinds.{Pay}
use dca_protocol.Routes.Path.{RouteHop, BestRoute}
use dca_protocol.Create.Form.{Viem}
use dca_protocol.Buy.Card.{BuyView, with_slippage, can_submit}
use dca_protocol.Buy.Order.{BuyOrder, order_for, submit_buy}
use dca_protocol.Buy.Retry.{after_read, next_floor}
use dca_protocol.Buy.Built.{Kept}
use dca_protocol.Buy.Floor.{pressed, after_read-KeepsFloor}

abbrev whole : Viem
whole = record {
  parse_units = λ v d. some (to_number v * 10 ^ d);
  parse_ether = λ v. some (to_number v * 10 ^ 18);
  format_units = λ v d. "0";
  format_ether = λ v. decimal v;
}

abbrev hop : RouteHop
hop = record { protocol = 3; token_in = "0x8"; token_out = "0x9"; fee = 3000; extra = "0x" }

abbrev route : ℕ → BestRoute
route n = record { amount_out = n; path = hop ∷ []; tokens = "0x8" ∷ "0x9" ∷ [] }

-- Two ETH for the token, of a wallet that has allowed none.
abbrev card : BuyView
card = record {
  dir = record {
    hourly = "0x1";
    daily = "0x2";
    weekly = "0x3";
    monthly = "0x4";
    registry = "0x5";
    router = "0x6";
    usdg = "0x7";
    weth = "0x8";
    dca = "0x9";
  };
  address = some "0xf0";
  pay = Pay.eth;
  amount = "2";
  usdg = none;
  eth = some (9 * 10 ^ 18);
  allowance = none;
  best_route = λ token n. some (route 40000);
  quote_pending = false;
  no_route_at_probe = false;
  route_at_probe = false;
  decimals = some 18;
  symbol = some "mDCA";
  running = false;
}

abbrev bought : BuyOrder
bought = order_for whole card 1 "0xf0" (2 * 10 ^ 18) (route 40000) 39800

pressed_now : submit_buy whole card 1 ≡ some bought
unfolding submit_buy dca_protocol.Buy.Order.submit_with dca_protocol.Buy.Card.amount_wei
    dca_protocol.Buy.Card.best dca_protocol.Buy.Card.min_out with_slippage
    dca_protocol.Create.Form.parse_in dca_protocol.Create.Form.safe_parse_eth
    dca_protocol.Create.Types.trim to_number dca_protocol.Buy.Card.pay_token
pressed_now = refl

three_steps : length bought.steps ≡ 3
unfolding order_for dca_protocol.Buy.Order.buy_steps dca_protocol.Buy.Order.wrap_steps
    dca_protocol.Buy.Card.needs_approval dca_protocol.Buy.Card.has_amount
    dca_protocol.Buy.Card.amount_wei dca_protocol.Create.Form.parse_in
    dca_protocol.Create.Form.safe_parse_eth dca_protocol.Create.Types.trim to_number
three_steps = refl

after_read-KeepsFloor_example :
    Kept whole card bought
      (after_read whole card (some bought) bought 2 "0xf0" (some (route 39000)))
after_read-KeepsFloor_example =
    after_read-KeepsFloor whole card bought bought 2 "0xf0" (some (route 39000)) refl
      (pressed 1 pressed_now) (rw three_steps (omega arith))

-- A better price raises the floor; one within the tolerance keeps it; a worse one lowers it.
three_floors :
    (next_floor 50000 39800 ≡ 49750)
    × (next_floor 39900 39800 ≡ 39800)
    × (next_floor 39000 39800 ≡ 38805)
unfolding next_floor with_slippage
three_floors = (refl, refl, refl)
