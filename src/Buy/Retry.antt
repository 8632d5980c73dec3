-- ===== src/Buy/Retry.antt =====
-- `retryOrder` of apps/web/src/components/app/create/BuyDcaCard.tsx, in two parts: up to its read of a fresh route, and
-- after it, when the order may have been closed or replaced.
use dca_protocol.Base.{
  ℕ, true, false, ◌&&◌, List, [], ◌∷◌, ◌++◌, Option, none, some, String, ltb, leb, ◌==◌, drop,
  if◌then◌else◌,
}
use dca_protocol.Plan.Steps.{TxStep}
use dca_protocol.Routes.Path.{BestRoute}
use dca_protocol.Create.Form.{Viem}
use dca_protocol.Buy.Card.{BuyView, with_slippage}
use dca_protocol.Buy.Order.{BuyOrder, but_last, buy_step, buy_flow}

-- What a click does before any read: retry as it stands, nothing, or ask for a fresh route.
pub data Click : Type 0 where
  as_it_stands : Click
  ignored : Click
  asks : BuyOrder → ℕ → String → Click

unfoldable pub click_retry : Option BuyOrder → Option String → Option ℕ → Click
click_retry (some o) (some recipient) (some failed_at) =
    if o.requoting then ignored else asks (record o { requoting = true }) failed_at recipient
click_retry none recipient failed_at = as_it_stands
click_retry (some o) none failed_at = as_it_stands
click_retry (some o) (some recipient) none = as_it_stands

-- The order after the read, and the steps that are sent again, if any.
pub record Answer : Type 0 where
  pub order : Option BuyOrder
  pub sent : Option (List TxStep)

-- The floor of the fresh route, and never below the one shown where that can be reached.
unfoldable pub next_floor : ℕ → ℕ → ℕ
next_floor fresh_out shown =
    let floor = with_slippage fresh_out in
    if leb shown fresh_out && ltb floor shown then shown else floor

module _ (viem : Viem) (v : BuyView) where
  unfoldable pub repriced_order : BuyOrder → BestRoute → String → BuyOrder
  repriced_order cur fresh recipient =
      let min = next_floor fresh.amount_out cur.min_out in
      record cur {
        requoting = false;
        quoted = fresh.amount_out;
        min_out = min;
        tokens = fresh.tokens;
        steps =
            but_last cur.steps
            ++ (buy_step viem v cur.pay cur.amount_in min fresh.path recipient ∷ []);
        flow = but_last cur.flow ++ (buy_flow viem v cur.pay cur.amount_in min fresh.tokens ∷ []);
        repriced = if leb cur.min_out fresh.amount_out then none else some cur.min_out;
      }

  unfoldable pub answer_for : BuyOrder → ℕ → String → Option BestRoute → Answer
  answer_for cur failed_at recipient none = record {
    order = some (record cur { requoting = false; repriced = none });
    sent = some (drop failed_at cur.steps);
  }
  answer_for cur failed_at recipient (some fresh) = record {
    order = some (repriced_order cur fresh recipient);
    sent =
        if leb cur.min_out fresh.amount_out
        then some (drop failed_at (repriced_order cur fresh recipient).steps)
        else none;
  }

  -- An answer for an order that is not the open one is dropped.
  unfoldable pub after_read : Option BuyOrder → BuyOrder → ℕ → String → Option BestRoute → Answer
  after_read none asked failed_at recipient fresh = record { order = none; sent = none }
  after_read (some cur) asked failed_at recipient fresh =
      if cur.id == asked.id
      then answer_for cur failed_at recipient fresh
      else record { order = some cur; sent = none }
