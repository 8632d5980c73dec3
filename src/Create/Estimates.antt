-- ===== src/Create/Estimates.antt =====
-- The rest of what `useCreatePlan` in apps/web/src/components/app/create/useCreatePlan.ts derives: how long the funding
-- lasts, what it buys at today's price, and the hints under the fields.
use dca_protocol.Base.{
  ℕ, ◌+◌, ◌*◌, ◌/◌, Bool, false, ◌&&◌, ◌||◌, not, [], ◌∷◌, Option, none, some, String, ltb, ◌==◌,
  if◌then◌else◌, or_else, is_some,
}
use dca_protocol.Base.Int.{ℤ, pos, negsuc, scale, ◌+ℤ◌, ◌-ℤ◌, pos_part}
use dca_protocol.Base.Text.{template}
use dca_protocol.Plan.Format.{Fraction, usd}
use dca_protocol.Plan.Funds.{usdg_dust, coverage_copy}
use dca_protocol.Plan.Estimate.{estimate_probe_usdg, stock_for}
use dca_protocol.Plan.Orders.Kinds.{Pay}
use dca_protocol.Create.Kinds.{buys_per_month_of}
use dca_protocol.Create.Types.{Directory, Stock, FeeConfig, first_of}
use dca_protocol.Create.Form.{
  Viem, FormView, from_info, is_positive, min_deposit, per_buy_wei, upfront_usdg, buys_covered,
  last_buy_usdg, insufficient, per_buy_ok, funded_enough, funding_too_small, reaches_int,
}

abbrev pub one_more : Bool → ℕ
one_more b = if b then 1 else 0

abbrev pub runs_of : Option ℤ → Option ℤ → Option ℤ
runs_of none last = none
runs_of (some c) none = some (c +ℤ pos 0)
runs_of (some c) (some l) = some (c +ℤ pos (one_more (is_positive l)))

-- One period for each run after the first.
abbrev pub last_at : Option ℤ → Option ℕ → Option ℕ → Option ℤ
last_at (some (pos n)) (some first) (some len) =
    if n == 0 || len == 0 then none else some (pos first +ℤ scale (pos n -ℤ pos 1) len)
last_at (some (negsuc n)) (some first) (some len) =
    if len == 0 then none else some (pos first +ℤ scale (negsuc n -ℤ pos 1) len)
last_at none first len = none
last_at (some n) none len = none
last_at (some n) (some first) none = none

-- `Math.round(x * 100)`
abbrev rounded_hundreds : Fraction → ℕ
rounded_hundreds x = (200 * x.over + x.under) / (2 * x.under)

abbrev purchase_fee : Option FeeConfig → Option ℕ
purchase_fee none = none
purchase_fee (some fees) = some fees.purchase_fee_bps

abbrev probe_quote : FormView → Option Directory → Option Stock → Option ℕ
probe_quote f (some dir) (some stock) = f.quote dir.usdg stock.address estimate_probe_usdg
probe_quote f none stock = none
probe_quote f (some dir) none = none

abbrev stock_for_known : Option ℕ → Option ℕ → Option ℕ → Option ℤ
stock_for_known (some usdg) probe (some fee) = stock_for usdg probe fee
stock_for_known none probe fee = none
stock_for_known (some usdg) probe none = none

abbrev buys_estimated : Option ℤ → Option ℤ → Bool → Option ℤ
buys_estimated (some c) (some l) funded =
    if funded then some (c +ℤ pos (one_more (reaches_int (some l) usdg_dust))) else none
buys_estimated none l funded = none
buys_estimated (some c) none funded = none

-- What the smaller last buy gets, where it is a cent or more.
abbrev last_stock : ℤ → Option ℕ → ℕ → ℤ
last_stock l probe fee =
    if reaches_int (some l) usdg_dust
    then or_else (stock_for (pos_part l) probe fee) (pos 0)
    else pos 0

-- A count of buys is not negative where the funding suffices.
abbrev total_estimated : Option ℤ → Option ℤ → Option ℤ → Option ℤ → Option ℕ → Option ℕ → Option ℤ
total_estimated (some per_buy) (some buys) (some c) (some l) probe (some fee) =
    some (scale per_buy (pos_part c) +ℤ last_stock l probe fee)
total_estimated per_buy buys c l probe fee = none

abbrev below : Option ℤ → Option ℕ → Bool
below (some (pos n)) (some p) = ltb n p
below (some (negsuc n)) (some p) = not (p == 0)
below none p = false
below (some v) none = false

abbrev pay_text : Pay → String
pay_text Pay.usdg = "USDG"
pay_text Pay.eth = "ETH"

abbrev worth_text : Pay → String
worth_text Pay.usdg = ""
worth_text Pay.eth = " worth of ETH"

module _ (viem : Viem) (f : FormView) where
  unfoldable pub runs : Option ℤ
  runs = runs_of (buys_covered viem f) (last_buy_usdg viem f)

  unfoldable pub last_buy_at : Option ℤ
  last_buy_at =
      last_at runs (from_info (λ i. i.next_epoch_start) f.info)
        (from_info (λ i. i.epoch_length) f.info)

  unfoldable pub monthly : ℕ
  monthly =
      or_else (per_buy_wei viem f) 0
      * rounded_hundreds (buys_per_month_of f.kind (from_info (λ i. i.epoch_length) f.info))
      / 100

  unfoldable pub fee_bps : Option ℕ
  fee_bps = first_of f.effective_fee_bps (purchase_fee (from_info (λ i. i.fees) f.info))

  unfoldable pub est_probe_out : Option ℕ
  est_probe_out = probe_quote f f.dir f.stock_obj

  unfoldable pub est_per_buy : Option ℤ
  est_per_buy =
      if per_buy_ok viem f then stock_for_known (per_buy_wei viem f) est_probe_out fee_bps else none

  unfoldable pub est_buys : Option ℤ
  est_buys = buys_estimated (buys_covered viem f) (last_buy_usdg viem f) (funded_enough viem f)

  unfoldable pub est_total : Option ℤ
  est_total =
      total_estimated est_per_buy est_buys (buys_covered viem f) (last_buy_usdg viem f)
        est_probe_out fee_bps

  unfoldable pub est_pending : Bool
  est_pending =
      per_buy_ok viem f
      && is_some f.stock_obj
      && not (is_some est_per_buy)
      && (f.quote_is_loading || (is_some est_probe_out && not (is_some fee_bps)))

  unfoldable pub fund_hint : Option String
  fund_hint =
      if insufficient viem f
      then some (template ("Not enough " ∷ pay_text f.pay ∷ " in your wallet." ∷ []))
      else if funding_too_small viem f
      then some (
          template
            ("A plan needs at least " ∷ usd (min_deposit f) ∷ worth_text f.pay ∷ " to start." ∷ []))
      else none

  unfoldable pub underfunded : Bool
  underfunded = funded_enough viem f && below (upfront_usdg viem f) (per_buy_wei viem f)

  covers_text : Option ℤ → Option ℤ → Option ℕ → Option String
  covers_text (some c) (some v) (some per_buy') =
      if is_positive c
      then some (template ("covers " ∷ coverage_copy (pos_part v) per_buy' ∷ []))
      else none
  covers_text none v per_buy' = none
  covers_text (some c) none per_buy' = none
  covers_text (some c) (some v) none = none

  unfoldable pub coverage : Option String
  unfolding covers_text
  coverage =
      first_of (covers_text (buys_covered viem f) (upfront_usdg viem f) (per_buy_wei viem f))
        (if underfunded then some "less than one buy" else none)
