-- ===== src/Create/Form.antt =====
-- The derived values of `useCreatePlan` in apps/web/src/components/app/create/useCreatePlan.ts, and the field parsers of
-- fields.tsx beside it. What the hooks have read is a record; viem's parsing and printing of amounts is a parameter.
-- A field's text has no sign, since `clean` leaves digits and points, so an amount that parses is not negative.
use dca_protocol.Base.{
  ℕ, ◌+◌, ◌-◌, ◌*◌, ◌/◌, ◌%◌, ◌^◌, Bool, true, false, ◌&&◌, not, List, [], ◌∷◌, Option, none, some,
  String, ltb, leb, ◌==◌, if◌then◌else◌, or_else, is_some,
}
use dca_protocol.Base.Int.{ℤ, pos, negsuc, sub_ℕ}
use dca_protocol.Base.Text.{template, str_eq, take_text}
use dca_protocol.Plan.Format.{before_dot, after_dot, strip_zeros, fee_of, trunc_div}
use dca_protocol.Plan.Orders.Kinds.{Pay}
use dca_protocol.Create.Kinds.{VaultKind}
use dca_protocol.Create.Types.{
  Directory, Stock, FeeConfig, VaultInfo, boost_available, trim, find_by,
}

abbrev pub usdg_decimals : ℕ
usdg_decimals = 6

abbrev pub per_min_fallback : ℕ
per_min_fallback = 10 * 10 ^ usdg_decimals

-- 0.01 ETH
abbrev pub eth_gas_reserve : ℕ
eth_gas_reserve = 10 ^ 16

abbrev pub zap_slippage_bps : ℕ
zap_slippage_bps = 50

-- Amounts in texts; a text that does not parse is an exception there and none here.
pub record Viem : Type 0 where
  pub parse_units : String → ℕ → Option ℕ
  pub parse_ether : String → Option ℕ
  pub format_units : ℤ → ℕ → String
  pub format_ether : ℕ → String

pub record FormView : Type 0 where
  pub address : Option String
  pub dir : Option Directory
  pub vault : Option String
  pub kind : VaultKind
  pub info : Option VaultInfo
  pub dca : Option Stock
  pub stock_obj : Option Stock
  pub per_buy : String
  pub pay : Pay
  pub upfront : String
  pub boost : Bool
  pub usdg : Option ℕ
  pub eth : Option ℕ
  pub effective_fee_bps : Option ℕ
  pub allowance : Option ℕ
  -- What the quote of an amount from one token to another has come back with.
  pub quote : String → String → ℕ → Option ℕ
  pub quote_is_loading : Bool
  pub running : Bool

-- The stock that is picked, by the user, by the link, or neither.
unfoldable pub stock_picked :
    List Stock → String → Bool → Option Stock → Option Stock → Option Stock
stock_picked stocks picked by_link linked preferred =
    if not (str_eq picked "")
    then find_by (λ s. str_eq s.address picked) stocks
    else if by_link
    then elim linked [ none ↦ none | some l ↦ find_by (λ s. str_eq s.address l.address) stocks ]
    else preferred

-- `trimEth`
unfoldable pub trim_eth : String → String
trim_eth v =
    let frac = strip_zeros (take_text 4 (after_dot v)) in
    if str_eq frac "" then before_dot v else template (before_dot v ∷ "." ∷ frac ∷ [])

-- `info?.field`
abbrev pub from_info {ℓ} : {A : Type ℓ} → (VaultInfo → Option A) → Option VaultInfo → Option A
from_info field none = none
from_info field (some info) = field info

-- An amount above zero, or none.
abbrev pub above_zero : Option ℕ → Option ℕ
above_zero none = none
above_zero (some n) = if n == 0 then none else some n

-- What an amount leaves after the deposit fee; a fee above the whole leaves less than nothing.
abbrev pub net_of : ℕ → ℕ → ℤ
net_of amount bps = sub_ℕ amount (fee_of amount bps)

-- Bounds on amounts that may be missing.
abbrev pub exceeds : Option ℕ → ℕ → Bool
exceeds none limit = false
exceeds (some n) limit = ltb limit n

abbrev pub reaches : Option ℕ → ℕ → Bool
reaches none least = false
reaches (some n) least = leb least n

abbrev pub reaches_int : Option ℤ → ℕ → Bool
reaches_int none least = false
reaches_int (some (pos n)) least = leb least n
reaches_int (some (negsuc n)) least = false

module _ (viem : Viem) where
  unfoldable pub safe_parse : String → ℕ → Option ℕ
  safe_parse v d = if str_eq (trim v) "" then none else viem.parse_units (trim v) d

  unfoldable pub safe_parse_eth : String → Option ℕ
  safe_parse_eth v = if str_eq (trim v) "" then none else viem.parse_ether (trim v)

  unfoldable pub parse_in : Pay → String → Option ℕ
  parse_in Pay.usdg v = safe_parse v usdg_decimals
  parse_in Pay.eth v = safe_parse_eth v

  unfoldable pub per_buy_wei : FormView → Option ℕ
  per_buy_wei f = safe_parse f.per_buy usdg_decimals

  unfoldable pub upfront_wei : FormView → Option ℕ
  unfolding parse_in
  upfront_wei f = parse_in f.pay f.upfront

abbrev pub min_per_buy : FormView → ℕ
min_per_buy f = or_else (from_info (λ i. i.min_amount_per_epoch) f.info) per_min_fallback

abbrev pub min_deposit : FormView → ℕ
min_deposit f = or_else (from_info (λ i. i.min_deposit) f.info) per_min_fallback

abbrev pub balance_in : Pay → FormView → ℕ
balance_in Pay.usdg f = or_else f.usdg 0
balance_in Pay.eth f = or_else f.eth 0

unfoldable pub wallet_bal : FormView → ℕ
wallet_bal f = balance_in f.pay f

unfoldable pub eth_max : ℕ → ℕ
eth_max bal = if ltb eth_gas_reserve bal then bal - eth_gas_reserve else 0

fund_max_in : Pay → FormView → ℕ
unfolding eth_max
fund_max_in Pay.usdg f = or_else f.usdg 0
fund_max_in Pay.eth f = eth_max (or_else f.eth 0)

unfoldable pub fund_max : FormView → ℕ
unfolding fund_max_in
fund_max f = fund_max_in f.pay f

share_text : Viem → Pay → ℕ → String
share_text viem Pay.usdg wei = viem.format_units (pos wei) usdg_decimals
share_text viem Pay.eth wei = trim_eth (viem.format_ether wei)

-- HALF and MAX
unfoldable pub fund_share : Viem → FormView → ℕ → String
unfolding share_text
fund_share viem f pct = share_text viem f.pay (fund_max f * pct / 100)

abbrev fee_from : Option FeeConfig → ℕ
fee_from none = 0
fee_from (some fees) = fees.deposit_fee_bps

unfoldable pub deposit_fee_bps : FormView → ℕ
deposit_fee_bps f = fee_from (from_info (λ i. i.fees) f.info)

abbrev pub quoted : FormView → Option Directory → ℤ → Option ℕ
quoted f none net = none
quoted f (some dir) (negsuc n) = none
quoted f (some dir) (pos n) = if n == 0 then none else f.quote dir.weth dir.usdg n

-- `zapQuote.data`: what the ETH converts to, net of the fee.
abbrev pub quote_in : FormView → Pay → Option ℕ → Option ℕ
quote_in f Pay.usdg amount = none
quote_in f Pay.eth none = none
quote_in f Pay.eth (some n) = quoted f f.dir (net_of n (deposit_fee_bps f))

abbrev pub at_worst : ℕ → ℕ
at_worst n = n * (10000 - zap_slippage_bps) / 10000

abbrev credit_of_quote : Option ℕ → Option ℤ
credit_of_quote none = none
credit_of_quote (some q) = some (pos q)

abbrev pub floor_of_quote : Option ℕ → Option ℤ
floor_of_quote none = none
floor_of_quote (some q) = some (pos (at_worst q))

abbrev credit_in : FormView → Pay → Option ℕ → Option ℤ
credit_in f Pay.usdg none = none
credit_in f Pay.usdg (some n) = some (net_of n (deposit_fee_bps f))
credit_in f Pay.eth amount = credit_of_quote (quote_in f Pay.eth amount)

abbrev pub floor_in : FormView → Pay → Option ℕ → Option ℤ
floor_in f Pay.usdg amount = credit_in f Pay.usdg amount
floor_in f Pay.eth amount = floor_of_quote (quote_in f Pay.eth amount)

abbrev pub is_usdg : Pay → Bool
is_usdg Pay.usdg = true
is_usdg Pay.eth = false

-- `a !== undefined && b && b > 0n`: the whole and the part of a division that can be done.
abbrev pub divided : (ℤ → ℕ → ℤ) → Option ℤ → Option ℕ → Option ℤ
divided op (some a) (some b) = if b == 0 then none else some (op a b)
divided op (some a) none = none
divided op none b = none

-- The remainder has the sign of what is divided.
unfoldable pub trunc_rem : ℤ → ℕ → ℤ
trunc_rem (pos n) d = pos (n % d)
trunc_rem (negsuc n) d = sub_ℕ 0 ((n + 1) % d)

abbrev pub is_positive : ℤ → Bool
is_positive (pos n) = ltb 0 n
is_positive (negsuc n) = false

module _ (viem : Viem) (f : FormView) where
  unfoldable pub zap_quote : Option ℕ
  zap_quote = quote_in f f.pay (upfront_wei viem f)

  unfoldable pub upfront_usdg : Option ℤ
  upfront_usdg = credit_in f f.pay (upfront_wei viem f)

  unfoldable pub buys_covered : Option ℤ
  buys_covered = divided trunc_div upfront_usdg (per_buy_wei viem f)

  unfoldable pub last_buy_usdg : Option ℤ
  last_buy_usdg = divided trunc_rem upfront_usdg (per_buy_wei viem f)

  unfoldable pub needs_approval : Bool
  needs_approval =
      is_usdg f.pay
      && exceeds (upfront_wei viem f) 0
      && exceeds (upfront_wei viem f) (or_else f.allowance 0)

  unfoldable pub insufficient : Bool
  insufficient = exceeds (upfront_wei viem f) (wallet_bal f)

  unfoldable pub per_buy_ok : Bool
  per_buy_ok = reaches (above_zero (per_buy_wei viem f)) (min_per_buy f)

  unfoldable pub per_buy_too_small : Bool
  per_buy_too_small =
      exceeds (per_buy_wei viem f) 0 && not (reaches (per_buy_wei viem f) (min_per_buy f))

  unfoldable pub quote_missing : Bool
  quote_missing = not (is_usdg f.pay) && exceeds (upfront_wei viem f) 0 && not (is_some zap_quote)

  unfoldable pub upfront_usdg_floor : Option ℤ
  upfront_usdg_floor = floor_in f f.pay (upfront_wei viem f)

  unfoldable pub funded_enough : Bool
  funded_enough = reaches_int upfront_usdg_floor (min_deposit f)

  unfoldable pub funding_too_small : Bool
  funding_too_small = exceeds (upfront_wei viem f) 0 && is_some upfront_usdg && not funded_enough

  unfoldable pub can_submit : Bool
  can_submit =
      is_some f.address
      && is_some f.vault
      && is_some f.stock_obj
      && per_buy_ok
      && funded_enough
      && not insufficient
      && not quote_missing
      && not f.running

abbrev pub can_boost : FormView → Bool
can_boost f = boost_available f.info
