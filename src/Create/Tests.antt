-- ===== src/Create/Tests.antt =====
-- Concrete forms for apps/web/src/components/app/create/useCreatePlan.ts: runs, and the theorems applied to them.
use dca_protocol.Base.{
  ℕ, ◌+◌, ◌-◌, ◌*◌, ◌^◌, ◌<◌, true, false, List, [], ◌∷◌, Option, none, some, String, ◌==◌,
  if◌then◌else◌, ◌≡◌, refl, Bool, arith,
}
use dca_protocol.Base.Int.{pos}
use dca_protocol.Base.Text.{decimal, str_eq, template}
use dca_protocol.Plan.Format.{to_number}
use dca_protocol.Plan.Orders.Kinds.{Pay}
use dca_protocol.Create.Kinds.{daily, weekly, test, cadence_of}
use dca_protocol.Create.Types.{Directory, Stock, VaultInfo, FeeConfig, find_stock}
use dca_protocol.Create.Form.{Viem, FormView, trim_eth, per_buy_wei, upfront_wei, upfront_usdg}
use dca_protocol.Create.Vault.{Terms, Purse}
use dca_protocol.Create.StockLink.{LinkState, LinkView, hit, kinds, settle, unavailable, off_kind}
use dca_protocol.Create.Decided.{Ends, settle-Ends}
use dca_protocol.Create.Links.{is_plain_amount, parse_frequency_param}
use dca_protocol.Create.Runs.{Foretold, runs-Foretold}

-- Whole amounts only.
abbrev whole : Viem
whole = record {
  parse_units = λ v d. some (to_number v * 10 ^ d);
  parse_ether = λ v. some (to_number v * 10 ^ 18);
  format_units = λ v d. "0";
  format_ether = λ v. decimal v;
}

abbrev dir : Directory
dir = record {
  hourly = "0x1";
  daily = "0x2";
  weekly = "0x3";
  monthly = "0x4";
  registry = "0x5";
  router = "0x6";
  usdg = "0x7";
  weth = "0x8";
  dca = "0x9";
}

abbrev apple : Stock
apple = record {
  address = "0xaa";
  symbol = "AAPL";
  decimals = 18;
  approved = true;
  fee_on_transfer = false;
}

abbrev daily_info : VaultInfo
daily_info = record {
  address = "0x2";
  kind = daily;
  fees = some (record {
    purchase_fee_bps = 75;
    deposit_fee_bps = 100;
    withdraw_fee_bps = 0;
    claim_fee_bps = 0;
    keeper_tip_bps = 0;
    swap_slippage_bps = 50;
  });
  next_epoch_start = some 1000;
  epoch_length = some 86400;
  current_epoch_id = none;
  total_usdg_idle = none;
  total_notional_usdg = none;
  epochs_completed = none;
  auto_distribute_threshold = none;
  fee_halve_threshold = none;
  min_amount_per_epoch = some 10000000;
  min_deposit = some 10000000;
  paused = some false;
  boost_strategy = none;
  boost_assets = none;
}

-- 250 USDG for 100 a day, of a wallet that has allowed nothing.
abbrev filled : FormView
filled = record {
  address = some "0xf0";
  dir = some dir;
  vault = some "0x2";
  kind = daily;
  info = some daily_info;
  dca = none;
  stock_obj = some apple;
  per_buy = "100";
  pay = Pay.usdg;
  upfront = "250";
  boost = true;
  usdg = some 900000000;
  eth = some 5;
  effective_fee_bps = none;
  allowance = none;
  quote = λ from to amount. some (amount * 2);
  quote_is_loading = false;
  running = false;
}

abbrev terms : Terms
terms = record {
  vault = "0x2";
  usdg_token = "0x7";
  paused = false;
  purchasable = λ s. str_eq s "0xaa";
  min_amount_per_epoch = 10000000;
  min_deposit = 10000000;
  deposit_fee_bps = 100;
  swap_slippage_bps = 50;
  router_quote = λ n. n * 2;
  router_swap = λ n. n * 2;
}

abbrev purse : Purse
purse = record { owner = "0xf0"; usdg = 900000000; eth = 5; allowance = 0; plans = [] }

hundred : per_buy_wei whole filled ≡ some 100000000
unfolding per_buy_wei to_number dca_protocol.Create.Form.safe_parse dca_protocol.Create.Types.trim
hundred = refl

abbrev bought_if_any : Option Stock → Bool
bought_if_any none = true
bought_if_any (some s) = terms.purchasable s.address

abbrev usdg_of : Option Directory → String
usdg_of none = ""
usdg_of (some d) = d.usdg

funding : upfront_usdg whole filled ≡ some (pos 247500000)
unfolding upfront_usdg upfront_wei to_number dca_protocol.Create.Form.safe_parse
    dca_protocol.Create.Types.trim dca_protocol.Create.Form.deposit_fee_bps
    dca_protocol.Plan.Format.fee_of
funding = refl

runs-Foretold_example : Foretold whole filled 247500000 100000000
runs-Foretold_example = runs-Foretold whole filled 247500000 100000000 funding hundred (omega arith)

four_decimals : trim_eth "0.120045" ≡ "0.12"
unfolding trim_eth dca_protocol.Plan.Format.before_dot dca_protocol.Plan.Format.after_dot
    dca_protocol.Plan.Format.strip_zeros dca_protocol.Base.Text.take_text template
four_decimals = refl

by_ticker : find_stock (apple ∷ []) " aapl " ≡ some apple
unfolding find_stock dca_protocol.Create.Types.trim dca_protocol.Base.Text.to_lower
by_ticker = refl

two_minutes : cadence_of test (some 120) ≡ "Every 2 minutes (local)"
unfolding cadence_of template decimal dca_protocol.Create.Kinds.own_length
    dca_protocol.Create.Kinds.fmt_epoch_length
two_minutes = refl

-- A link to a stock that only the weekly vault buys.
abbrev weekly_only : LinkView
weekly_only = record {
  listed = apple ∷ [];
  list_fresh = true;
  kinds_buying = λ address. some (weekly ∷ []);
  pairs_fresh = true;
  keep_kind = false;
}

abbrev linked : LinkState
linked = record { wanted = some "aapl"; settled = false; kind = daily }

settle-Ends_example :
    Ends
      (settle weekly_only linked).kind
      "aapl"
      (hit weekly_only linked)
      (kinds weekly_only linked)
      (unavailable weekly_only (settle weekly_only linked))
      (off_kind weekly_only (settle weekly_only linked))
    × (weekly_only.keep_kind ≡ true → (settle weekly_only linked).kind ≡ linked.kind)
    × (weekly_only.keep_kind ≡ false → off_kind weekly_only (settle weekly_only linked) ≡ none)
settle-Ends_example = settle-Ends weekly_only linked "aapl" refl refl refl refl

to_weekly : (settle weekly_only linked).kind ≡ weekly
unfolding settle hit kinds find_stock dca_protocol.Create.Types.trim dca_protocol.Base.Text.to_lower
    dca_protocol.Create.Kinds.kind_text
to_weekly = refl

plain : is_plain_amount "50.125" ≡ true
unfolding is_plain_amount
plain = refl

not_plain : is_plain_amount "50.1234567" ≡ false
unfolding is_plain_amount
not_plain = refl

asked_weekly : parse_frequency_param false (some " Weekly") ≡ some weekly
unfolding parse_frequency_param dca_protocol.Create.Types.trim dca_protocol.Base.Text.to_lower
    dca_protocol.Create.Kinds.kind_text dca_protocol.Create.Kinds.vault_kinds
asked_weekly = refl

not_shown : parse_frequency_param false (some "test") ≡ none
unfolding parse_frequency_param dca_protocol.Create.Types.trim dca_protocol.Base.Text.to_lower
    dca_protocol.Create.Kinds.kind_text dca_protocol.Create.Kinds.vault_kinds
not_shown = refl
