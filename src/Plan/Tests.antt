-- ===== src/Plan/Tests.antt =====
-- Concrete orders and balances for the modules of apps/web: runs, and the theorems applied to them.
use dca_protocol.Base.{
  ℕ, ◌+◌, ◌-◌, ◌*◌, ◌%◌, ◌≤◌, ◌<◌, suc, Bool, true, false, List, [], ◌∷◌, Option, none, some,
  String, ◌≡◌, refl, ◌↔◌, arith, if◌then◌else◌, ltb,
}
use dca_protocol.Base.Int.{ℤ, pos, negsuc}
use dca_protocol.Base.Text.{decimal, template, two_digits}
use dca_protocol.Plan.Format.{
  fee_of, fmt_usd, fmt_bps, fmt_pct, fmt_units, fmt_units_compact, countdown, parts_of, Fraction,
  usd, short,
}
use dca_protocol.Plan.Funds.{
  deposit_for, full_buys, rest_of, coverage_copy, row_funds_copy, usdg_dust,
}
use dca_protocol.Plan.Estimate.{stock_for}
use dca_protocol.Plan.Steps.{PlanRef, TxStep, step, max_uint256, number, flag}
use dca_protocol.Plan.Orders.Kinds.{Pay, withdraw, base_of}
use dca_protocol.Plan.Orders.Deposit.{DepositInput, build_deposit_order}
use dca_protocol.Plan.Orders.Exit.{
  WithdrawInput, build_withdraw_order, ClaimInput, build_claim_order,
}
use dca_protocol.Plan.Orders.Switches.{
  build_boost_order, build_unboost_order, PauseInput, build_pause_order,
}
use dca_protocol.Plan.Orders.Outcome.{
  Entry, idle_withdrawn, settled_withdraw, plan_outcome_line, is_mine,
}
use dca_protocol.Plan.Remove.Types.{RemoveInput, usdg_out, step_withdraw, step_close, call}
use dca_protocol.Plan.Remove.Sequence.{build_remove_order}
use dca_protocol.Plan.Remove.Close.{build_close_order}
use dca_protocol.Plan.Remove.Vault.{unboosted, Held, Site}
use dca_protocol.Plan.Remove.Runs.{site, held}
use dca_protocol.Plan.Credit.{deposit_for-credits}
use dca_protocol.Plan.Cover.{row_funds_copy-none}
use dca_protocol.Plan.Rows.{
  FlowMatches, orders-FlowMatches, payout_at, withdraw_index-payout, step_labels,
}
use dca_protocol.Plan.Receipts.{settled_withdraw-again, plan_outcome_line-foreign}

-- Whole units only: what `formatUnits` answers for amounts of zero decimals.
whole_units : ℤ → ℕ → String
whole_units (pos n) d = decimal n
whole_units (negsuc n) d = template ("-" ∷ decimal (n + 1) ∷ [])

usd_text : fmt_usd (some (pos 999999999)) ≡ "$1,000.00"
unfolding fmt_usd dca_protocol.Plan.Format.fmt_usd_at dca_protocol.Plan.Format.cents_of
    dca_protocol.Plan.Format.trunc_div dca_protocol.Base.Int.◌+ℤ◌ dca_protocol.Base.Int.scale
    template dca_protocol.Base.Text.grouped two_digits
usd_text = refl

usd_below : fmt_usd (some (negsuc 1499999)) ≡ "-$1.49"
unfolding fmt_usd dca_protocol.Plan.Format.fmt_usd_at dca_protocol.Plan.Format.cents_of
    dca_protocol.Plan.Format.trunc_div dca_protocol.Base.Int.◌+ℤ◌ dca_protocol.Base.Int.scale
    template dca_protocol.Base.Text.grouped two_digits
usd_below = refl

cover_text : coverage_copy 350000000 100000000 ≡ "3 buys + a $50.00 final buy"
unfolding coverage_copy full_buys template dca_protocol.Base.Text.grouped rest_of fmt_usd
    dca_protocol.Plan.Format.fmt_usd_at dca_protocol.Plan.Format.cents_of
    dca_protocol.Plan.Format.trunc_div dca_protocol.Base.Int.◌+ℤ◌ dca_protocol.Base.Int.scale
    two_digits
cover_text = refl

countdown_text : countdown 100000 3599 ≡ "1d 2h 46m"
unfolding countdown parts_of template decimal
countdown_text = refl

units_text : fmt_units whole_units (some (pos 1234567)) 0 4 ≡ "1,234,567"
unfolding fmt_units dca_protocol.Plan.Format.strip_zeros dca_protocol.Base.Text.take_text
    dca_protocol.Plan.Format.after_dot whole_units decimal dca_protocol.Plan.Format.locale_number
    dca_protocol.Plan.Format.before_dot dca_protocol.Base.Text.grouped
    dca_protocol.Plan.Format.to_number
units_text = refl

compact_text : fmt_units_compact (some 100000) 0 ≡ "100k"
unfolding fmt_units_compact template dca_protocol.Plan.Format.trim decimal
compact_text = refl

rate_text : fmt_pct (some (record { over = 494; under = 10000 })) true ≡ "~4.94%"
unfolding fmt_pct template dca_protocol.Plan.Format.hundredths decimal two_digits
rate_text = refl

estimate : stock_for 100000000 (some 2000000) 75 ≡ some (pos 198500000)
unfolding stock_for dca_protocol.Plan.Format.trunc_div dca_protocol.Base.Int.scale fee_of
estimate = refl

abbrev plan_ref : PlanRef
plan_ref = record {
  vault = "0xAbC0000000000000000000000000000000000001";
  plan_id = 7;
  symbol = "AAPL";
  stock_decimals = 0;
  name = some "Apple";
  dca = none;
}

abbrev deposit_input : DepositInput
deposit_input = record {
  ref = plan_ref;
  usdg = "0x5d00000000000000000000000000000000000002";
  pay = Pay.usdg;
  amount = 50000000;
  needs_approval = true;
  min_usdg_out = none;
  tolerance_bps = none;
  deposit_fee_bps = 0;
  credited = some 50000000;
  balance_before = 0;
  boosted = false;
  vault_name = "Daily vault";
}

abbrev withdraw_input : WithdrawInput
withdraw_input = record {
  ref = plan_ref;
  amount = 30000000;
  all = true;
  fee_bps = 25;
  usdg_idle = 10000000;
  balance_before = 30000000;
}

abbrev claim_input : ClaimInput
claim_input = record {
  ref = plan_ref;
  stock = "0x0000000000000000000000000000000000000003";
  amount = 4000;
  usd_value = none;
  fee_bps = 25;
  perk = false;
  perk_threshold = some 100000;
  recipient = "0xDEF0000000000000000000000000000000000004";
  signer = some "0xdef0000000000000000000000000000000000004";
}

abbrev pause_input : PauseInput
pause_input = record {
  ref = plan_ref;
  pause = true;
  balance = 30000000;
  boosted = true;
  per_buy = 10000000;
  next_buy = none;
}

abbrev remove_input : RemoveInput
remove_input = record {
  vault = "0xAbC0000000000000000000000000000000000001";
  plan_id = 7;
  plan = record {
    owner = "0xDEF0000000000000000000000000000000000004";
    recipient = "0xDEF0000000000000000000000000000000000004";
    boosted = true;
    usdg_idle = 0;
    stock_accrued = 12;
    boost_shares = 20;
    boost_value = 21;
  };
  epoch_pending = false;
  symbol = "AAPL";
  stock_decimals = 0;
  withdraw_fee_bps = 25;
  claim_fee_bps = 25;
  signer = some "0xdef0000000000000000000000000000000000004";
}

abbrev boost_rate : Fraction
boost_rate = record { over = 494; under = 10000 }

all_four :
    step_labels (build_remove_order whole_units remove_input).steps
    ≡ ("Unboost" ∷ "Withdraw funds" ∷ "Claim AAPL" ∷ "Delete plan" ∷ [])
unfolding step_labels build_remove_order dca_protocol.Plan.Remove.Sequence.value_legs
    dca_protocol.Plan.Remove.Sequence.unboost_leg usdg_out
    dca_protocol.Plan.Remove.Sequence.withdraw_leg dca_protocol.Plan.Remove.Sequence.claim_leg
    dca_protocol.Plan.Remove.Sequence.delete_leg dca_protocol.Plan.Orders.Labels.claim_label
    template
all_four = refl

deposit_for-credits_example :
    (deposit_for 10000000 25 % usdg_dust ≡ 0)
    × (10000000 ≤ deposit_for 10000000 25 - fee_of (deposit_for 10000000 25) 25)
    × ((other : ℕ)
        → 10000000 ≤ other * usdg_dust - fee_of (other * usdg_dust) 25
        → deposit_for 10000000 25 ≤ other * usdg_dust)
deposit_for-credits_example = deposit_for-credits 10000000 25 (omega arith)

row_funds_copy-none_example :
    (row_funds_copy 350000000 100000000 false ≡ none)
    ↔ ((usdg_dust ≤ 350000000) × (100000000 ≤ 350000000))
row_funds_copy-none_example = row_funds_copy-none 350000000 100000000 false

orders-FlowMatches_example :
    FlowMatches
      (build_deposit_order whole_units deposit_input).base.steps
      (build_deposit_order whole_units deposit_input).base.flow
    × FlowMatches
        (build_withdraw_order withdraw_input).base.steps
        (build_withdraw_order withdraw_input).base.flow
    × FlowMatches
        (build_claim_order whole_units claim_input).base.steps
        (build_claim_order whole_units claim_input).base.flow
    × FlowMatches
        (build_pause_order pause_input).base.steps
        (build_pause_order pause_input).base.flow
    × FlowMatches
        (build_boost_order plan_ref 5 (some boost_rate)).base.steps
        (build_boost_order plan_ref 5 (some boost_rate)).base.flow
    × FlowMatches
        (build_unboost_order plan_ref 5 1).base.steps
        (build_unboost_order plan_ref 5 1).base.flow
    × FlowMatches
        (build_remove_order whole_units remove_input).steps
        (build_remove_order whole_units remove_input).flow
    × FlowMatches
        (build_close_order whole_units remove_input).steps
        (build_close_order whole_units remove_input).flow
orders-FlowMatches_example =
    orders-FlowMatches whole_units deposit_input withdraw_input claim_input pause_input remove_input
      plan_ref 5 1 (some boost_rate)

withdraw_index-payout_example :
    (payout_at
        (build_remove_order whole_units remove_input).steps
        (build_remove_order whole_units remove_input).withdraw_index
      ≡ (if ltb 0 (usdg_out remove_input.plan)
          then some (
              step step_withdraw
                (call remove_input.vault "withdrawIdle" (number 7 ∷ number max_uint256 ∷ [])))
          else none))
    × (payout_at
          (build_close_order whole_units remove_input).steps
          (build_close_order whole_units remove_input).withdraw_index
        ≡ (if ltb 0 (usdg_out remove_input.plan)
            then some (step step_close (call remove_input.vault "closePlan" (number 7 ∷ [])))
            else none))
withdraw_index-payout_example =
    withdraw_index-payout whole_units remove_input (λ h. absurd (omega (arith, h)))

-- The vault of the plan, not paused, with a strategy that mints a share for each unit.
abbrev its_site : Site
its_site =
    site remove_input true (λ n. some (record { shares = n; pool_assets = n; total_shares = n }))

-- The unboost went through, and the plan was boosted again from another tab.
abbrev boosted_again : List TxStep
boosted_again =
    step "Unboost" (call remove_input.vault "setPlanBoost" (number 7 ∷ flag false ∷ []))
    ∷ step "Boost" (call remove_input.vault "setPlanBoost" (number 7 ∷ flag true ∷ []))
    ∷ []

abbrev half_way : Held
half_way =
    held
      (record (unboosted remove_input.plan) {
        boosted = true;
        usdg_idle = 0;
        boost_shares = usdg_out remove_input.plan;
        boost_value = usdg_out remove_input.plan;
      })
      true

abbrev payout_entry : Entry
payout_entry = record {
  address = "0xabc0000000000000000000000000000000000001";
  plan_id = some 7;
  event = idle_withdrawn 30000009 75000;
}

-- Logs that are decoded already.
as_they_are : List Entry → List Entry
as_they_are logs = logs

outcome :
    plan_outcome_line as_they_are whole_units
      (withdraw (build_withdraw_order withdraw_input))
      (payout_entry ∷ [])
    ≡ some "$29.93 sent to your wallet"
unfolding plan_outcome_line dca_protocol.Plan.Orders.Outcome.withdraw_outcome
    dca_protocol.Plan.Orders.Outcome.last_of_kind as_they_are is_mine
    dca_protocol.Base.Text.to_lower base_of build_withdraw_order
    dca_protocol.Plan.Orders.Outcome.pick_withdrawn template fmt_usd
    dca_protocol.Plan.Format.fmt_usd_at dca_protocol.Plan.Format.cents_of
    dca_protocol.Plan.Format.trunc_div dca_protocol.Base.Int.◌+ℤ◌ dca_protocol.Base.Int.scale
    dca_protocol.Base.Text.grouped two_digits
outcome = refl

settled_withdraw-again_example :
    settled_withdraw as_they_are
      (settled_withdraw as_they_are (build_withdraw_order withdraw_input) (payout_entry ∷ []))
      (payout_entry ∷ [])
    ≡ settled_withdraw as_they_are (build_withdraw_order withdraw_input) (payout_entry ∷ [])
settled_withdraw-again_example =
    settled_withdraw-again as_they_are (build_withdraw_order withdraw_input) (payout_entry ∷ [])

abbrev foreign_entry : Entry
foreign_entry = record {
  address = "0xabc0000000000000000000000000000000000001";
  plan_id = some 8;
  event = idle_withdrawn 30000009 75000;
}

other_plan : ¬ (foreign_entry.plan_id ≡ some plan_ref.plan_id)
other_plan h = absurd (cc h)

plan_outcome_line-foreign_example :
    plan_outcome_line as_they_are whole_units
      (withdraw (build_withdraw_order withdraw_input))
      (foreign_entry ∷ [])
    ≡ none
unfolding as_they_are is_mine build_withdraw_order base_of dca_protocol.Base.Text.to_lower
plan_outcome_line-foreign_example =
    plan_outcome_line-foreign as_they_are whole_units
      (withdraw (build_withdraw_order withdraw_input)) (foreign_entry ∷ [])
      ((λ same. other_plan), tt)
