-- ===== src/Plan/Orders/Exit.antt =====
-- `buildWithdrawOrder` and `buildClaimOrder` of apps/web/src/lib/planSteps.ts.
use dca_protocol.Base.{
  ℕ, ◌-◌, Bool, ◌&&◌, not, [], ◌∷◌, Option, none, some, String, ltb, if◌then◌else◌,
}
use dca_protocol.Base.Int.{ℤ, sub_ℕ}
use dca_protocol.Base.Text.{template}
use dca_protocol.Plan.Format.{usd, fmt_usd, fmt_units, fmt_units_compact, fmt_bps, fee_of}
use dca_protocol.Plan.Steps.{max_uint256, number, FlowStep, flow_row, PlanRef, vault_call}
use dca_protocol.Plan.Orders.Kinds.{WithdrawOrder, ClaimOrder}
use dca_protocol.Plan.Orders.Labels.{step_withdraw_part, claim_label, is_signer, recipient_copy}

pub record WithdrawInput : Type 0 where
  pub ref : PlanRef
  pub amount : ℕ
  pub all : Bool
  pub fee_bps : ℕ
  pub usdg_idle : ℕ
  pub balance_before : ℕ

-- `amount - feeOf(amount, feeBps)`
unfoldable pub after_fee : ℕ → ℕ → ℤ
after_fee amount fee_bps = sub_ℕ amount (fee_of amount fee_bps)

-- `amount > usdgIdle ? amount - usdgIdle : 0n`
unfoldable pub from_boost_of : WithdrawInput → ℕ
from_boost_of i = if ltb i.usdg_idle i.amount then i.amount - i.usdg_idle else 0

unfoldable pub withdraw_row : WithdrawInput → FlowStep
withdraw_row i =
    flow_row step_withdraw_part
      (template (
        "Sends "
        ∷ (if i.all
            then template ("everything in the plan (" ∷ usd i.amount ∷ ")" ∷ [])
            else template (usd i.amount ∷ " from the plan" ∷ []))
        ∷ " to your wallet, minus the "
        ∷ fmt_bps (some i.fee_bps)
        ∷ " withdrawal fee."
        ∷ (if ltb 0 (from_boost_of i)
            then template (
                " "
                ∷ usd (from_boost_of i)
                ∷ " of it comes back from Morpho Blue first, earnings included; if the market is short of liquidity nothing moves."
                ∷ [])
            else "")
        ∷ []))
      "Sent to your wallet"
      (some (template ("≈ " ∷ fmt_usd (some (after_fee i.amount i.fee_bps)) ∷ [])))

unfoldable pub build_withdraw_order : WithdrawInput → WithdrawOrder
unfolding withdraw_row
build_withdraw_order i = record {
  base = record {
    ref = i.ref;
    steps =
        record {
          label = step_withdraw_part;
          params =
              vault_call i.ref "withdrawIdle"
                (number i.ref.plan_id ∷ number (if i.all then max_uint256 else i.amount) ∷ []) none;
        }
        ∷ [];
    flow = withdraw_row i ∷ [];
  };
  amount = i.amount;
  all = i.all;
  receive = after_fee i.amount i.fee_bps;
  fee_bps = i.fee_bps;
  from_boost = from_boost_of i;
  balance_after =
      if not i.all && ltb i.amount i.balance_before then i.balance_before - i.amount else 0;
  settled = none;
}

pub record ClaimInput : Type 0 where
  pub ref : PlanRef
  pub stock : String
  pub amount : ℕ
  pub usd_value : Option ℕ
  pub fee_bps : ℕ
  pub perk : Bool
  pub perk_threshold : Option ℕ
  pub recipient : String
  pub signer : Option String

threshold_text : Option ℕ → String
threshold_text none = "free for $DCA holders"
threshold_text (some t) = template ("free with " ∷ fmt_units_compact (some t) 18 ∷ " $DCA" ∷ [])

claim_fee_text : ClaimInput → String
unfolding threshold_text
claim_fee_text i =
    if ltb 0 i.fee_bps
    then template (
        ", minus the "
        ∷ fmt_bps (some i.fee_bps)
        ∷ " claim fee ("
        ∷ threshold_text i.perk_threshold
        ∷ ")"
        ∷ [])
    else if i.perk
    then " — no claim fee, you hold enough $DCA"
    else ""

module _ (format_units : ℤ → ℕ → String) where
  -- ``stock(v)``, an amount of the plan's stock in words.
  unfoldable pub stock_text : PlanRef → ℤ → String
  stock_text ref v =
      template (fmt_units format_units (some v) ref.stock_decimals 4 ∷ " " ∷ ref.symbol ∷ [])

  unfoldable pub claim_row : ClaimInput → FlowStep
  unfolding claim_fee_text
  claim_row i =
      flow_row (claim_label i.ref.symbol)
        (template (
          "Sends the "
          ∷ i.ref.symbol
          ∷ " this plan has bought to "
          ∷ recipient_copy i.recipient i.signer
          ∷ claim_fee_text i
          ∷ "."
          ∷ []))
        (if is_signer i.recipient i.signer then "In your wallet" else "Sent to the recipient")
        (some (stock_text i.ref (after_fee i.amount i.fee_bps)))

  unfoldable pub build_claim_order : ClaimInput → ClaimOrder
  unfolding claim_row
  build_claim_order i = record {
    base = record {
      ref = i.ref;
      steps =
          record {
            label = claim_label i.ref.symbol;
            params = vault_call i.ref "claim" (number i.ref.plan_id ∷ number max_uint256 ∷ []) none;
          }
          ∷ [];
      flow = claim_row i ∷ [];
    };
    amount = i.amount;
    receive = after_fee i.amount i.fee_bps;
    usd = i.usd_value;
    fee_bps = i.fee_bps;
    perk = i.perk;
    stock = i.stock;
    recipient = i.recipient;
    to_self = is_signer i.recipient i.signer;
  }
