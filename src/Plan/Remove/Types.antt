-- ===== src/Plan/Remove/Types.antt =====
-- The types, labels and shared parts of apps/web/src/lib/removeSteps.ts.
use dca_protocol.Base.{
  ℕ, ◌+◌, Bool, ◌&&◌, List, [], ◌∷◌, Option, none, some, String, ltb, ◌==◌, if◌then◌else◌,
}
use dca_protocol.Base.Int.{ℤ}
use dca_protocol.Base.Text.{template}
use dca_protocol.Plan.Format.{fmt_units, fmt_bps}
use dca_protocol.Plan.Steps.{Arg, plan_vault_abi, TxParams, TxStep, FlowStep}

pub record FreshPlan : Type 0 where
  pub owner : String
  pub recipient : String
  pub boosted : Bool
  pub usdg_idle : ℕ
  pub stock_accrued : ℕ
  pub boost_shares : ℕ
  pub boost_value : ℕ

pub record RemoveInput : Type 0 where
  pub vault : String
  pub plan_id : ℕ
  pub plan : FreshPlan
  pub epoch_pending : Bool
  pub symbol : String
  pub stock_decimals : ℕ
  pub withdraw_fee_bps : ℕ
  pub claim_fee_bps : ℕ
  pub signer : Option String

pub data Kind : Type 0 where
  close : Kind
  sequence : Kind

pub data Prune : Type 0 where
  sent : Prune
  deferred : Prune

pub record RemoveOrder : Type 0 where
  pub kind : Kind
  pub steps : List TxStep
  pub flow : List FlowStep
  pub prune : Prune
  pub withdraw_index : ℤ

abbrev pub step_withdraw : String
step_withdraw = "Withdraw funds"

abbrev pub step_delete : String
step_delete = "Delete plan"

abbrev pub step_close : String
step_close = "Withdraw & remove"

abbrev pub step_partial : String
step_partial = "Withdraw available part"

abbrev pub defer_copy : String
defer_copy = "Delete later — funds already withdrawn"

abbrev pub close_defer_copy : String
close_defer_copy = "Funds out now · deleted after the buy"

unfoldable pub usdg_out : FreshPlan → ℕ
usdg_out p = p.usdg_idle + p.boost_value

unfoldable pub is_empty_plan : FreshPlan → Bool
is_empty_plan p = p.usdg_idle == 0 && p.stock_accrued == 0 && p.boost_shares == 0

abbrev pub call : String → String → List Arg → TxParams
call vault name args' = record {
  address = vault;
  abi = plan_vault_abi;
  function_name = name;
  args = args';
  value = none;
}

-- The row of a step that waits: only a label and the reason.
unfoldable pub deferred_row : FlowStep
deferred_row = record {
  label = step_delete;
  detail = none;
  done = none;
  trailing = none;
  skipped = none;
  deferred = some defer_copy;
}

-- ` minus the x claim fee (free for $DCA holders)`, when there is a fee.
unfoldable pub claim_fee_text : String → RemoveInput → String
claim_fee_text before i =
    if ltb 0 i.claim_fee_bps
    then template
        (before ∷ fmt_bps (some i.claim_fee_bps) ∷ " claim fee (free for $DCA holders)" ∷ [])
    else ""

module _ (format_units : ℤ → ℕ → String) where
  unfoldable pub units_of : RemoveInput → ℤ → String
  units_of i v = template (fmt_units format_units (some v) i.stock_decimals 4 ∷ " " ∷ i.symbol ∷ [])
