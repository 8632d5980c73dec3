-- ===== src/Plan/Rows.antt =====
-- The rows that the flow dialog draws, against the steps that are sent (apps/web/src/lib/planSteps.ts and
-- removeSteps.ts): which steps an order has, and where its payout stands.
use dca_protocol.Base.{
  ℕ, List, [], ◌∷◌, Option, none, some, String, ltb, is_some, if◌then◌else◌, get_elem?, ◌≡◌, refl,
  arith,
}
use dca_protocol.Base.Int.{ℤ, pos, negsuc}
use dca_protocol.Plan.Format.{Fraction}
use dca_protocol.Plan.Steps.{TxStep, FlowStep, PlanRef, flow_row, step, max_uint256, number}
use dca_protocol.Plan.Orders.Kinds.{Pay}
use dca_protocol.Plan.Orders.Deposit.{
  steps_paid_in, rows_paid_in, approve_row, deposit_row, eth_row, DepositInput, deposit_steps,
  deposit_flow, build_deposit_order,
}
use dca_protocol.Plan.Orders.Exit.{
  withdraw_row, claim_row, WithdrawInput, build_withdraw_order, ClaimInput, build_claim_order,
}
use dca_protocol.Plan.Orders.Switches.{
  switch_steps, build_boost_order, build_unboost_order, PauseInput, build_pause_order,
}
use dca_protocol.Plan.Remove.Types.{
  RemoveInput, usdg_out, is_empty_plan, call, step_withdraw, step_close, deferred_row,
}
use dca_protocol.Plan.Remove.Sequence.{
  unboost_legs, unboost_leg, withdraw_leg, claim_leg, delete_leg, value_legs, build_remove_order,
}
use dca_protocol.Plan.Remove.Close.{close_row, build_close_order}

unfoldable pub step_labels : List TxStep → List String
step_labels [] = []
step_labels (s ∷ ss) = s.label ∷ step_labels ss

-- The labels of the rows that are drawn for a step of this run.
unfoldable pub sent_labels : List FlowStep → List String
sent_labels [] = []
sent_labels (f ∷ fs) =
    if is_some f.skipped
    then sent_labels fs
    else if is_some f.deferred
    then sent_labels fs
    else f.label ∷ sent_labels fs

-- The dialog shows what is sent, in its order.
abbrev pub FlowMatches : List TxStep → List FlowStep → Type 0
FlowMatches steps flow = step_labels steps ≡ sent_labels flow

module _ (units : ℤ → ℕ → String) where
  paid_in-FlowMatches :
      (pay : Pay) (i : DepositInput) → FlowMatches (steps_paid_in pay i) (rows_paid_in units pay i)
  unfolding steps_paid_in rows_paid_in step_labels sent_labels approve_row deposit_row eth_row
      flow_row
  paid_in-FlowMatches Pay.usdg i = ground arith
  paid_in-FlowMatches Pay.eth i = refl

  deposit-FlowMatches : (i : DepositInput) → FlowMatches (deposit_steps i) (deposit_flow units i)
  unfolding deposit_steps deposit_flow
  deposit-FlowMatches i = paid_in-FlowMatches i.pay i

  withdraw-FlowMatches :
      (i : WithdrawInput)
      → FlowMatches (build_withdraw_order i).base.steps (build_withdraw_order i).base.flow
  unfolding build_withdraw_order withdraw_row flow_row step_labels sent_labels
  withdraw-FlowMatches i = refl

  claim-FlowMatches :
      (i : ClaimInput)
      → FlowMatches (build_claim_order units i).base.steps (build_claim_order units i).base.flow
  unfolding build_claim_order claim_row flow_row step_labels sent_labels
  claim-FlowMatches i = refl

  pause-FlowMatches :
      (i : PauseInput)
      → FlowMatches (build_pause_order i).base.steps (build_pause_order i).base.flow
  unfolding build_pause_order switch_steps flow_row step_labels sent_labels
  pause-FlowMatches i = refl

  remove-FlowMatches :
      (i : RemoveInput)
      → FlowMatches (build_remove_order units i).steps (build_remove_order units i).flow
  unfolding build_remove_order value_legs unboost_legs unboost_leg withdraw_leg claim_leg delete_leg
      deferred_row flow_row step_labels sent_labels
  remove-FlowMatches i = ground arith

  close-FlowMatches :
      (i : RemoveInput)
      → FlowMatches (build_close_order units i).steps (build_close_order units i).flow
  unfolding build_close_order close_row deferred_row flow_row step_labels sent_labels
  close-FlowMatches i = ground arith

  -- Whatever it is built from, an order of My plans or of the remove dialog draws one row for each call it
  -- sends, under the same label and in the same order; its other rows are marked as skipped or deferred.
  pub orders-FlowMatches :
      (d : DepositInput) (w : WithdrawInput) (c : ClaimInput) (p : PauseInput) (r : RemoveInput)
      (ref : PlanRef) (idle earned : ℕ) (apy : Option Fraction)
      → FlowMatches (build_deposit_order units d).base.steps (build_deposit_order units d).base.flow
        × FlowMatches (build_withdraw_order w).base.steps (build_withdraw_order w).base.flow
        × FlowMatches (build_claim_order units c).base.steps (build_claim_order units c).base.flow
        × FlowMatches (build_pause_order p).base.steps (build_pause_order p).base.flow
        × FlowMatches
            (build_boost_order ref idle apy).base.steps
            (build_boost_order ref idle apy).base.flow
        × FlowMatches
            (build_unboost_order ref idle earned).base.steps
            (build_unboost_order ref idle earned).base.flow
        × FlowMatches (build_remove_order units r).steps (build_remove_order units r).flow
        × FlowMatches (build_close_order units r).steps (build_close_order units r).flow
  unfolding build_deposit_order build_boost_order build_unboost_order switch_steps flow_row
      step_labels sent_labels
  orders-FlowMatches d w c p r ref idle earned apy = (
    deposit-FlowMatches d,
    withdraw-FlowMatches w,
    claim-FlowMatches c,
    pause-FlowMatches p,
    refl,
    refl,
    remove-FlowMatches r,
    close-FlowMatches r,
  )

-- The step at the order's index of the payout.
unfoldable pub payout_at : List TxStep → ℤ → Option TxStep
payout_at steps (pos n) = get_elem? steps n
payout_at steps (negsuc n) = none

module _ (units : ℤ → ℕ → String) where
  close_payout :
      (i : RemoveInput)
      → (i.plan.boost_shares ≡ 0 → i.plan.boost_value ≡ 0)
      → payout_at (build_close_order units i).steps (build_close_order units i).withdraw_index ≡ (
          if ltb 0 (usdg_out i.plan)
          then some (step step_close (call i.vault "closePlan" (number i.plan_id ∷ [])))
          else none)
  unfolding build_close_order payout_at is_empty_plan usdg_out
  close_payout i worth = grind arith

  -- The index of the payout names the call that pays the plan's USDG out, in the sequence and in the
  -- one-call order alike, and no call when the plan holds no USDG,
  -- if a plan without boost shares has no boosted balance.
  pub withdraw_index-payout :
      (i : RemoveInput)
      → (i.plan.boost_shares ≡ 0 → i.plan.boost_value ≡ 0)
      → (payout_at (build_remove_order units i).steps (build_remove_order units i).withdraw_index
          ≡ (if ltb 0 (usdg_out i.plan)
              then some (
                  step step_withdraw
                    (call i.vault "withdrawIdle" (number i.plan_id ∷ number max_uint256 ∷ [])))
              else none))
        × (payout_at (build_close_order units i).steps (build_close_order units i).withdraw_index
            ≡ (if ltb 0 (usdg_out i.plan)
                then some (step step_close (call i.vault "closePlan" (number i.plan_id ∷ [])))
                else none))
  unfolding build_remove_order build_close_order value_legs unboost_legs unboost_leg withdraw_leg
      claim_leg payout_at is_empty_plan usdg_out
  withdraw_index-payout i worth = (ground arith, close_payout i worth)
