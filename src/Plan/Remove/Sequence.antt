-- ===== src/Plan/Remove/Sequence.antt =====
-- `buildRemoveOrder` of apps/web/src/lib/removeSteps.ts: the calls that empty and remove a plan, one by one.
use dca_protocol.Base.{
  length, map, ℕ, false, List, [], ◌∷◌, ◌++◌, none, some, String, ltb, if◌then◌else◌,
}
use dca_protocol.Base.Int.{ℤ, pos, negsuc}
use dca_protocol.Base.Text.{template}
use dca_protocol.Plan.Format.{usd, fmt_usd, fmt_bps}
use dca_protocol.Plan.Steps.{max_uint256, number, flag, TxStep, step, FlowStep, flow_row}
use dca_protocol.Plan.Orders.Labels.{step_unboost, claim_label, recipient_copy}
use dca_protocol.Plan.Orders.Exit.{after_fee}
use dca_protocol.Plan.Remove.Types.{
  RemoveInput, sequence, sent, deferred, RemoveOrder, step_withdraw, step_delete, step_partial,
  usdg_out, call, deferred_row, claim_fee_text, units_of,
}

-- One leg of the sequence: the step that is sent and the row that is drawn.
pub record Leg : Type 0 where
  pub sends : TxStep
  pub draws : FlowStep

unfoldable pub unboost_leg : RemoveInput → Leg
unboost_leg i = record {
  sends = step step_unboost (call i.vault "setPlanBoost" (number i.plan_id ∷ flag false ∷ []));
  draws =
      flow_row step_unboost
        (template (
          "Pulls "
          ∷ usd i.plan.boost_value
          ∷ " back from Morpho Blue into the plan, earnings included."
          ∷ []))
        "Back in the plan" (some (usd i.plan.boost_value));
}

-- A boosted plan is unboosted first.
unfoldable pub unboost_legs : RemoveInput → List Leg
unboost_legs i = if i.plan.boosted then unboost_leg i ∷ [] else []

unfoldable pub withdraw_leg : RemoveInput → Leg
withdraw_leg i = record {
  sends =
      step step_withdraw (call i.vault "withdrawIdle" (number i.plan_id ∷ number max_uint256 ∷ []));
  draws =
      flow_row step_withdraw
        (template (
          "Sends the plan's USDG to the wallet you sign with, minus the "
          ∷ fmt_bps (some i.withdraw_fee_bps)
          ∷ " withdrawal fee."
          ∷ []))
        "Withdrawn"
        (some
          (template ("≈ " ∷ fmt_usd (some (after_fee (usdg_out i.plan) i.withdraw_fee_bps)) ∷ [])));
}

unfoldable pub delete_leg : RemoveInput → Leg
delete_leg i = record {
  sends = step step_delete (call i.vault "prunePlan" (number i.plan_id ∷ []));
  draws = flow_row step_delete "Removes the empty plan from the vault." "Plan removed" none;
}

module _ (format_units : ℤ → ℕ → String) where
  unfoldable pub claim_leg : RemoveInput → Leg
  claim_leg i = record {
    sends =
        step (claim_label i.symbol)
          (call i.vault "claim" (number i.plan_id ∷ number max_uint256 ∷ []));
    draws =
        flow_row (claim_label i.symbol)
          (template (
            "Sends your "
            ∷ i.symbol
            ∷ " to "
            ∷ recipient_copy i.plan.recipient i.signer
            ∷ claim_fee_text ", minus the " i
            ∷ "."
            ∷ []))
          "Claimed"
          (some (units_of format_units i (after_fee i.plan.stock_accrued i.claim_fee_bps)));
  }

  -- The legs before the delete, in their order.
  unfoldable pub value_legs : RemoveInput → List Leg
  value_legs i =
      (if i.plan.boosted then unboost_leg i ∷ [] else [])
      ++ (if ltb 0 (usdg_out i.plan) then withdraw_leg i ∷ [] else [])
      ++ (if ltb 0 i.plan.stock_accrued then claim_leg i ∷ [] else [])

  unfoldable pub build_remove_order : RemoveInput → RemoveOrder
  build_remove_order i =
      let legs = value_legs i in
      record {
        kind = sequence;
        steps =
            map (λ (l : Leg). l.sends) legs
            ++ (if i.epoch_pending then [] else (delete_leg i).sends ∷ []);
        flow =
            map (λ (l : Leg). l.draws) legs
            ++ (if i.epoch_pending then deferred_row else (delete_leg i).draws) ∷ [];
        prune = if i.epoch_pending then deferred else sent;
        withdraw_index =
            if ltb 0 (usdg_out i.plan) then pos (length (unboost_legs i)) else negsuc 0;
      }

unfoldable pub build_partial_withdraw : String → ℕ → ℕ → ℕ → RemoveOrder
build_partial_withdraw vault plan_id idle fee_bps = record {
  kind = sequence;
  steps = step step_partial (call vault "withdrawIdle" (number plan_id ∷ number idle ∷ [])) ∷ [];
  flow =
      flow_row step_partial
        (template (
          "Sends the "
          ∷ usd idle
          ∷ " that is not lent out, minus the "
          ∷ fmt_bps (some fee_bps)
          ∷ " fee. The boosted part stays until Morpho has liquidity."
          ∷ []))
        "Withdrawn" (some (template ("≈ " ∷ fmt_usd (some (after_fee idle fee_bps)) ∷ [])))
      ∷ [];
  prune = deferred;
  withdraw_index = pos 0;
}
