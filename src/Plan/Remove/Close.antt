-- ===== src/Plan/Remove/Close.antt =====
-- `buildCloseOrder` of apps/web/src/lib/removeSteps.ts: the one call that does it all.
use dca_protocol.Base.{ℕ, ◌&&◌, List, [], ◌∷◌, ◌++◌, Option, none, some, String, ltb, if◌then◌else◌}
use dca_protocol.Base.Int.{ℤ, pos, negsuc}
use dca_protocol.Base.Text.{template, join, str_eq}
use dca_protocol.Plan.Format.{usd, fmt_usd, fmt_bps}
use dca_protocol.Plan.Steps.{number, step, FlowStep, flow_row}
use dca_protocol.Plan.Orders.Labels.{recipient_copy}
use dca_protocol.Plan.Orders.Exit.{after_fee}
use dca_protocol.Plan.Remove.Types.{
  RemoveInput, close, sent, deferred, RemoveOrder, step_close, close_defer_copy, usdg_out,
  is_empty_plan, call, deferred_row, claim_fee_text, units_of,
}

module _ (format_units : ℤ → ℕ → String) where
  part_texts : RemoveInput → List String
  part_texts i =
      (if i.plan.boosted
        then template
            ("pulls " ∷ usd i.plan.boost_value ∷ " back from Morpho Blue (earnings included)" ∷ [])
          ∷ []
        else [])
      ++ (if ltb 0 (usdg_out i.plan)
          then template (
              "sends "
              ∷ usd (usdg_out i.plan)
              ∷ " USDG to the wallet you sign with, minus the "
              ∷ fmt_bps (some i.withdraw_fee_bps)
              ∷ " withdrawal fee"
              ∷ [])
            ∷ []
          else [])
      ++ (if ltb 0 i.plan.stock_accrued
          then template (
              "sends "
              ∷ units_of format_units i (pos i.plan.stock_accrued)
              ∷ " to "
              ∷ recipient_copy i.plan.recipient i.signer
              ∷ claim_fee_text " minus the " i
              ∷ [])
            ∷ []
          else [])

  tail_text : RemoveInput → String
  tail_text i =
      if i.epoch_pending
      then template (
          "then pauses the empty plan — a " ∷ i.symbol
          ∷ " buy is running, so it is dropped from the vault with one more confirmation once the buy has finished"
          ∷ [])
      else if is_empty_plan i.plan
      then "removes the empty plan from the vault"
      else "then removes the plan from the vault"

  trailing_texts : RemoveInput → List String
  trailing_texts i =
      (if ltb 0 (usdg_out i.plan)
        then template ("≈ " ∷ fmt_usd (some (after_fee (usdg_out i.plan) i.withdraw_fee_bps)) ∷ [])
          ∷ []
        else [])
      ++ (if ltb 0 i.plan.stock_accrued
          then units_of format_units i (after_fee i.plan.stock_accrued i.claim_fee_bps) ∷ []
          else [])

  -- `trailing || undefined`
  some_text : String → Option String
  some_text t = if str_eq t "" then none else some t

  unfoldable pub close_row : RemoveInput → FlowStep
  unfolding part_texts tail_text trailing_texts some_text
  close_row i =
      flow_row step_close
        (template ("One transaction: " ∷ join ", " (part_texts i ++ tail_text i ∷ []) ∷ "." ∷ []))
        (if i.epoch_pending then "Funds out · plan parked" else "Plan removed")
        (if i.epoch_pending
          then some close_defer_copy
          else some_text (join " · " (trailing_texts i)))

  unfoldable pub build_close_order : RemoveInput → RemoveOrder
  unfolding close_row
  build_close_order i =
      if is_empty_plan i.plan && i.epoch_pending
      then record {
        kind = close;
        steps = [];
        flow = deferred_row ∷ [];
        prune = deferred;
        withdraw_index = negsuc 0;
      }
      else record {
        kind = close;
        steps = step step_close (call i.vault "closePlan" (number i.plan_id ∷ [])) ∷ [];
        flow = close_row i ∷ [];
        prune = if i.epoch_pending then deferred else sent;
        withdraw_index = if ltb 0 (usdg_out i.plan) then pos 0 else negsuc 0;
      }
