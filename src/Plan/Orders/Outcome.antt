-- ===== src/Plan/Orders/Outcome.antt =====
-- `planOutcomeLine`, `boostLent` and `settledWithdraw` of apps/web/src/lib/planSteps.ts: what an order did,
-- from the vault's events in its receipt. `parseEventLogs` is viem's and a parameter.
use dca_protocol.Base.{
  ℕ, ◌+◌, ◌-◌, Bool, true, false, ◌&&◌, List, [], ◌∷◌, Option, none, some, String, ltb, ◌==◌,
  if◌then◌else◌, map, filter_by,
}
use dca_protocol.Base.Int.{ℤ, sub_ℕ}
use dca_protocol.Base.Text.{template, to_lower, str_eq}
use dca_protocol.Plan.Format.{usd, fmt_usd}
use dca_protocol.Plan.Steps.{PlanRef, FlowStep}
use dca_protocol.Plan.Orders.Kinds.{
  Pay, DepositOrder, WithdrawOrder, ClaimOrder, BoostOrder, PlanOrder, deposit, withdraw, claim,
  boost, unboost, pause, base_of,
}
use dca_protocol.Plan.Orders.Exit.{stock_text}
use dca_protocol.Plan.Orders.Switches.{rate_text}
use dca_protocol.Plan.Orders.Labels.{step_withdraw_part}
use dca_protocol.Plan.Orders.Titles.{lent_suffix, claimed_line, paused_line}

-- A vault event with the arguments the lines read.
pub data PlanEvent : Type 0 where
  claimed : ℕ → ℕ → String → PlanEvent
  idle_withdrawn : ℕ → ℕ → PlanEvent
  weth_zapped : ℕ → PlanEvent
  deposited : ℕ → ℕ → PlanEvent
  plan_boost_set : Bool → PlanEvent
  boost_deposited : ℕ → PlanEvent
  boost_withdrawn : ℕ → PlanEvent
  plan_paused_set : Bool → PlanEvent
  other_event : String → PlanEvent

-- A decoded log: its emitter, the plan it names if it names one, and the event.
pub record Entry : Type 0 where
  pub address : String
  pub plan_id : Option ℕ
  pub event : PlanEvent

abbrev pub same_plan : Option ℕ → ℕ → Bool
same_plan none id = false
same_plan (some p) id = p == id

-- `l.address.toLowerCase() === o.vault.toLowerCase() && l.args.planId === o.planId`
unfoldable pub is_mine : PlanRef → Entry → Bool
is_mine ref e = str_eq (to_lower e.address) (to_lower ref.vault) && same_plan e.plan_id ref.plan_id

-- What the last event of a kind among the plan's own says, if there is one.
unfoldable pub last_of_kind : {A : Type 0} → (PlanEvent → Option A) → List Entry → Option A
last_of_kind pick [] = none
last_of_kind pick (e ∷ es) = elim (last_of_kind pick es) [ some a ↦ some a | none ↦ pick e.event ]

unfoldable pub pick_withdrawn : PlanEvent → Option (ℕ × ℕ)
pick_withdrawn (idle_withdrawn amount fee) = some (amount, fee)
pick_withdrawn _ = none

unfoldable pub pick_claimed : PlanEvent → Option (ℕ × ℕ × String)
pick_claimed (claimed amount fee recipient) = some (amount, fee, recipient)
pick_claimed _ = none

unfoldable pub pick_zapped : PlanEvent → Option ℕ
pick_zapped (weth_zapped usdg_out) = some usdg_out
pick_zapped _ = none

unfoldable pub pick_deposited : PlanEvent → Option (ℕ × ℕ)
pick_deposited (deposited amount fee) = some (amount, fee)
pick_deposited _ = none

unfoldable pub pick_boost_set : PlanEvent → Option Bool
pick_boost_set (plan_boost_set on) = some on
pick_boost_set _ = none

unfoldable pub pick_lent : PlanEvent → Option ℕ
pick_lent (boost_deposited usdg_in) = some usdg_in
pick_lent _ = none

unfoldable pub pick_returned : PlanEvent → Option ℕ
pick_returned (boost_withdrawn usdg_out) = some usdg_out
pick_returned _ = none

unfoldable pub pick_paused : PlanEvent → Option Bool
pick_paused (plan_paused_set p) = some p
pick_paused _ = none

unfoldable pub claim_outcome :
    (ℤ → ℕ → String) → ClaimOrder → Option (ℕ × ℕ × String) → Option String
claim_outcome units o none = none
claim_outcome units o (some (amount, fee, recipient)) =
    some (claimed_line o.to_self (stock_text units o.base.ref (sub_ℕ amount fee)) recipient)

unfoldable pub withdraw_outcome : Option (ℕ × ℕ) → Option String
withdraw_outcome none = none
withdraw_outcome (some (amount, fee)) =
    some (template (fmt_usd (some (sub_ℕ amount fee)) ∷ " sent to your wallet" ∷ []))

added_line : Bool → String → String
unfolding lent_suffix
added_line boosted amount = template (amount ∷ " added to the plan" ∷ lent_suffix boosted ∷ [])

-- By the currency that was paid.
unfoldable pub deposit_line : Pay → Bool → Option ℕ → Option (ℕ × ℕ) → Option String
unfolding added_line
deposit_line Pay.eth boosted none dep = none
deposit_line Pay.eth boosted (some out) dep = some (added_line boosted (usd out))
deposit_line Pay.usdg boosted zap none = none
deposit_line Pay.usdg boosted zap (some (amount, fee)) =
    some (added_line boosted (fmt_usd (some (sub_ℕ amount fee))))

unfoldable pub deposit_outcome : DepositOrder → Option ℕ → Option (ℕ × ℕ) → Option String
deposit_outcome o zap dep = deposit_line o.pay o.boosted zap dep

unfoldable pub boost_outcome : BoostOrder → Option Bool → Option ℕ → Option String
boost_outcome o none lent = none
boost_outcome o (some on) none =
    some (template ("Deposits now earn" ∷ rate_text o.apy ∷ " on Morpho Blue" ∷ []))
boost_outcome o (some on) (some usdg_in) =
    some (template (usd usdg_in ∷ " earning" ∷ rate_text o.apy ∷ " on Morpho Blue" ∷ []))

unfoldable pub unboost_outcome : Option Bool → Option ℕ → Option String
unboost_outcome none out = none
unboost_outcome (some on) none = some "Nothing was lent any more — the plan is unboosted"
unboost_outcome (some on) (some usdg_out) =
    some (template (usd usdg_out ∷ " is back in the plan" ∷ []))

unfoldable pub pause_outcome : Option Bool → Option String
pause_outcome none = none
pause_outcome (some p) = some (paused_line p)

unfoldable pub outcome_of : (ℤ → ℕ → String) → PlanOrder → List Entry → Option String
outcome_of units (claim o) mine = claim_outcome units o (last_of_kind pick_claimed mine)
outcome_of units (withdraw o) mine = withdraw_outcome (last_of_kind pick_withdrawn mine)
outcome_of units (deposit o) mine =
    deposit_outcome o (last_of_kind pick_zapped mine) (last_of_kind pick_deposited mine)
outcome_of units (boost o) mine =
    boost_outcome o (last_of_kind pick_boost_set mine) (last_of_kind pick_lent mine)
outcome_of units (unboost o) mine =
    unboost_outcome (last_of_kind pick_boost_set mine) (last_of_kind pick_returned mine)
outcome_of units (pause o) mine = pause_outcome (last_of_kind pick_paused mine)

unfoldable pub settled_row : ℤ → FlowStep → FlowStep
settled_row received f =
    if str_eq f.label step_withdraw_part
    then record {
      label = f.label;
      detail = f.detail;
      done = f.done;
      trailing = some (fmt_usd (some received));
      skipped = f.skipped;
      deferred = f.deferred;
    }
    else f

-- `o.fromBoost > 0n && o.fromBoost + amount > o.amount ? o.fromBoost + amount - o.amount : 0n`
unfoldable pub settled_boost : ℕ → ℕ → ℕ → ℕ
settled_boost from_boost paid asked =
    if ltb 0 from_boost && ltb asked (from_boost + paid) then from_boost + paid - asked else 0

unfoldable pub settle : WithdrawOrder → Option (ℕ × ℕ) → WithdrawOrder
unfolding settled_row
settle o none = o
settle o (some (paid, fee)) = record {
  base = record {
    ref = o.base.ref;
    steps = o.base.steps;
    flow = map (settled_row (sub_ℕ paid fee)) o.base.flow;
  };
  amount = paid;
  all = o.all;
  receive = sub_ℕ paid fee;
  fee_bps = o.fee_bps;
  from_boost = settled_boost o.from_boost paid o.amount;
  balance_after = o.balance_after;
  settled = some true;
}

module _ {Log : Type 0} (parse_event_logs : List Log → List Entry) where
  unfoldable pub mine_of : PlanRef → List Log → List Entry
  mine_of ref logs = filter_by (is_mine ref) (parse_event_logs logs)

  unfoldable pub plan_outcome_line : (ℤ → ℕ → String) → PlanOrder → List Log → Option String
  unfolding outcome_of mine_of
  plan_outcome_line units o logs = outcome_of units o (mine_of (base_of o).ref logs)

  unfoldable pub boost_lent : BoostOrder → List Log → Option ℕ
  unfolding mine_of
  boost_lent o logs = last_of_kind pick_lent (mine_of o.base.ref logs)

  unfoldable pub settled_withdraw : WithdrawOrder → List Log → WithdrawOrder
  unfolding mine_of
  settled_withdraw o logs = settle o (last_of_kind pick_withdrawn (mine_of o.base.ref logs))
