-- ===== src/Create/Accepted.antt =====
-- "Start plan" of apps/web/src/components/app/create/useCreatePlan.ts before a vault whose terms the form has read: the
-- calls run, and the plan that they open.
use dca_protocol.Base.{◌-◌, ◌≤◌, true, ◌&&◌, List, ◌∷◌, some, or_else, is_some, ◌≡◌}
use dca_protocol.Plan.Steps.{TxStep}
use dca_protocol.Plan.Rows.{FlowMatches}
use dca_protocol.Create.Types.{Stock}
use dca_protocol.Create.Form.{Viem, FormView, can_boost}
use dca_protocol.Create.Submit.{Order, usdg_amount, eth_value, boosted, submit}
use dca_protocol.Create.Vault.{Terms, Purse, NewPlan, run_steps}
use dca_protocol.Create.Ready.{Ready}

module _ (viem : Viem) (f : FormView) (t : Terms) (w : Purse) where
  -- The wallet holds and has allowed what the form has read, or more, and the directory is in.
  pub record WalletRead : Type 0 where
    pub usdg : or_else f.usdg 0 ≤ w.usdg
    pub eth : or_else f.eth 0 ≤ w.eth
    pub allowance : or_else f.allowance 0 ≤ w.allowance
    pub dir : is_some f.dir ≡ true

  -- What has happened when the calls of an order have run.
  pub record Started : Type 0 where
    pub order : Order
    pub steps : List TxStep
    pub sent : submit viem f ≡ some (order, steps)
    pub rows : FlowMatches steps order.flow
    pub after : Purse
    pub ran : run_steps t (some w) steps ≡ some after
    pub plan : NewPlan
    pub booked : after.plans ≡ plan ∷ w.plans
    pub owner : plan.owner ≡ w.owner
    pub recipient : plan.recipient ≡ w.owner
    pub credited : t.min_deposit ≤ plan.credited
    pub amount : t.min_amount_per_epoch ≤ plan.amount_per_epoch
    pub boost : plan.boosted ≡ (f.boost && can_boost f)
    pub usdg_paid : after.usdg ≡ w.usdg - usdg_amount viem f
    pub eth_paid : after.eth ≡ w.eth - eth_value viem f
    pub for_stock : (s : Stock) → f.stock_obj ≡ some s → plan.stock ≡ s.address
