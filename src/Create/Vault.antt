-- ===== src/Create/Vault.antt =====
-- What the calls of the create form do, as `createPlan` of contracts/src/vault/PlanVault.sol and a token's `approve` do
-- it: one wallet before one vault, and what it allows that vault of its USDG, without the other plans, the events and the
-- widths of what the vault holds. The swap of the router is a parameter. The form sends no WETH; a call with some is refused here.
use dca_protocol.Base.{
  ℕ, ◌+◌, ◌-◌, ◌*◌, ◌/◌, ◌^◌, Bool, not, ◌&&◌, ◌||◌, List, [], ◌∷◌, Option, none, some, String, ltb,
  leb, ◌==◌, if◌then◌else◌,
}
use dca_protocol.Base.Text.{str_eq}
use dca_protocol.Plan.Format.{fee_of}
use dca_protocol.Plan.Steps.{Arg, number, flag, account, TxParams, TxStep}

-- What the vault asks for, and what the router makes of ETH.
pub record Terms : Type 0 where
  pub vault : String
  pub usdg_token : String
  pub paused : Bool
  pub purchasable : String → Bool
  pub min_amount_per_epoch : ℕ
  pub min_deposit : ℕ
  pub deposit_fee_bps : ℕ
  pub swap_slippage_bps : ℕ
  pub router_quote : ℕ → ℕ
  pub router_swap : ℕ → ℕ

pub record NewPlan : Type 0 where
  pub owner : String
  pub recipient : String
  pub stock : String
  pub amount_per_epoch : ℕ
  pub credited : ℕ
  pub boosted : Bool

pub record Purse : Type 0 where
  pub owner : String
  pub usdg : ℕ
  pub eth : ℕ
  pub allowance : ℕ
  pub plans : List NewPlan

-- The USDG that is pulled, less the fee; none when the token refuses.
unfoldable pub usdg_leg : Terms → Purse → ℕ → Option ℕ
usdg_leg t w amount =
    if amount == 0
    then some 0
    else if ltb w.usdg amount || ltb w.allowance amount
    then none
    else some (amount - fee_of amount t.deposit_fee_bps)

-- A least amount of zero is one of the vault's own.
unfoldable pub least_asked : Terms → ℕ → ℕ → ℕ
least_asked t net min_usdg_out =
    if min_usdg_out == 0
    then t.router_quote net * (10000 - t.swap_slippage_bps) / 10000
    else min_usdg_out

unfoldable pub eth_leg : Terms → Purse → ℕ → ℕ → Option ℕ
eth_leg t w value min_usdg_out =
    let net = value - fee_of value t.deposit_fee_bps in
    if value == 0
    then some 0
    else if ltb w.eth value
    then none
    else if ltb (t.router_swap net) (least_asked t net min_usdg_out)
    then none
    else some (t.router_swap net)

unfoldable pub opened : Terms → Purse → ℕ → ℕ → NewPlan → Option Purse
opened t w usdg' value plan =
    if ltb plan.credited t.min_deposit
    then none
    else some (record w {
      usdg = w.usdg - usdg';
      eth = w.eth - value;
      allowance = w.allowance - usdg';
      plans = plan ∷ w.plans;
    })

unfoldable pub credit_both : Option ℕ → Option ℕ → Option ℕ
credit_both (some a) (some b) = some (a + b)
credit_both (some a) none = none
credit_both none b = none

-- A plan for nobody's address is one for the sender's.
abbrev pub recipient_of : Purse → String → String
recipient_of w who =
    if str_eq who "0x0000000000000000000000000000000000000000" then w.owner else who

-- An amount above 96 bits cannot be encoded.
unfoldable pub after_create :
    Terms → Purse → String → ℕ → String → ℕ → ℕ → ℕ → Bool → ℕ → Option Purse
unfolding opened credit_both
after_create t w stock' per_buy who usdg' weth min_usdg_out boost value =
    if t.paused || leb (2 ^ 96) per_buy || not (weth == 0)
    then none
    else if not (t.purchasable stock')
    then none
    else if ltb per_buy t.min_amount_per_epoch
    then none
    else elim (credit_both (usdg_leg t w usdg') (eth_leg t w value min_usdg_out)) [
      | none ↦ none
      | some credited' ↦ opened t w usdg' value (record {
        owner = w.owner;
        recipient = recipient_of w who;
        stock = stock';
        amount_per_epoch = per_buy;
        credited = credited';
        boosted = boost;
      })
    ]

unfoldable pub create_call : Terms → Purse → List Arg → Option ℕ → Option Purse
create_call t w
      (account stock'
        ∷ number per_buy
        ∷ account recipient
        ∷ number usdg'
        ∷ number weth
        ∷ number min_usdg_out
        ∷ flag boost
        ∷ [])
      (some value) =
    after_create t w stock' per_buy recipient usdg' weth min_usdg_out boost value
create_call t w args value = none

-- What is allowed of another token, or to another spender, is not what the vault may take.
unfoldable pub approve_call : Terms → Purse → String → List Arg → Option ℕ → Option Purse
approve_call t w token (account spender ∷ number amount ∷ []) none = some (
    if str_eq token t.usdg_token && str_eq spender t.vault
    then record w { allowance = amount }
    else w)
approve_call t w token args value = none

unfoldable pub call_of : Terms → Purse → TxParams → Option Purse
unfolding create_call approve_call
call_of t w p =
    if str_eq p.function_name "approve"
    then approve_call t w p.address p.args p.value
    else if str_eq p.function_name "createPlan" && str_eq p.address t.vault
    then create_call t w p.args p.value
    else none

unfoldable pub run_steps : Terms → Option Purse → List TxStep → Option Purse
unfolding call_of
run_steps t none steps = none
run_steps t (some w) [] = some w
run_steps t (some w) (s ∷ steps) = run_steps t (call_of t w s.params) steps
