-- ===== src/Plan/Steps.antt =====
-- What an order is made of: `TxParams` and `TxStep` of apps/web/src/hooks/useTx.ts, `FlowStep` of
-- apps/web/src/components/app/TxFlowDialog.tsx, and `PlanRef` and the calls of apps/web/src/lib/planSteps.ts.
use dca_protocol.Base.{ℕ, ◌-◌, ◌^◌, Bool, List, Option, none, some, String}
use dca_protocol.Routes.Path.{RouteHop}

abbrev pub max_uint256 : ℕ
max_uint256 = 2 ^ 256 - 1

-- The ABIs a call is encoded with: the vault's, the vault's with the nested errors, a token's, the router's, and that of
-- WETH's `deposit`.
pub data CallAbi : Type 0 where
  plan_vault_abi : CallAbi
  vault_call_abi : CallAbi
  erc20_abi : CallAbi
  aggregator_router_abi : CallAbi
  weth_deposit_abi : CallAbi

pub data Arg : Type 0 where
  number : ℕ → Arg
  flag : Bool → Arg
  account : String → Arg
  hops : List RouteHop → Arg

pub record TxParams : Type 0 where
  pub address : String
  pub abi : CallAbi
  pub function_name : String
  pub args : List Arg
  pub value : Option ℕ

pub record TxStep : Type 0 where
  pub label : String
  pub params : TxParams

abbrev pub step : String → TxParams → TxStep
step l p = record { label = l; params = p }

-- A row of the flow dialog: skipped and deferred rows are drawn, and nothing is sent for them.
pub record FlowStep : Type 0 where
  pub label : String
  pub detail : Option String
  pub done : Option String
  pub trailing : Option String
  pub skipped : Option String
  pub deferred : Option String

unfoldable pub flow_row : String → String → String → Option String → FlowStep
flow_row l d f t = record {
  label = l;
  detail = some d;
  done = some f;
  trailing = t;
  skipped = none;
  deferred = none;
}

pub record PlanRef : Type 0 where
  pub vault : String
  pub plan_id : ℕ
  pub symbol : String
  pub stock_decimals : ℕ
  pub name : Option String
  pub dca : Option Bool

-- What every order has: the plan, what is sent, and what is drawn.
pub record OrderBase : Type 0 where
  pub ref : PlanRef
  pub steps : List TxStep
  pub flow : List FlowStep

unfoldable pub vault_call : PlanRef → String → List Arg → Option ℕ → TxParams
vault_call ref name' args' value' = record {
  address = ref.vault;
  abi = vault_call_abi;
  function_name = name';
  args = args';
  value = value';
}
