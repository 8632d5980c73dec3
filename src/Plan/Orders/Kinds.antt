-- ===== src/Plan/Orders/Kinds.antt =====
-- The order types of apps/web/src/lib/planSteps.ts.
use dca_protocol.Base.{ℕ, Bool, Option, String}
use dca_protocol.Base.Int.{ℤ}
use dca_protocol.Plan.Format.{Fraction}
use dca_protocol.Plan.Steps.{OrderBase}

pub data Pay : Type 0 where
  usdg : Pay
  eth : Pay

pub record DepositOrder : Type 0 where
  pub base : OrderBase
  pub pay : Pay
  pub amount : ℕ
  pub credited : Option ℕ
  pub balance_after : Option ℕ
  pub boosted : Bool

pub record WithdrawOrder : Type 0 where
  pub base : OrderBase
  pub amount : ℕ
  pub all : Bool
  pub receive : ℤ
  pub fee_bps : ℕ
  pub from_boost : ℕ
  pub balance_after : ℕ
  pub settled : Option Bool

pub record ClaimOrder : Type 0 where
  pub base : OrderBase
  pub amount : ℕ
  pub receive : ℤ
  pub usd : Option ℕ
  pub fee_bps : ℕ
  pub perk : Bool
  pub stock : String
  pub recipient : String
  pub to_self : Bool

pub record BoostOrder : Type 0 where
  pub base : OrderBase
  pub lend : ℕ
  pub apy : Option Fraction

pub record UnboostOrder : Type 0 where
  pub base : OrderBase
  pub back : ℕ
  pub earned : ℕ

pub record PauseOrder : Type 0 where
  pub base : OrderBase
  pub pause : Bool
  pub balance : ℕ
  pub boosted : Bool
  pub per_buy : ℕ
  pub next_buy : Option ℕ

pub data PlanOrder : Type 0 where
  deposit : DepositOrder → PlanOrder
  withdraw : WithdrawOrder → PlanOrder
  claim : ClaimOrder → PlanOrder
  boost : BoostOrder → PlanOrder
  unboost : UnboostOrder → PlanOrder
  pause : PauseOrder → PlanOrder

unfoldable pub base_of : PlanOrder → OrderBase
base_of (deposit o) = o.base
base_of (withdraw o) = o.base
base_of (claim o) = o.base
base_of (boost o) = o.base
base_of (unboost o) = o.base
base_of (pause o) = o.base
