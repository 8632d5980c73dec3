-- ===== src/Market/Worth.antt =====
-- `useStockHoldings`, `usePrices`, `useTvl`, `useDcaToken`, `usePerkThresholds` and the helpers of positions in
-- apps/web/src/hooks/useProtocol.ts. What the chain answers is a parameter of each.
use dca_protocol.Base.{
  ℕ, ◌+◌, ◌-◌, ◌*◌, ◌^◌, Bool, true, false, ◌&&◌, not, List, [], ◌∷◌, map, Option, none, some,
  String, ltb, every, ◌==◌, if◌then◌else◌, or_else, is_some,
}
use dca_protocol.Base.Dict.{Dict, lookup, insert}
use dca_protocol.Base.Text.{str_eq, to_lower}
use dca_protocol.Plan.Format.{value_of}
use dca_protocol.Create.Kinds.{VaultKind}
use dca_protocol.Create.Types.{Directory, Stock, VaultInfo, is_zero, find_by}

pub record Position : Type 0 where
  pub vault : String
  pub plan_id : ℕ
  pub stock : String
  pub recipient : String
  pub amount_per_epoch : ℕ
  pub usdg_idle : ℕ
  pub stock_accrued : ℕ
  pub last_epoch_id : ℕ
  pub paused : Bool
  pub boosted : Bool
  pub boost_value : ℕ
  pub boost_principal : ℕ
  pub boost_earned : ℕ

unfoldable pub plan_balance : Position → ℕ
plan_balance p = p.usdg_idle + p.boost_value

unfoldable pub boost_earnings : Position → ℕ
boost_earnings p =
    p.boost_earned
    + (if ltb p.boost_principal p.boost_value then p.boost_value - p.boost_principal else 0)

-- The vaults that are shown, as a function of their frequency.
unfoldable pub kind_of : List VaultKind → Option (VaultKind → String) → String → Option VaultKind
kind_of shown none a = none
kind_of shown (some vault) a = find_by (λ k. str_eq (to_lower (vault k)) (to_lower a)) shown

unfoldable pub vault_list : List VaultKind → (VaultKind → String) → List String
vault_list shown vault = map vault shown

abbrev pub dca_perk_default : ℕ
dca_perk_default = 100000 * 10 ^ 18

pub record PerkThresholds : Type 0 where
  pub auto_distribute : ℕ
  pub fee_halve : ℕ

unfoldable pub perk_thresholds : List VaultInfo → PerkThresholds
perk_thresholds [] = record { auto_distribute = dca_perk_default; fee_halve = dca_perk_default }
perk_thresholds (i ∷ infos) = record {
  auto_distribute = or_else i.auto_distribute_threshold dca_perk_default;
  fee_halve = or_else i.fee_halve_threshold dca_perk_default;
}

-- Stock on the vaults: what each has of each stock, a read that failed counting as nothing.
module _ (accrued : VaultKind → String → Option ℕ) where
  amount_of : VaultKind → Stock → ℕ
  amount_of k s = or_else (accrued k s.address) 0

  add_stock : VaultKind → Dict ℕ → Stock → Dict ℕ
  unfolding amount_of
  add_stock k held s =
      let key = to_lower s.address in insert key (or_else (lookup key held) 0 + amount_of k s) held

  add_stocks : VaultKind → List Stock → Dict ℕ → Dict ℕ
  unfolding add_stock
  add_stocks k [] held = held
  add_stocks k (s ∷ ss) held = add_stocks k ss (add_stock k held s)

  per_stock_from : List VaultKind → List Stock → Dict ℕ → Dict ℕ
  unfolding add_stocks
  per_stock_from [] stocks held = held
  per_stock_from (k ∷ ks) stocks held = per_stock_from ks stocks (add_stocks k stocks held)

  -- `perStock`
  unfoldable pub stock_holdings : List VaultKind → List Stock → Dict ℕ
  unfolding per_stock_from
  stock_holdings ks stocks = per_stock_from ks stocks []

-- A token with its decimals, and the prices of one whole unit of each, none without a route.
pub record Token : Type 0 where
  pub address : String
  pub decimals : ℕ

module _ (quote : String → String → ℕ → Option ℕ) where
  prices_from : String → List Token → Dict (Option ℕ) → Dict (Option ℕ)
  prices_from usdg [] out = out
  prices_from usdg (t ∷ ts) out =
      prices_from usdg ts (insert (to_lower t.address) (quote t.address usdg (10 ^ t.decimals)) out)

  unfoldable pub read_prices : String → List Token → Dict (Option ℕ)
  unfolding prices_from
  read_prices usdg tokens = prices_from usdg tokens []

-- `prices[key]`
abbrev price_at : Dict (Option ℕ) → String → Option ℕ
price_at prices key = or_else (lookup key prices) none

pub record Tvl : Type 0 where
  pub usdg : ℕ
  pub boosted : ℕ
  pub stock_usd : Option ℕ
  pub per_stock_usd : Dict (Option ℕ)
  pub total : Option ℕ

sum_of : (VaultInfo → Option ℕ) → List VaultInfo → ℕ
sum_of field [] = 0
sum_of field (i ∷ infos) = or_else (field i) 0 + sum_of field infos

module _ (prices : Dict (Option ℕ)) (holdings : Dict ℕ) where
  -- Nothing is worth nothing, whatever its price.
  unfoldable pub worth_of : Stock → Option ℕ
  worth_of s =
      let amt = or_else (lookup (to_lower s.address) holdings) 0 in
      if amt == 0
      then some 0
      else value_of (some amt) (price_at prices (to_lower s.address)) s.decimals

  abbrev plus_worth : Option ℕ → Option ℕ → Option ℕ
  plus_worth none v = none
  plus_worth (some n) none = none
  plus_worth (some n) (some v) = some (n + v)

  sum_worth : List Stock → Option ℕ → Option ℕ
  unfolding worth_of
  sum_worth [] acc = acc
  sum_worth (s ∷ ss) acc = sum_worth ss (plus_worth acc (worth_of s))

  worth_table : List Stock → Dict (Option ℕ) → Dict (Option ℕ)
  worth_table [] table = table
  worth_table (s ∷ ss) table = worth_table ss (insert (to_lower s.address) (worth_of s) table)

  total_of : ℕ → ℕ → Option ℕ → Option ℕ
  total_of usdg boosted none = none
  total_of usdg boosted (some stock) = some (usdg + boosted + stock)

  unfoldable pub tvl : List VaultInfo → List Stock → Tvl
  unfolding sum_of sum_worth worth_table total_of
  tvl infos stocks = record {
    usdg = sum_of (λ i. i.total_usdg_idle) infos;
    boosted = sum_of (λ i. i.boost_assets) infos;
    stock_usd = sum_worth stocks (some 0);
    per_stock_usd = worth_table stocks [];
    total =
        total_of (sum_of (λ i. i.total_usdg_idle) infos) (sum_of (λ i. i.boost_assets) infos)
          (sum_worth stocks (some 0));
  }

abbrev has_some : List VaultInfo → Bool
has_some [] = false
has_some (i ∷ infos) = true

-- Whether all that the total needs has answered.
unfoldable pub tvl_ready : Option (List VaultInfo) → Option (List Stock) → Bool → Bool → Bool
tvl_ready none stocks holdings_loading prices_loading = false
tvl_ready (some infos) stocks holdings_loading prices_loading =
    has_some infos
    && every (λ (i : VaultInfo). is_some i.total_usdg_idle && is_some i.boost_assets) infos
    && is_some stocks
    && not holdings_loading
    && not prices_loading

unfoldable pub dca_address : Option Directory → Option String
dca_address none = none
dca_address (some d) = if is_zero (some d.dca) then none else some d.dca

unfoldable pub dca_price : Dict (Option ℕ) → Option String → Option ℕ
dca_price prices none = none
dca_price prices (some a) = price_at prices (to_lower a)

unfoldable pub dca_market_cap : Option ℕ → Option ℕ → Option ℕ
dca_market_cap supply price = value_of supply price 18
