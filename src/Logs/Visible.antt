-- ===== src/Logs/Visible.antt =====
-- apps/web/src/lib/visiblePositions.ts: which plans are listed, and `Position` of apps/web/src/hooks/useProtocol.ts.
use dca_protocol.Base.{
  ℕ, ◌+◌, Bool, false, ◌&&◌, ◌||◌, not, List, any, filter_by, Option, none, some, String, ◌==◌,
}
use dca_protocol.Base.Dict.{Dict, lookup}
use dca_protocol.Base.Text.{str_eq}

-- The balances that a position shows.
pub record BalanceLike : Type 0 where
  pub usdg_idle : ℕ
  pub boost_value : ℕ
  pub stock_accrued : ℕ

unfoldable pub looks_empty : BalanceLike → Bool
looks_empty p = p.usdg_idle + p.boost_value == 0 && p.stock_accrued == 0

-- `unindexed === false`, of a state that may be missing.
abbrev dropped : Option Bool → Bool
dropped none = false
dropped (some live) = not live

unfoldable pub is_hidden_plan : BalanceLike → Option Bool → Bool → Bool
is_hidden_plan p unindexed removed = looks_empty p && (dropped unindexed || removed)

-- `index?.[key]`
abbrev index_at : Option (Dict Bool) → String → Option Bool
index_at none key = none
index_at (some index) key = lookup key index

module _ {P : Type 0} (balances : P → BalanceLike) (key_of : P → String) where
  unfoldable pub visible_positions : List P → Option (Dict Bool) → List String → List P
  visible_positions all index hidden =
      filter_by
        (λ p. not (
          is_hidden_plan (balances p) (index_at index (key_of p)) (any (str_eq (key_of p)) hidden)))
        all
