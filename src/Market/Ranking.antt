-- ===== src/Market/Ranking.antt =====
-- `useRankedStocks` of apps/web/src/hooks/useProtocol.ts. The order of tickers that is kept between renders is a list here,
-- and `localeCompare` is a parameter.
use dca_protocol.Base.{
  ℕ, suc, ◌*◌, Bool, true, false, ◌&&◌, ◌||◌, not, List, [], ◌∷◌, map, Option, none, some, String,
  filter_by, length, take, ltb, ◌==◌, if◌then◌else◌, or_else, is_some,
}
use dca_protocol.Base.Int.{ℤ}
use dca_protocol.Base.Dict.{Dict}
use dca_protocol.Base.Sort.{sort_by}
use dca_protocol.Base.Text.{str_eq, to_upper}
use dca_protocol.Plan.Format.{Fraction}
use dca_protocol.Create.Types.{Directory, Stock, is_dca_token, find_by, first_of}
use dca_protocol.Market.Buyable.{is_buyable, buyable_ready}

-- What the market feed has for a ticker; a change is a fraction with a sign, and a cap is not negative.
pub record StockQuote : Type 0 where
  pub name : String
  pub price : Fraction
  pub change_24h : Option (ℤ × ℕ)
  pub market_cap : Option Fraction

abbrev pub cap_of : StockQuote → Fraction
cap_of q = or_else q.market_cap (record { over = 0; under = 1 })

abbrev pub larger : String × StockQuote → String × StockQuote → Bool
larger a b = ltb ((cap_of b.1).over * (cap_of a.1).under) ((cap_of a.1).over * (cap_of b.1).under)

-- The tickers with a market cap, the largest first.
unfoldable pub rank_key : Dict StockQuote → List String
rank_key quotes =
    map (λ (p : String × StockQuote). p.0)
      (sort_by larger (filter_by (λ (p : String × StockQuote). ltb 0 (cap_of p.1).over) quotes))

-- `rank.get(symbol)`
unfoldable pub place_of : String → List String → Option ℕ
place_of symbol [] = none
place_of symbol (s ∷ ss) =
    if str_eq symbol s
    then some 0
    else elim (place_of symbol ss) [ none ↦ none | some n ↦ some (suc n) ]

-- `l.filter((s) => s !== found)`, of the one that `find` finds.
abbrev pub without_first {ℓ} : {A : Type ℓ} → (A → Bool) → List A → List A
without_first test [] = []
without_first test (x ∷ xs) = if test x then xs else x ∷ without_first test xs

-- `d ? [d, ...rest] : rest` and `l[0]`
abbrev pub pinned {ℓ} : {A : Type ℓ} → Option A → List A → List A
pinned none rest = rest
pinned (some d) rest = d ∷ rest

abbrev pub head_of {ℓ} : {A : Type ℓ} → List A → Option A
head_of [] = none
head_of (x ∷ xs) = some x

-- `l.length > 0`
abbrev pub has_length : List Stock → Bool
has_length [] = false
has_length (s ∷ ss) = true

-- What the hooks have answered.
pub record RankView : Type 0 where
  pub dir : Option Directory
  pub listed : List Stock
  pub stocks_loading : Bool
  pub buyable_on : Option String
  pub keeper : Option String
  pub pairs : Option (List String)
  pub quotes : Dict StockQuote
  pub market_ready : Bool
  pub market_failed : Bool

abbrev pub top_stocks : ℕ
top_stocks = 5

module _ (v : RankView) (locale_before : String → String → Bool) where
  abbrev pub is_dca_stock : Stock → Bool
  is_dca_stock s = is_dca_token v.dir (some s.address)

  unfoldable pub rank_of : Stock → Option ℕ
  rank_of s = if is_dca_stock s then none else place_of (to_upper s.symbol) (rank_key v.quotes)

  unfoldable pub bought_on : Option String → Stock → Bool
  bought_on none s = true
  bought_on (some vault) s = or_else (is_buyable v.keeper v.pairs vault s.address) false

  unfoldable pub offered : List Stock
  unfolding bought_on
  offered = filter_by (bought_on v.buyable_on) v.listed

  unfoldable pub place : Stock → ℕ
  place s = or_else (rank_of s) (length (rank_key v.quotes))

  -- By rank, those without one last, and by symbol among equals.
  unfoldable pub goes_before : Stock → Stock → Bool
  goes_before a b =
      ltb (place a) (place b) || (place a == place b && locale_before a.symbol b.symbol)

  unfoldable pub dca_stock : Option Stock
  dca_stock = find_by is_dca_stock offered

  unfoldable pub ranked : List Stock
  ranked = sort_by goes_before (without_first is_dca_stock offered)

  unfoldable pub choices : List Stock
  choices = pinned dca_stock ranked

  unfoldable pub ready : Bool
  ready =
      has_length v.listed
      && not v.stocks_loading
      && (not (is_some v.buyable_on) || buyable_ready v.keeper v.pairs)
      && (v.market_ready || v.market_failed)

  unfoldable pub top : List Stock
  top = if ready then take top_stocks (filter_by (λ s. is_some (rank_of s)) ranked) else []

  unfoldable pub preferred : Option Stock
  preferred = if ready then first_of dca_stock (first_of (head_of top) (head_of ranked)) else none
