-- ===== src/Market/Buyable.antt =====
-- `readStockList`, `readBuyable`, `useBuyable` and `useKindsBuying` of apps/web/src/hooks/useProtocol.ts. A read that fails
-- is none, and fails the whole.
use dca_protocol.Base.{
  ℕ, Bool, true, false, ◌||◌, not, List, [], ◌∷◌, map, Option, none, some, String, any, filter_by,
  if◌then◌else◌, or_else, is_some,
}
use dca_protocol.Base.Dict.{Dict, lookup}
use dca_protocol.Base.Text.{template, str_eq, to_lower}
use dca_protocol.Create.Kinds.{
  VaultKind, hourly, daily, weekly, monthly, test, production_vault_kinds,
}
use dca_protocol.Create.Types.{Directory, Stock, is_zero}

pub record StockFacts : Type 0 where
  pub symbol : String
  pub decimals : ℕ
  pub approved : Bool
  pub fee_on_transfer : Bool

pub record Job : Type 0 where
  pub vault : String
  pub stock : String
  pub active : Bool

-- The registry, the keeper and the vaults, as they answer.
pub record Reads : Type 0 where
  pub approved_stocks : Option (List String)
  pub info : String → Option StockFacts
  pub jobs : Option (List Job)
  pub require_feed : String → Option Bool
  pub price_feed : String → String → Option String

abbrev cons_read {ℓ} : {A : Type ℓ} → Option A → Option (List A) → Option (List A)
cons_read none rest = none
cons_read (some x) none = none
cons_read (some x) (some xs) = some (x ∷ xs)

-- `Promise.all(xs.map(f))`
abbrev pub all_read {ℓ κ} : {A : Type ℓ} {B : Type κ} → (A → Option B) → List A → Option (List B)
all_read f [] = some []
all_read f (x ∷ xs) = cons_read (f x) (all_read f xs)

abbrev pub pair_up {ℓ κ} : {A : Type ℓ} {B : Type κ} → List A → List B → List (A × B)
pair_up [] ys = []
pair_up (x ∷ xs) [] = []
pair_up (x ∷ xs) (y ∷ ys) = (x, y) ∷ pair_up xs ys

stock_of : String × StockFacts → Stock
stock_of p = record {
  address = p.0;
  symbol = p.1.symbol;
  decimals = p.1.decimals;
  approved = p.1.approved;
  fee_on_transfer = p.1.fee_on_transfer;
}

stocks_read : List String → Option (List StockFacts) → Option (List Stock)
unfolding stock_of
stocks_read addrs none = none
stocks_read addrs (some infos) = some (map stock_of (pair_up addrs infos))

stock_list_of : Reads → Option (List String) → Option (List Stock)
unfolding stocks_read
stock_list_of node none = none
stock_list_of node (some addrs) = stocks_read addrs (all_read node.info addrs)

unfoldable pub read_stock_list : Reads → Option (List Stock)
unfolding stock_list_of
read_stock_list node = stock_list_of node node.approved_stocks

unfoldable pub pair_key : String → String → String
pair_key vault stock = template (to_lower vault ∷ ":" ∷ to_lower stock ∷ [])

-- `[...new Set(texts)]`
unfoldable pub unique_texts : List String → List String → List String
unique_texts seen [] = []
unique_texts seen (s ∷ ss) =
    if any (str_eq s) seen then unique_texts seen ss else s ∷ unique_texts (s ∷ seen) ss

-- `requireFeed.get(vault)`, as a truth value.
abbrev pub feed_needed : Dict Bool → String → Bool
feed_needed needs vault = or_else (lookup vault needs) false

unfoldable pub bought_pairs : List (Job × String) → Dict Bool → List String
bought_pairs jobs needs =
    map (λ (p : Job × String). pair_key p.0.vault p.0.stock)
      (filter_by
        (λ (p : Job × String). not (feed_needed needs p.0.vault) || not (is_zero (some p.1))) jobs)

unfoldable pub pairs_read :
    List Job → List String → Option (List Bool) → Option (List String) → Option (List String)
unfolding bought_pairs
pairs_read jobs vaults none feeds = none
pairs_read jobs vaults (some guards) none = none
pairs_read jobs vaults (some guards) (some feeds) =
    some (bought_pairs (pair_up jobs feeds) (pair_up vaults guards))

unfoldable pub buyable_of : Reads → Option (List Job) → Option (List String)
unfolding pairs_read
buyable_of node none = none
buyable_of node (some all) =
    let jobs = filter_by (λ (j : Job). j.active) all in
    let vaults = unique_texts [] (map (λ (j : Job). j.vault) jobs) in
    pairs_read jobs vaults (all_read node.require_feed vaults)
      (all_read (λ (j : Job). node.price_feed j.vault j.stock) jobs)

-- The pairs that are bought: an active job and, where the vault wants one, a feed.
unfoldable pub read_buyable : Reads → Option (List String)
unfolding buyable_of
read_buyable node = buyable_of node node.jobs

-- By the keeper that is configured, if any, and the pairs, once they are in.
unfoldable pub is_buyable : Option String → Option (List String) → String → String → Option Bool
is_buyable none pairs vault stock = some true
is_buyable (some keeper) none vault stock = none
is_buyable (some keeper) (some pairs) vault stock = some (any (str_eq (pair_key vault stock)) pairs)

unfoldable pub buyable_ready : Option String → Option (List String) → Bool
buyable_ready keeper pairs = not (is_some keeper) || is_some pairs

-- The production vault of a frequency.
vault_of : Directory → VaultKind → String
vault_of d hourly = d.hourly
vault_of d daily = d.daily
vault_of d weekly = d.weekly
vault_of d monthly = d.monthly
vault_of d test = ""

unfoldable pub kinds_buying :
    Option Directory → Option String → Option (List String) → String → Option (List VaultKind)
unfolding vault_of
kinds_buying none keeper pairs stock = none
kinds_buying (some d) keeper pairs stock =
    if buyable_ready keeper pairs
    then some (
        filter_by (λ k. or_else (is_buyable keeper pairs (vault_of d k) stock) false)
          production_vault_kinds)
    else none
