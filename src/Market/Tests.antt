-- ===== src/Market/Tests.antt =====
-- Concrete stocks, jobs and holdings for apps/web/src/hooks/useProtocol.ts: runs, and the theorems applied to them.
use dca_protocol.Base.{
  ℕ, Bool, true, false, List, [], ◌∷◌, Option, none, some, String, if◌then◌else◌, In, ◌≡◌, ◌↔◌,
  refl, ltb,
}
use dca_protocol.Base.Dict.{lookup}
use dca_protocol.Base.Text.{str_eq, template}
use dca_protocol.Create.Kinds.{VaultKind, hourly, daily}
use dca_protocol.Create.Types.{Stock, Directory}
use dca_protocol.Market.Buyable.{Reads, Job, pair_key, read_buyable, is_buyable}
use dca_protocol.Market.Ranking.{
  RankView, StockQuote, rank_key, choices, offered, ranked, ready, preferred, head_of,
}
use dca_protocol.Market.Caps.{RankedByCap}
use dca_protocol.Market.Places.{Placed}
use dca_protocol.Market.Offers.{BoughtThere, AllIn, choices-Offered}
use dca_protocol.Market.Bought.{FeedOk, read_buyable-FeedOk}
use dca_protocol.Market.Worth.{stock_holdings}

abbrev stock : String → String → Stock
stock a s = record {
  address = a;
  symbol = s;
  decimals = 18;
  approved = true;
  fee_on_transfer = false;
}

abbrev capped : ℕ → StockQuote
capped n = record {
  name = "a name";
  price = record { over = 1; under = 1 };
  change_24h = none;
  market_cap = some (record { over = n; under = 1 });
}

-- Four stocks, of which one is not bought and one is $DCA.
abbrev view : RankView
view = record {
  dir = some (record {
    hourly = "0x1";
    daily = "0x2";
    weekly = "0x3";
    monthly = "0x4";
    registry = "0x5";
    router = "0x6";
    usdg = "0x7";
    weth = "0x8";
    dca = "0xdd";
  });
  listed = stock "0xa" "AA" ∷ stock "0xb" "BB" ∷ stock "0xDD" "DCA" ∷ stock "0xc" "CC" ∷ [];
  stocks_loading = false;
  buyable_on = some "0x2";
  keeper = some "0xe";
  pairs = some ("0x2:0xa" ∷ "0x2:0xb" ∷ "0x2:0xdd" ∷ []);
  quotes = ("AA", capped 7) ∷ ("BB", capped 9) ∷ [];
  market_ready = true;
  market_failed = false;
}

choices-Offered_example :
    ((s : Stock)
      → In s (choices view (λ a b. false)) ↔ (In s view.listed × BoughtThere view (λ a b. false) s))
    × (AllIn view (λ a b. false)
        → preferred view (λ a b. false) ≡ head_of (choices view (λ a b. false)))
    × (¬ (AllIn view (λ a b. false)) → preferred view (λ a b. false) ≡ none)
    × Placed view (λ a b. false) (ranked view (λ a b. false))
    × RankedByCap view.quotes (rank_key view.quotes)
choices-Offered_example = choices-Offered view (λ a b. false)

in_order :
    choices view (λ a b. false) ≡ stock "0xDD" "DCA" ∷ stock "0xb" "BB" ∷ stock "0xa" "AA" ∷ []
unfolding choices offered ranked dca_protocol.Market.Ranking.dca_stock
    dca_protocol.Market.Ranking.bought_on is_buyable pair_key template
    dca_protocol.Base.Text.to_lower dca_protocol.Base.Text.to_upper dca_protocol.Base.Sort.sort_by
    dca_protocol.Base.Sort.sorted_insert dca_protocol.Market.Ranking.goes_before
    dca_protocol.Market.Ranking.place dca_protocol.Market.Ranking.rank_of
    dca_protocol.Market.Ranking.rank_key dca_protocol.Market.Ranking.place_of
    dca_protocol.Create.Types.is_dca_token dca_protocol.Create.Types.is_zero
in_order = refl

abbrev job : String → String → Bool → Job
job v s a = record { vault = v; stock = s; active = a }

abbrev all_jobs : List Job
all_jobs = job "0x2" "0xa" true ∷ job "0x2" "0xb" true ∷ job "0x1" "0xa" false ∷ []

-- The daily vault wants a feed, which one of its stocks has.
abbrev node : Reads
node = record {
  approved_stocks = none;
  info = λ a. none;
  jobs = some all_jobs;
  require_feed = λ v. some true;
  price_feed = λ v s. some (if str_eq s "0xa" then "0xf" else "");
}

abbrev bought : List String
bought = "0x2:0xa" ∷ []

one_pair : read_buyable node ≡ some bought
unfolding read_buyable dca_protocol.Market.Buyable.buyable_of dca_protocol.Market.Buyable.pairs_read
    dca_protocol.Market.Buyable.bought_pairs dca_protocol.Market.Buyable.unique_texts lookup
    pair_key template dca_protocol.Base.Text.to_lower dca_protocol.Create.Types.is_zero
one_pair = refl

read_buyable-FeedOk_example : In {A = String} "0x2:0xa" bought ↔ (
    (j : Job) × In j all_jobs
    × (j.active ≡ true)
    × FeedOk node j
    × (pair_key j.vault j.stock ≡ "0x2:0xa"))
read_buyable-FeedOk_example = read_buyable-FeedOk node all_jobs bought refl one_pair "0x2:0xa"

both_vaults :
    lookup "0xa" (
      stock_holdings
        (λ (k : VaultKind) (a : String). some 3)
        (hourly ∷ daily ∷ [])
        (stock "0xA" "AA" ∷ []))
    ≡ some 6
unfolding stock_holdings lookup dca_protocol.Base.Dict.insert dca_protocol.Base.Text.to_lower
both_vaults = refl
