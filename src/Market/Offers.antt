-- ===== src/Market/Offers.antt =====
-- What the ranking of stocks in apps/web/src/hooks/useProtocol.ts offers, and where it starts.
use dca_protocol.Base.{
  Bool, true, false, not, ◌&&◌, ◌||◌, ◌∙◌, List, [], ◌∷◌, here, ◌⊎◌, Option-cases, Option, none,
  some, String, filter_by, take, is_some, or_else, if◌then◌else◌, In, arith, ◌≡◌, ◌↔◌, refl, ap,
  Bool-cases, inl, inr,
}
use dca_protocol.Base.Sort.{sort_by-In, In-sort_by}
use dca_protocol.Create.Types.{Stock, find_by, first_of}
use dca_protocol.Market.Buyable.{is_buyable, buyable_ready}
use dca_protocol.Market.Ranking.{
  RankView, has_length, is_dca_stock, rank_key, rank_of, bought_on, offered, goes_before, dca_stock,
  ranked, pinned, choices, ready, top, top_stocks, head_of, preferred,
}
use dca_protocol.Market.Pinned.{filter_by-In, In-filter_by, pinned_mono, pinned-In, In-pinned}
use dca_protocol.Market.Caps.{RankedByCap, rank_key-RankedByCap}
use dca_protocol.Market.Places.{Placed, first-head, sort_by-Placed}

module _ (v : RankView) (locale_before : String → String → Bool) where
  start-head :
      (o : Option Stock) (ss : List Stock)
      → Placed v locale_before ss
      → first_of o (
          first_of
            (head_of (take top_stocks (filter_by (λ s. is_some (rank_of v locale_before s)) ss)))
            (head_of ss))
        ≡ head_of (pinned o ss)
  start-head none ss h = first-head v locale_before ss h
  start-head (some d) ss h = refl

  answered_yes : (o : Option Bool) → or_else o false ≡ true → o ≡ some true
  answered_yes none h = absurd (cc h)
  answered_yes (some b) h = ap some h

  bought_on-yes :
      (s : Stock) (vault : String)
      → bought_on v locale_before (some vault) s ≡ true
      → is_buyable v.keeper v.pairs vault s.address ≡ some true
  unfolding bought_on
  bought_on-yes s vault h = answered_yes _ h

  choices-In : (s : Stock) → In s (offered v locale_before) → In s (choices v locale_before)
  unfolding choices dca_stock ranked
  choices-In s m =
      pinned_mono (is_dca_stock v locale_before)
        (find_by (is_dca_stock v locale_before) (offered v locale_before)) _ _
        (λ b. sort_by-In (goes_before v locale_before) _)
        (pinned-In (is_dca_stock v locale_before) (offered v locale_before) m)

  In-choices : (s : Stock) → In s (choices v locale_before) → In s (offered v locale_before)
  unfolding choices dca_stock ranked
  In-choices s m = In-pinned (is_dca_stock v locale_before) (offered v locale_before) (
      pinned_mono (is_dca_stock v locale_before)
        (find_by (is_dca_stock v locale_before) (offered v locale_before)) _ _
        (λ b. In-sort_by (goes_before v locale_before) _) m)

  preferred-head :
      preferred v locale_before
      ≡ (if ready v locale_before then head_of (choices v locale_before) else none)
  unfolding preferred top choices
  preferred-head = elim (Bool-cases (ready v locale_before)) [
    | inl in_now ↦ rw in_now (
        start-head (dca_stock v locale_before) (ranked v locale_before)
          (unfold ranked in sort_by-Placed v locale_before _))
    | inr waiting ↦ rw waiting refl
  ]

  -- What the vault asked about buys, if one is asked about.
  abbrev pub BoughtThere : Stock → Type 0
  BoughtThere s =
      (vault : String)
      → v.buyable_on ≡ some vault
      → is_buyable v.keeper v.pairs vault s.address ≡ some true

  yes-bought_on : (s : Stock) → BoughtThere s → bought_on v locale_before v.buyable_on s ≡ true
  unfolding bought_on
  yes-bought_on s bought = elim (Option-cases v.buyable_on) [
    | inl nowhere ↦ rw nowhere refl
    | inr (vault, at) ↦ rw at (rw (bought vault at) refl)
  ]

  -- Everything that the ranking waits for: a list of stocks that is not empty and no longer loading, what the keeper
  -- buys where a vault is asked about, and the market's answer or its failure.
  pub record AllIn : Type 0 where
    pub some_listed : (s : Stock) × In s v.listed
    pub loaded : v.stocks_loading ≡ false
    pub pairs_in :
        (vault : String) → v.buyable_on ≡ some vault → buyable_ready v.keeper v.pairs ≡ true
    pub market_in : (v.market_ready ≡ true) ⊎ (v.market_failed ≡ true)

  first_listed : (ss : List Stock) → has_length ss ≡ true → (s : Stock) × In s ss
  first_listed [] h = absurd (cc h)
  first_listed (s ∷ ss) h = (s, here refl)

  listed_some : (ss : List Stock) (s : Stock) → In s ss → has_length ss ≡ true
  listed_some [] s m = elim m [ ]
  listed_some (x ∷ ss) s m = refl

  ready-AllIn : ready v locale_before ≡ true → AllIn
  unfolding ready
  ready-AllIn h = record {
    some_listed = first_listed v.listed (ground arith);
    loaded = ground arith;
    pairs_in = λ vault e. needed (is_some v.buyable_on) (ap is_some e) (ground arith);
    market_in = one_of v.market_ready v.market_failed (ground arith);
  }
    where
      needed :
          (b : Bool)
          → b ≡ true
          → (not b || buyable_ready v.keeper v.pairs) ≡ true
          → buyable_ready v.keeper v.pairs ≡ true
      needed true is h = h
      needed false is h = absurd (cc is)

      one_of : (a b : Bool) → (a || b) ≡ true → (a ≡ true) ⊎ (b ≡ true)
      one_of true b h = inl refl
      one_of false b h = inr h

  AllIn-ready : AllIn → ready v locale_before ≡ true
  unfolding ready
  AllIn-ready all =
      let (s, m) = all.some_listed in
      rw (listed_some v.listed s m, all.loaded)
        (both _ _ (asked v.buyable_on refl) (market all.market_in))
    where
      both : (a b : Bool) → a ≡ true → b ≡ true → (a && b) ≡ true
      both a b p q = ground arith

      asked :
          (o : Option String)
          → v.buyable_on ≡ o
          → (not (is_some o) || buyable_ready v.keeper v.pairs) ≡ true
      asked none e = refl
      asked (some vault) e = all.pairs_in vault e

      market :
          (v.market_ready ≡ true) ⊎ (v.market_failed ≡ true)
          → (v.market_ready || v.market_failed) ≡ true
      market (inl in_now) = ground arith
      market (inr failed) = ground arith

  -- What may be picked is exactly what is listed and, where a vault is asked about, what that vault buys. Once all is in
  -- - stocks, purchases and the market's answer or failure - the form starts with the first choice, and
  -- before that with none. The other choices stand by their place in the market's ranking, those
  -- without a place last; and the ranking has the tickers quoted with a market cap, none of them before one of a larger.
  pub choices-Offered :
      ((s : Stock) → In s (choices v locale_before) ↔ (In s v.listed × BoughtThere s))
      × (AllIn → preferred v locale_before ≡ head_of (choices v locale_before))
      × (¬ AllIn → preferred v locale_before ≡ none)
      × Placed v locale_before (ranked v locale_before)
      × RankedByCap v.quotes (rank_key v.quotes)
  unfolding offered
  choices-Offered = (
    λ s. (
      λ m.
          let (bought, listed) = filter_by-In _ v.listed (In-choices s m) in
          (listed, λ vault e. bought_on-yes s vault (rw e at bought)),
      λ (listed, bought). choices-In s (
          In-filter_by (bought_on v locale_before v.buyable_on) v.listed (yes-bought_on s bought)
            listed),
    ),
    λ all. preferred-head ∙ rw (AllIn-ready all) refl,
    λ missing. elim (Bool-cases (ready v locale_before)) [
      | inl in_now ↦ absurd (missing (ready-AllIn in_now))
      | inr waiting ↦ preferred-head ∙ rw waiting refl
    ],
    unfold ranked in sort_by-Placed v locale_before _,
    rank_key-RankedByCap v.quotes,
  )
