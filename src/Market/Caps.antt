-- ===== src/Market/Caps.antt =====
-- The ranking of tickers by market cap of apps/web/src/hooks/useProtocol.ts: no ticker stands before one of a larger cap.
use dca_protocol.Base.{
  ◌*◌, ◌≤◌, ◌<◌, Bool, true, false, List, [], ◌∷◌, map, String, ltb, filter_by, In, or_else, ◌≡◌,
  ◌↔◌, refl, arith, Bool-cases, inl, inr,
}
use dca_protocol.Base.Dict.{Dict}
use dca_protocol.Base.Sort.{
  sorted_insert, sorted_insert-behind, sorted_insert-here, sort_by, sort_by-In, In-sort_by,
}
use dca_protocol.Plan.Format.{Fraction}
use dca_protocol.Market.Ranking.{StockQuote, larger, rank_key}
use dca_protocol.Market.Pinned.{filter_by-In, In-filter_by}

abbrev Quoted : Type 0
Quoted = String × StockQuote

-- A quote's market cap, zero where the feed has none.
abbrev pub cap : String × StockQuote → Fraction
cap e = or_else e.1.market_cap (record { over = 0; under = 1 })

-- The cap of the second is no larger, as fractions.
abbrev pub NotLarger : String × StockQuote → String × StockQuote → Type 0
NotLarger a b = (cap b).over * (cap a).under ≤ (cap a).over * (cap b).under

-- No entry is followed by one of a larger cap.
pub Descends : List (String × StockQuote) → Type 0
Descends [] = Unit
Descends (a ∷ []) = Unit
Descends (a ∷ b ∷ es) = NotLarger a b × Descends (b ∷ es)

larger-NotLarger : (a b : Quoted) → larger a b ≡ true → NotLarger a b
larger-NotLarger a b h = ground arith

larger_no-NotLarger : (a b : Quoted) → larger b a ≡ false → NotLarger a b
larger_no-NotLarger a b h = ground arith

insert-Descends :
    (x : Quoted) (es : List Quoted) → Descends es → Descends (sorted_insert larger x es)
unfolding Descends
insert-Descends x [] h = unfold sorted_insert in tt
insert-Descends x (y ∷ []) h = elim (Bool-cases (larger y x)) [
  | inl first ↦
      rw (sorted_insert-behind larger x y [] first)
        (unfold sorted_insert in (larger-NotLarger y x first, tt))
  | inr later ↦ rw (sorted_insert-here larger x y [] later) (larger_no-NotLarger x y later, tt)
]
insert-Descends x (y ∷ z ∷ es) (p, h) = elim (Bool-cases (larger y x)) [
  | inl first ↦
      rw (sorted_insert-behind larger x y (z ∷ es) first) (elim (Bool-cases (larger z x)) [
        | inl second ↦
            let rest : Descends (z ∷ sorted_insert larger x es) =
              rw (sorted_insert-behind larger x z es second) at (insert-Descends x (z ∷ es) h) in
            rw (sorted_insert-behind larger x z es second) (p, rest)
        | inr here_now ↦
            rw (sorted_insert-here larger x z es here_now)
              (larger-NotLarger y x first, (larger_no-NotLarger x z here_now, h))
      ])
  | inr later ↦
      rw (sorted_insert-here larger x y (z ∷ es) later) (larger_no-NotLarger x y later, (p, h))
]

sort_by-Descends : (es : List Quoted) → Descends (sort_by larger es)
unfolding sort_by Descends
sort_by-Descends [] = tt
sort_by-Descends (e ∷ es) = insert-Descends e _ (sort_by-Descends es)

-- The tickers of a ranking: those quoted with a cap above zero, none followed by one of a larger cap.
pub record RankedByCap (quotes : Dict StockQuote) (tickers : List String) : Type 0 where
  pub entries : List (String × StockQuote)
  pub named : tickers ≡ map (λ (e : String × StockQuote). e.0) entries
  pub descends : Descends entries
  pub members : (e : String × StockQuote) → In e entries ↔ (In e quotes × (0 < (cap e).over))

pub rank_key-RankedByCap : (quotes : Dict StockQuote) → RankedByCap quotes (rank_key quotes)
unfolding rank_key
rank_key-RankedByCap quotes = record {
  entries = sort_by larger (filter_by capped quotes);
  named = refl;
  descends = sort_by-Descends (filter_by capped quotes);
  members = λ e. (
    λ m.
        let (above, at) = filter_by-In capped quotes (In-sort_by larger _ m) in
        (at, capped-above e above),
    λ (at, above). sort_by-In larger _ (In-filter_by capped quotes (above-capped e above) at),
  );
}
  where
    capped : Quoted → Bool
    capped e = ltb 0 (cap e).over

    capped-above : (e : Quoted) → ltb 0 (cap e).over ≡ true → 0 < (cap e).over
    capped-above e h = ground arith

    above-capped : (e : Quoted) → 0 < (cap e).over → ltb 0 (cap e).over ≡ true
    above-capped e h = ground arith
