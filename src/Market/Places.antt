-- ===== src/Market/Places.antt =====
-- The order of the ranked stocks of apps/web/src/hooks/useProtocol.ts.
use dca_protocol.Base.{
  ℕ, ◌≤◌, ◌<◌, Bool, true, false, List, [], ◌∷◌, Option, none, some, String, filter_by, length,
  take, is_some, All, ◌≡◌, refl, arith, Bool-cases, Option-cases, inl, inr,
}
use dca_protocol.Base.Sort.{
  sorted_insert, sorted_insert-behind, sorted_insert-here, sort_by, All-sorted_insert,
}
use dca_protocol.Create.Types.{Stock, first_of}
use dca_protocol.Market.Ranking.{
  RankView, rank_key, place_of, is_dca_stock, rank_of, place, goes_before, top_stocks, head_of,
}

place_of-below :
    (symbol : String) (ss : List String) (n : ℕ) → place_of symbol ss ≡ some n → n < length ss
unfolding place_of
place_of-below symbol [] n h = absurd (cc h)
place_of-below symbol (s ∷ ss) n h = elim (Option-cases (place_of symbol ss)) [
  | inl missing ↦ ground arith
  | inr (m, at) ↦ let below = place_of-below symbol ss m at in ground arith
]

module _ (v : RankView) (locale_before : String → String → Bool) where
  -- No later stock has a better place.
  pub Placed : List Stock → Type 0
  Placed [] = Unit
  Placed (s ∷ ss) = All (λ z. place v locale_before s ≤ place v locale_before z) ss × Placed ss

  goes_before-place :
      (a b : Stock)
      → goes_before v locale_before a b ≡ true
      → place v locale_before a ≤ place v locale_before b
  unfolding goes_before
  goes_before-place a b h = ground arith

  place-goes_before :
      (a b : Stock)
      → goes_before v locale_before a b ≡ false
      → place v locale_before b ≤ place v locale_before a
  unfolding goes_before
  place-goes_before a b h = ground arith

  All-later :
      (m n : ℕ) (ss : List Stock)
      → m ≤ n
      → All (λ z. n ≤ place v locale_before z) ss
      → All (λ z. m ≤ place v locale_before z) ss
  All-later m n [] le all = tt
  All-later m n (s ∷ ss) le (p, all) = (omega arith, All-later m n ss le all)

  insert-Placed :
      (x : Stock) (ss : List Stock)
      → Placed ss
      → Placed (sorted_insert (goes_before v locale_before) x ss)
  unfolding Placed
  insert-Placed x [] h = unfold sorted_insert in (tt, tt)
  insert-Placed x (y ∷ ys) (below, h) = elim (Bool-cases (goes_before v locale_before y x)) [
    | inl first ↦ rw (sorted_insert-behind (goes_before v locale_before) x y ys first) (
      All-sorted_insert (goes_before v locale_before)
          (λ z. place v locale_before y ≤ place v locale_before z) x ys
          (goes_before-place y x first) below,
      insert-Placed x ys h,
    )
    | inr later ↦ rw (sorted_insert-here (goes_before v locale_before) x y ys later) (
      (place-goes_before y x later, All-later _ _ ys (place-goes_before y x later) below),
      (below, h),
    )
  ]

  pub sort_by-Placed : (ss : List Stock) → Placed (sort_by (goes_before v locale_before) ss)
  unfolding sort_by Placed
  sort_by-Placed [] = tt
  sort_by-Placed (s ∷ ss) = insert-Placed s _ (sort_by-Placed ss)

  rank_of-below :
      (s : Stock) (n : ℕ) → rank_of v locale_before s ≡ some n → n < length (rank_key v.quotes)
  unfolding rank_of
  rank_of-below s n h = elim (Bool-cases (is_dca_stock v locale_before s)) [
    | inl dca ↦ absurd (cc (rw dca at h))
    | inr other ↦ place_of-below _ (rank_key v.quotes) n (rw other at h)
  ]

  place-unranked :
      (s : Stock) (o : Option ℕ)
      → rank_of v locale_before s ≡ o
      → length (rank_key v.quotes) ≤ place v locale_before s
      → o ≡ none
  unfolding place
  place-unranked s none e le = refl
  place-unranked s (some n) e le =
      let below = rank_of-below s n e in absurd (omega (arith, below, rw e at le))

  rest_unranked :
      (ss : List Stock)
      → All (λ z. length (rank_key v.quotes) ≤ place v locale_before z) ss
      → filter_by (λ s. is_some (rank_of v locale_before s)) ss ≡ []
  rest_unranked [] all = refl
  rest_unranked (s ∷ ss) (p, all) = rw (place-unranked s _ refl p) (rest_unranked ss all)

  -- The first with a rank, or the first of all, is the first of all.
  pub first-head :
      (ss : List Stock)
      → Placed ss
      → first_of
          (head_of (take top_stocks (filter_by (λ s. is_some (rank_of v locale_before s)) ss)))
          (head_of ss)
        ≡ head_of ss
  unfolding Placed
  first-head [] h = refl
  first-head (s ∷ ss) (below, h) = elim (Option-cases (rank_of v locale_before s)) [
    | inl unranked ↦ rw unranked (rw (rest_unranked ss (last_place unranked)) refl)
    | inr (n, has_rank) ↦ rw has_rank refl
  ]
    where
      last_place :
          rank_of v locale_before s ≡ none
          → All (λ z. length (rank_key v.quotes) ≤ place v locale_before z) ss
      last_place unranked =
          All-later _ (place v locale_before s) ss (unfold place in rw unranked (omega arith)) below
