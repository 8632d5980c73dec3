-- ===== src/Routes/Best.antt =====
-- What the answer of `readBestRoute` of apps/web/src/hooks/useProtocol.ts is worth.
use dca_protocol.Base.{
  ℕ, ◌<◌, true, ◌&&◌, List, Option, none, some, String, ltb, In, In-append, In-if, ◌≡◌, refl, sym,
  ◌∙◌, arith, ◌⊎◌, inl, inr,
}
use dca_protocol.Routes.Path.{RouteHop, BestRoute, is_routable, path_tokens}
use dca_protocol.Routes.Read.{
  answered, read_or_no, Quote, Router, RouteQuote, read_all, route, own_candidate,
  confirmed_candidates, quote_or_no, read_best_route,
}
use dca_protocol.Routes.Walk.{IsRoute, is_routable-IsRoute}
use dca_protocol.Routes.Candidates.{read_or_no-answered, best_of-In, read_all-Answers, confirmed-In}
use dca_protocol.Routes.Parts.{Parts, read_best_route-Parts, composed_of-IsComposed}

-- What an order may rely on: a path that can be sent, and an amount that the router named for it.
pub record Delivers (router : Router) (from to : String) (amount : ℕ) (b : BestRoute) : Type 0 where
  pub is_route : IsRoute from to b.path
  pub visits : b.tokens ≡ path_tokens b.path
  pub some_out : 0 < b.amount_out
  pub told :
      (router.quote 0 from to amount
        ≡ answered (record { amount_out = b.amount_out; path = b.path }))
      ⊎ (router.quote_path 2 b.path amount ≡ answered b.amount_out)

module _ (router : Router) (from to : String) (amount : ℕ) where
  pub own-Delivers :
      (own : Option Quote) (b : BestRoute)
      → quote_or_no router 0 from to amount ≡ answered own
      → In b (own_candidate from to own)
      → Delivers router from to amount b
  unfolding own_candidate quote_or_no
  own-Delivers none b told m = elim m [ ]
  own-Delivers (some o) b told m = own_route (In-if _ m)
    where
      own_route :
          ((ltb 0 o.amount_out && is_routable o.path from to) ≡ true)
            × (b ≡ route o.amount_out o.path)
          → Delivers router from to amount b
      own_route (fits, is) = rw is (record {
        is_route = is_routable-IsRoute o.path from to (ground arith);
        visits = refl;
        some_out = ground arith;
        told = inl (read_or_no-answered _ _ told);
      })

  confirmed-Delivers :
      (paths : List (List RouteHop)) (outs : List (Option ℕ)) (b : BestRoute)
      → ((p : List RouteHop) → In p paths → is_routable p from to ≡ true)
      → read_all (λ p. read_or_no (router.quote_path 2 p amount)) paths ≡ answered outs
      → In b (confirmed_candidates paths outs)
      → Delivers router from to amount b
  confirmed-Delivers paths outs b fits told m =
      let (p, at, n, said, some_n, is) = confirmed-In _ b (read_all-Answers _ paths outs told) m in
      rw is (record {
        is_route = is_routable-IsRoute p from to (fits p at);
        visits = refl;
        some_out = some_n;
        told = inr (read_or_no-answered _ _ said);
      })

  -- The best route is a path of one to three hops that leads from the one token to the other, each hop from
  -- where the one before it ended, and visits no token twice; the amount is above zero, and it is what the
  -- router quoted along with this path, or what it confirmed for this path.
  pub read_best_route-Delivers :
      (usdg : String) (q : RouteQuote) (b : BestRoute)
      → read_best_route router usdg from to amount ≡ answered q
      → q.best ≡ some b
      → Delivers router from to amount b
  read_best_route-Delivers usdg q b read is =
      delivers (read_best_route-Parts router usdg from to amount q read)
    where
      delivers : Parts router usdg from to amount q → Delivers router from to amount b
      delivers p = elim (best_of-In b none _ (sym p.is_best ∙ is)) [
        | inl no_best ↦ absurd (cc no_best)
        | inr m ↦ elim (In-append (own_candidate from to p.own) _ m) [
          | inl owned ↦ own-Delivers p.own b p.own_read owned
          | inr found ↦
              let v = composed_of-IsComposed from to p.own p.stones p.onwards in
              confirmed-Delivers _ p.outs b v.routable p.outs_read found
        ]
      ]
