-- ===== src/Routes/Highest.antt =====
-- No route on offer beats the answer of `readBestRoute` of apps/web/src/hooks/useProtocol.ts.
use dca_protocol.Base.{
  ℕ, ◌<◌, true, false, List, [], ◌∷◌, ◌++◌, Option, none, some, String, In, here, In-append,
  In-append_left, In-append_right, map-In, In-map, ltb_iff, ◌≡◌, refl, sym, ap, ◌∙◌, arith, inl,
  inr, subst,
}
use dca_protocol.Routes.Path.{RouteHop, BestRoute, same_addr, is_routable, path_key}
use dca_protocol.Routes.Read.{
  answered, read_or_no, Quote, Router, RouteQuote, read_all, Stone, stones_of, tails_of,
  compose_leg, compose_stone, compose_all, usable_leg, route, own_candidate, confirmed_candidates,
  paired, quote_or_no, onward_from, onward_quote, read_stones, read_best_route,
}
use dca_protocol.Routes.Candidates.{
  read_or_no-some, bind-answered, Reaches, Reaches-mono, best_of-Reaches, read_all-Answers,
  one_answer, In-confirmed, answered_inj,
}
use dca_protocol.Routes.Best.{own-Delivers}
use dca_protocol.Routes.Composed.{compose_tails-covers}
use dca_protocol.Routes.Parts.{
  Parts, own_keys, bases_of, read_best_route-Parts, composed_of, composed_of-IsComposed,
}

-- The pools stand still between the rounds of reads: a path is quoted alike however its addresses are
-- written, and the router's own pick at the amount it was quoted with.
pub record IsSteady (router : Router) (from to : String) (amount : ℕ) : Type 0 where
  pub by_key :
      (p r : List RouteHop)
      → path_key p ≡ path_key r
      → router.quote_path 2 p amount ≡ router.quote_path 2 r amount
  pub own_steady :
      (o : Quote)
      → router.quote 0 from to amount ≡ answered o
      → router.quote_path 2 o.path amount ≡ answered o.amount_out

-- A way on from USDG: the router's own pick, or an approved hop.
pub data Onward (router : Router) (usdg to : String) (held : ℕ) : List RouteHop → Type 0 where
  picked :
      (w : Quote) → router.quote 1 usdg to held ≡ answered w → Onward router usdg to held w.path
  direct :
      (hops : List RouteHop) (h : RouteHop)
      → router.approved_hops 0 usdg to ≡ answered hops
      → In h hops
      → Onward router usdg to held (h ∷ [])

-- A path that can be sent, with the amount that it delivers.
pub data Offer (router : Router) (usdg from to : String) (amount : ℕ) : ℕ → Type 0 where
  own_pick :
      (o : Quote)
      → router.quote 0 from to amount ≡ answered o
      → is_routable o.path from to ≡ true
      → Offer router usdg from to amount o.amount_out
  over_usdg :
      (f : Quote) (tail : List RouteHop) (n : ℕ)
      → same_addr usdg from ≡ false
      → same_addr usdg to ≡ false
      → router.quote 0 from usdg amount ≡ answered f
      → 0 < f.amount_out
      → Onward router usdg to f.amount_out tail
      → is_routable (f.path ++ tail) from to ≡ true
      → router.quote_path 2 (f.path ++ tail) amount ≡ answered n
      → Offer router usdg from to amount n

module _ (router : Router) (usdg from to : String) (amount : ℕ) where
  own-In :
      (found : Option Quote) (o : Quote)
      → quote_or_no router 0 from to amount ≡ answered found
      → router.quote 0 from to amount ≡ answered o
      → is_routable o.path from to ≡ true
      → 0 < o.amount_out
      → In (route o.amount_out o.path) (own_candidate from to found)
  unfolding quote_or_no read_or_no own_candidate
  own-In found o read told fits some_out =
      let same = read_or_no-some (router.quote 0 from to amount) o found told read in
      rw same (rw ((ltb_iff 0 o.amount_out).1 some_out, fits) (here refl))

  stones_one :
      {f : Quote} {firsts : List (Option Quote)} {hop : Option (List RouteHop)}
      {hops : List (Option (List RouteHop))}
      → firsts ≡ some f ∷ []
      → hops ≡ hop ∷ []
      → stones_of (usdg ∷ []) firsts hops
        ≡ record { token = usdg; first = some f; hops_out = hop } ∷ []
  unfolding stones_of
  stones_one p q = rw (p, q)

  usable_leg-some : (f : Quote) → 0 < f.amount_out → usable_leg (some f) ≡ some f
  unfolding usable_leg
  usable_leg-some f some_out = ground arith

  -- The only stepping stone.
  stone_lem :
      (f : Quote) (stones : List Stone)
      → read_stones router from to amount (usdg ∷ []) ≡ answered stones
      → router.quote 0 from usdg amount ≡ answered f
      → (hops : Option (List RouteHop)) × (read_or_no (router.approved_hops 0 usdg to)
          ≡ answered hops)
        × (stones ≡ record { token = usdg; first = some f; hops_out = hops } ∷ [])
  unfolding read_stones quote_or_no
  stone_lem f stones read told =
      let (firsts, firsts_told, h₁) = bind-answered (read_all _ (usdg ∷ [])) _ read in
      let (hops, hops_told, h₂) = bind-answered (read_all _ (usdg ∷ [])) _ h₁ in
      let (first, first_told, e₁) =
        one_answer _ (read_all-Answers _ (usdg ∷ []) firsts firsts_told) in
      let (hop, hop_told, e₂) = one_answer _ (read_all-Answers _ (usdg ∷ []) hops hops_told) in
      let same = read_or_no-some (router.quote 0 from usdg amount) f first told first_told in
      (
        hop,
        hop_told,
        sym (answered_inj h₂) ∙ stones_one (e₁ ∙ ap (λ (o : Option Quote). o ∷ []) same) e₂,
      )

  Onward-In :
      (held : ℕ) (onward : Option Quote) (hops : Option (List RouteHop)) (tail : List RouteHop)
      → quote_or_no router 1 usdg to held ≡ answered onward
      → read_or_no (router.approved_hops 0 usdg to) ≡ answered hops
      → Onward router usdg to held tail
      → In tail (tails_of onward hops)
  unfolding quote_or_no read_or_no tails_of
  Onward-In held onward hops tail asked listed (picked w told) =
      let same = read_or_no-some (router.quote 1 usdg to held) w onward told asked in
      rw same (here refl)
  Onward-In held onward hops tail asked listed (direct all h told m) =
      let same = read_or_no-some (router.approved_hops 0 usdg to) all hops told listed in
      rw same (In-append_right _ (map-In (λ (k : RouteHop). k ∷ []) m))

  onward_quote-one :
      (f : Quote) (hops : Option (List RouteHop))
      → 0 < f.amount_out
      → onward_quote router to (record { token = usdg; first = some f; hops_out = hops })
        ≡ quote_or_no router 1 usdg to f.amount_out
  unfolding onward_quote
  onward_quote-one f hops some_out = rw (usable_leg-some f some_out, onward_from)

  -- A routable path over USDG has its key among those seen.
  over_usdg-seen :
      (found : Option Quote) (f : Quote) (tail : List RouteHop) (stones : List Stone)
      (onwards : List (Option Quote))
      → read_stones router from to amount (usdg ∷ []) ≡ answered stones
      → read_all (onward_quote router to) stones ≡ answered onwards
      → router.quote 0 from usdg amount ≡ answered f
      → 0 < f.amount_out
      → Onward router usdg to f.amount_out tail
      → is_routable (f.path ++ tail) from to ≡ true
      → In (path_key (f.path ++ tail)) (composed_of from to found stones onwards).seen
  unfolding compose_all paired compose_stone compose_leg
  over_usdg-seen found f tail stones onwards read asked told some_out way fits =
      let (hops, hops_told, e) = stone_lem f stones read told in
      let (onward, onward_told, e') = one_answer (onward_quote router to) (
        read_all-Answers (onward_quote router to)
          (record { token = usdg; first = some f; hops_out = hops } ∷ []) onwards
          (subst (λ ss. read_all (onward_quote router to) ss ≡ answered onwards) e asked)) in
      let m =
        Onward-In f.amount_out onward hops tail
          (sym (onward_quote-one f hops some_out) ∙ onward_told) hops_told way in
      rw (e, e', usable_leg-some f some_out) (compose_tails-covers from to f.path _ _ tail m fits)

  -- The answer reaches what a candidate delivers.
  candidate-Reaches :
      (q : RouteQuote) (p : Parts router usdg from to amount q) (c : BestRoute)
      → In c (
          own_candidate from to p.own
          ++ confirmed_candidates (composed_of from to p.own p.stones p.onwards).paths p.outs)
      → Reaches q.best c.amount_out
  candidate-Reaches q p c m =
      subst (λ (best : Option BestRoute). Reaches best c.amount_out) (sym p.is_best)
        (best_of-Reaches c none _ m)

  own-told :
      (found : Option Quote) (c : BestRoute)
      → IsSteady router from to amount
      → quote_or_no router 0 from to amount ≡ answered found
      → In c (own_candidate from to found)
      → router.quote_path 2 c.path amount ≡ answered c.amount_out
  own-told found c steady read m = elim ((own-Delivers router from to amount found c read m).told) [
    | inl quoted ↦ steady.own_steady _ quoted
    | inr confirmed ↦ confirmed
  ]

  -- A path whose key is among those seen cannot do better than the answer.
  seen-Reaches :
      (q : RouteQuote) (p : Parts router usdg from to amount q) (path : List RouteHop) (n : ℕ)
      → IsSteady router from to amount
      → In (path_key path) (composed_of from to p.own p.stones p.onwards).seen
      → router.quote_path 2 path amount ≡ answered n
      → 0 < n
      → Reaches q.best n
  unfolding read_or_no
  seen-Reaches q p path n steady m told some_out =
      let v = composed_of-IsComposed from to p.own p.stones p.onwards in
      elim (In-append (own_keys from to p.own) _ (subst (In (path_key path)) v.keys m)) [
        | inl owned ↦
            let (c, at, same) = In-map _ (own_candidate from to p.own) owned in
            let paid = own-told p.own c steady p.own_read at in
            let equal = answered_inj (sym paid ∙ steady.by_key c.path path same ∙ told) in
            Reaches-mono (omega (arith, equal)) (candidate-Reaches q p c (In-append_left _ at))
        | inr composed ↦
            let (r, at, same) = In-map path_key _ composed in
            let said = ap read_or_no (steady.by_key r path same ∙ told) in
            let m' =
              In-confirmed _ r n (read_all-Answers _ _ p.outs p.outs_read) at said some_out in
            candidate-Reaches q p (route n r) (In-append_right (own_candidate from to p.own) m')
      ]

  -- If the pools stand still between the rounds of reads, and an answer comes, then its best route delivers at
  -- least what any of these delivers: the router's own pick, if it can be sent, and a path that can be sent and
  -- goes over USDG by the router's pick or by an approved hop, if neither end is USDG; a delivery of nothing
  -- does not count.
  pub read_best_route-Reaches :
      (q : RouteQuote) (n : ℕ)
      → IsSteady router from to amount
      → read_best_route router usdg from to amount ≡ answered q
      → Offer router usdg from to amount n
      → 0 < n
      → Reaches q.best n
  read_best_route-Reaches q n steady read offer some_out =
      reaches (read_best_route-Parts router usdg from to amount q read) offer
    where
      reaches :
          Parts router usdg from to amount q → Offer router usdg from to amount n → Reaches q.best n
      reaches p (own_pick o told fits) =
          candidate-Reaches q p (route o.amount_out o.path)
            (In-append_left _ (own-In p.own o p.own_read told fits some_out))
      reaches p (over_usdg f tail m not_from not_to told some_first way fits said) =
          let only : bases_of usdg from to ≡ usdg ∷ [] = rw (not_from, not_to) in
          let read' =
            subst (λ bs. read_stones router from to amount bs ≡ answered p.stones) only
              p.stones_read in
          seen-Reaches q p (f.path ++ tail) m steady
            (over_usdg-seen p.own f tail p.stones p.onwards read' p.onwards_read told some_first way
              fits)
            said some_out
