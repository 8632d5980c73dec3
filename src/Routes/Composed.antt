-- ===== src/Routes/Composed.antt =====
-- The paths that `readBestRoute` of apps/web/src/hooks/useProtocol.ts composes, and the keys it has seen.
use dca_protocol.Base.{
  true, List, [], ◌∷◌, ◌++◌, Option, none, some, String, map, any, In, here, there, In-append,
  In-append_left, In-append_right, ◌≡◌, refl, Bool-cases, inl, inr, append_assoc,
}
use mathlib.Core.List.{map-append}
use dca_protocol.Base.Names.{any-In}
use dca_protocol.Base.Text.{str_eq}
use dca_protocol.Routes.Path.{RouteHop, is_routable, path_key}
use dca_protocol.Routes.Read.{
  Quote, Stone, Composed, compose_one, compose_tails, compose_leg, compose_stone, compose_all,
  usable_leg,
}

-- Every composed path can be sent, and the keys seen are those of the router's own pick and of the composed paths.
pub record IsComposed (from to : String) (own : List String) (c : Composed) : Type 0 where
  pub routable : (p : List RouteHop) → In p c.paths → is_routable p from to ≡ true
  pub keys : c.seen ≡ own ++ map path_key c.paths

module _ (from to : String) where
  extended-IsComposed :
      (own : List String) (p : List RouteHop) (c : Composed)
      → IsComposed from to own c
      → is_routable p from to ≡ true
      → IsComposed from to own
          (record { seen = c.seen ++ path_key p ∷ []; paths = c.paths ++ p ∷ [] })
  extended-IsComposed own p c v fits = record {
    routable = λ q m. elim (In-append c.paths (p ∷ []) m) [
      | inl old ↦ v.routable q old
      | inr (here e) ↦ rw e fits
      | inr (there none_left) ↦ elim none_left [ ]
    ];
    keys = simp (v.keys, map-append, append_assoc);
  }

  compose_one-IsComposed :
      (own : List String) (p : List RouteHop) (c : Composed)
      → IsComposed from to own c
      → IsComposed from to own (compose_one from to p c)
  unfolding compose_one
  compose_one-IsComposed own p c v = elim (Bool-cases (is_routable p from to)) [
    | inl fits ↦ elim (Bool-cases (any (str_eq (path_key p)) c.seen)) [
      | inl known ↦ rw (fits, known) v
      | inr fresh ↦ rw (fits, fresh) (extended-IsComposed own p c v fits)
    ]
    | inr unfit ↦ rw unfit v
  ]

  compose_tails-IsComposed :
      (own : List String) (head : List RouteHop) (tails : List (List RouteHop)) (c : Composed)
      → IsComposed from to own c
      → IsComposed from to own (compose_tails from to head tails c)
  unfolding compose_tails
  compose_tails-IsComposed own head [] c v = v
  compose_tails-IsComposed own head (t ∷ ts) c v =
      compose_tails-IsComposed own head ts _ (compose_one-IsComposed own (head ++ t) c v)

  compose_leg-IsComposed :
      (own : List String) (leg : Option Quote) (tails : List (List RouteHop)) (c : Composed)
      → IsComposed from to own c
      → IsComposed from to own (compose_leg from to leg tails c)
  unfolding compose_leg
  compose_leg-IsComposed own none tails c v = v
  compose_leg-IsComposed own (some q) tails c v = compose_tails-IsComposed own q.path tails c v

  pub compose_all-IsComposed :
      (own : List String) (stones : List (Stone × Option Quote)) (c : Composed)
      → IsComposed from to own c
      → IsComposed from to own (compose_all from to stones c)
  unfolding compose_all compose_stone
  compose_all-IsComposed own [] c v = v
  compose_all-IsComposed own (s ∷ stones) c v =
      compose_all-IsComposed own stones _ (compose_leg-IsComposed own (usable_leg s.0.first) _ c v)

  -- A key that was seen stays seen.
  compose_one-keeps :
      (p : List RouteHop) (c : Composed) (k : String)
      → In k c.seen
      → In k (compose_one from to p c).seen
  unfolding compose_one
  compose_one-keeps p c k m = elim (Bool-cases (is_routable p from to)) [
    | inl fits ↦ elim (Bool-cases (any (str_eq (path_key p)) c.seen)) [
      | inl known ↦ rw (fits, known) m
      | inr fresh ↦ rw (fits, fresh) (In-append_left (path_key p ∷ []) m)
    ]
    | inr unfit ↦ rw unfit m
  ]

  compose_one-covers :
      (p : List RouteHop) (c : Composed)
      → is_routable p from to ≡ true
      → In (path_key p) (compose_one from to p c).seen
  unfolding compose_one
  compose_one-covers p c fits = elim (Bool-cases (any (str_eq (path_key p)) c.seen)) [
    | inl known ↦ rw (fits, known) (any-In _ _ known)
    | inr fresh ↦ rw (fits, fresh) (In-append_right c.seen (here refl))
  ]

  compose_tails-keeps :
      (head : List RouteHop) (tails : List (List RouteHop)) (c : Composed) (k : String)
      → In k c.seen
      → In k (compose_tails from to head tails c).seen
  unfolding compose_tails
  compose_tails-keeps head [] c k m = m
  compose_tails-keeps head (t ∷ ts) c k m =
      compose_tails-keeps head ts _ k (compose_one-keeps (head ++ t) c k m)

  pub compose_tails-covers :
      (head : List RouteHop) (tails : List (List RouteHop)) (c : Composed) (t : List RouteHop)
      → In t tails
      → is_routable (head ++ t) from to ≡ true
      → In (path_key (head ++ t)) (compose_tails from to head tails c).seen
  unfolding compose_tails
  compose_tails-covers head [] c t m fits = elim m [ ]
  compose_tails-covers head (u ∷ us) c t (here e) fits =
      rw e (compose_tails-keeps head us _ _ (compose_one-covers (head ++ u) c (rw e at fits)))
  compose_tails-covers head (u ∷ us) c t (there m) fits = compose_tails-covers head us _ t m fits
