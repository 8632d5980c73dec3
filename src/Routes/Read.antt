-- ===== src/Routes/Read.antt =====
-- `readOrNo` and `readBestRoute` of apps/web/src/hooks/useProtocol.ts. The router's answers are a parameter, and a
-- question that is put in a later round may be answered anew.
use dca_protocol.Base.{
  ℕ, Bool, true, false, ◌&&◌, not, List, [], ◌∷◌, ◌++◌, Option, none, some, String, ltb, ◌==◌,
  if◌then◌else◌, map, length, filter_by, any, or_else,
}
use dca_protocol.Base.Dict.{Dict, insert}
use dca_protocol.Base.Text.{to_lower, str_eq}
use dca_protocol.Routes.Path.{RouteHop, BestRoute, same_addr, is_routable, path_tokens, path_key}

-- What `walk` finds in an error: the call met no code, or it was reverted (with its data, if any), or a node's
-- internal error is among its causes. An error that is not viem's has nothing to walk.
pub record ReadError : Type 0 where
  pub is_base : Bool
  pub zero_data : Bool
  pub reverted : Option (Option String)
  pub internal : Bool

pub data Read {ℓ} (A : Type ℓ) : Type ℓ where
  answered : A → Read A
  threw : ReadError → Read A

infixl 5 ◌>>=◌
abbrev pub ◌>>=◌ {ℓ κ} : {A : Type ℓ} {B : Type κ} → Read A → (A → Read B) → Read B
answered a >>= f = f a
threw e >>= f = threw e

has_revert_data : Option String → Bool
has_revert_data none = false
has_revert_data (some raw) = not (str_eq raw "") && not (str_eq raw "0x")

-- Whether an error is the contract's own no.
unfoldable pub is_no : ReadError → Option (Option String) → Bool
unfolding has_revert_data
is_no e none = false
is_no e (some raw) = not (e.internal && not (has_revert_data raw))

unfoldable pub read_or_no {ℓ} : {A : Type ℓ} → Read A → Read (Option A)
unfolding is_no
read_or_no (answered a) = answered (some a)
read_or_no (threw e) =
    if not e.is_base
    then threw e
    else if e.zero_data
    then answered none
    else if is_no e e.reverted
    then answered none
    else threw e

pub record Quote : Type 0 where
  pub amount_out : ℕ
  pub path : List RouteHop

-- The router, as it answers in each round of reads.
pub record Router : Type 0 where
  pub quote : ℕ → String → String → ℕ → Read Quote
  pub approved_hops : ℕ → String → String → Read (List RouteHop)
  pub quote_path : ℕ → List RouteHop → ℕ → Read ℕ

pub record RouteQuote : Type 0 where
  pub best : Option BestRoute
  pub first_legs : Dict ℕ

-- `Promise.all(xs.map(f))`
unfoldable pub read_all {ℓ κ} : {A : Type ℓ} {B : Type κ} → (A → Read B) → List A → Read (List B)
read_all f [] = answered []
read_all f (x ∷ xs) = do y ← f x; ys ← read_all f xs; answered (y ∷ ys)

-- A stepping stone: its token, the quote into it, and the hops out of it.
pub record Stone : Type 0 where
  pub token : String
  pub first : Option Quote
  pub hops_out : Option (List RouteHop)

unfoldable pub stones_of :
    List String → List (Option Quote) → List (Option (List RouteHop)) → List Stone
stones_of (b ∷ bases) (f ∷ firsts) (h ∷ hops) =
    record { token = b; first = f; hops_out = h } ∷ stones_of bases firsts hops
stones_of [] firsts hops = []
stones_of (b ∷ bases) [] hops = []
stones_of (b ∷ bases) (f ∷ firsts) [] = []

unfoldable pub paired {ℓ κ} : {A : Type ℓ} {B : Type κ} → List A → List B → List (A × B)
paired [] ys = []
paired (x ∷ xs) [] = []
paired (x ∷ xs) (y ∷ ys) = (x, y) ∷ paired xs ys

-- The paths from the stepping stone on: the router's own pick, then each direct hop.
unfoldable pub tails_of : Option Quote → Option (List RouteHop) → List (List RouteHop)
tails_of onward hops_out =
    elim onward [ none ↦ [] | some q ↦ q.path ∷ [] ]
    ++ map (λ (h : RouteHop). h ∷ []) (or_else hops_out [])

-- The keys that are taken, and the paths that are new.
pub record Composed : Type 0 where
  pub seen : List String
  pub paths : List (List RouteHop)

unfoldable pub compose_one : String → String → List RouteHop → Composed → Composed
compose_one from to path c =
    if not (is_routable path from to)
    then c
    else if any (str_eq (path_key path)) c.seen
    then c
    else record { seen = c.seen ++ path_key path ∷ []; paths = c.paths ++ path ∷ [] }

unfoldable pub compose_tails :
    String → String → List RouteHop → List (List RouteHop) → Composed → Composed
compose_tails from to head [] c = c
compose_tails from to head (tail ∷ tails) c =
    compose_tails from to head tails (compose_one from to (head ++ tail) c)

-- A first leg that is missing or gives nothing is no leg.
unfoldable pub usable_leg : Option Quote → Option Quote
usable_leg none = none
usable_leg (some q) = if q.amount_out == 0 then none else some q

-- The paths over one stepping stone, if its first leg is usable.
unfoldable pub compose_leg :
    String → String → Option Quote → List (List RouteHop) → Composed → Composed
compose_leg from to none tails c = c
compose_leg from to (some q) tails c = compose_tails from to q.path tails c

unfoldable pub compose_stone : String → String → Stone → Option Quote → Composed → Composed
unfolding usable_leg compose_leg
compose_stone from to s onward c =
    compose_leg from to (usable_leg s.first) (tails_of onward s.hops_out) c

unfoldable pub compose_all : String → String → List (Stone × Option Quote) → Composed → Composed
compose_all from to [] c = c
compose_all from to (s ∷ stones) c = compose_all from to stones (compose_stone from to s.0 s.1 c)

abbrev pub route : ℕ → List RouteHop → BestRoute
route out path' = record { amount_out = out; path = path'; tokens = path_tokens path' }

-- The router's own pick, if it gives something along a path that can be sent.
unfoldable pub own_candidate : String → String → Option Quote → List BestRoute
own_candidate from to none = []
own_candidate from to (some q) =
    if ltb 0 q.amount_out && is_routable q.path from to then route q.amount_out q.path ∷ [] else []

unfoldable pub confirmed_candidate : List RouteHop → Option ℕ → List BestRoute
confirmed_candidate path none = []
confirmed_candidate path (some out) = if ltb 0 out then route out path ∷ [] else []

unfoldable pub confirmed_candidates : List (List RouteHop) → List (Option ℕ) → List BestRoute
confirmed_candidates [] outs = []
confirmed_candidates (p ∷ paths) [] = []
confirmed_candidates (p ∷ paths) (out ∷ outs) =
    confirmed_candidate p out ++ confirmed_candidates paths outs

-- Whether a candidate takes the place of the best so far.
unfoldable pub beats : BestRoute → BestRoute → Bool
beats c b =
    if ltb b.amount_out c.amount_out
    then true
    else c.amount_out == b.amount_out && ltb (length c.path) (length b.path)

unfoldable pub best_of : Option BestRoute → List BestRoute → Option BestRoute
unfolding beats
best_of best [] = best
best_of none (c ∷ cs) = best_of (some c) cs
best_of (some b) (c ∷ cs) = best_of (some (if beats c b then c else b)) cs

unfoldable pub first_legs_of : List Stone → Dict ℕ → Dict ℕ
first_legs_of [] legs = legs
first_legs_of (s ∷ stones) legs =
    first_legs_of stones
      (elim s.first [ none ↦ legs | some q ↦ insert (to_lower s.token) q.amount_out legs ])

module _ (router : Router) where
  unfoldable pub quote_or_no : ℕ → String → String → ℕ → Read (Option Quote)
  quote_or_no round from to amount = read_or_no (router.quote round from to amount)

  unfoldable pub onward_from : String → String → Option Quote → Read (Option Quote)
  onward_from token to none = answered none
  onward_from token to (some q) = quote_or_no 1 token to q.amount_out

  -- The onward quote of a stepping stone with a usable first leg.
  unfoldable pub onward_quote : String → Stone → Read (Option Quote)
  unfolding onward_from
  onward_quote to s = onward_from s.token to (usable_leg s.first)

  -- The first round's reads for the stepping stones.
  unfoldable pub read_stones : String → String → ℕ → List String → Read (List Stone)
  read_stones from to amount bases = do
    firsts ← read_all (λ b. quote_or_no 0 from b amount) bases
    hops ← read_all (λ b. read_or_no (router.approved_hops 0 b to)) bases
    answered (stones_of bases firsts hops)

  unfoldable pub read_best_route : String → String → String → ℕ → Read RouteQuote
  read_best_route usdg token_in token_out amount = do
    own ← quote_or_no 0 token_in token_out amount
    stones ←
        read_stones token_in token_out amount
          (filter_by (λ b. not (same_addr b token_in) && not (same_addr b token_out)) (usdg ∷ []))
    onwards ← read_all (onward_quote token_out) stones
    let owns = own_candidate token_in token_out own
    let composed =
        compose_all token_in token_out (paired stones onwards)
          (record { seen = map (λ (c : BestRoute). path_key c.path) owns; paths = [] })
    outs ← read_all (λ p. read_or_no (router.quote_path 2 p amount)) composed.paths
    answered (record {
      best = best_of none (owns ++ confirmed_candidates composed.paths outs);
      first_legs = first_legs_of stones [];
    })
