-- ===== src/Routes/Parts.antt =====
-- The reads that an answer of `readBestRoute` of apps/web/src/hooks/useProtocol.ts rests on.
use dca_protocol.Base.{
  ℕ, not, ◌&&◌, List, [], ◌∷◌, ◌++◌, Option, String, map, filter_by, ◌≡◌, sym, ap, append-nil, none,
}
use dca_protocol.Routes.Path.{BestRoute, same_addr, path_key}
use dca_protocol.Routes.Read.{
  answered, read_or_no, Quote, Router, RouteQuote, read_all, Stone, Composed, compose_all,
  own_candidate, confirmed_candidates, best_of, paired, quote_or_no, onward_quote, read_stones,
  read_best_route,
}
use dca_protocol.Routes.Candidates.{bind-answered, answered_inj}
use dca_protocol.Routes.Composed.{IsComposed, compose_all-IsComposed}

abbrev pub own_keys : String → String → Option Quote → List String
own_keys from to own = map (λ (c : BestRoute). path_key c.path) (own_candidate from to own)

abbrev pub composed_of :
    String → String → Option Quote → List Stone → List (Option Quote) → Composed
composed_of from to own stones onwards =
    compose_all from to (paired stones onwards) (record { seen = own_keys from to own; paths = [] })

pub composed_of-IsComposed :
    (from to : String) (own : Option Quote) (stones : List Stone) (onwards : List (Option Quote))
    → IsComposed from to (own_keys from to own) (composed_of from to own stones onwards)
composed_of-IsComposed from to own stones onwards =
    compose_all-IsComposed from to _ (paired stones onwards) _
      (record { routable = λ p m. elim m [ ]; keys = sym (append-nil _) })

-- The stepping stones that are tried.
abbrev pub bases_of : String → String → String → List String
bases_of usdg from to = filter_by (λ b. not (same_addr b from) && not (same_addr b to)) (usdg ∷ [])

pub record Parts (router : Router) (usdg from to : String) (amount : ℕ) (q : RouteQuote)
    : Type 0 where
  pub own : Option Quote
  pub stones : List Stone
  pub onwards : List (Option Quote)
  pub outs : List (Option ℕ)
  pub own_read : quote_or_no router 0 from to amount ≡ answered own
  pub stones_read : read_stones router from to amount (bases_of usdg from to) ≡ answered stones
  pub onwards_read : read_all (onward_quote router to) stones ≡ answered onwards
  pub outs_read :
      read_all
        (λ p. read_or_no (router.quote_path 2 p amount))
        (composed_of from to own stones onwards).paths
      ≡ answered outs
  pub is_best :
      q.best
      ≡ best_of none (
          own_candidate from to own
          ++ confirmed_candidates (composed_of from to own stones onwards).paths outs)

pub read_best_route-Parts :
    (router : Router) (usdg from to : String) (amount : ℕ) (q : RouteQuote)
    → read_best_route router usdg from to amount ≡ answered q
    → Parts router usdg from to amount q
unfolding read_best_route
read_best_route-Parts router usdg from to amount q h =
    let (own', own_told, h₁) = bind-answered (quote_or_no router 0 from to amount) _ h in
    let (stones', stones_told, h₂) =
      bind-answered (read_stones router from to amount (bases_of usdg from to)) _ h₁ in
    let (onwards', onwards_told, h₃) =
      bind-answered (read_all (onward_quote router to) stones') _ h₂ in
    let (outs', outs_told, h₄) =
      bind-answered (read_all _ (composed_of from to own' stones' onwards').paths) _ h₃ in
    record {
      own = own';
      stones = stones';
      onwards = onwards';
      outs = outs';
      own_read = own_told;
      stones_read = stones_told;
      onwards_read = onwards_told;
      outs_read = outs_told;
      is_best = ap (λ (a : RouteQuote). a.best) (sym (answered_inj h₄));
    }
