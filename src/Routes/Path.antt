-- ===== src/Routes/Path.antt =====
-- The paths of apps/web/src/hooks/useProtocol.ts: hops, the shape that `swapWithRoute` takes, and identity.
use dca_protocol.Base.{
  ℕ, ◌+◌, Bool, true, false, ◌&&◌, List, [], ◌∷◌, String, leb, ◌==◌, if◌then◌else◌, map, length,
  any,
}
use dca_protocol.Base.Text.{to_lower, str_eq, join, decimal}

pub record RouteHop : Type 0 where
  pub protocol : ℕ
  pub token_in : String
  pub token_out : String
  pub fee : ℕ
  pub extra : String

pub record BestRoute : Type 0 where
  pub amount_out : ℕ
  pub path : List RouteHop
  pub tokens : List String

unfoldable pub same_addr : String → String → Bool
same_addr a b = str_eq (to_lower a) (to_lower b)

-- `path[path.length - 1].tokenOut` of a path that begins with this hop
unfoldable pub last_out : RouteHop → List RouteHop → String
last_out h [] = h.token_out
last_out h (k ∷ ks) = last_out k ks

-- `path.every(…)`: each hop takes what the one before it gave.
unfoldable pub linked : RouteHop → List RouteHop → Bool
linked h [] = true
linked h (k ∷ ks) = same_addr h.token_out k.token_in && linked k ks

unfoldable pub is_chained : List RouteHop → String → String → Bool
is_chained [] from to = false
is_chained (h ∷ hs) from to =
    leb (length (h ∷ hs)) 3
    && same_addr h.token_in from
    && same_addr (last_out h hs) to
    && linked h hs

-- Of a path with a hop; it is asked for no other.
unfoldable pub path_tokens : List RouteHop → List String
path_tokens [] = []
path_tokens (h ∷ hs) = h.token_in ∷ map (λ (k : RouteHop). k.token_out) (h ∷ hs)

-- `new Set(names).size`
unfoldable pub set_size : List String → ℕ
set_size [] = 0
set_size (x ∷ xs) = (if any (str_eq x) xs then 0 else 1) + set_size xs

unfoldable pub is_routable : List RouteHop → String → String → Bool
is_routable path from to =
    is_chained path from to && set_size (map to_lower (path_tokens path)) == length path + 1

unfoldable pub hop_key : RouteHop → String
hop_key h = join ":" (
    decimal h.protocol
    ∷ to_lower h.token_in
    ∷ to_lower h.token_out
    ∷ decimal h.fee
    ∷ to_lower h.extra
    ∷ [])

unfoldable pub path_key : List RouteHop → String
path_key path = join "|" (map hop_key path)
