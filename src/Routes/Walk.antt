-- ===== src/Routes/Walk.antt =====
-- What `isRoutable` of apps/web/src/hooks/useProtocol.ts lets through: a walk between the two tokens.
use dca_protocol.Base.{
  ◌+◌, ◌≤◌, ◌<◌, true, false, List, [], ◌∷◌, String, ◌==◌, map, length, any, All, ◌≡◌, ◌≢◌, sym,
  arith, length-map, Bool-cases, inl, inr,
}
use dca_protocol.Base.Text.{to_lower, str_eq, eq_iff}
use dca_protocol.Routes.Path.{
  RouteHop, same_addr, linked, last_out, is_chained, path_tokens, set_size, is_routable,
}

-- Every text once.
abbrev pub Distinct : List String → Type 0
Distinct [] = Unit
Distinct (x ∷ xs) = All (λ y. x ≢ y) xs × Distinct xs

-- The hops lead from one token to another, each from where the one before it ends; case aside.
abbrev pub IsWalk : String → String → List RouteHop → Type 0
IsWalk from to [] = to_lower from ≡ to_lower to
IsWalk from to (h ∷ hs) = (to_lower h.token_in ≡ to_lower from) × IsWalk h.token_out to hs

pub record IsRoute (from to : String) (path : List RouteHop) : Type 0 where
  pub walks : IsWalk from to path
  pub some_hop : 0 < length path
  pub three_hops : length path ≤ 3
  pub once : Distinct (map to_lower (path_tokens path))

set_size-le-length : (xs : List String) → set_size xs ≤ length xs
unfolding set_size
set_size-le-length [] = omega arith
set_size-le-length (x ∷ xs) = ground (arith, set_size-le-length xs)

not_any-ne : (x : String) (xs : List String) → any (str_eq x) xs ≡ false → All (λ y. x ≢ y) xs
not_any-ne x [] h = tt
not_any-ne x (y ∷ ys) h = (ground (arith, eq_iff x y), not_any-ne x ys (ground arith))

full-Distinct : (xs : List String) → set_size xs ≡ length xs → Distinct xs
unfolding set_size
full-Distinct [] h = tt
full-Distinct (x ∷ xs) h = elim (Bool-cases (any (str_eq x) xs)) [
  | inl twice ↦ absurd (ground (arith, set_size-le-length xs))
  | inr once ↦ (not_any-ne x xs once, full-Distinct xs (ground arith))
]

linked-IsWalk :
    (h : RouteHop) (hs : List RouteHop) (to : String)
    → linked h hs ≡ true
    → same_addr (last_out h hs) to ≡ true
    → IsWalk h.token_out to hs
unfolding linked last_out same_addr
linked-IsWalk h [] to l e = (eq_iff _ _).0 e
linked-IsWalk h (k ∷ ks) to l e =
    (sym ((eq_iff _ _).0 (ground arith)), linked-IsWalk k ks to (ground arith) e)

length-path_tokens :
    (h : RouteHop) (hs : List RouteHop) → length (path_tokens (h ∷ hs)) ≡ length (h ∷ hs) + 1
unfolding path_tokens
length-path_tokens h hs = omega (arith, length-map (h ∷ hs) (λ (k : RouteHop). k.token_out))

-- As long as it has names, the set of the tokens names each once.
size-Distinct :
    (h : RouteHop) (hs : List RouteHop)
    → (set_size (map to_lower (path_tokens (h ∷ hs))) == length (h ∷ hs) + 1) ≡ true
    → Distinct (map to_lower (path_tokens (h ∷ hs)))
size-Distinct h hs full =
    full-Distinct _
      (ground (arith, length-map (path_tokens (h ∷ hs)) to_lower, length-path_tokens h hs))

pub is_routable-IsRoute :
    (path : List RouteHop) (from to : String)
    → is_routable path from to ≡ true
    → IsRoute from to path
unfolding is_routable is_chained
is_routable-IsRoute [] from to h = absurd (ground arith)
is_routable-IsRoute (k ∷ ks) from to h = record {
  walks = (
    (eq_iff _ _).0 (unfold same_addr in at_start),
    linked-IsWalk k ks to (ground arith) (ground arith),
  );
  some_hop = omega arith;
  three_hops = ground arith;
  once = size-Distinct k ks (ground arith);
}
  where
    at_start : same_addr k.token_in from ≡ true
    at_start = ground arith
