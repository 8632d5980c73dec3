-- ===== src/Routes/Tests.antt =====
-- A router with two pools, WETH/USDG and USDG/$DCA: a run of `readBestRoute`, and the theorems applied to it.
use dca_protocol.Base.{
  ℕ, ◌*◌, ◌/◌, ◌≤◌, ◌<◌, true, false, ◌&&◌, List, [], ◌∷◌, Option, none, some, String, ◌≡◌, refl,
  ap, sym, ◌∙◌, arith, if◌then◌else◌, In, here,
}
use dca_protocol.Base.Text.{str_eq}
use dca_protocol.Routes.Path.{RouteHop, BestRoute, path_key, is_routable}
use dca_protocol.Routes.Read.{
  ReadError, Read, answered, threw, Quote, Router, RouteQuote, read_best_route, read_or_no,
}
use dca_protocol.Routes.Best.{Delivers, read_best_route-Delivers}
use dca_protocol.Routes.Highest.{IsSteady, Offer, over_usdg, direct, read_best_route-Reaches}
use dca_protocol.Routes.Candidates.{Reaches}

abbrev no_route : ReadError
no_route = record {
  is_base = true;
  zero_data = false;
  reverted = some (some "0x8cdeb2da");
  internal = false;
}

abbrev blip : ReadError
blip = record { is_base = true; zero_data = false; reverted = some none; internal = true }

abbrev weth_usdg : RouteHop
weth_usdg = record { protocol = 1; token_in = "0xEE"; token_out = "0xAA"; fee = 500; extra = "0x" }

abbrev usdg_dca : RouteHop
usdg_dca = record { protocol = 1; token_in = "0xaa"; token_out = "0xDD"; fee = 3000; extra = "0x" }

-- One answer for every path, so that the pools stand still.
abbrev two_pools : Router
two_pools = record {
  quote = λ round from to amount.
      if str_eq from "0xEE" && str_eq to "0xAA"
      then answered (record { amount_out = amount * 2; path = weth_usdg ∷ [] })
      else threw no_route;
  approved_hops = λ round from to. answered (usdg_dca ∷ []);
  quote_path = λ round path amount. answered 35;
}

abbrev found : RouteQuote
found = record {
  best = some (record {
    amount_out = 35;
    path = weth_usdg ∷ usdg_dca ∷ [];
    tokens = "0xEE" ∷ "0xAA" ∷ "0xDD" ∷ [];
  });
  first_legs = ("0xaa", 14) ∷ [];
}

run : read_best_route two_pools "0xAA" "0xEE" "0xDD" 7 ≡ answered found
unfolding read_best_route dca_protocol.Routes.Read.quote_or_no dca_protocol.Routes.Read.read_or_no
    dca_protocol.Routes.Read.read_stones dca_protocol.Routes.Read.read_all
    dca_protocol.Routes.Path.same_addr dca_protocol.Base.Text.to_lower
    dca_protocol.Routes.Read.stones_of dca_protocol.Routes.Read.onward_quote
    dca_protocol.Routes.Read.usable_leg dca_protocol.Routes.Read.compose_all
    dca_protocol.Routes.Read.paired dca_protocol.Routes.Read.compose_stone
    dca_protocol.Routes.Read.compose_tails dca_protocol.Routes.Read.tails_of
    dca_protocol.Routes.Read.compose_one is_routable dca_protocol.Routes.Path.is_chained
    dca_protocol.Base.Dict.insert dca_protocol.Base.Text.decimal dca_protocol.Base.Text.digit
    dca_protocol.Base.Text.join dca_protocol.Routes.Path.hop_key dca_protocol.Routes.Path.last_out
    dca_protocol.Routes.Path.linked path_key dca_protocol.Routes.Path.path_tokens
    dca_protocol.Routes.Path.set_size dca_protocol.Routes.Read.beats
    dca_protocol.Routes.Read.best_of dca_protocol.Routes.Read.compose_leg
    dca_protocol.Routes.Read.confirmed_candidate dca_protocol.Routes.Read.confirmed_candidates
    dca_protocol.Routes.Read.first_legs_of dca_protocol.Routes.Read.is_no
    dca_protocol.Routes.Read.onward_from dca_protocol.Routes.Read.own_candidate
run = refl

blip_throws : read_or_no {A = ℕ} (threw blip) ≡ threw blip
unfolding read_or_no
blip_throws = refl

pools_IsSteady : IsSteady two_pools "0xEE" "0xDD" 7
pools_IsSteady = record { by_key = λ p r same. refl; own_steady = λ o told. absurd (cc told) }

pool-Offer : Offer two_pools "0xAA" "0xEE" "0xDD" 7 35
unfolding dca_protocol.Routes.Path.same_addr dca_protocol.Base.Text.to_lower is_routable
    dca_protocol.Routes.Path.is_chained dca_protocol.Routes.Path.last_out
    dca_protocol.Routes.Path.linked dca_protocol.Routes.Path.path_tokens
    dca_protocol.Routes.Path.set_size
pool-Offer =
    over_usdg (record { amount_out = 14; path = weth_usdg ∷ [] }) (usdg_dca ∷ []) 35 refl refl refl
      (omega arith) (direct (usdg_dca ∷ []) usdg_dca refl (here refl)) refl refl

read_best_route-Delivers_example : Delivers two_pools "0xEE" "0xDD" 7 (record {
  amount_out = 35;
  path = weth_usdg ∷ usdg_dca ∷ [];
  tokens = "0xEE" ∷ "0xAA" ∷ "0xDD" ∷ [];
})
read_best_route-Delivers_example =
    read_best_route-Delivers two_pools "0xEE" "0xDD" 7 "0xAA" found _ run refl

read_best_route-Reaches_example : Reaches found.best 35
read_best_route-Reaches_example =
    read_best_route-Reaches two_pools "0xAA" "0xEE" "0xDD" 7 found 35 pools_IsSteady run pool-Offer
      (omega arith)
