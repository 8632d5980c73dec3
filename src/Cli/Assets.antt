-- ===== src/Cli/Assets.antt =====
-- apps/scheduler/src/token-resolver.ts: the addresses of tickers, from the deployment, the configuration
-- and the registry. viem's address functions, the two JSON files and the contract reads are parameters.
use dca_protocol.Base.{ℕ, Bool, not, List, [], ◌∷◌, Option, none, some, String, ◌==◌, if◌then◌else◌}
use dca_protocol.Base.Dict.{Dict, lookup, has, insert}
use dca_protocol.Base.Text.{template, to_upper, str_eq, starts_with, decimal}
use dca_protocol.Cli.Result.{Result, value, fails, ◌>>=◌}

abbrev pub zero_address : String
zero_address = "0x0000000000000000000000000000000000000000"

pub record Deployment : Type 0 where
  pub registry : Option String
  pub usdg : Option String
  pub weth : Option String

-- A stock's entry is an address, or an object with one.
pub record AddressConfig : Type 0 where
  pub chain_id : ℕ
  pub tokens : Dict String
  pub stocks : List (String × String)

pub record Sources : Type 0 where
  pub is_address : String → Bool
  pub get_address : String → Result String
  -- contracts/deployments/<chainId>.json and contracts/config/addresses.rh.json, where they exist.
  pub deployment : ℕ → Option Deployment
  pub config : Option AddressConfig
  pub all_stocks : String → Result (List String)
  pub stock_symbol : String → String → Result String

-- `address && address !== ZERO_ADDRESS`
unfoldable pub usable : Option String → Option String
usable none = none
usable (some a) = if str_eq a "" then none else if str_eq a zero_address then none else some a

module _ (sources : Sources) where
  unfoldable pub set_address : String → Option String → Dict String → Result (Dict String)
  set_address ticker none known = value known
  set_address ticker (some a) known =
      sources.get_address a >>= λ (checked : String). value (insert ticker checked known)

  unfoldable pub deployed : Option Deployment → Result (Dict String)
  deployed none = value []
  deployed (some d) = set_address "USDG" (usable d.usdg) [] >>= λ (known : Dict String).
      set_address "WETH" (usable d.weth) known

  unfoldable pub add_stocks : List (String × String) → Dict String → Result (Dict String)
  add_stocks [] known = value known
  add_stocks ((ticker, address) ∷ stocks) known =
      (if starts_with ticker "_"
        then value known
        else set_address (to_upper ticker) (usable (some address)) known)
      >>= λ (more : Dict String). add_stocks stocks more

  unfoldable pub add_config : ℕ → Option AddressConfig → Dict String → Result (Dict String)
  add_config chain_id none known = value known
  add_config chain_id (some c) known =
      if not (c.chain_id == chain_id)
      then value known
      else set_address "USDG" (usable (lookup "USDG" c.tokens)) known >>= λ (k1 : Dict String).
          set_address "WETH" (usable (lookup "WETH" c.tokens)) k1 >>= λ (k2 : Dict String).
          add_stocks c.stocks k2

  unfoldable pub configured_addresses : ℕ → Result (Dict String)
  configured_addresses chain_id =
      deployed (sources.deployment chain_id) >>= λ (known : Dict String).
      add_config chain_id sources.config known

  -- The registered stocks under their symbols.
  unfoldable pub add_registered : String → List String → Dict String → Result (Dict String)
  add_registered registry [] known = value known
  add_registered registry (stock ∷ stocks) known =
      sources.stock_symbol registry stock >>= λ (symbol : String).
      sources.get_address stock >>= λ (checked : String).
      add_registered registry stocks (insert (to_upper symbol) checked known)

  registry_of : Option Deployment → Option String
  registry_of none = none
  registry_of (some d) = usable d.registry

  add_from : Option String → Dict String → Result (Dict String)
  add_from none known = value known
  add_from (some address) known = sources.get_address address >>= λ (registry : String).
      sources.all_stocks registry >>= λ (stocks : List String). add_registered registry stocks known

  unfoldable pub add_registry_stocks : ℕ → Dict String → Result (Dict String)
  unfolding registry_of add_from
  add_registry_stocks chain_id known = add_from (registry_of (sources.deployment chain_id)) known

  unfoldable pub unknown_text : String → ℕ → String
  unknown_text asset chain_id = template (
      "Unknown ticker \""
      ∷ asset
      ∷ "\" on chain "
      ∷ decimal chain_id
      ∷ ". Use pnpm balance --list, a raw ERC-20 address, or populate contracts/config/addresses.rh.json."
      ∷ [])

  unfoldable pub found_token : String → ℕ → Option String → Result (Option String)
  found_token asset chain_id none = fails (unknown_text asset chain_id)
  found_token asset chain_id (some token) =
      if str_eq token "" then fails (unknown_text asset chain_id) else value (some token)

  -- The registry is asked only for a ticker that is not configured.
  unfoldable pub known_with_registry : ℕ → String → Dict String → Result (Dict String)
  known_with_registry chain_id ticker known =
      if has ticker known then value known else add_registry_stocks chain_id known

  unfoldable pub resolve_ticker : ℕ → String → Result (Option String)
  resolve_ticker chain_id asset = configured_addresses chain_id >>= λ (known : Dict String).
      known_with_registry chain_id (to_upper asset) known >>= λ (all : Dict String).
      found_token asset chain_id (lookup (to_upper asset) all)

  unfoldable pub resolve_address : String → Result (Option String)
  resolve_address asset = sources.get_address asset >>= λ (checked : String). value (some checked)

  -- The token of a ticker or an address; none is the native asset.
  unfoldable pub resolve_asset : ℕ → String → Result (Option String)
  resolve_asset chain_id asset =
      if str_eq (to_upper asset) "ETH"
      then value none
      else if sources.is_address asset
      then resolve_address asset
      else resolve_ticker chain_id asset
