-- ===== src/Cli/Tests.antt =====
-- A local chain with one token, and the theorems on apps/scheduler's tools applied to it.
use dca_protocol.Base.{
  ℕ, ◌+◌, Bool, true, false, List, [], ◌∷◌, Option, none, some, String, ◌≡◌, refl, leb, length,
  if◌then◌else◌, not, get_elem?,
}
use dca_protocol.Base.Int.{pos, ◌<ℤ◌}
use dca_protocol.Base.Text.{str_eq, to_upper, starts_with}
use dca_protocol.Cli.Result.{Result, value, fails}
use dca_protocol.Cli.Arguments.{no_args, parse_transfer_args, parse_balance_args, Args}
use dca_protocol.Cli.Assets.{Sources, Deployment, AddressConfig, resolve_asset}
use dca_protocol.Cli.Transfer.{
  Client, Request, send_token, amount_of, is_unlocked, transfer_request, transfer_main,
}
use dca_protocol.Cli.Guards.{
  is_native, sender_of, receiver_of, token_of, Unlocked, transfer_request-guarded,
  parse_transfer_args-plain,
}

abbrev sources : Sources
sources = record {
  is_address = λ a. starts_with a "0x";
  get_address = λ a. value a;
  deployment = λ c. some (record { registry = none; usdg = some "0xusdg"; weth = none });
  config = none;
  all_stocks = λ r. value [];
  stock_symbol = λ r s. value "AAPL";
}

abbrev client : Client
client = record {
  sources = sources;
  chain_id = 31337;
  unlocked = "0xAa" ∷ [];
  parse_ether = λ t. some (pos 5);
  parse_units = λ t d. some (pos 250);
  decimals = λ t. value 6;
  symbol = λ t. value "USDG";
  simulate_transfer = λ f t to a. value tt;
}

abbrev request : Request
request = send_token "0xaa" "0xusdg" "0xbb" (pos 250)

sent : transfer_request client "0xaa" "0xbb" "usdg" "250" ≡ value request
unfolding transfer_request dca_protocol.Cli.Result.◌>>=◌ dca_protocol.Cli.Result.require
    dca_protocol.Cli.Transfer.checked_request is_unlocked dca_protocol.Base.Text.to_lower
    resolve_asset to_upper dca_protocol.Cli.Assets.resolve_ticker
    dca_protocol.Cli.Assets.configured_addresses dca_protocol.Cli.Assets.deployed
    dca_protocol.Cli.Assets.set_address dca_protocol.Cli.Assets.usable
    dca_protocol.Cli.Assets.add_config dca_protocol.Cli.Assets.known_with_registry
    dca_protocol.Base.Dict.lookup dca_protocol.Base.Dict.insert dca_protocol.Cli.Assets.found_token
    dca_protocol.Cli.Transfer.parse_amount dca_protocol.Cli.Transfer.parsed_amount
    dca_protocol.Cli.Transfer.positive dca_protocol.Cli.Transfer.request_for
sent = refl

transfer_request-guarded_example :
    (client.chain_id ≡ 31337)
    × (client.sources.is_address "0xaa" ≡ true)
    × (client.sources.is_address "0xbb" ≡ true)
    × (client.sources.get_address "0xaa" ≡ value (sender_of request))
    × Unlocked client.unlocked (sender_of request)
    × (client.sources.get_address "0xbb" ≡ value (receiver_of request))
    × (pos 0 <ℤ amount_of request)
    × (is_native request ≡ str_eq (to_upper "usdg") "ETH")
    × (resolve_asset client.sources client.chain_id "usdg" ≡ value (token_of request))
transfer_request-guarded_example =
    transfer_request-guarded client "0xaa" "0xbb" "usdg" "250" request sent

no_url : parse_balance_args ("0xaa" ∷ "ETH" ∷ "--rpc" ∷ []) ≡ fails "--rpc requires a URL"
unfolding parse_balance_args dca_protocol.Cli.Arguments.parse_args dca_protocol.Cli.Result.◌>>=◌
    dca_protocol.Cli.Arguments.parse_from dca_protocol.Cli.Arguments.one_argument
no_url = refl

abbrev four_arguments : List String
four_arguments = "0xaa" ∷ "0xbb" ∷ "ETH" ∷ "1.5" ∷ []

parse_transfer_args-plain_example : parse_transfer_args four_arguments ≡ (
    if leb (length four_arguments) 4
    then value (record {
      from = get_elem? four_arguments 0;
      to = get_elem? four_arguments 1;
      asset = get_elem? four_arguments 2;
      amount = get_elem? four_arguments 3;
      rpc_url = none;
      json = false;
      help = false;
    })
    else fails "Expected from, to, ticker/token address, and amount")
parse_transfer_args-plain_example = parse_transfer_args-plain four_arguments refl

-- The same transfer from the command line, and one without an amount.
no_amount :
    transfer_main client (record {
      from = some "0xaa";
      to = some "0xbb";
      asset = some "usdg";
      amount = none;
      rpc_url = none;
      json = false;
      help = false;
    })
    ≡ fails "From, to, asset, and amount are required."
unfolding transfer_main dca_protocol.Cli.Transfer.given dca_protocol.Cli.Result.◌>>=◌
no_amount = refl
