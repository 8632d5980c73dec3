-- ===== src/Cli/Transfer.antt =====
-- apps/scheduler/src/transfer.ts: what is sent for a transfer, and what is checked before.
-- The client, the wallet and viem's parsers are parameters.
use dca_protocol.Base.{ℕ, Bool, List, [], ◌∷◌, Option, none, some, String, ◌==◌, any, if◌then◌else◌}
use dca_protocol.Base.Int.{ℤ, pos, ltb_ℤ}
use dca_protocol.Base.Text.{template, to_lower, str_eq, decimal}
use dca_protocol.Cli.Result.{Result, value, fails, ◌>>=◌, ◌>>◌, require}
use dca_protocol.Cli.Arguments.{TransferArgs}
use dca_protocol.Cli.Assets.{Sources, resolve_asset}

pub record Client : Type 0 where
  pub sources : Sources
  pub chain_id : ℕ
  pub unlocked : List String
  pub parse_ether : String → Option ℤ
  pub parse_units : String → ℕ → Option ℤ
  pub decimals : String → Result ℕ
  pub symbol : String → Result String
  -- Whether the token accepts the call: from, token, to, amount.
  pub simulate_transfer : String → String → String → ℤ → Result (Unit {0})

-- What the wallet is asked to send.
pub data Request : Type 0 where
  send_native : String → String → ℤ → Request
  send_token : String → String → String → ℤ → Request

unfoldable pub amount_of : Request → ℤ
amount_of (send_native from to amount) = amount
amount_of (send_token from token to amount) = amount

unfoldable pub positive : ℤ → Result ℤ
positive amount = require (ltb_ℤ (pos 0) amount) "Amount must be greater than zero" >> value amount

unfoldable pub parsed_amount : Option ℤ → String → Result ℤ
parsed_amount none message = fails message
parsed_amount (some amount) message = positive amount

-- `requireUnlocked`
unfoldable pub is_unlocked : List String → String → Bool
is_unlocked unlocked from = any (λ (a : String). str_eq (to_lower a) (to_lower from)) unlocked

-- An argument that is missing or empty is not given; the usage after the message is left out.
abbrev pub given : Option String → Option String
given none = none
given (some t) = if str_eq t "" then none else some t

abbrev required_text : String
required_text = "From, to, asset, and amount are required."

module _ (client : Client) where
  unfoldable pub parse_amount : String → ℕ → Result ℤ
  parse_amount text decimals' = parsed_amount (client.parse_units text decimals') (
      template (
        "Invalid amount \"" ∷ text ∷ "\" for a token with " ∷ decimal decimals' ∷ " decimals" ∷ []))

  unfoldable pub request_for : String → String → String → Option String → Result Request
  request_for from to amount none =
      parsed_amount (client.parse_ether amount) (template ("Invalid ETH amount: " ∷ amount ∷ []))
      >>= λ (raw : ℤ). value (send_native from to raw)
  request_for from to amount (some token) = client.decimals token >>= λ (d : ℕ).
      client.symbol token >>= λ (s : String). parse_amount amount d >>= λ (raw : ℤ).
      client.simulate_transfer from token to raw >> value (send_token from token to raw)

  -- The checks on the chain and the wallet, the asset, and what is sent.
  unfoldable pub checked_request : String → String → String → String → Result Request
  checked_request from to asset amount =
      require (client.chain_id == 31337) (
        template (
          "Transfers are restricted to the local Anvil fork (chain 31337); connected to chain "
          ∷ decimal client.chain_id
          ∷ []))
      >> require (is_unlocked client.unlocked from)
          (template ("From wallet " ∷ from ∷ " is not unlocked by Anvil" ∷ []))
      >> resolve_asset client.sources client.chain_id asset
      >>= λ (token : Option String). request_for from to amount token

  -- `main`, from the check of the addresses to the request that the wallet signs.
  unfoldable pub transfer_request : String → String → String → String → Result Request
  transfer_request from to asset amount =
      require (client.sources.is_address from) (template ("Invalid from address: " ∷ from ∷ []))
      >> require (client.sources.is_address to) (template ("Invalid to address: " ∷ to ∷ []))
      >> client.sources.get_address from
      >>= λ (f : String).
          client.sources.get_address to >>= λ (t : String). checked_request f t asset amount

  all_given : Option String → Option String → Option String → Option String → Result Request
  all_given (some from) (some to) (some asset) (some amount) = transfer_request from to asset amount
  all_given none to asset amount = fails required_text
  all_given (some from) none asset amount = fails required_text
  all_given (some from) (some to) none amount = fails required_text
  all_given (some from) (some to) (some asset) none = fails required_text

  -- `main`, from the arguments; none when only the usage is asked for.
  unfoldable pub transfer_main : TransferArgs → Result (Option Request)
  unfolding all_given
  transfer_main a =
      if a.help
      then value none
      else all_given (given a.from) (given a.to) (given a.asset) (given a.amount)
        >>= λ (r : Request). value (some r)
