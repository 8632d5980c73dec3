-- ===== src/Cli/Arguments.antt =====
-- `parseArgs` of apps/scheduler/src/transfer.ts and apps/scheduler/src/balance.ts.
use dca_protocol.Base.{
  ℕ, Bool, true, false, ◌&&◌, ◌||◌, List, [], ◌∷◌, ◌++◌, Option, none, some, String, leb,
  if◌then◌else◌, length,
}
use dca_protocol.Base.Text.{template, str_eq, starts_with, drop_text}
use dca_protocol.Cli.Result.{Result, value, fails, ◌>>=◌}

pub record Args : Type 0 where
  pub positional : List String
  pub rpc_url : Option String
  pub json : Bool
  pub list : Bool
  pub help : Bool

abbrev pub no_args : Args
no_args = record { positional = []; rpc_url = none; json = false; list = false; help = false }

-- One argument that takes no value from the next; only balance.ts knows `--list`.
unfoldable pub one_argument : Bool → String → Args → Result Args
one_argument lists arg a =
    if str_eq arg "--json"
    then value (record a { json = true })
    else if lists && str_eq arg "--list"
    then value (record a { list = true })
    else if str_eq arg "--help" || str_eq arg "-h"
    then value (record a { help = true })
    else if str_eq arg "--rpc"
    then fails "--rpc requires a URL"
    else if starts_with arg "--rpc="
    then value (record a { rpc_url = some (drop_text 6 arg) })
    else if starts_with arg "-"
    then fails (template ("Unknown option: " ∷ arg ∷ []))
    else value (record a { positional = a.positional ++ arg ∷ [] })

unfoldable pub parse_from : Bool → List String → Args → Result Args
parse_from lists [] a = value a
parse_from lists (arg ∷ []) a = one_argument lists arg a
parse_from lists (arg ∷ next ∷ more) a =
    let with_url = parse_from lists more (record a { rpc_url = some next }) in
    if str_eq arg "--rpc"
    then (if str_eq next "" then fails "--rpc requires a URL" else with_url)
    else one_argument lists arg a >>= λ (b : Args). parse_from lists (next ∷ more) b

-- The arguments, of which at most `most` are positional.
unfoldable pub parse_args : Bool → ℕ → String → List String → Result Args
parse_args lists most message argv = parse_from lists argv no_args >>= λ (a : Args).
    if leb (length a.positional) most then value a else fails message

-- The arguments of transfer.ts, by name.
pub record TransferArgs : Type 0 where
  pub from : Option String
  pub to : Option String
  pub asset : Option String
  pub amount : Option String
  pub rpc_url : Option String
  pub json : Bool
  pub help : Bool

-- `[args.from, args.to, args.asset, args.amount] = positional`
unfoldable pub assign_positional : List String → TransferArgs → TransferArgs
assign_positional [] t = t
assign_positional (p ∷ []) t = record t { from = some p }
assign_positional (p ∷ q ∷ []) t = record t { from = some p; to = some q }
assign_positional (p ∷ q ∷ r ∷ []) t = record t { from = some p; to = some q; asset = some r }
assign_positional (p ∷ q ∷ r ∷ s ∷ more) t = record t {
  from = some p;
  to = some q;
  asset = some r;
  amount = some s;
}

unfoldable pub named_args : Args → TransferArgs
named_args a = assign_positional a.positional (record {
  from = none;
  to = none;
  asset = none;
  amount = none;
  rpc_url = a.rpc_url;
  json = a.json;
  help = a.help;
})

unfoldable pub parse_transfer_args : List String → Result TransferArgs
parse_transfer_args argv =
    parse_args false 4 "Expected from, to, ticker/token address, and amount" argv >>= λ (a : Args).
    value (named_args a)

unfoldable pub parse_balance_args : List String → Result Args
parse_balance_args argv = parse_args true 2 "Expected a wallet and one ticker or token address" argv
