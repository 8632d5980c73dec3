-- ===== src/Cli/Guards.antt =====
-- What a transfer of apps/scheduler/src/transfer.ts is never sent without, and how arguments are read.
use dca_protocol.Base.{
  ℕ, Bool, true, false, not, List, [], ◌∷◌, ◌++◌, append-nil, append_assoc, Option, none, some,
  String, ◌≡◌, refl, sym, ap, ◌∙◌, subst, leb, every, is_some, if◌then◌else◌, length, arith, any,
  In, here, there, get_elem?, Bool-cases, inl, inr,
}
use dca_protocol.Base.Int.{ℤ, pos, negsuc, ◌<ℤ◌}
use dca_protocol.Base.Text.{to_lower, to_upper, str_eq, starts_with}
use Prim.Native.String.{◌++◌ as append}
use text.Mathlib.TextEquality.{starts_with_iff, eq_iff}
use text.Mathlib.TextLemmas.{append_assoc as text_assoc}
use text.Mathlib.TextPositions.{starts_with_of_prefix}
use dca_protocol.Base.{==_iff}
use dca_protocol.Cli.Result.{Result, value, fails, ◌>>=◌, require}
use dca_protocol.Cli.Arguments.{
  Args, no_args, one_argument, parse_from, parse_args, TransferArgs, assign_positional, named_args,
  parse_transfer_args,
}
use dca_protocol.Cli.Assets.{resolve_asset, resolve_address, resolve_ticker, found_token}
use dca_protocol.Cli.Transfer.{
  Client, Request, send_native, send_token, amount_of, positive, parsed_amount, is_unlocked,
  parse_amount, request_for, checked_request, transfer_request,
}

module _ {A B : Type 0} where
  -- A chain of two results has a value only if both have.
  bind-value :
      (m : Result A) (f : A → Result B) (b : B)
      → (m >>= f) ≡ value b
      → (a : A) × (m ≡ value a) × (f a ≡ value b)
  unfolding ◌>>=◌
  bind-value (value a) f b h = (a, refl, h)
  bind-value (fails e) f b h = absurd (ground arith)

value-injective : {A : Type 0} (a b : A) → value a ≡ value b → a ≡ b
value-injective a b h = cc h

require-true :
    (test : Bool) (message : String) (u : Unit {0}) → require test message ≡ value u → test ≡ true
unfolding require
require-true true message u h = refl
require-true false message u h = absurd (ground arith)

positive-lem : (amount raw : ℤ) → positive amount ≡ value raw → pos 0 <ℤ raw
unfolding positive require ◌>>=◌
positive-lem (pos n) raw h = ground arith
positive-lem (negsuc n) raw h = absurd (ground arith)

parsed-positive :
    (amount : Option ℤ) (message : String) (raw : ℤ)
    → parsed_amount amount message ≡ value raw
    → pos 0 <ℤ raw
unfolding parsed_amount
parsed-positive none message raw h = absurd (ground arith)
parsed-positive (some amount) message raw h = positive-lem amount raw h

-- Whether a request sends the native asset.
abbrev pub is_native : Request → Bool
is_native (send_native from to amount) = true
is_native (send_token from token to amount) = false

-- Who a request takes from, who it pays, and in what token, none for the native asset.
abbrev pub sender_of : Request → String
sender_of (send_native from to amount) = from
sender_of (send_token from token to amount) = from

abbrev pub receiver_of : Request → String
receiver_of (send_native from to amount) = to
receiver_of (send_token from token to amount) = to

abbrev pub token_of : Request → Option String
token_of (send_native from to amount) = none
token_of (send_token from token to amount) = some token

any-In :
    {A : Type 0} (test : A → Bool) (xs : List A)
    → any test xs ≡ true
    → (x : A) × In x xs × (test x ≡ true)
any-In test [] h = absurd (cc h)
any-In test (x ∷ xs) h = elim (Bool-cases (test x)) [
  | inl yes_x ↦ (x, here refl, yes_x)
  | inr no_x ↦ let (y, at, yes_y) = any-In test xs (rw no_x at h) in (y, there at, yes_y)
]

-- A wallet is among those the node has unlocked, in any case of the letters.
abbrev pub Unlocked : List String → String → Type 0
Unlocked unlocked from = (u : String) × In u unlocked × (to_lower u ≡ to_lower from)

is_unlocked-Unlocked :
    (unlocked : List String) (from : String)
    → is_unlocked unlocked from ≡ true
    → Unlocked unlocked from
unfolding is_unlocked
is_unlocked-Unlocked unlocked from h =
    let (u, at, same) = any-In (λ (a : String). str_eq (to_lower a) (to_lower from)) unlocked h in
    (u, at, (eq_iff (to_lower u) (to_lower from)).0 same)

module _ (client : Client) where
  -- A request from one to another for more than nothing of a token.
  abbrev Made : String → String → Option String → Request → Type 0
  Made from to token r =
      (pos 0 <ℤ amount_of r) × (sender_of r ≡ from) × (receiver_of r ≡ to) × (token_of r ≡ token)

  request-positive :
      (from to amount : String) (token : Option String) (r : Request)
      → request_for client from to amount token ≡ value r
      → Made from to token r
  unfolding request_for amount_of parse_amount
  request-positive from to amount none r h =
      let (raw, parsed, made) = bind-value _ _ r h in
      subst (Made from to none) (value-injective (send_native from to raw) r made)
        (parsed-positive _ _ raw parsed, refl, refl, refl)
  request-positive from to amount (some token) r h =
      let (d, got_decimals, h1) = bind-value _ _ r h in
      let (symbol, got_symbol, h2) = bind-value _ _ r h1 in
      let (raw, parsed, h3) = bind-value _ _ r h2 in
      let (u, simulated, made) = bind-value _ _ r h3 in
      subst (Made from to (some token)) (value-injective (send_token from token to raw) r made)
        (parsed-positive (client.parse_units amount d) _ raw parsed, refl, refl, refl)

  address-some :
      (asset : String) (token : Option String)
      → resolve_address client.sources asset ≡ value token
      → is_some token ≡ true
  unfolding resolve_address
  address-some asset token h =
      let (checked, got, made) = bind-value _ _ token h in
      subst (λ (o : Option String). is_some o ≡ true) (value-injective (some checked) token made)
        refl

  found-some :
      (asset : String) (chain_id : ℕ) (entry token : Option String)
      → found_token client.sources asset chain_id entry ≡ value token
      → is_some token ≡ true
  unfolding found_token
  found-some asset chain_id none token h = absurd (ground arith)
  found-some asset chain_id (some t) token h = ground arith

  ticker-some :
      (chain_id : ℕ) (asset : String) (token : Option String)
      → resolve_ticker client.sources chain_id asset ≡ value token
      → is_some token ≡ true
  unfolding resolve_ticker
  ticker-some chain_id asset token h =
      let (known, configured, h1) = bind-value _ _ token h in
      let (all, registered, h2) = bind-value _ _ token h1 in found-some asset chain_id _ token h2

  resolve-native :
      (chain_id : ℕ) (asset : String) (token : Option String)
      → resolve_asset client.sources chain_id asset ≡ value token
      → is_some token ≡ not (str_eq (to_upper asset) "ETH")
  unfolding resolve_asset
  resolve-native chain_id asset token h =
      ground (arith, address-some asset token, ticker-some chain_id asset token)

  native-token_of : (r : Request) → is_native r ≡ not (is_some (token_of r))
  native-token_of (send_native from to amount) = refl
  native-token_of (send_token from token to amount) = refl

  not-not : (b : Bool) → not (not b) ≡ b
  not-not true = refl
  not-not false = refl

  checked-guarded :
      (from to asset amount : String) (r : Request)
      → checked_request client from to asset amount ≡ value r
      → (client.chain_id ≡ 31337)
        × Unlocked client.unlocked from
        × (pos 0 <ℤ amount_of r)
        × (sender_of r ≡ from)
        × (receiver_of r ≡ to)
        × (is_native r ≡ str_eq (to_upper asset) "ETH")
        × (resolve_asset client.sources client.chain_id asset ≡ value (token_of r))
  unfolding checked_request
  checked-guarded from to asset amount r h =
      let (token, resolved, h1) = bind-value _ _ r h in
      let (u, on_chain, h2) = bind-value _ _ token resolved in
      let (u1, chain_ok, wallet_ok) = bind-value _ _ u on_chain in
      let (sends, sender, receiver, in_token) = request-positive from to amount token r h1 in
      (
        (==_iff client.chain_id 31337).0 (require-true _ _ u1 chain_ok),
        is_unlocked-Unlocked _ _ (require-true _ _ u wallet_ok),
        sends,
        sender,
        receiver,
        native-token_of r
            ∙ ap (λ (o : Option String). not (is_some o)) in_token
            ∙ ap not (resolve-native client.chain_id asset token h2)
            ∙ not-not (str_eq (to_upper asset) "ETH"),
        h2 ∙ ap value (sym in_token),
      )

  -- A request is made only on the local chain and between two arguments that have the form of an address: it takes from
  -- the address of the first, which is among the wallets that the node has unlocked, and pays the address of the second,
  -- more than nothing, in the token that the asset stands for; that is the native asset exactly when the asset was named
  -- ETH, in either case.
  pub transfer_request-guarded :
      (from to asset amount : String) (r : Request)
      → transfer_request client from to asset amount ≡ value r
      → (client.chain_id ≡ 31337)
        × (client.sources.is_address from ≡ true)
        × (client.sources.is_address to ≡ true)
        × (client.sources.get_address from ≡ value (sender_of r))
        × Unlocked client.unlocked (sender_of r)
        × (client.sources.get_address to ≡ value (receiver_of r))
        × (pos 0 <ℤ amount_of r)
        × (is_native r ≡ str_eq (to_upper asset) "ETH")
        × (resolve_asset client.sources client.chain_id asset ≡ value (token_of r))
  unfolding transfer_request
  transfer_request-guarded from to asset amount r h =
      let (f, got, h1) = bind-value _ _ r h in
      let (t, got_to, h2) = bind-value _ _ r h1 in
      let (u, formed, got_from) = bind-value _ _ f got in
      let (u1, from_ok, to_ok) = bind-value _ _ u formed in
      let (on_chain, unlocked, sends, sender, receiver, native, in_token) =
        checked-guarded f t asset amount r h2 in
      (
        on_chain,
        require-true _ _ u1 from_ok,
        require-true _ _ u to_ok,
        got_from ∙ ap value (sym sender),
        subst (Unlocked client.unlocked) (sym sender) unlocked,
        got_to ∙ ap value (sym receiver),
        sends,
        native,
        in_token,
      )

-- An argument that is not an option.
abbrev pub is_plain : String → Bool
is_plain arg = not (starts_with arg "-")

dash-prefix :
    (arg opt : String) → starts_with arg (append "-" opt) ≡ true → starts_with arg "-" ≡ true
dash-prefix arg opt h =
    let (rest, eq) = (starts_with_iff arg (append "-" opt)).0 h in
    starts_with_of_prefix "-" arg (append opt rest, sym (text_assoc "-" opt rest) ∙ eq)

dash-equal :
    (arg opt : String) → starts_with opt "-" ≡ true → is_plain arg ≡ true → str_eq arg opt ≡ false
dash-equal arg opt dash plain = ground (
  arith,
  (eq_iff arg opt).0,
  dash,
  λ (same : arg ≡ opt). ap (λ (t : String). starts_with t "-") same,
)

plain-positional :
    (lists : Bool) (arg : String) (a : Args)
    → is_plain arg ≡ true
    → (str_eq arg "--rpc" ≡ false)
      × (one_argument lists arg a ≡ value (record a { positional = a.positional ++ arg ∷ [] }))
unfolding one_argument
plain-positional lists arg a plain = ground (
  arith,
  dash-equal arg "--json" refl plain,
  dash-equal arg "--list" refl plain,
  dash-equal arg "--help" refl plain,
  dash-equal arg "-h" refl plain,
  dash-equal arg "--rpc" refl plain,
  dash-prefix arg "-rpc=",
)

with_positional : Args → List String → Args
with_positional a args = record a { positional = a.positional ++ args }

parse_from-plain :
    (lists : Bool) (argv : List String) (a : Args)
    → every is_plain argv ≡ true
    → parse_from lists argv a ≡ value (with_positional a argv)
unfolding parse_from with_positional ◌>>=◌
parse_from-plain lists [] a plain =
    ap (λ (p : List String). value (record a { positional = p })) (sym (append-nil a.positional))
parse_from-plain lists (arg ∷ []) a plain = (plain-positional lists arg a (ground (arith, plain))).1
parse_from-plain lists (arg ∷ next ∷ more) a plain =
    let now = plain-positional lists arg a (ground (arith, plain)) in
    rw (now.0, now.1)
      (parse_from-plain lists (next ∷ more) (with_positional a (arg ∷ [])) (ground (arith, plain))
        ∙ ap (λ (p : List String). value (record a { positional = p }))
            (append_assoc a.positional (arg ∷ []) (next ∷ more)))

get_elem?-assign :
    (argv : List String) (t : TransferArgs)
    → t.from ≡ none
    → t.to ≡ none
    → t.asset ≡ none
    → t.amount ≡ none
    → assign_positional argv t ≡ record t {
      from = get_elem? argv 0;
      to = get_elem? argv 1;
      asset = get_elem? argv 2;
      amount = get_elem? argv 3;
    }
unfolding assign_positional
get_elem?-assign [] t f u a m = cc (f, u, a, m)
get_elem?-assign (p ∷ []) t f u a m = cc (u, a, m)
get_elem?-assign (p ∷ q ∷ []) t f u a m = cc (a, m)
get_elem?-assign (p ∷ q ∷ r ∷ []) t f u a m = cc m
get_elem?-assign (p ∷ q ∷ r ∷ s ∷ more) t f u a m = refl

-- Arguments that are not options are read as from, to, asset and amount, the first to the fourth of them where there
-- are so many, and a fifth is refused.
pub parse_transfer_args-plain :
    (argv : List String)
    → every is_plain argv ≡ true
    → parse_transfer_args argv ≡ (
        if leb (length argv) 4
        then value (record {
          from = get_elem? argv 0;
          to = get_elem? argv 1;
          asset = get_elem? argv 2;
          amount = get_elem? argv 3;
          rpc_url = none;
          json = false;
          help = false;
        })
        else fails "Expected from, to, ticker/token address, and amount")
unfolding parse_transfer_args parse_args ◌>>=◌ with_positional named_args
parse_transfer_args-plain argv plain =
    rw (parse_from-plain false argv no_args plain) (elim (Bool-cases (leb (length argv) 4)) [
      | inl few ↦ rw few (ap value (get_elem?-assign argv _ refl refl refl refl))
      | inr many ↦ rw many refl
    ])
