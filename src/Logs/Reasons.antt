-- ===== src/Logs/Reasons.antt =====
-- `describeSkipReason` of apps/web/src/hooks/useLogs.ts: the reason in a revert's data. The decoders are viem's, over the
-- ABIs of the contracts, and a parameter.
use Prim.Native.Char.{Char, code}
use Prim.Native.String.{String, char_at}
use dca_protocol.Base.{
  ℕ, ◌+◌, ◌-◌, ◌*◌, ◌&&◌, ◌||◌, List, [], ◌∷◌, Option, none, some, ltb, leb, if◌then◌else◌, every,
  length, or_else,
}
use mathlib.Core.Option
use dca_protocol.Base.Text.{str_eq, drop_text}

-- The name of the error that data decodes to, by the ABI that is tried; `Error(string)` with its text, if any.
pub record SkipDecoders : Type 0 where
  pub strategy : String → Option String
  pub router : String → Option String
  pub vault : String → Option String
  pub error_text : String → Option (Option String)

unfoldable pub strategy_reason : String → String
strategy_reason name =
    if str_eq name "ERC4626ExceededMaxWithdraw" || str_eq name "ERC4626ExceededMaxRedeem"
    then "the lending market is fully utilised"
    else name

unfoldable pub router_reason : String → String
router_reason name =
    if str_eq name "NoRoute"
    then "no approved route within the impact cap"
    else if str_eq name "InsufficientOutput"
    then "price moved past the slippage tolerance"
    else if str_eq name "RouteNotApproved"
    then "route not approved"
    else name

-- `parseInt(b, 16)` of one digit
unfoldable pub hex_digit : Char → ℕ
hex_digit c =
    if leb 97 (code c) && leb (code c) 102
    then code c - 87
    else if leb 65 (code c) && leb (code c) 70
    then code c - 55
    else code c - 48

-- The bytes of hexadecimal digits; an odd one at the end is left out.
unfoldable pub bytes_of : String → List ℕ
unfolding hex_digit
bytes_of String.[] = []
bytes_of (String.◌∷◌ c String.[]) = []
bytes_of (String.◌∷◌ c (String.◌∷◌ d s)) = (hex_digit c * 16 + hex_digit d) ∷ bytes_of s

ascii : String
ascii =
    " !\"#$%&'()*+,-./0123456789:;<=>?@ABCDEFGHIJKLMNOPQRSTUVWXYZ[\\]^_`abcdefghijklmnopqrstuvwxyz{|}~"

-- `String.fromCharCode(...bytes)` of printable bytes
unfoldable pub printable : List ℕ → String
unfolding ascii
printable [] = ""
printable (b ∷ bs) = String.◌∷◌ (char_at ascii (b - 32)) (printable bs)

unfoldable pub raw_reason : List ℕ → String
raw_reason bytes =
    if ltb 0 (length bytes) && every (λ b. leb 32 b && ltb b 127) bytes
    then printable bytes
    else "unknown error"

unfoldable pub first_reason : Option String → String → String
first_reason none other = other
first_reason (some name) other = name

module _ (d : SkipDecoders) where
  unfoldable pub decoded_reason : String → String
  unfolding first_reason
  decoded_reason raw =
      let by_strategy = Option.map strategy_reason (d.strategy raw) in
      let by_router = Option.map router_reason (d.router raw) in
      let by_text = Option.map (λ (t : Option String). or_else t "error") (d.error_text raw) in
      first_reason by_strategy (
        first_reason by_router (
          first_reason (d.vault raw)
            (first_reason by_text (raw_reason (bytes_of (drop_text 2 raw))))))

  unfoldable pub describe_skip_reason : Option String → String
  unfolding decoded_reason
  describe_skip_reason none = "no reason given"
  describe_skip_reason (some raw) =
      if str_eq raw "" || str_eq raw "0x" then "no reason given" else decoded_reason raw
