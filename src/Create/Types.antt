-- ===== src/Create/Types.antt =====
-- What apps/web/src/hooks/useProtocol.ts reads of the chain for the create form: the directory, the stocks and the
-- vaults; and the tests of addresses in apps/web/src/lib/config.ts.
use Prim.Native.Char.{Char, code}
use dca_protocol.Base.{
  ℕ, Bool, true, false, ◌&&◌, ◌||◌, not, List, [], ◌∷◌, Option, none, some, String, ◌==◌,
  if◌then◌else◌,
}
use dca_protocol.Base.Text.{str_eq, to_lower}
use dca_protocol.Create.Kinds.{VaultKind}

abbrev pub zero_address : String
zero_address = "0x0000000000000000000000000000000000000000"

unfoldable pub is_zero : Option String → Bool
is_zero none = true
is_zero (some a) = str_eq a "" || str_eq a zero_address

pub record Directory : Type 0 where
  pub hourly : String
  pub daily : String
  pub weekly : String
  pub monthly : String
  pub registry : String
  pub router : String
  pub usdg : String
  pub weth : String
  pub dca : String

pub record Stock : Type 0 where
  pub address : String
  pub symbol : String
  pub decimals : ℕ
  pub approved : Bool
  pub fee_on_transfer : Bool

pub record FeeConfig : Type 0 where
  pub purchase_fee_bps : ℕ
  pub deposit_fee_bps : ℕ
  pub withdraw_fee_bps : ℕ
  pub claim_fee_bps : ℕ
  pub keeper_tip_bps : ℕ
  pub swap_slippage_bps : ℕ

pub record VaultInfo : Type 0 where
  pub address : String
  pub kind : VaultKind
  pub fees : Option FeeConfig
  pub next_epoch_start : Option ℕ
  pub epoch_length : Option ℕ
  pub current_epoch_id : Option ℕ
  pub total_usdg_idle : Option ℕ
  pub total_notional_usdg : Option ℕ
  pub epochs_completed : Option ℕ
  pub auto_distribute_threshold : Option ℕ
  pub fee_halve_threshold : Option ℕ
  pub min_amount_per_epoch : Option ℕ
  pub min_deposit : Option ℕ
  pub paused : Option Bool
  pub boost_strategy : Option String
  pub boost_assets : Option ℕ

unfoldable pub boost_available : Option VaultInfo → Bool
boost_available none = false
boost_available (some info) = not (is_zero info.boost_strategy)

-- `isDcaToken`
unfoldable pub is_dca_token : Option Directory → Option String → Bool
is_dca_token none address = false
is_dca_token (some dir) none = false
is_dca_token (some dir) (some a) =
    not (str_eq a "") && (not (is_zero (some dir.dca)) && str_eq (to_lower a) (to_lower dir.dca))

-- The whitespace of ASCII that `trim` drops.
abbrev is_space : Char → Bool
is_space c =
    code c == 32
    || (code c == 9 || (code c == 10 || (code c == 13 || code c == 11 || code c == 12)))

trim_start : String → String
trim_start String.[] = ""
trim_start (String.◌∷◌ c s) = if is_space c then trim_start s else String.◌∷◌ c s

trim_end : String → String
trim_end String.[] = ""
trim_end (String.◌∷◌ c s) =
    if is_space c && str_eq (trim_end s) "" then "" else String.◌∷◌ c (trim_end s)

-- `s.trim()`
unfoldable pub trim : String → String
unfolding trim_start trim_end
trim s = trim_end (trim_start s)

-- `l.find(test)`
abbrev pub find_by {ℓ} : {A : Type ℓ} → (A → Bool) → List A → Option A
find_by test [] = none
find_by test (x ∷ xs) = if test x then some x else find_by test xs

-- `a ?? b` of values that may be missing.
abbrev pub first_of {ℓ} : {A : Type ℓ} → Option A → Option A → Option A
first_of none b = b
first_of (some a) b = some a

unfoldable pub find_stock : List Stock → String → Option Stock
find_stock stocks query =
    let q = to_lower (trim query) in
    if str_eq q ""
    then none
    else first_of (find_by (λ s. str_eq (to_lower s.address) q) stocks)
        (find_by (λ s. str_eq (to_lower s.symbol) q) stocks)
