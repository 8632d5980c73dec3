-- ===== src/Create/StockLink.antt =====
-- `useStockParam` of apps/web/src/components/app/create/useCreatePlan.ts: the stock that a link names, as a state, the step
-- that decides on it, and what the form shows of it.
use Prim.Native.Char.{Char, code}
use Prim.Native.String.{count}
use dca_protocol.Base.{
  Bool, true, false, ◌&&◌, ◌||◌, not, List, [], ◌∷◌, Option, none, some, String, leb, ◌==◌, any,
  if◌then◌else◌, is_some,
}
use dca_protocol.Base.Text.{str_eq, to_lower, to_upper, take_text, drop_text}
use dca_protocol.Plan.Format.{short}
use dca_protocol.Create.Kinds.{VaultKind, kind_text}
use dca_protocol.Create.Types.{Stock, find_stock, trim}

pub record LinkState : Type 0 where
  pub wanted : Option String
  pub settled : Bool
  pub kind : VaultKind

-- What the lists and the directory say by now.
pub record LinkView : Type 0 where
  pub listed : List Stock
  pub list_fresh : Bool
  pub kinds_buying : String → Option (List VaultKind)
  pub pairs_fresh : Bool
  pub keep_kind : Bool

-- `params.get(STOCK_PARAM)?.trim() || null`
unfoldable pub wanted_from : Option String → Option String
wanted_from none = none
wanted_from (some value) = if str_eq (trim value) "" then none else some (trim value)

abbrev pub is_kind : VaultKind → VaultKind → Bool
is_kind a b = str_eq (kind_text a) (kind_text b)

abbrev pub buys : VaultKind → List VaultKind → Bool
buys kind kinds = any (is_kind kind) kinds

abbrev pub hit_in : LinkView → Option String → Option Stock
hit_in v none = none
hit_in v (some w) = find_stock v.listed w

abbrev pub kinds_in : LinkView → Option Stock → Option (List VaultKind)
kinds_in v none = none
kinds_in v (some s) = v.kinds_buying s.address

-- The frequency to go on with: another where this one does not buy the stock and it may be changed.
abbrev pub next_kind : Bool → VaultKind → Option (List VaultKind) → VaultKind
next_kind keep kind none = kind
next_kind keep kind (some []) = kind
next_kind keep kind (some (k ∷ ks)) = if keep || buys kind (k ∷ ks) then kind else k

abbrev is_hex : Char → Bool
is_hex c = leb 48 (code c) && leb (code c) 57 || leb 97 (code c) && leb (code c) 102

all_hex : String → Bool
all_hex String.[] = true
all_hex (String.◌∷◌ c s) = is_hex c && all_hex s

-- `/^0x[0-9a-f]{40}$/i`
unfoldable pub is_address : String → Bool
unfolding all_hex
is_address s =
    count s == 42 && str_eq (to_lower (take_text 2 s)) "0x" && all_hex (to_lower (drop_text 2 s))

abbrev pub link_name : Option Stock → String → String
link_name (some s) w = s.symbol
link_name none w = if is_address w then short (some w) else to_upper w

-- `!kinds?.length`
abbrev pub is_none_or_empty : Option (List VaultKind) → Bool
is_none_or_empty none = true
is_none_or_empty (some []) = true
is_none_or_empty (some (k ∷ ks)) = false

abbrev pub name_of_missing :
    Bool → Option String → Option Stock → Option (List VaultKind) → Option String
name_of_missing settled none hit kinds = none
name_of_missing settled (some w) hit kinds =
    if settled && is_none_or_empty kinds then some (link_name hit w) else none

abbrev pub off_kind_of : Bool → VaultKind → Option Stock → Option (List VaultKind) → Option Stock
off_kind_of settled kind none kinds = none
off_kind_of settled kind (some s) none = none
off_kind_of settled kind (some s) (some []) = none
off_kind_of settled kind (some s) (some (k ∷ ks)) =
    if settled && not (buys kind (k ∷ ks)) then some s else none

module _ (v : LinkView) (st : LinkState) where
  unfoldable pub hit : Option Stock
  hit = hit_in v st.wanted

  unfoldable pub kinds : Option (List VaultKind)
  kinds = kinds_in v hit

  -- The effect, which decides once.
  unfoldable pub settle : LinkState
  settle =
      if not (is_some st.wanted) || st.settled || not v.list_fresh || not v.pairs_fresh
      then st
      else record st { settled = true; kind = next_kind v.keep_kind st.kind kinds }

  unfoldable pub unavailable : Option String
  unfolding is_address
  unavailable = name_of_missing st.settled st.wanted hit kinds

  unfoldable pub off_kind : Option Stock
  off_kind = off_kind_of st.settled st.kind hit kinds

  abbrev is_named : Option String → Bool
  is_named none = false
  is_named (some name) = not (str_eq name "")

  unfoldable pub link_active : Bool
  link_active = is_some st.wanted && not (is_named unavailable)

-- The user picks for themselves.
unfoldable pub clear : LinkState → LinkState
clear st = record st { wanted = none }

-- `useFrequencyParam`: what the form opens on, and the frequency that was asked for.
unfoldable pub open_on : Option VaultKind → VaultKind → VaultKind × Option VaultKind
open_on none default_kind = (default_kind, none)
open_on (some k) default_kind = (k, some k)
