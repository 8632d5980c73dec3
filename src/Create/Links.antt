-- ===== src/Create/Links.antt =====
-- The deep links of apps/web/src/lib/createLinks.ts. A query is the list of its parameters; its text, and that of a number,
-- are the platform's and a parameter.
use Prim.Native.Char.{Char, code}
use Prim.Native.String.{String}
use dca_protocol.Base.{
  ℕ, suc, Bool, true, false, ◌&&◌, ◌||◌, not, List, [], ◌∷◌, ◌++◌, Option, none, some, ltb, leb,
  ◌==◌, if◌then◌else◌,
}
use dca_protocol.Base.Int.{ℤ, pos, negsuc}
use dca_protocol.Base.Text.{template, str_eq, to_lower}
use dca_protocol.Create.Kinds.{VaultKind, kind_text, vault_kinds}
use dca_protocol.Create.Types.{trim, find_by}
use dca_protocol.Create.Form.{Viem, usdg_decimals}

abbrev pub stock_param : String
stock_param = "stock"

abbrev pub frequency_param : String
frequency_param = "frequency"

abbrev pub amount_param : String
amount_param = "amount"

-- A number of JavaScript: one that is not finite, or a fraction.
pub data JsNumber : Type 0 where
  not_finite : JsNumber
  finite : ℤ → ℕ → JsNumber

abbrev above_nothing : JsNumber → Bool
above_nothing not_finite = false
above_nothing (finite (pos n) d) = ltb 0 n
above_nothing (finite (negsuc n) d) = false

-- What prints a query and a number.
pub record Printer : Type 0 where
  pub query_text : List (String × String) → String
  pub number_text : JsNumber → String

module _ (print : Printer) where
  abbrev stock_entry : Option String → List (String × String)
  stock_entry none = []
  stock_entry (some s) = if str_eq s "" then [] else (stock_param, s) ∷ []

  abbrev kind_entry : Option VaultKind → List (String × String)
  kind_entry none = []
  kind_entry (some k) = (frequency_param, kind_text k) ∷ []

  abbrev amount_entry : Option JsNumber → List (String × String)
  amount_entry none = []
  amount_entry (some a) = if above_nothing a then (amount_param, print.number_text a) ∷ [] else []

  unfoldable pub create_href : Option String → Option VaultKind → Option JsNumber → String
  create_href stock kind amount =
      let s = print.query_text (stock_entry stock ++ (kind_entry kind ++ amount_entry amount)) in
      if str_eq s "" then "/app/create" else template ("/app/create?" ∷ s ∷ [])

unfoldable pub parse_frequency_param : Bool → Option String → Option VaultKind
parse_frequency_param test_shown none = none
parse_frequency_param test_shown (some value) =
    let v = to_lower (trim value) in
    if str_eq v "" then none else find_by (λ k. str_eq (kind_text k) v) (vault_kinds test_shown)

abbrev is_digit : Char → Bool
is_digit c = leb 48 (code c) && leb (code c) 57

-- The digits a text starts with, counted, and what follows them.
lead_digits : String → ℕ × String
lead_digits String.[] = (0, "")
lead_digits (String.◌∷◌ c s) =
    let rest = lead_digits s in if is_digit c then (suc rest.0, rest.1) else (0, String.◌∷◌ c s)

abbrev digits_only : ℕ → ℕ × String → Bool
digits_only most run = leb 1 run.0 && leb run.0 most && str_eq run.1 ""

is_fraction : String → Bool
unfolding lead_digits
is_fraction String.[] = true
is_fraction (String.◌∷◌ c s) = code c == 46 && digits_only 6 (lead_digits s)

-- `/^\d{1,12}(\.\d{1,6})?$/`
unfoldable pub is_plain_amount : String → Bool
unfolding lead_digits is_fraction
is_plain_amount v = let run = lead_digits v in leb 1 run.0 && leb run.0 12 && is_fraction run.1

module _ (viem : Viem) where
  positive_text : Option ℕ → Option String
  positive_text none = none
  positive_text (some wei) =
      if ltb 0 wei then some (viem.format_units (pos wei) usdg_decimals) else none

  -- Such a decimal always parses.
  unfoldable pub parse_amount_param : Option String → Option String
  unfolding positive_text
  parse_amount_param none = none
  parse_amount_param (some value) =
      let v = trim value in
      if str_eq v "" || not (is_plain_amount v)
      then none
      else positive_text (viem.parse_units v usdg_decimals)
