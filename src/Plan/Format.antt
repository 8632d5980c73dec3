-- ===== src/Plan/Format.antt =====
-- apps/web/src/lib/format.ts: amounts, rates and addresses in words, fees and countdowns.
-- `formatUnits` is viem's and a parameter. A JavaScript number that is a rate or a quotient is an exact
-- fraction here, and a whole number is read below 2 ^ 53.
use Prim.Native.Char.{code}
use Prim.Native.String.{count}
use dca_protocol.Base.{
  ℕ, ◌+◌, ◌-◌, ◌*◌, ◌/◌, ◌%◌, ◌^◌, Bool, ◌&&◌, [], ◌∷◌, Option, none, some, String, ltb, leb, ◌==◌,
  if◌then◌else◌,
}
use dca_protocol.Base.Int.{ℤ, pos, negsuc, sub_ℕ, scale, ◌+ℤ◌}
use dca_protocol.Base.Text.{template, take_text, drop_text, decimal, two_digits, grouped, str_eq}

-- `s.split(".")`, as far as its first two parts, the second "" when it is missing.
unfoldable pub before_dot : String → String
before_dot String.[] = ""
before_dot (String.◌∷◌ c s) = if code c == 46 then "" else String.◌∷◌ c (before_dot s)

before_next_dot : String → String
before_next_dot String.[] = ""
before_next_dot (String.◌∷◌ c s) = if code c == 46 then "" else String.◌∷◌ c (before_next_dot s)

unfoldable pub after_dot : String → String
unfolding before_next_dot
after_dot String.[] = ""
after_dot (String.◌∷◌ c s) = if code c == 46 then before_next_dot s else after_dot s

number_from : ℕ → String → ℕ
number_from acc String.[] = acc
number_from acc (String.◌∷◌ c s) = number_from (acc * 10 + (code c - 48)) s

-- `Number(s)` of a text of digits.
unfoldable pub to_number : String → ℕ
unfolding number_from
to_number s = number_from 0 s

-- `s.replace(/0+$/, "")`
unfoldable pub strip_zeros : String → String
strip_zeros String.[] = ""
strip_zeros (String.◌∷◌ c s) =
    if code c == 48 && str_eq (strip_zeros s) "" then "" else String.◌∷◌ c (strip_zeros s)

-- A number that is not whole, exactly; it is not finite when it divides by zero.
pub record Fraction : Type 0 where
  pub over : ℕ
  pub under : ℕ

-- `x.toFixed(2)` of a number of hundredths.
unfoldable pub hundredths : ℕ → String
hundredths n = template (decimal (n / 100) ∷ "." ∷ two_digits (n % 100) ∷ [])

abbrev usd_text : String → ℕ → String
usd_text sign cents =
    template (sign ∷ "$" ∷ grouped (cents / 100) ∷ "." ∷ two_digits (cents % 100) ∷ [])

-- A division of JavaScript's bigints rounds to zero.
unfoldable pub trunc_div : ℤ → ℕ → ℤ
trunc_div (pos n) d = pos (n / d)
trunc_div (negsuc n) d = sub_ℕ 0 ((n + 1) / d)

-- An amount in cents, rounded half up.
unfoldable pub cents_of : ℤ → ℕ → ℤ
cents_of v unit = trunc_div (scale v 100 +ℤ pos (unit / 2)) unit

signed_usd : ℤ → String
signed_usd (pos cents) = usd_text "" cents
signed_usd (negsuc n) = usd_text "-" (n + 1)

unfoldable pub fmt_usd_at : Option ℤ → ℕ → String
unfolding signed_usd
fmt_usd_at none decimals = "—"
fmt_usd_at (some v) decimals = signed_usd (cents_of v (10 ^ decimals))

unfoldable pub fmt_usd : Option ℤ → String
fmt_usd v = fmt_usd_at v 6

-- An amount of USDG the code holds as a positive number.
abbrev pub usd : ℕ → String
usd v = fmt_usd (some (pos v))

unfoldable pub fmt_bps : Option ℕ → String
fmt_bps none = "—"
fmt_bps (some bps) = template (hundredths bps ∷ "%" ∷ [])

finite_pct : Fraction → Bool → String
finite_pct f approx = template (
    (if approx then "~" else "")
    ∷ hundredths ((f.over * 20000 + f.under) / (2 * f.under))
    ∷ "%"
    ∷ [])

unfoldable pub fmt_pct : Option Fraction → Bool → String
unfolding finite_pct
fmt_pct none approx = "—"
fmt_pct (some f) approx = if f.under == 0 then "—" else finite_pct f approx

unfoldable pub fee_of : ℕ → ℕ → ℕ
fee_of amount bps = amount * bps / 10000

unfoldable pub short : Option String → String
short none = "—"
short (some a) =
    if str_eq a "" then "—" else template (take_text 6 a ∷ "…" ∷ drop_text (count a - 4) a ∷ [])

clock_text : ℕ → ℕ → ℕ → ℕ → String
clock_text d h m s =
    if ltb 0 d
    then template (decimal d ∷ "d " ∷ decimal h ∷ "h " ∷ decimal m ∷ "m" ∷ [])
    else if ltb 0 h
    then template (decimal h ∷ "h " ∷ decimal m ∷ "m " ∷ decimal s ∷ "s" ∷ [])
    else template (decimal m ∷ "m " ∷ decimal s ∷ "s" ∷ [])

-- The days, hours, minutes and seconds a number of seconds is made of.
pub record Parts : Type 0 where
  pub days : ℕ
  pub hours : ℕ
  pub minutes : ℕ
  pub seconds : ℕ

unfoldable pub parts_of : ℕ → Parts
parts_of total =
    let d = total / 86400 in
    let after_days = total - d * 86400 in
    let h = after_days / 3600 in
    let after_hours = after_days - h * 3600 in
    let m = after_hours / 60 in
    record { days = d; hours = h; minutes = m; seconds = after_hours - m * 60 }

unfoldable pub countdown : ℕ → ℕ → String
unfolding clock_text
countdown target now =
    let p = parts_of (target - now) in clock_text p.days p.hours p.minutes p.seconds

unfoldable pub value_of : Option ℕ → Option ℕ → ℕ → Option ℕ
value_of (some amount) (some price) decimals = some (amount * price / 10 ^ decimals)
value_of (some amount) none decimals = none
value_of none price decimals = none

-- `Number(i).toLocaleString("en-US")` of the digits before the point, with their sign.
unfoldable pub locale_number : String → String
locale_number String.[] = grouped 0
locale_number (String.◌∷◌ c s) =
    if code c == 45
    then template ("-" ∷ grouped (to_number s) ∷ [])
    else grouped (to_number (String.◌∷◌ c s))

module _ (format_units : ℤ → ℕ → String) where
  abbrev with_fraction : String → String → String
  with_fraction int frac = if str_eq frac "" then int else template (int ∷ "." ∷ frac ∷ [])

  unfoldable pub fmt_units : Option ℤ → ℕ → ℕ → String
  fmt_units none decimals max_frac = "—"
  fmt_units (some v) decimals max_frac =
      let s = format_units v decimals in
      with_fraction (locale_number (before_dot s)) (strip_zeros (take_text max_frac (after_dot s)))

-- `Number(x.toFixed(1)).toString()` of the number over / under, rounded half up.
unfoldable pub trim : ℕ → ℕ → String
trim over under =
    let tenths = (20 * over + under) / (2 * under) in
    if tenths % 10 == 0
    then decimal (tenths / 10)
    else template (decimal (tenths / 10) ∷ "." ∷ decimal (tenths % 10) ∷ [])

unfoldable pub fmt_units_compact : Option ℕ → ℕ → String
fmt_units_compact none decimals = "—"
fmt_units_compact (some v) decimals =
    let one = 10 ^ decimals in
    if leb (1000000 * one) v
    then template (trim v (1000000 * one) ∷ "M" ∷ [])
    else if leb (1000 * one) v
    then template (trim v (1000 * one) ∷ "k" ∷ [])
    else trim v one
