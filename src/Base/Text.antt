-- ===== src/Base/Text.antt =====
-- Texts: template literals, ASCII case, numbers in decimal and with thousands separators.
use Prim.Native.Char.{Char, code}
use Prim.Native.String.{String, ◌++◌, char_at, slice}
use Prim.Native.Nat.{ℕ, zero, suc, ◌+◌, ◌-◌, ◌/◌, ◌%◌}
use mathlib.Core.Bool.{◌&&◌}
use mathlib.Core.List.{List, [], ◌∷◌}
use dca_protocol.Base.Tests.{leb, ltb, ◌==◌, if◌then◌else◌}
pub use text.Mathlib.Text.{◌==◌ as str_eq, starts_with}
pub use text.Mathlib.TextEquality.{eq_iff}
pub use text.Mathlib.TextPositions.{eq_refl}

-- A template literal, as the list of its parts.
unfoldable pub template : List String → String
template [] = ""
template (s ∷ ss) = s ++ template ss

-- `parts.join(sep)`
unfoldable pub join : String → List String → String
join sep [] = ""
join sep (s ∷ []) = s
join sep (s ∷ t ∷ ss) = s ++ (sep ++ join sep (t ∷ ss))

abbrev lower_char : Char → Char
lower_char c =
    if leb 65 (code c) && leb (code c) 90
    then char_at "abcdefghijklmnopqrstuvwxyz" (code c - 65)
    else c

abbrev upper_char : Char → Char
upper_char c =
    if leb 97 (code c) && leb (code c) 122
    then char_at "ABCDEFGHIJKLMNOPQRSTUVWXYZ" (code c - 97)
    else c

-- `s.toLowerCase()` and `s.toUpperCase()` on ASCII letters, which addresses, tickers and flags consist of.
unfoldable pub to_lower : String → String
to_lower String.[] = ""
to_lower (String.◌∷◌ c s) = String.◌∷◌ (lower_char c) (to_lower s)

unfoldable pub to_upper : String → String
to_upper String.[] = ""
to_upper (String.◌∷◌ c s) = String.◌∷◌ (upper_char c) (to_upper s)

-- `s.slice(n)`
unfoldable pub drop_text : ℕ → String → String
drop_text zero s = s
drop_text (suc n) String.[] = ""
drop_text (suc n) (String.◌∷◌ c s) = drop_text n s

-- `s.slice(0, n)`
unfoldable pub take_text : ℕ → String → String
take_text zero s = ""
take_text (suc n) String.[] = ""
take_text (suc n) (String.◌∷◌ c s) = String.◌∷◌ c (take_text n s)

unfoldable pub digit : ℕ → String
digit n = slice "0123456789" n (n + 1)

digits_from : ℕ → ℕ → String → String
digits_from zero n acc = acc
digits_from (suc fuel) n acc =
    let rest = digits_from fuel (n / 10) (digit (n % 10) ++ acc) in if n == 0 then acc else rest

-- A number in decimal; a number has no more than its own value in digits, plus one.
unfoldable pub decimal : ℕ → String
unfolding digits_from digit
decimal n = if n == 0 then "0" else digits_from (n + 1) n ""

-- Two digits, the first possibly zero: `padStart(2, "0")` below a hundred.
unfoldable pub two_digits : ℕ → String
unfolding digit
two_digits n = digit (n / 10) ++ digit (n % 10)

three_digits : ℕ → String
unfolding digit
three_digits n = digit (n / 100) ++ (digit (n / 10 % 10) ++ digit (n % 10))

grouped_from : ℕ → ℕ → String → String
grouped_from zero n acc = acc
grouped_from (suc fuel) n acc =
    let rest = grouped_from fuel (n / 1000) ("," ++ (three_digits (n % 1000) ++ acc)) in
    if ltb n 1000 then decimal n ++ acc else rest

-- `n.toLocaleString("en-US")` of a whole number.
unfoldable pub grouped : ℕ → String
unfolding grouped_from three_digits digit decimal
grouped n = grouped_from (n + 1) n ""
