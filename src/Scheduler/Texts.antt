-- ===== src/Scheduler/Texts.antt =====
-- The pure helpers at the end of apps/scheduler/src/scheduler.ts: keys, durations, and errors in words.
use Prim.Native.Char.{Char, code}
use Prim.Native.String.{count, slice}
use dca_protocol.Base.{
  ℕ, ◌+◌, ◌-◌, ◌*◌, ◌/◌, ◌%◌, Bool, ◌&&◌, List, [], ◌∷◌, Option, none, some, String, ltb, leb,
  if◌then◌else◌, or_else, every, map, length,
}
use dca_protocol.Base.Int.{ℤ, pos_part}
use dca_protocol.Base.Text.{template, join, to_lower, take_text, drop_text, decimal, str_eq}
use dca_protocol.Scheduler.Types.{
  Abi, plan_vault, aggregator_router, stock_registry, morpho_blue_strategy, error_string, Decoded,
  Failure, reverted, base_error, js_error, thrown,
}
use dca_protocol.Scheduler.Rpc.{Viem}

unfoldable pub pair_key : String → String → String
pair_key vault stock = to_lower (template (vault ∷ ":" ∷ stock ∷ []))

unfoldable pub short : String → String
short a = template (take_text 6 a ∷ "…" ∷ drop_text (count a - 4) a ∷ [])

-- `fmtDur` of a whole number of seconds; the two callers that log a fraction round it first.
unfoldable pub fmt_dur : ℤ → String
fmt_dur seconds =
    let s = pos_part seconds in
    let d = s / 86400 in
    let h = s % 86400 / 3600 in
    let m = s % 3600 / 60 in
    let sec = s % 60 in
    if ltb 0 d
    then template
        (decimal d ∷ "d" ∷ (if ltb 0 h then template (" " ∷ decimal h ∷ "h" ∷ []) else "") ∷ [])
    else if ltb 0 h
    then template
        (decimal h ∷ "h" ∷ (if ltb 0 m then template (" " ∷ decimal m ∷ "m" ∷ []) else "") ∷ [])
    else if ltb 0 m
    then template
        (decimal m ∷ "m" ∷ (if ltb 0 sec then template (" " ∷ decimal sec ∷ "s" ∷ []) else "") ∷ [])
    else template (decimal sec ∷ "s" ∷ [])

unfoldable pub sig : Decoded → String
sig d = template (d.error_name ∷ "(" ∷ join ", " d.args ∷ ")" ∷ [])

module _ (viem : Viem) where
  -- The first ABI of the list whose error table knows the data.
  first_decoded : List Abi → String → Option Decoded
  first_decoded [] raw = none
  first_decoded (a ∷ as') raw = elim (viem.decode_error a raw) [
    | some d ↦ some d
    | none ↦ first_decoded as' raw
  ]

  describe_raw : String → String
  unfolding first_decoded
  describe_raw raw =
      elim (first_decoded (plan_vault ∷ aggregator_router ∷ stock_registry ∷ []) raw) [
        | some d ↦ sig d
        | none ↦ template ("revert " ∷ raw ∷ [])
      ]

  unfoldable pub describe_error : Failure → String
  unfolding describe_raw
  describe_error (reverted (some d) raw reason message) = sig d
  describe_error (reverted none (some raw) reason message) = describe_raw raw
  describe_error (reverted none none reason message) = or_else reason message
  describe_error (base_error message) = message
  describe_error (js_error message) = message
  describe_error (thrown text) = text

hex_digit : Char → Option ℕ
hex_digit c =
    let n = code c in
    if leb b'0' n && leb n b'9'
    then some (n - b'0')
    else if leb b'a' n && leb n b'f'
    then some (n - b'a' + 10)
    else if leb b'A' n && leb n b'F'
    then some (n - b'A' + 10)
    else none

-- A byte of two digits. What is no byte is 0, which is not printable either: `parseInt` makes it
-- `NaN` or the value of the first digit.
hex_byte : Char → Char → ℕ
unfolding hex_digit
hex_byte c d = elim (hex_digit c) [
  | none ↦ 0
  | some h ↦ elim (hex_digit d) [ none ↦ 0 | some l ↦ h * 16 + l ]
]

hex_bytes : String → List ℕ
hex_bytes String.[] = []
hex_bytes (String.◌∷◌ c String.[]) = []
hex_bytes (String.◌∷◌ c (String.◌∷◌ d s)) = hex_byte c d ∷ hex_bytes s

abbrev printable : ℕ → Bool
printable b = leb 0x20 b && ltb b 0x7f

-- `String.fromCharCode` of a printable byte.
ascii : ℕ → String
ascii b =
    slice
      " !\"#$%&'()*+,-./0123456789:;<=>?@ABCDEFGHIJKLMNOPQRSTUVWXYZ[\\]^_`abcdefghijklmnopqrstuvwxyz{|}~"
      (b - 0x20) (b - 0x20 + 1)

-- The bytes as text, if there are any and all are printable.
ascii_reason : String → String
unfolding hex_bytes hex_byte ascii
ascii_reason raw =
    let bytes = hex_bytes (drop_text 2 raw) in
    if ltb 0 (length bytes) && every printable bytes
    then template (map ascii bytes)
    else template ("revert " ∷ raw ∷ [])

module _ (viem : Viem) where
  skip_reason : String → String
  unfolding first_decoded ascii_reason
  skip_reason raw =
      elim (first_decoded viem (aggregator_router ∷ plan_vault ∷ morpho_blue_strategy ∷ []) raw) [
        | some d ↦ sig d
        | none ↦ elim (viem.decode_error error_string raw) [
          | some d ↦ elim d.args [ [] ↦ "error" | m ∷ _ ↦ m ]
          | none ↦ ascii_reason raw
        ]
      ]

  unfoldable pub describe_skip_reason : Option String → String
  unfolding skip_reason
  describe_skip_reason none = "no route"
  describe_skip_reason (some raw) =
      if str_eq raw "" then "no route" else if str_eq raw "0x" then "no route" else skip_reason raw
