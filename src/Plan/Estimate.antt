-- ===== src/Plan/Estimate.antt =====
-- apps/web/src/lib/planEstimate.ts: the stock a purchase gets at the price of a probe of one USDG.
use Prim.Native.Char.{code}
use Prim.Native.String.{count}
use dca_protocol.Base.{
  ℕ, suc, ◌+◌, Option, none, some, String, ltb, ◌&&◌, not, leb, if◌then◌else◌, max,
}
use dca_protocol.Base.Int.{ℤ, sub_ℕ, scale}
use dca_protocol.Base.Text.{str_eq}
use dca_protocol.Plan.Format.{fee_of, trunc_div, fmt_units, before_dot, after_dot}

abbrev pub estimate_probe_usdg : ℕ
estimate_probe_usdg = 1000000

abbrev pub min_probe_out : ℕ
min_probe_out = 10000

unfoldable pub stock_for : ℕ → Option ℕ → ℕ → Option ℤ
stock_for usdg none fee_bps = none
stock_for usdg (some probe_out) fee_bps =
    if ltb probe_out min_probe_out
    then none
    else some (trunc_div (scale (sub_ℕ usdg (fee_of usdg fee_bps)) probe_out) estimate_probe_usdg)

-- `frac.search(/[1-9]/)`
unfoldable pub lead_zeros : String → Option ℕ
lead_zeros String.[] = none
lead_zeros (String.◌∷◌ c s) =
    if leb 49 (code c) && leb (code c) 57
    then some 0
    else elim (lead_zeros s) [ none ↦ none | some n ↦ some (suc n) ]

module _ (format_units : ℤ → ℕ → String) where
  unfoldable pub fmt_token_amount : ℤ → ℕ → String
  fmt_token_amount v decimals =
      let int = before_dot (format_units v decimals) in
      if not (str_eq int "0")
      then fmt_units format_units (some v) decimals (if ltb 3 (count int) then 2 else 4)
      else elim (lead_zeros (after_dot (format_units v decimals))) [
        | none ↦ "0"
        | some lead ↦ fmt_units format_units (some v) decimals (max 4 (lead + 4))
      ]
