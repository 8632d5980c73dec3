-- ===== src/Logs/Series.antt =====
-- `cumulativeSeries` and `sumLastDays` of apps/web/src/hooks/useLogs.ts: what was bought over time.
use dca_protocol.Base.{
  ℕ, ◌+◌, ◌*◌, ◌≤◌, Bool, false, List, [], ◌∷◌, Option, none, some, String, ltb, leb, filter_by,
  last_of, ◌≡◌, refl, ap, ◌∙◌, arith, Bool-cases, inl, inr,
}
use dca_protocol.Base.Sort.{sorted_insert, sorted_insert-behind, sorted_insert-here, sort_by}
use dca_protocol.Plan.Format.{Fraction}

pub record EpochLog : Type 0 where
  pub vault : String
  pub stock : String
  pub epoch_id : ℕ
  pub from_index : ℕ
  pub to_index : ℕ
  pub net_usdg : ℕ
  pub stock_out : ℕ
  pub plans_filled : ℕ
  pub block_number : ℕ
  pub log_index : ℕ
  pub tx_hash : String
  pub timestamp : Option ℕ

abbrev by_block : EpochLog → EpochLog → Bool
by_block a b = ltb a.block_number b.block_number

-- `Number(n) / 1e6`, exactly
abbrev pub millionths : ℕ → Fraction
millionths n = record { over = n; under = 1000000 }

series_from : ℕ → List EpochLog → List Fraction
series_from acc [] = []
series_from acc (e ∷ es) = millionths (acc + e.net_usdg) ∷ series_from (acc + e.net_usdg) es

unfoldable pub cumulative_series : Option (List EpochLog) → ℕ → List Fraction
unfolding series_from
cumulative_series none base = []
cumulative_series (some []) base = []
cumulative_series (some (e ∷ es)) base =
    millionths base ∷ series_from base (sort_by by_block (e ∷ es))

-- `epochs.reduce((a, e) => a + e.netUsdg, 0n)`
unfoldable pub net_total : List EpochLog → ℕ
net_total [] = 0
net_total (e ∷ es) = e.net_usdg + net_total es

-- `e.timestamp !== undefined && e.timestamp >= cutoff`, the cutoff being days before a time in milliseconds
abbrev since : ℕ → ℕ → EpochLog → Bool
since now_ms days e = elim e.timestamp [
  | none ↦ false
  | some t ↦ leb now_ms ((t + days * 86400) * 1000)
]

unfoldable pub sum_last_days : ℕ → Option (List EpochLog) → ℕ → ℕ
unfolding net_total
sum_last_days now_ms none days = 0
sum_last_days now_ms (some epochs) days = net_total (filter_by (since now_ms days) epochs)

-- Each entry is at least the one before it, and the first at least a bound.
abbrev pub Climbs : ℕ → List Fraction → Type 0
Climbs bound [] = Unit
Climbs bound (f ∷ fs) = (f.under ≡ 1000000) × (bound ≤ f.over) × Climbs f.over fs

net_total-sorted_insert :
    (e : EpochLog) (es : List EpochLog)
    → net_total (sorted_insert by_block e es) ≡ e.net_usdg + net_total es
unfolding net_total
net_total-sorted_insert e [] = unfold sorted_insert in refl
net_total-sorted_insert e (d ∷ ds) = elim (Bool-cases (by_block d e)) [
  | inl first ↦
      rw (sorted_insert-behind by_block e d ds first) (omega (arith, net_total-sorted_insert e ds))
  | inr later ↦ rw (sorted_insert-here by_block e d ds later)
]

net_total-sort_by : (es : List EpochLog) → net_total (sort_by by_block es) ≡ net_total es
unfolding sort_by net_total
net_total-sort_by [] = refl
net_total-sort_by (e ∷ es) =
    omega (arith, net_total-sorted_insert e (sort_by by_block es), net_total-sort_by es)

series_from-Climbs : (acc : ℕ) (es : List EpochLog) → Climbs acc (series_from acc es)
unfolding series_from
series_from-Climbs acc [] = tt
series_from-Climbs acc (e ∷ es) = (refl, omega arith, series_from-Climbs (acc + e.net_usdg) es)

last_of-series_from :
    (acc : ℕ) (es : List EpochLog)
    → last_of (millionths acc ∷ series_from acc es) ≡ some (millionths (acc + net_total es))
unfolding series_from net_total
last_of-series_from acc [] = ap (λ (n : ℕ). some (millionths n)) (omega arith)
last_of-series_from acc (e ∷ es) =
    last_of-series_from (acc + e.net_usdg) es ∙ ap (λ (n : ℕ). some (millionths n)) (omega arith)

-- In whatever order the logs come, if there are any, the series starts at the base, never falls, and ends at the
-- base plus all that the logs bought.
pub cumulative_series-Climbs :
    (e : EpochLog) (es : List EpochLog) (base : ℕ)
    → Climbs base (cumulative_series (some (e ∷ es)) base)
      × (last_of (cumulative_series (some (e ∷ es)) base)
          ≡ some (millionths (base + net_total (e ∷ es))))
unfolding cumulative_series
cumulative_series-Climbs e es base = (
  (refl, omega arith, series_from-Climbs base _),
  last_of-series_from base _
      ∙ ap (λ (n : ℕ). some (millionths (base + n))) (net_total-sort_by (e ∷ es)),
)
