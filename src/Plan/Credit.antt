-- ===== src/Plan/Credit.antt =====
-- What apps/web/src/lib/planFunds.ts, planEstimate.ts and format.ts compute: deposits, cover and countdowns.
use native.Mathlib.Nat.{mul-le-mul_right, mul_comm, lt_of_mul-lt-mul_left}
use dca_protocol.Base.{ℕ, zero, suc, ◌+◌, ◌-◌, ◌*◌, ◌/◌, ◌%◌, ◌≤◌, ◌<◌, ◌≡◌, subst, arith}
use dca_protocol.Plan.Format.{fee_of}
use dca_protocol.Plan.Funds.{usdg_dust, gross_for, deposit_for}

ceil_bounds : (a n : ℕ) → 0 < n → (a ≤ (a + n - 1) / n * n) × ((a + n - 1) / n * n < a + n)
ceil_bounds a n h = grind arith

fee_of_cents : (k bps : ℕ) → fee_of (k * 10000) bps ≡ k * bps
unfolding fee_of
fee_of_cents k bps = grind arith

keep_and_fee : (k f : ℕ) → f ≤ 10000 → k * (10000 - f) + k * f ≡ k * 10000
keep_and_fee zero f h = omega arith
keep_and_fee (suc k) f h = omega (arith, keep_and_fee k f h)

swap_cents : (k m : ℕ) → k * 10000 * m ≡ k * m * 10000
swap_cents k m = grind arith

gross_bounds :
    (net f : ℕ)
    → f < 10000
    → (net * 10000 ≤ gross_for net f * (10000 - f))
      × (gross_for net f * (10000 - f) < net * 10000 + (10000 - f))
unfolding gross_for
gross_bounds net f h = ground (arith, ceil_bounds (net * 10000) (10000 - f))

-- The cents of the deposit, of which a fee leaves `k * (10000 - f)`.
cents : ℕ → ℕ → ℕ
cents net f = (gross_for net f + usdg_dust - 1) / usdg_dust

cents_bounds :
    (net f : ℕ)
    → (gross_for net f ≤ cents net f * 10000) × (cents net f * 10000 < gross_for net f + 10000)
unfolding cents
cents_bounds net f = omega arith

credit_of_cents : (k f : ℕ) → f < 10000 → k * 10000 - fee_of (k * 10000) f ≡ k * (10000 - f)
credit_of_cents k f h = omega (arith, fee_of_cents k f, keep_and_fee k f (omega arith))

cents_credit : (net f : ℕ) → f < 10000 → net ≤ cents net f * (10000 - f)
cents_credit net f h = omega (
  arith,
  gross_bounds net f h,
  swap_cents (cents net f) (10000 - f),
  mul-le-mul_right (10000 - f) ((cents_bounds net f).0),
)

product_succ : (a b : ℕ) → a * (b + 1) ≡ a * b + a
product_succ a b = grind arith

cents_least : (net f j : ℕ) → f < 10000 → net ≤ j * (10000 - f) → cents net f ≤ j
cents_least net f j h le = omega (arith, cents_bounds net f, below)
  where
    scaled : (10000 - f) * gross_for net f < (10000 - f) * (j * 10000 + 1)
    scaled = omega (
      arith,
      (gross_bounds net f h).1,
      swap_cents j (10000 - f),
      mul_comm (gross_for net f) (10000 - f),
      product_succ (10000 - f) (j * 10000),
      mul_comm (10000 - f) (j * 10000),
    )

    below : gross_for net f < j * 10000 + 1
    below = lt_of_mul-lt-mul_left (10000 - f) scaled

-- A deposit is a whole number of cents, the plan is credited at least the amount asked for after the
-- deposit fee, and no smaller whole number of cents would do, when the fee is below the whole.
pub deposit_for-credits :
    (net fee_bps : ℕ)
    → fee_bps < 10000
    → (deposit_for net fee_bps % usdg_dust ≡ 0)
      × (net ≤ deposit_for net fee_bps - fee_of (deposit_for net fee_bps) fee_bps)
      × ((other : ℕ)
          → net ≤ other * usdg_dust - fee_of (other * usdg_dust) fee_bps
          → deposit_for net fee_bps ≤ other * usdg_dust)
unfolding deposit_for cents
deposit_for-credits net fee_bps h = (
  omega arith,
  omega (arith, credit_of_cents (cents net fee_bps) fee_bps h, cents_credit net fee_bps h),
  λ other enough. omega (
    arith,
    cents_least net fee_bps other h
        (subst (λ (t : ℕ). net ≤ t) (credit_of_cents other fee_bps h) enough),
  ),
)
