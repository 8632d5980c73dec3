-- ===== src/Plan/Cover.antt =====
-- What apps/web/src/lib/planFunds.ts and format.ts say of a balance and of a countdown, against the
-- vault's rule that a purchase spends what the plan holds, up to its amount.
use native.Mathlib.Nat.{mul-le-mul_right}
use dca_protocol.Base.{
  ℕ, zero, suc, ◌+◌, ◌-◌, ◌*◌, ◌≤◌, ◌<◌, min, Bool, true, false, none, ◌≡◌, ◌↔◌, arith,
}
use dca_protocol.Plan.Format.{parts_of}
use dca_protocol.Plan.Funds.{usdg_dust, full_buys, rest_of, funds_level, level_copy, row_funds_copy}

-- The balance after a number of purchases, none of which is skipped.
unfoldable pub after_buys : ℕ → ℕ → ℕ → ℕ
after_buys balance per_buy zero = balance
after_buys balance per_buy (suc n) =
    let left = after_buys balance per_buy n in left - min left per_buy

after_full :
    (balance per_buy n : ℕ)
    → n * per_buy ≤ balance
    → after_buys balance per_buy n ≡ balance - n * per_buy
unfolding after_buys
after_full balance per_buy zero h = omega arith
after_full balance per_buy (suc n) h = omega (arith, after_full balance per_buy n (omega arith))

buys_bounds :
    (balance per_buy : ℕ)
    → 0 < per_buy
    → (full_buys balance per_buy * per_buy ≤ balance)
      × (balance < full_buys balance per_buy * per_buy + per_buy)
unfolding full_buys
buys_bounds balance per_buy h = grind arith

-- A balance pays for its full purchases at the whole amount, what is left then is the smaller last
-- purchase, and after that one the plan is empty.
pub full_buys-after_buys :
    (balance per_buy : ℕ)
    → 0 < per_buy
    → ((n : ℕ)
        → n ≤ full_buys balance per_buy
        → after_buys balance per_buy n ≡ balance - n * per_buy)
      × (after_buys balance per_buy (full_buys balance per_buy) ≡ rest_of balance per_buy)
      × (rest_of balance per_buy < per_buy)
      × (after_buys balance per_buy (suc (full_buys balance per_buy)) ≡ 0)
unfolding rest_of after_buys
full_buys-after_buys balance per_buy h = (
  λ n le. after_full balance per_buy n (within n le),
  after_full balance per_buy (full_buys balance per_buy) ((buys_bounds balance per_buy h).0),
  omega (arith, buys_bounds balance per_buy h),
  omega (
    arith,
    buys_bounds balance per_buy h,
    after_full balance per_buy (full_buys balance per_buy) ((buys_bounds balance per_buy h).0),
  ),
)
  where
    within : (n : ℕ) → n ≤ full_buys balance per_buy → n * per_buy ≤ balance
    within n le = omega (arith, buys_bounds balance per_buy h, mul-le-mul_right per_buy le)

-- The notice under a plan is missing exactly when the plan holds a cent and a whole purchase.
pub row_funds_copy-none :
    (balance per_buy : ℕ) (paused : Bool)
    → (row_funds_copy balance per_buy paused ≡ none) ↔ ((usdg_dust ≤ balance) × (per_buy ≤ balance))
unfolding row_funds_copy funds_level level_copy
row_funds_copy-none balance per_buy true = ground arith
row_funds_copy-none balance per_buy false = ground arith

-- A number of seconds is the sum of its days, hours, minutes and seconds, each but the days below a
-- whole one of the next.
pub parts_of_lem :
    (total : ℕ)
    → ((parts_of total).days * 86400
          + (parts_of total).hours * 3600
          + (parts_of total).minutes * 60
          + (parts_of total).seconds
        ≡ total)
      × ((parts_of total).hours < 24)
      × ((parts_of total).minutes < 60)
      × ((parts_of total).seconds < 60)
unfolding parts_of
parts_of_lem total = omega arith
