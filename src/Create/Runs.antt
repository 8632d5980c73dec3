-- ===== src/Create/Runs.antt =====
-- The runs of a plan that useCreatePlan.ts (apps/web/src/components/app/create) foretells, against the vault's rule that
-- a period spends what the plan holds, up to its amount.
use native.Mathlib.Nat.{mul-le-mul_right}
use dca_protocol.Base.{
  ℕ, suc, ◌+◌, ◌-◌, ◌*◌, ◌/◌, ◌%◌, ◌≤◌, ◌<◌, true, false, ltb, some, ◌≡◌, ◌∙◌, arith, Bool-cases,
  inl, inr,
}
use dca_protocol.Base.Int.{pos, scale, ◌+ℤ◌, ◌-ℤ◌}
use dca_protocol.Plan.Format.{trunc_div}
use dca_protocol.Plan.Funds.{full_buys, rest_of}
use dca_protocol.Plan.Cover.{after_buys, full_buys-after_buys}
use dca_protocol.Create.Form.{
  Viem, FormView, from_info, trunc_rem, per_buy_wei, upfront_usdg, buys_covered, last_buy_usdg,
}
use dca_protocol.Create.Estimates.{one_more, runs, last_buy_at, last_at}

-- The runs of a balance: the full ones, and one more for a remainder.
abbrev pub count_runs : ℕ → ℕ → ℕ
count_runs b p = b / p + one_more (ltb 0 (b % p))

rest_of-mod : (b p : ℕ) → 0 < p → rest_of b p ≡ b % p
unfolding rest_of full_buys
rest_of-mod b p h = grind arith

next_full : (b p m : ℕ) → 0 < p → m < b / p → m * p + p ≤ b
next_full b p m h le =
    let below : b / p * p ≤ b = grind arith in
    let step : (m + 1) * p ≤ b / p * p = mul-le-mul_right p (omega arith) in
    omega (arith, below, step)

after_full : (b p m : ℕ) → 0 < p → m ≤ b / p → after_buys b p m ≡ b - m * p
after_full b p m h le = (full_buys-after_buys b p h).0 m (unfold full_buys in le)

whole_buys : (b p m : ℕ) → 0 < p → m < b / p → p ≤ after_buys b p m
whole_buys b p m h le = omega (arith, after_full b p m h (omega arith), next_full b p m h le)

after_last : (b p : ℕ) → 0 < p → after_buys b p (b / p) ≡ b % p
after_last b p h = unfold full_buys in (full_buys-after_buys b p h).1 ∙ rest_of-mod b p h

after_all : (b p : ℕ) → 0 < p → after_buys b p (suc (b / p)) ≡ 0
after_all b p h = unfold full_buys in (full_buys-after_buys b p h).3

count_more : (b p : ℕ) → ltb 0 (b % p) ≡ true → count_runs b p ≡ suc (b / p)
count_more b p more = ground arith

count_even : (b p : ℕ) → ltb 0 (b % p) ≡ false → count_runs b p ≡ b / p
count_even b p even = ground arith

buys_last : (b p m : ℕ) → 0 < p → ltb 0 (b % p) ≡ true → m < suc (b / p) → 0 < after_buys b p m
buys_last b p m h more le = elim (Bool-cases (ltb m (b / p))) [
  | inl early ↦ omega (arith, whole_buys b p m h (ground arith))
  | inr late ↦
      let at : m ≡ b / p = ground arith in rw at (omega (arith, after_last b p h, positive))
]
  where
    positive : 0 < b % p
    positive = ground arith

-- A balance buys in each of its runs, and is spent after them.
runs_lem :
    (b p : ℕ)
    → 0 < p
    → ((m : ℕ) → m < count_runs b p → 0 < after_buys b p m) × (after_buys b p (count_runs b p) ≡ 0)
runs_lem b p h = elim (Bool-cases (ltb 0 (b % p))) [
  | inl more ↦ (
    λ m le. buys_last b p m h more (rw (count_more b p more) at le),
    rw (count_more b p more) (after_all b p h),
  )
  | inr none_left ↦ (
    λ m le. omega (arith, whole_buys b p m h (rw (count_even b p none_left) at le)),
    rw (count_even b p none_left) (empty none_left),
  )
]
  where
    empty : ltb 0 (b % p) ≡ false → after_buys b p (b / p) ≡ 0
    empty e = after_last b p h ∙ ground arith

module _ (viem : Viem) (f : FormView) where
  pub record Foretold (b p : ℕ) : Type 0 where
    pub full : ℕ
    pub count : ℕ
    pub covered : buys_covered viem f ≡ some (pos full)
    pub whole : (m : ℕ) → m < full → p ≤ after_buys b p m
    pub last : last_buy_usdg viem f ≡ some (pos (after_buys b p full))
    pub counted : runs viem f ≡ some (pos count)
    pub buying : (m : ℕ) → m < count → 0 < after_buys b p m
    pub ended : after_buys b p count ≡ 0
    pub ends_at :
        (first len : ℕ)
        → from_info (λ i. i.next_epoch_start) f.info ≡ some first
        → from_info (λ i. i.epoch_length) f.info ≡ some len
        → 0 < len
        → 0 < count
        → last_buy_at viem f ≡ some (pos (first + (count - 1) * len))

  covered_lem :
      (b p : ℕ)
      → upfront_usdg viem f ≡ some (pos b)
      → per_buy_wei viem f ≡ some p
      → 0 < p
      → (buys_covered viem f ≡ some (pos (b / p))) × (last_buy_usdg viem f ≡ some (pos (b % p)))
  unfolding buys_covered last_buy_usdg trunc_div trunc_rem
  covered_lem b p bought per h = (rw (bought, per) (ground arith), rw (bought, per) (ground arith))

  counted_lem :
      (b p : ℕ)
      → upfront_usdg viem f ≡ some (pos b)
      → per_buy_wei viem f ≡ some p
      → 0 < p
      → runs viem f ≡ some (pos (count_runs b p))
  unfolding runs ◌+ℤ◌
  counted_lem b p bought per h =
      let (c, l) = covered_lem b p bought per h in rw (c, l) (ground arith)

  last_at-pos :
      (n first len : ℕ)
      → 0 < len
      → 0 < n
      → last_at (some (pos n)) (some first) (some len) ≡ some (pos (first + (n - 1) * len))
  unfolding ◌+ℤ◌ ◌-ℤ◌ scale
  last_at-pos n first len l h = ground arith

  -- Of a funding that is not below zero, each full buy spends the whole amount, and the last buy what is left; a plan
  -- buys in each of its runs and in no period after them; and the last run is a period's length after the first for
  -- each run between them.
  pub runs-Foretold :
      (b p : ℕ)
      → upfront_usdg viem f ≡ some (pos b)
      → per_buy_wei viem f ≡ some p
      → 0 < p
      → Foretold b p
  unfolding last_buy_at
  runs-Foretold b p bought per h =
      let (c, l) = covered_lem b p bought per h in
      let counts = counted_lem b p bought per h in
      let (buys, spent) = runs_lem b p h in
      record {
        full = b / p;
        count = count_runs b p;
        covered = c;
        whole = λ m le. whole_buys b p m h le;
        last = rw (after_last b p h) l;
        counted = counts;
        buying = buys;
        ended = spent;
        ends_at = λ first len fe le pl pn.
            rw (counts, fe, le) (last_at-pos (count_runs b p) first len pl pn);
      }
