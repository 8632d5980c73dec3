-- ===== src/Create/Ready.antt =====
-- What the form of apps/web/src/components/app/create/useCreatePlan.ts holds when "Start plan" can be pressed.
use dca_protocol.Base.{
  ℕ, ◌≤◌, ◌<◌, true, false, Option, none, some, String, ltb, is_some, ◌≡◌, refl, arith,
}
use dca_protocol.Plan.Orders.Kinds.{Pay}
use dca_protocol.Create.Types.{Stock}
use dca_protocol.Create.Form.{
  Viem, FormView, reaches_int, reaches, above_zero, exceeds, floor_in, min_deposit, min_per_buy,
  wallet_bal, per_buy_wei, upfront_wei, can_submit, per_buy_ok, funded_enough, insufficient,
  upfront_usdg_floor,
}

pub is_some-value {ℓ} : {A : Type ℓ} (o : Option A) → is_some o ≡ true → (a : A) × (o ≡ some a)
is_some-value none h = absurd (cc h)
is_some-value (some a) h = (a, refl)

module _ (viem : Viem) (f : FormView) where
  -- What a form that can be sent holds.
  pub record Ready (v : String) (s : Stock) (p n : ℕ) : Type 0 where
    pub vault : f.vault ≡ some v
    pub stock : f.stock_obj ≡ some s
    pub per_buy : per_buy_wei viem f ≡ some p
    pub above : 0 < p
    pub least : min_per_buy f ≤ p
    pub upfront : upfront_wei viem f ≡ some n
    pub held : n ≤ wallet_bal f
    pub enough : reaches_int (floor_in f f.pay (some n)) (min_deposit f) ≡ true

  reaches-value :
      (o : Option ℕ) (least : ℕ)
      → reaches (above_zero o) least ≡ true
      → (p : ℕ) × (o ≡ some p) × (0 < p) × (least ≤ p)
  reaches-value none least h = absurd (cc h)
  reaches-value (some p) least h = (p, refl, ground arith, ground arith)

  floor_in-value :
      (pay : Pay) (o : Option ℕ) (least : ℕ)
      → reaches_int (floor_in f pay o) least ≡ true
      → (n : ℕ) × (o ≡ some n)
  floor_in-value Pay.usdg none least h = absurd (cc h)
  floor_in-value Pay.eth none least h = absurd (cc h)
  floor_in-value pay (some n) least h = (n, refl)

  pub can_submit-Ready :
      can_submit viem f ≡ true → (v : String) × (s : Stock) × (p : ℕ) × (n : ℕ) × Ready v s p n
  unfolding can_submit per_buy_ok funded_enough insufficient upfront_usdg_floor
  can_submit-Ready h =
      let (v, ve) = is_some-value f.vault (ground arith) in
      let (s, se) = is_some-value f.stock_obj (ground arith) in
      let (p, pe, pos_p, le) = reaches-value (per_buy_wei viem f) (min_per_buy f) (ground arith) in
      let enough : reaches_int (floor_in f f.pay (upfront_wei viem f)) (min_deposit f) ≡ true =
        ground arith in
      let (n, ne) = floor_in-value f.pay (upfront_wei viem f) (min_deposit f) enough in
      let held : exceeds (upfront_wei viem f) (wallet_bal f) ≡ false = ground arith in
      (
        v,
        s,
        p,
        n,
        record {
          vault = ve;
          stock = se;
          per_buy = pe;
          above = pos_p;
          least = le;
          upfront = ne;
          held = within n (rw ne at held);
          enough = rw ne at enough;
        },
      )
    where
      within : (n : ℕ) → ltb (wallet_bal f) n ≡ false → n ≤ wallet_bal f
      within n h = ground arith
