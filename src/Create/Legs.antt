-- ===== src/Create/Legs.antt =====
-- The funding legs of `createPlan` for what the create form of
-- apps/web/src/components/app/create/useCreatePlan.ts sends.
use dca_protocol.Base.{
  ℕ, ◌+◌, ◌-◌, ◌≤◌, ◌<◌, ◌^◌, Bool, true, false, ◌∷◌, Option, none, some, String, or_else, ◌≡◌,
  refl, arith,
}
use dca_protocol.Base.Int.{ℤ, pos, negsuc}
use dca_protocol.Plan.Format.{fee_of}
use dca_protocol.Plan.Orders.Kinds.{Pay}
use dca_protocol.Create.Types.{Stock, Directory}
use dca_protocol.Create.Form.{
  Viem, FormView, net_of, at_worst, reaches_int, floor_in, floor_of_quote, quote_in, quoted,
  balance_in, min_deposit, min_per_buy, per_buy_wei, deposit_fee_bps,
}
use dca_protocol.Create.Submit.{usdg_part, eth_part, least_out}
use dca_protocol.Create.Vault.{
  Terms, Purse, usdg_leg, least_asked, eth_leg, after_create, opened, credit_both, recipient_of,
}

usdg_leg-credits :
    (t : Terms) (w : Purse) (n least : ℕ)
    → reaches_int (some (net_of n t.deposit_fee_bps)) least ≡ true
    → 0 < least
    → n ≤ w.usdg
    → n ≤ w.allowance
    → (usdg_leg t w n ≡ some (n - fee_of n t.deposit_fee_bps))
      × (least ≤ n - fee_of n t.deposit_fee_bps)
unfolding usdg_leg
usdg_leg-credits t w n least h p bal all = ground arith

eth_leg-credits :
    (t : Terms) (w : Purse) (n m : ℕ)
    → 0 < n
    → 0 < m
    → n ≤ w.eth
    → m ≤ t.router_swap (n - fee_of n t.deposit_fee_bps)
    → eth_leg t w n m ≡ some (t.router_swap (n - fee_of n t.deposit_fee_bps))
unfolding eth_leg least_asked
eth_leg-credits t w n m p q bal le = ground arith

pub after_create-opens :
    (t : Terms) (w : Purse) (s who : String) (per u m v a b : ℕ) (boost : Bool)
    → t.paused ≡ false
    → t.purchasable s ≡ true
    → per < 2 ^ 96
    → t.min_amount_per_epoch ≤ per
    → usdg_leg t w u ≡ some a
    → eth_leg t w v m ≡ some b
    → t.min_deposit ≤ a + b
    → after_create t w s per who u 0 m boost v
      ≡ some (record w {
        usdg = w.usdg - u;
        eth = w.eth - v;
        allowance = w.allowance - u;
        plans =
            record {
              owner = w.owner;
              recipient = recipient_of w who;
              stock = s;
              amount_per_epoch = per;
              credited = a + b;
              boosted = boost;
            }
            ∷ w.plans;
      })
unfolding after_create opened credit_both
after_create-opens t w s who per u m v a b boost open_now bought fits least left right enough =
    rw (left, right, open_now, bought) (ground arith)

module _ (viem : Viem) (f : FormView) (t : Terms) where
  -- The vault and the router are as the form has read them, and not stricter since.
  pub record TermsRead : Type 0 where
    pub vault : f.vault ≡ some t.vault
    pub usdg_token : (d : Directory) → f.dir ≡ some d → d.usdg ≡ t.usdg_token
    pub open_now : t.paused ≡ false
    pub min_amount : t.min_amount_per_epoch ≤ min_per_buy f
    pub least : t.min_deposit ≤ min_deposit f
    pub some_least : 0 < min_deposit f
    pub fee : deposit_fee_bps f ≡ t.deposit_fee_bps
    pub market :
        (d : Directory) (n q : ℕ)
        → f.dir ≡ some d
        → f.quote d.weth d.usdg n ≡ some q
        → at_worst q ≤ t.router_swap n
    pub bought : (s : Stock) → f.stock_obj ≡ some s → t.purchasable s.address ≡ true
    pub fits : (p : ℕ) → per_buy_wei viem f ≡ some p → p < 2 ^ 96

  quoted-value :
      (dir : Option Directory) (net : ℤ) (q : ℕ)
      → quoted f dir net ≡ some q
      → (d : Directory) × (k : ℕ) × (dir ≡ some d)
        × (net ≡ pos k)
        × (0 < k)
        × (f.quote d.weth d.usdg k ≡ some q)
  quoted-value none net q h = absurd (cc h)
  quoted-value (some d) (negsuc n) q h = absurd (cc h)
  quoted-value (some d) (pos k) q h = (d, k, refl, refl, ground arith, ground arith)

  net_of-pos : (n bps k : ℕ) → net_of n bps ≡ pos k → 0 < k → (k ≡ n - fee_of n bps) × (0 < n)
  net_of-pos n bps k h p = ground arith

  eth-credit :
      (w : Purse) (n q k : ℕ)
      → TermsRead
      → or_else f.eth 0 ≤ w.eth
      → n ≤ or_else f.eth 0
      → k ≡ n - fee_of n (deposit_fee_bps f)
      → 0 < n
      → min_deposit f ≤ at_worst q
      → at_worst q ≤ t.router_swap k
      → (eth_leg t w n (at_worst q) ≡ some (t.router_swap k)) × (t.min_deposit ≤ t.router_swap k)
  eth-credit w n q k r eth held kn above reached market =
      let same : k ≡ n - fee_of n t.deposit_fee_bps = rw r.fee at kn in
      let leg =
        eth_leg-credits t w n (at_worst q) above (omega (arith, r.some_least)) (omega arith)
          (rw same at market) in
      (rw same leg, omega (arith, r.least))

  floor-value :
      (o : Option ℕ) (least : ℕ)
      → reaches_int (floor_of_quote o) least ≡ true
      → (q : ℕ) × (o ≡ some q) × (least ≤ at_worst q)
  floor-value none least h = absurd (cc h)
  floor-value (some q) least h = (q, refl, ground arith)

  -- Either currency credits the vault's least deposit.
  pub legs-credit :
      (pay : Pay) (w : Purse) (n : ℕ)
      → TermsRead
      → or_else f.usdg 0 ≤ w.usdg
      → or_else f.eth 0 ≤ w.eth
      → n ≤ balance_in pay f
      → usdg_part pay n ≤ w.allowance
      → reaches_int (floor_in f pay (some n)) (min_deposit f) ≡ true
      → (a : ℕ) × (b : ℕ) × (usdg_leg t w (usdg_part pay n) ≡ some a)
        × (eth_leg t w (eth_part pay n) (least_out pay (quote_in f pay (some n))) ≡ some b)
        × (t.min_deposit ≤ a + b)
  legs-credit Pay.usdg w n r usdg eth held allowed enough =
      let (left, reached) =
        usdg_leg-credits t w n (min_deposit f) (rw r.fee at enough) r.some_least (omega arith)
          allowed in
      (_, 0, left, unfold eth_leg in refl, omega (arith, r.least))
  legs-credit Pay.eth w n r usdg eth held allowed enough =
      let (q, told, reached) = floor-value (quote_in f Pay.eth (some n)) (min_deposit f) enough in
      let (d, k, de, ke, above, qe) = quoted-value f.dir _ q told in
      let (kn, pos_n) = net_of-pos n (deposit_fee_bps f) k ke above in
      let market = r.market d k q de qe in
      let (right, reached_too) = eth-credit w n q k r eth held kn pos_n reached market in
      (0, t.router_swap k, unfold usdg_leg in refl, rw told right, omega (arith, reached_too))
