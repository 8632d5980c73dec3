-- ===== src/Plan/Remove/Runs.antt =====
-- The calls of `buildRemoveOrder` and `buildCloseOrder` of apps/web/src/lib/removeSteps.ts, run against the
-- abstract vault.
use dca_protocol.Base.{
  ℕ, ◌+◌, Bool, false, List, Option, none, some, ◌≡◌, refl, arith, map, ◌==◌, ==_iff, Bool-cases,
  inl, inr,
}
use dca_protocol.Plan.Steps.{TxStep}
use dca_protocol.Plan.Remove.Types.{FreshPlan, RemoveInput, usdg_out}
use dca_protocol.Plan.Remove.Sequence.{Leg}
use dca_protocol.Plan.Remove.Vault.{Held, unboosted, set_boost, Site, Lent}

sends_of : List Leg → List TxStep
sends_of legs = map (λ (l : Leg). l.sends) legs

abbrev pub held : FreshPlan → Bool → Held
held p l = record { plan = p; listed = l }

-- The plan after each of the three legs.
abbrev emptied : FreshPlan → FreshPlan
emptied p = record (unboosted p) { usdg_idle = 0 }

abbrev pub cleared : FreshPlan → FreshPlan
cleared p = record (emptied p) { stock_accrued = 0 }

-- The vault of a remove order, whatever its strategy does.
abbrev pub site : RemoveInput → Bool → (ℕ → Option Lent) → Site
site i open_now lend' = record {
  vault = i.vault;
  plan_id = i.plan_id;
  pending = i.epoch_pending;
  boost_open = open_now;
  lend = lend';
}

-- Without shares there is nothing to bring back.
pub set_boost-off :
    (s : Site) (p : FreshPlan)
    → (p.boost_shares ≡ 0 → p.boost_value ≡ 0)
    → set_boost s p false ≡ some (unboosted p)
unfolding set_boost usdg_out
set_boost-off s p worth = elim (Bool-cases (p.boost_shares == 0)) [
  | inl none_held ↦
      let shares : p.boost_shares ≡ 0 = (==_iff p.boost_shares 0).0 none_held in
      let idle : p.usdg_idle ≡ p.usdg_idle + p.boost_value = omega (arith, worth shares) in
      rw none_held (cc (shares, worth shares, idle))
  | inr some_held ↦ rw some_held refl
]

-- An empty plan may still be marked as boosted, which the one call does not spend a signature on.
unfoldable pub unmarked : Option Held → Option Held
unmarked none = none
unmarked (some h) = some (record h { plan = record h.plan { boosted = false } })
