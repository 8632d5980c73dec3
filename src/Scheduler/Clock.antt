-- ===== src/Scheduler/Clock.antt =====
-- That the estimate of the chain's time and the test for an idle chain are right.
use dca_protocol.Base.{
  ℕ, ◌+◌, ◌-◌, ◌/◌, ◌≤◌, ◌<◌, true, List, [], ◌∷◌, Option, none, some, ◌≡◌, ◌⊎◌, inl, inr, ◌↔◌,
  arith, Bool-cases, Option-cases, All,
}
use dca_protocol.Base.Int.{pos, ◌≤ℤ◌, ltb_ℤ, ◌+ℤ◌, floor_div}
use dca_protocol.Base.Text.{to_lower}
use dca_protocol.Base.Dict.{Dict, lookup}
use dca_protocol.Scheduler.Epoch.{VaultMeta, epoch_at, next_boundary, boundary_reached}
use dca_protocol.Scheduler.Types.{Job, Seen}
use dca_protocol.Scheduler.Time.{observe_block, chain_now, boundary_passed}

module _ (vaults : Dict VaultMeta) (now block_ts : ℕ) where
  -- Some active job's vault has reached a boundary that lies behind the block.
  abbrev pub Behind : List Job → Type 0
  Behind [] = ⊥
  Behind (j ∷ js) =
      ((j.active ≡ true)
        × (m : VaultMeta) × (lookup (to_lower j.vault) vaults ≡ some m)
        × (next_boundary m block_ts ≤ℤ pos now))
      ⊎ Behind js

  -- The known data of every active job's vault has an epoch of some length.
  abbrev pub HasLength : Job → Type 0
  HasLength j = (m : VaultMeta) → lookup (to_lower j.vault) vaults ≡ some m → 0 < m.epoch_length

  passed-Behind :
      (jobs : List Job)
      → All HasLength jobs
      → boundary_passed vaults now block_ts jobs ≡ true
      → Behind jobs
  unfolding boundary_passed
  passed-Behind [] v h = cc
  passed-Behind (j ∷ js) v h = elim (Bool-cases j.active) [
    | inr off ↦ inr (passed-Behind js v.1 (ground arith))
    | inl on ↦ elim (Option-cases (lookup (to_lower j.vault) vaults)) [
      | inl e ↦ inr (passed-Behind js v.1 (ground arith))
      | inr (m, e) ↦ elim (Bool-cases (ltb_ℤ (epoch_at m block_ts) (epoch_at m now))) [
        | inl later ↦ inl (on, m, e, (boundary_reached m (v.0 m e) block_ts now).0 (ground arith))
        | inr same ↦ inr (passed-Behind js v.1 (ground arith))
      ]
    ]
  ]

  Behind-passed :
      (jobs : List Job)
      → All HasLength jobs
      → Behind jobs
      → boundary_passed vaults now block_ts jobs ≡ true
  unfolding boundary_passed
  Behind-passed [] v b = absurd b
  Behind-passed (j ∷ js) v (inl (on, m, e, reached)) =
      ground (arith, (boundary_reached m (v.0 m e) block_ts now).1 reached)
  Behind-passed (j ∷ js) v (inr b) = ground (arith, Behind-passed js v.1 b)

  -- The test for an idle chain passes exactly when some active job's vault, whose data is known, has
  -- reached a boundary that the chain's last block lies before. The epochs have a positive length.
  pub boundary_passed_iff :
      (jobs : List Job)
      → All HasLength jobs
      → (boundary_passed vaults now block_ts jobs ≡ true) ↔ Behind jobs
  boundary_passed_iff jobs v = (passed-Behind jobs v, Behind-passed jobs v)

-- Once a block was seen, and if the clock has not been set back since, nor goes on between its two readings, the estimate
-- is not behind the wall clock nor behind the block, and is either the clock in whole seconds or the block's time and
-- the whole seconds since.
pub chain_now_bounds :
    (seen : Seen) (now : ℕ)
    → seen.seen_at_ms ≤ now
    → (now / 1000 ≤ chain_now (some seen) now now)
      × (seen.ts ≤ chain_now (some seen) now now)
      × ((chain_now (some seen) now now ≡ now / 1000)
          ⊎ (chain_now (some seen) now now ≡ seen.ts + (now - seen.seen_at_ms) / 1000))
unfolding chain_now ◌+ℤ◌ floor_div
chain_now_bounds seen now h = ground arith

-- Observing a block: it is the one seen afterwards, and a block seen before keeps its first time.
pub observe_block_lem :
    (ts t1 t2 : ℕ) (before : Option Seen)
    → observe_block ts t2 (observe_block ts t1 before) ≡ observe_block ts t1 before
unfolding observe_block
observe_block_lem ts t1 t2 none = ground arith
observe_block_lem ts t1 t2 (some seen) = ground arith
