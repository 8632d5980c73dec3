-- ===== src/Scheduler/Epoch.antt =====
-- Epoch arithmetic of apps/scheduler/src/scheduler.ts: `VaultMeta`, `epochAt`, `nextBoundary`.
-- A time may lie before a vault's origin, so epochs and boundaries are integers.
use dca_protocol.Base.{ℕ, ◌≤◌, ◌<◌, ◌≡◌, ap, ◌↔◌, inl, inr, String, arith}
use dca_protocol.Base.Int.{
  ℤ, pos, pos_part, neg_part, sub_ℕ, ◌+ℤ◌, ◌≤ℤ◌, ◌<ℤ◌, scale, floor_div, int_laws, floor_div_bounds,
  scale_up, scale_up_mono, scale_mono, ≤ℤ_or_<ℤ, floor_div_mono,
}

-- Per-vault immutables and the display name, read once.
pub record VaultMeta : Type 0 where
  pub address : String
  pub kind : String
  pub origin : ℕ
  pub epoch_length : ℕ

unfoldable pub epoch_at : VaultMeta → ℕ → ℤ
epoch_at m t = floor_div (sub_ℕ t m.origin) m.epoch_length

unfoldable pub next_boundary : VaultMeta → ℕ → ℤ
unfolding epoch_at
next_boundary m t = pos m.origin +ℤ scale (epoch_at m t +ℤ pos 1) m.epoch_length

module _ (m : VaultMeta) (valid : 0 < m.epoch_length) where
  epoch_at_bounds :
      (t : ℕ)
      → (pos m.origin +ℤ scale (epoch_at m t) m.epoch_length ≤ℤ pos t)
        × (pos t <ℤ pos m.origin +ℤ scale (epoch_at m t) m.epoch_length +ℤ pos m.epoch_length)
  unfolding epoch_at
  epoch_at_bounds t = grind (int_laws, floor_div_bounds (sub_ℕ t m.origin) m.epoch_length valid)

  next_boundary-eq :
      (t : ℕ)
      → next_boundary m t
        ≡ pos m.origin +ℤ scale (epoch_at m t) m.epoch_length +ℤ pos m.epoch_length
  unfolding next_boundary
  next_boundary-eq t = rw (scale_up (epoch_at m t) m.epoch_length) (omega int_laws)

  -- The next boundary lies behind a time, by one epoch at most.
  pub next_boundary_lem :
      (t : ℕ) → (pos t <ℤ next_boundary m t) × (next_boundary m t ≤ℤ pos t +ℤ pos m.epoch_length)
  next_boundary_lem t = rw (next_boundary-eq t) (omega (int_laws, epoch_at_bounds t))

  -- Time runs through the epochs in order.
  pub epoch_at_mono : (t u : ℕ) → t ≤ u → epoch_at m t ≤ℤ epoch_at m u
  unfolding epoch_at
  epoch_at_mono t u h =
      floor_div_mono (sub_ℕ t m.origin) (sub_ℕ u m.origin) m.epoch_length valid (ground arith)

  -- A time has reached the boundary after `t` exactly when it lies in a later epoch than `t`.
  pub boundary_reached : (t u : ℕ) → (epoch_at m t <ℤ epoch_at m u) ↔ (next_boundary m t ≤ℤ pos u)
  boundary_reached t u = (later, reached)
    where
      later : epoch_at m t <ℤ epoch_at m u → next_boundary m t ≤ℤ pos u
      later h = omega (
        int_laws,
        ap pos_part (next_boundary-eq t),
        ap neg_part (next_boundary-eq t),
        epoch_at_bounds u,
        scale_up_mono (epoch_at m t) (epoch_at m u) m.epoch_length h,
      )

      reached : next_boundary m t ≤ℤ pos u → epoch_at m t <ℤ epoch_at m u
      reached h = elim (≤ℤ_or_<ℤ (epoch_at m u) (epoch_at m t)) [
        | inr lt ↦ lt
        | inl le ↦ absurd (
            omega (
              int_laws,
              ap pos_part (next_boundary-eq t),
              ap neg_part (next_boundary-eq t),
              epoch_at_bounds u,
              scale_mono (epoch_at m u) (epoch_at m t) m.epoch_length le,
            ))
      ]
