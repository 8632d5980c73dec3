-- ===== src/Scheduler/Delay.antt =====
-- `nextDelay` of apps/scheduler/src/scheduler.ts: how long to sleep until the next boundary.
use dca_protocol.Base.{
  ℕ, min, max, List, [], ◌∷◌, ◌||◌, not, Option, none, some, if◌then◌else◌, String,
}
use dca_protocol.Base.Int.{ℤ, pos, pos_part, ◌+ℤ◌, ◌-ℤ◌, scale, ltb_ℤ}
use dca_protocol.Base.Text.{to_lower}
use dca_protocol.Base.Dict.{Dict, lookup, insert, has}
use dca_protocol.Scheduler.Epoch.{VaultMeta, next_boundary}
use dca_protocol.Scheduler.Types.{Job, Config}

-- The soonest boundary so far and its vault's kind; `none` is the infinity that the loop starts from.
abbrev pub Soonest : Type 0
Soonest = Option (ℤ × String)

abbrev pub sooner : VaultMeta → ℕ → Soonest → Soonest
sooner m now none = some (next_boundary m now, m.kind)
sooner m now (some (soonest, kind)) =
    if ltb_ℤ (next_boundary m now) soonest
    then some (next_boundary m now, m.kind)
    else some (soonest, kind)

-- The loop over the jobs. `seen` holds the vaults met so far, as a set.
unfoldable pub soonest_boundary :
    Dict VaultMeta → ℕ → List Job → Dict (Unit {0}) → Soonest → Soonest
soonest_boundary vaults now [] seen best = best
soonest_boundary vaults now (j ∷ js) seen best =
    let key = to_lower j.vault in
    let skipped = soonest_boundary vaults now js seen best in
    let missing = soonest_boundary vaults now js (insert key tt seen) best in
    let found =
      λ (m : VaultMeta). soonest_boundary vaults now js (insert key tt seen) (sooner m now best) in
    if not j.active || has key seen
    then skipped
    else elim (lookup key vaults) [ none ↦ missing | some m ↦ found m ]

-- The sleep until a boundary: its grace period behind it, a second at least, a poll interval at most.
unfoldable pub delay_until : Config → ℕ → ℤ → ℕ
delay_until cfg now soonest =
    min cfg.poll_interval_ms
      (max 1000 (pos_part (scale (soonest -ℤ pos now) 1000 +ℤ pos cfg.boundary_grace_ms)))

unfoldable pub delay_of : Config → ℕ → Soonest → ℕ
unfolding delay_until
delay_of cfg now none = cfg.poll_interval_ms
delay_of cfg now (some (soonest, kind)) = delay_until cfg now soonest
