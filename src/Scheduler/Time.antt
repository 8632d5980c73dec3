-- ===== src/Scheduler/Time.antt =====
-- The chain's clock in apps/scheduler/src/scheduler.ts: `observeBlock`, `chainNow` and
-- `boundaryPassedSinceBlock`.
use dca_protocol.Base.{
  ℕ, ◌/◌, max, Bool, true, false, List, [], ◌∷◌, Option, none, some, ◌==◌, if◌then◌else◌,
}
use dca_protocol.Base.Int.{pos, pos_part, sub_ℕ, ◌+ℤ◌, floor_div, ltb_ℤ}
use dca_protocol.Base.Text.{to_lower}
use dca_protocol.Base.Dict.{Dict, lookup}
use dca_protocol.Scheduler.Epoch.{VaultMeta, epoch_at}
use dca_protocol.Scheduler.Types.{Job, Seen}

-- The block's timestamp with the wall clock at which it was first seen; a block seen before keeps it.
unfoldable pub observe_block : ℕ → ℕ → Option Seen → Option Seen
observe_block ts now none = some (record { ts = ts; seen_at_ms = now })
observe_block ts now (some seen) =
    if seen.ts == ts then some seen else some (record { ts = ts; seen_at_ms = now })

-- `chainNow`, whose two readings of the clock are `wall_ms` and `now_ms`. The maximum with the wall
-- clock, which is no negative number, hides a negative extrapolation.
unfoldable pub chain_now : Option Seen → ℕ → ℕ → ℕ
chain_now none wall_ms now_ms = wall_ms / 1000
chain_now (some seen) wall_ms now_ms =
    max (wall_ms / 1000) (pos_part (pos seen.ts +ℤ floor_div (sub_ℕ now_ms seen.seen_at_ms) 1000))

-- Whether some active job's vault is in a later epoch at `now` than at the block's time.
unfoldable pub boundary_passed : Dict VaultMeta → ℕ → ℕ → List Job → Bool
boundary_passed vaults now block_ts [] = false
boundary_passed vaults now block_ts (j ∷ js) =
    let rest = boundary_passed vaults now block_ts js in
    if j.active
    then elim (lookup (to_lower j.vault) vaults) [
      | none ↦ rest
      | some m ↦ if ltb_ℤ (epoch_at m block_ts) (epoch_at m now) then true else rest
    ]
    else rest
