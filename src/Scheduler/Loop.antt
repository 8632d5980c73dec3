-- ===== src/Scheduler/Loop.antt =====
-- `tick`, `run` and the end of `nextDelay` in apps/scheduler/src/scheduler.ts.
use dca_protocol.Base.{
  ℕ, zero, suc, ◌-◌, not, Bool, true, false, ◌||◌, ◌&&◌, List, [], ◌∷◌, Option, none, some, ltb,
  leb, length, get_elem?, if◌then◌else◌,
}
use dca_protocol.Base.Int.{pos, ◌-ℤ◌, eqb_ℤ}
use dca_protocol.Base.Text.{template, decimal}
use dca_protocol.Scheduler.Types.{Job, Config, State, info, warn, error, debug}
use dca_protocol.Scheduler.Rpc.{Outcome, ok, raised, Rpc, Viem}
use dca_protocol.Scheduler.Monad.{
  Method, ◌>>=◌, ◌>>◌, await, pure, gets, modify, write_log, when, try_catch, match_option,
}
use dca_protocol.Scheduler.Texts.{fmt_dur}
use dca_protocol.Scheduler.Delay.{Soonest, soonest_boundary, delay_of}
use dca_protocol.Scheduler.Caches.{
  date_now, is_stopping, observe, read_clock, boundary_passed_since_block, vault_meta,
}
use dca_protocol.Scheduler.Jobs.{run_job, nudge}
use dca_protocol.Scheduler.Uncovered.{check_uncovered}

module _ {W : Type 0} where
  -- A boundary is announced once, and repeated for debugging only.
  unfoldable pub announce : ℕ → Soonest → Method W (Unit {0})
  announce now none = write_log debug "no active jobs; polling"
  announce now (some (soonest, kind)) = do
    last ← gets (λ s. s.announced_boundary)
    write_log (elim last [ none ↦ info | some b ↦ if eqb_ℤ b soonest then debug else info ])
        (template ("idle — next boundary: " ∷ kind ∷ " in " ∷ fmt_dur (soonest -ℤ pos now) ∷ []))
    modify (λ s. record s { announced_boundary = some soonest })

module _ {W : Type 0} (rpc : Rpc W) where
  unfoldable pub load_vaults : List Job → Method W (Unit {0})
  load_vaults [] = pure tt
  load_vaults (j ∷ js) = do when j.active (vault_meta rpc j.vault >> pure tt); load_vaults js

module _ {W : Type 0} (rpc : Rpc W) (cfg : Config) where
  unfoldable pub next_delay : List Job → Method W ℕ
  unfolding announce
  next_delay jobs = do
    now ← read_clock rpc
    vaults ← gets (λ s. s.vaults)
    announce now (soonest_boundary vaults now jobs [] none)
    pure (delay_of cfg now (soonest_boundary vaults now jobs [] none))

  -- The due jobs and the block's time, read again after a block was mined for that.
  unfoldable pub catch_up : List Job → List ℕ → ℕ → Method W (List ℕ)
  catch_up jobs [] block_ts = do
    behind ← boundary_passed_since_block rpc jobs block_ts
    mined ← if behind then nudge rpc cfg else pure false
    if mined
        then (do
          due ← await rpc.due_jobs
          later ← await rpc.block_timestamp
          observe rpc later
          pure due)
        else pure []
  catch_up jobs (index ∷ due) block_ts = pure (index ∷ due)

  unfoldable pub look_for_uncovered : List Job → Method W (Unit {0})
  look_for_uncovered jobs = do
    stop ← is_stopping rpc
    if ltb 0 cfg.uncovered_check_ms && not stop
        then (do
          now ← date_now rpc
          last ← gets (λ s. s.last_uncovered_check)
          when (leb cfg.uncovered_check_ms (now - last)) (do
            again ← date_now rpc
            modify (λ s. record s { last_uncovered_check = again })
            try_catch (check_uncovered rpc jobs)
                (λ e. write_log warn "uncovered-plan check failed")))
        else pure tt

module _ {W : Type 0} (rpc : Rpc W) (viem : Viem) (cfg : Config) where
  -- An index with no job is passed over.
  unfoldable pub run_index : List Job → ℕ → Method W (Unit {0})
  run_index jobs index =
      match_option (get_elem? jobs index) (pure tt) (λ job. run_job rpc viem cfg index job)

  -- The due jobs in order, until the process is asked to stop.
  unfoldable pub run_due : List Job → List ℕ → Method W (Unit {0})
  run_due jobs [] = pure tt
  run_due jobs (index ∷ due) = do
    stop ← is_stopping rpc
    if stop then pure tt else run_index jobs index >> run_due jobs due

  -- One pass: every due job is run to completion, and the result is how long to sleep.
  unfoldable pub tick : Method W ℕ
  tick = do
    jobs ← await rpc.jobs
    due ← await rpc.due_jobs
    block_ts ← await rpc.block_timestamp
    observe rpc block_ts
    load_vaults rpc jobs
    due' ← catch_up rpc cfg jobs due block_ts
    when (ltb 0 (length due'))
        (write_log info (template (decimal (length due') ∷ " job(s) due" ∷ [])))
    run_due jobs due'
    look_for_uncovered rpc cfg jobs
    next_delay rpc cfg jobs

  -- One round of the main loop: `none` when the loop ends, else how long to sleep. A pass that
  -- throws is logged, and tried again after a poll interval.
  unfoldable pub run_round : Method W (Option ℕ)
  run_round = do
    stop ← is_stopping rpc
    if stop then pure none else (do
      delay ← try_catch tick (λ e. write_log error "tick failed" >> pure cfg.poll_interval_ms)
      stop' ← is_stopping rpc
      pure (if cfg.once || stop' then none else some delay))

  -- After a round the loop ends, or sleeps and goes `again` through the loop.
  unfoldable pub after_round :
      (State → W → Bool × State × W) → Outcome (Option ℕ) → State → W → Bool × State × W
  after_round again (ok none) s w = (true, (write_log info "scheduler stopped" s w).1, w)
  after_round again (ok (some delay)) s w = again s (rpc.sleep delay w)
  after_round again (raised e) s w = (true, s, w)

  -- The main loop, for a number of rounds at most, and whether it has ended by then.
  unfoldable pub run : ℕ → State → W → Bool × State × W
  run zero s w = (false, s, w)
  run (suc rounds) s w = let (r, s', w') = run_round s w in after_round (run rounds) r s' w'
