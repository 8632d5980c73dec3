-- ===== src/Scheduler/Jobs.antt =====
-- `runJob` and `nudge` of apps/scheduler/src/scheduler.ts: the only places that send transactions.
use dca_protocol.Base.{
  ℕ, zero, suc, ◌+◌, Bool, true, false, ◌||◌, not, [], ◌∷◌, String, ltb, length, is_some,
  if◌then◌else◌,
}
use dca_protocol.Base.Text.{template, decimal}
use dca_protocol.Scheduler.Types.{Job, Config, info, warn, error, debug}
use dca_protocol.Scheduler.Rpc.{Rpc, Viem}
use dca_protocol.Scheduler.Monad.{
  Method, ◌>>=◌, ◌>>◌, await, pure, gets, write_log, when, try_catch,
}
use dca_protocol.Scheduler.Receipts.{Summary, summarize}
use dca_protocol.Scheduler.Caches.{label}

module _ {W : Type 0} where
  unfoldable pub report_page : String → ℕ → Summary → Method W (Unit {0})
  report_page name page s = do
    write_log info (
        if s.completed
        then template (name ∷ ": epoch complete" ∷ [])
        else template (name ∷ ": page " ∷ decimal page ∷ " done, more plans pending" ∷ []))
    when (ltb 0 (length s.too_large)) (
        write_log warn (
          template
            (name ∷ ": plans above the page notional cap sat this epoch out — not charged" ∷ [])))
    when (ltb 0 (length s.boost_failed)) (
        write_log warn (
          template (
            name
            ∷ ": boosted plans sat this page out — the boost strategy could not pay (illiquid Morpho market?)"
            ∷ [])))

module _ (cfg : Config) where
  -- The wallet exists exactly when a private key is configured.
  abbrev pub has_wallet : Bool
  has_wallet = is_some cfg.private_key

  -- Whether this process may send anything.
  abbrev pub may_send : Bool
  may_send = if cfg.dry_run then false else has_wallet

module _ {W : Type 0} (rpc : Rpc W) (cfg : Config) where
  -- A transfer of nothing to oneself, so that the chain mines a block.
  unfoldable pub nudge : Method W Bool
  nudge =
      if not (has_wallet cfg) || cfg.dry_run
      then write_log warn
          "chain has not mined a block since the last epoch boundary; dueJobs() is stale (no wallet to nudge it)"
        >> pure false
      else write_log info
          "chain idle across an epoch boundary — mining a block with a 0-value self-transfer"
        >> try_catch
            (do hash ← await rpc.send_to_self; _ ← await (rpc.wait_receipt hash); pure true)
            (λ e. write_log warn "nudge failed" >> pure false)

module _ {W : Type 0} (rpc : Rpc W) (viem : Viem) (cfg : Config) where
  -- One page of a job after its simulation passed: whether the loop goes on to the next page.
  unfoldable pub send_page : ℕ → Job → String → ℕ → Method W Bool
  send_page index job name page = do
    hash ← await (rpc.write_run index cfg.page_limit)
    write_log debug (template (name ∷ ": sent" ∷ []))
    receipt ← await (rpc.wait_receipt hash)
    decimals ← gets (λ s. s.usdg_decimals)
    if receipt.success
        then report_page name page (summarize viem decimals receipt job)
          >> pure (not (summarize viem decimals receipt job).completed)
        else write_log error (template (name ∷ ": transaction reverted" ∷ [])) >> pure false

  -- One round of the loop.
  unfoldable pub run_page : ℕ → Job → String → ℕ → Method W Bool
  run_page index job name page =
      try_catch (await (rpc.simulate_run index cfg.page_limit) >>= λ _. pure true)
        (λ e. write_log warn (template (name ∷ ": skipped" ∷ [])) >> pure false)
      >>= λ passed.
          if passed
          then (if cfg.dry_run || not (has_wallet cfg)
              then write_log info (template (name ∷ ": would run (dry-run)" ∷ [])) >> pure false
              else send_page index job name page)
          else pure false

  -- `rounds` pages are left, and `page` is the number of the next.
  unfoldable pub run_pages : ℕ → ℕ → Job → String → ℕ → Method W (Unit {0})
  run_pages zero index job name page = write_log warn (
      template (
        name
        ∷ ": reached MAX_PAGES_PER_JOB="
        ∷ decimal cfg.max_pages_per_job
        ∷ "; continuing next tick"
        ∷ []))
  run_pages (suc rounds) index job name page = do
    more ← run_page index job name page
    if more then run_pages rounds index job name (page + 1) else pure tt

  unfoldable pub run_job : ℕ → Job → Method W (Unit {0})
  run_job index job = do
    name ← label rpc job.vault job.stock
    run_pages cfg.max_pages_per_job index job name 1
