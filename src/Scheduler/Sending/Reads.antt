-- ===== src/Scheduler/Sending/Reads.antt =====
-- The methods that only read send nothing.
use dca_protocol.Base.{ℕ, zero, suc, List, [], ◌∷◌, String, none, some, arith}
use dca_protocol.Base.Dict.{Dict}
use dca_protocol.Scheduler.Types.{Job, Config, Uncovered}
use dca_protocol.Scheduler.Rpc.{Rpc}
use dca_protocol.Scheduler.Caches.{
  date_now, is_stopping, observe, read_clock, boundary_passed_since_block, vault_meta, stock_meta,
  label,
}
use dca_protocol.Scheduler.Uncovered.{
  Pair, collect_pairs, count_all, count_batches, report_pairs, report_gone, check_uncovered,
}
use dca_protocol.Scheduler.Delay.{Soonest}
use dca_protocol.Scheduler.Loop.{announce, next_delay, load_vaults, look_for_uncovered}
use dca_protocol.Scheduler.Sending.{
  Sends, Counts, quiet_rules, Sends-quiet-bind, Sends-await, Sends-pure,
}

module _ {W : Type 0} {sent : W → ℕ} (rpc : Rpc W) (c : Counts sent rpc) where
  pub Sends-date_now : Sends sent 0 (date_now rpc)
  unfolding date_now
  Sends-date_now = record {
    grows = λ s w. omega (arith, c.date_now w);
    bound = λ s w. omega (arith, c.date_now w);
  }

  pub Sends-is_stopping : Sends sent 0 (is_stopping rpc)
  unfolding is_stopping
  Sends-is_stopping = record { grows = λ s w. omega arith; bound = λ s w. omega arith }

  pub Sends-observe : (ts : ℕ) → Sends sent 0 (observe rpc ts)
  unfolding observe
  Sends-observe ts = search (quiet_rules, Sends-date_now)

  pub Sends-read_clock : Sends sent 0 (read_clock rpc)
  unfolding read_clock
  Sends-read_clock = search (quiet_rules, Sends-date_now) depth 8

  pub Sends-boundary_passed :
      (jobs : List Job) (ts : ℕ) → Sends sent 0 (boundary_passed_since_block rpc jobs ts)
  unfolding boundary_passed_since_block
  Sends-boundary_passed jobs ts = search (quiet_rules, Sends-read_clock) depth 8

  pub Sends-vault_meta : (v : String) → Sends sent 0 (vault_meta rpc v)
  unfolding vault_meta
  Sends-vault_meta v = search (quiet_rules, c.origin, c.epoch_length, c.vault_kind) depth 12

  pub Sends-stock_meta : (v t : String) → Sends sent 0 (stock_meta rpc v t)
  unfolding stock_meta
  Sends-stock_meta v t =
      search (quiet_rules, c.registry, c.stock_symbol, c.token_decimals, c.token_symbol) depth 14

  pub Sends-label : (v t : String) → Sends sent 0 (label rpc v t)
  unfolding label
  Sends-label v t = search (quiet_rules, Sends-vault_meta, Sends-stock_meta) depth 8

  Sends-collect_pairs :
      (covered vaults : List String) (cache : Dict (List String))
      → Sends sent 0 (collect_pairs rpc covered vaults cache)
  unfolding collect_pairs
  Sends-collect_pairs covered [] cache = search quiet_rules
  Sends-collect_pairs covered (v ∷ vs) cache =
      search (quiet_rules, c.registry, c.approved_stocks, Sends-collect_pairs covered vs) depth 12

  Sends-count_all : (pairs : List Pair) → Sends sent 0 (count_all rpc pairs)
  unfolding count_all
  Sends-count_all [] = search quiet_rules
  Sends-count_all (p ∷ ps) =
      Sends-quiet-bind 0 _ _ (Sends-await 0 _ (c.stock_plan_count p.vault p.stock))
        λ n. Sends-quiet-bind 0 _ _ (Sends-count_all ps) λ ns. Sends-pure (n ∷ ns)

  Sends-count_batches :
      (rounds : ℕ) (pairs : List Pair) → Sends sent 0 (count_batches rpc rounds pairs)
  unfolding count_batches
  Sends-count_batches zero pairs = search quiet_rules
  Sends-count_batches (suc rounds) [] = search quiet_rules
  Sends-count_batches (suc rounds) (p ∷ ps) =
      search (quiet_rules, Sends-count_all, Sends-count_batches rounds) depth 8

  Sends-report_pairs :
      (pairs : List Pair) (counts : List ℕ) (found : Dict Uncovered)
      → Sends sent 0 (report_pairs rpc pairs counts found)
  unfolding report_pairs
  Sends-report_pairs [] counts found = search quiet_rules
  Sends-report_pairs (p ∷ ps) [] found = search quiet_rules
  Sends-report_pairs (p ∷ ps) (n ∷ counts) found =
      search (quiet_rules, Sends-label, Sends-report_pairs ps counts) depth 12

  Sends-report_gone :
      (found before : Dict Uncovered) → Sends sent 0 (report_gone {W = W} found before)
  unfolding report_gone
  Sends-report_gone found [] = search quiet_rules
  Sends-report_gone found ((k, u) ∷ before) =
      Sends-quiet-bind 0 _ _ (search quiet_rules) (λ _. Sends-report_gone found before)

  pub Sends-check_uncovered : (jobs : List Job) → Sends sent 0 (check_uncovered rpc jobs)
  unfolding check_uncovered
  Sends-check_uncovered jobs =
      search
        (
          quiet_rules, Sends-collect_pairs, Sends-count_batches, Sends-report_pairs,
          Sends-report_gone,
        )
        depth 12

  pub Sends-load_vaults : (jobs : List Job) → Sends sent 0 (load_vaults rpc jobs)
  unfolding load_vaults
  Sends-load_vaults [] = search quiet_rules
  Sends-load_vaults (j ∷ js) =
      Sends-quiet-bind 0 _ _ (search (quiet_rules, Sends-vault_meta)) (λ _. Sends-load_vaults js)

  Sends-announce : (now : ℕ) (best : Soonest) → Sends sent 0 (announce {W = W} now best)
  unfolding announce
  Sends-announce now none = search quiet_rules
  Sends-announce now (some (b, kind)) = search quiet_rules depth 8

  pub Sends-next_delay : (cfg : Config) (jobs : List Job) → Sends sent 0 (next_delay rpc cfg jobs)
  unfolding next_delay
  Sends-next_delay cfg jobs = search (quiet_rules, Sends-read_clock, Sends-announce) depth 10

  pub Sends-look_for_uncovered :
      (cfg : Config) (jobs : List Job) → Sends sent 0 (look_for_uncovered rpc cfg jobs)
  unfolding look_for_uncovered
  Sends-look_for_uncovered cfg jobs =
      search (quiet_rules, Sends-is_stopping, Sends-date_now, Sends-check_uncovered) depth 14
