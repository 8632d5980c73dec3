-- ===== src/Scheduler/Sending/Senders.antt =====
-- What the sending methods send: a job at most its page limit, and a dry run nothing at all.
use dca_protocol.Base.{
  ℕ, zero, suc, ◌+◌, ◌*◌, ◌≤◌, Bool, true, false, List, [], ◌∷◌, String, ◌≡◌, refl, ◌∙◌, arith,
  length, get_elem?, if◌then◌else◌, ◌||◌, not, Option, none, some,
}
use dca_protocol.Scheduler.Types.{Job, Config, State}
use dca_protocol.Scheduler.Rpc.{Outcome, Rpc, Viem, ok, raised}
use dca_protocol.Scheduler.Monad.{Method, await, pure}
use dca_protocol.Scheduler.Receipts.{Summary}
use dca_protocol.Scheduler.Jobs.{
  has_wallet, may_send, report_page, send_page, run_page, run_pages, run_job, nudge,
}
use dca_protocol.Scheduler.Loop.{run_index, run_due, catch_up, tick, run_round, after_round, run}
use dca_protocol.Scheduler.Sending.{
  Sends, Counts, quiet_rules, Sends-quiet-bind, Sends-bind-quiet, Sends-bind, Sends-await,
  Sends-pure, Sends-if, Sends-le, Sends-catch-quiet, Sends-match_option,
}
use dca_protocol.Scheduler.Sending.Reads.{
  Sends-label, Sends-is_stopping, Sends-observe, Sends-boundary_passed, Sends-load_vaults,
  Sends-next_delay, Sends-look_for_uncovered,
}

module _ {W : Type 0} {sent : W → ℕ} where
  Sends-report_page :
      (name : String) (page : ℕ) (s : Summary) → Sends sent 0 (report_page {W = W} name page s)
  unfolding report_page
  Sends-report_page name page s = search quiet_rules depth 8

-- The tests of `runJob` and of `nudge` both let through exactly the processes that may send.
real_page : (cfg : Config) → (cfg.dry_run || not (has_wallet cfg)) ≡ false → may_send cfg ≡ true
real_page cfg h = ground arith

real_nudge : (cfg : Config) → (not (has_wallet cfg) || cfg.dry_run) ≡ false → may_send cfg ≡ true
real_nudge cfg h = ground arith

module _ {W : Type 0} {sent : W → ℕ} (rpc : Rpc W) (c : Counts sent rpc) (viem : Viem)
    (cfg : Config) where
  Sends-send_page :
      (index : ℕ) (job : Job) (name : String) (page : ℕ)
      → Sends sent 1 (send_page rpc viem cfg index job name page)
  unfolding send_page
  Sends-send_page index job name page =
      Sends-bind-quiet 1 _ _ (Sends-await 1 _ (c.write_run index cfg.page_limit))
        λ hash. search (quiet_rules, c.wait_receipt, Sends-report_page) depth 12

  -- `n` is what one call may send: at least 1, unless the process may not send.
  module _ (n : ℕ) (allowed : may_send cfg ≡ true → 1 ≤ n) where
    guarded :
        {A : Type 0} (b : Bool) (m k : Method W A)
        → (b ≡ false → may_send cfg ≡ true)
        → Sends sent 0 m
        → Sends sent 1 k
        → Sends sent n (if b then m else k)
    guarded true m k e p q = Sends-le 0 n m (omega arith) p
    guarded false m k e p q = Sends-le 1 n k (allowed (e refl)) q

    -- One page sends one transaction at most, and none if its simulation fails or the run is dry.
    pub Sends-run_page :
        (index : ℕ) (job : Job) (name : String) (page : ℕ)
        → Sends sent n (run_page rpc viem cfg index job name page)
    unfolding run_page
    Sends-run_page index job name page =
        Sends-quiet-bind n _ _ (search (quiet_rules, c.simulate_run) depth 8) λ passed.
          Sends-if n passed _ _
            (guarded _ _ _ (real_page cfg) (search quiet_rules depth 8)
              (Sends-send_page index job name page))
            (Sends-le 0 n _ (omega arith) (Sends-pure false))

    Sends-run_pages :
        (rounds index : ℕ) (job : Job) (name : String) (page : ℕ)
        → Sends sent (rounds * n) (run_pages rpc viem cfg rounds index job name page)
    unfolding run_pages
    Sends-run_pages zero index job name page =
        Sends-le 0 (0 * n) _ (omega arith) (search quiet_rules)
    Sends-run_pages (suc rounds) index job name page =
        Sends-le (n + rounds * n) (suc rounds * n) _ (omega arith) (
          Sends-bind n (rounds * n) _ _ (Sends-run_page index job name page) λ more.
            Sends-if (rounds * n) more _ _ (Sends-run_pages rounds index job name (page + 1))
              (Sends-le 0 (rounds * n) _ (omega arith) (Sends-pure tt)))

    pub Sends-run_job :
        (index : ℕ) (job : Job)
        → Sends sent (cfg.max_pages_per_job * n) (run_job rpc viem cfg index job)
    unfolding run_job
    Sends-run_job index job =
        Sends-quiet-bind (cfg.max_pages_per_job * n) _ _ (Sends-label rpc c job.vault job.stock)
          λ name. Sends-run_pages cfg.max_pages_per_job index job name 1

    Sends-run_index :
        (jobs : List Job) (index : ℕ)
        → Sends sent (cfg.max_pages_per_job * n) (run_index rpc viem cfg jobs index)
    unfolding run_index
    Sends-run_index jobs index =
        Sends-match_option (cfg.max_pages_per_job * n) (get_elem? jobs index) _ _
          (Sends-le 0 (cfg.max_pages_per_job * n) _ (omega arith) (Sends-pure tt))
          (Sends-run_job index)

    -- The due jobs send their pages at most, whatever happens to each of them.
    pub Sends-run_due :
        (jobs : List Job) (due : List ℕ)
        → Sends sent (length due * (cfg.max_pages_per_job * n)) (run_due rpc viem cfg jobs due)
    unfolding run_due
    Sends-run_due jobs [] =
        Sends-le 0 (0 * (cfg.max_pages_per_job * n)) _ (omega arith) (Sends-pure tt)
    Sends-run_due jobs (index ∷ due) =
        Sends-quiet-bind (suc (length due) * (cfg.max_pages_per_job * n)) _ _
          (Sends-is_stopping rpc c)
          λ stop.
            Sends-if (suc (length due) * (cfg.max_pages_per_job * n)) stop _ _
              (Sends-le 0 (suc (length due) * (cfg.max_pages_per_job * n)) _ (omega arith)
                (Sends-pure tt))
              (Sends-le (cfg.max_pages_per_job * n + length due * (cfg.max_pages_per_job * n))
                (suc (length due) * (cfg.max_pages_per_job * n)) _ (omega arith)
                (Sends-bind (cfg.max_pages_per_job * n) (length due * (cfg.max_pages_per_job * n)) _
                  _ (Sends-run_index jobs index) (λ _. Sends-run_due jobs due)))

    Sends-send_to_self : Sends sent 1 (await rpc.send_to_self)
    Sends-send_to_self = Sends-await 1 _ c.send_to_self

    pub Sends-nudge : Sends sent n (nudge rpc cfg)
    unfolding nudge
    Sends-nudge = guarded _ _ _ (real_nudge cfg) (search quiet_rules) (
        Sends-quiet-bind 1 _ _ (search quiet_rules) λ _.
          Sends-catch-quiet 1 _ _
            (Sends-bind-quiet 1 _ _ Sends-send_to_self
              (λ hash. search (quiet_rules, c.wait_receipt)))
            (λ e. search quiet_rules))

    Sends-mine : (behind : Bool) → Sends sent n (if behind then nudge rpc cfg else pure false)
    Sends-mine behind =
        Sends-if n behind _ _ Sends-nudge (Sends-le 0 n _ (omega arith) (Sends-pure false))

    Sends-catch_up :
        (jobs : List Job) (due : List ℕ) (ts : ℕ) → Sends sent n (catch_up rpc cfg jobs due ts)
    unfolding catch_up
    Sends-catch_up jobs [] ts =
        Sends-quiet-bind n _ _ (Sends-boundary_passed rpc c jobs ts) λ behind.
          Sends-bind-quiet n _ _ (Sends-mine behind) λ mined.
            search (quiet_rules, c.due_jobs, c.block_timestamp, Sends-observe rpc c) depth 12
    Sends-catch_up jobs (i ∷ due) ts = Sends-le 0 n _ (omega arith) (Sends-pure (i ∷ due))

  -- A process that may not send: every step of the main loop leaves the count alone.
  module _ (quiet : may_send cfg ≡ false) where
    none_allowed : may_send cfg ≡ true → 1 ≤ 0
    none_allowed e = cc

    Sends-run_due_quiet :
        (jobs : List Job) (due : List ℕ) → Sends sent 0 (run_due rpc viem cfg jobs due)
    Sends-run_due_quiet jobs due =
        Sends-le (length due * (cfg.max_pages_per_job * 0)) 0 _ (grind arith)
          (Sends-run_due 0 none_allowed jobs due)

    Sends-tick : Sends sent 0 (tick rpc viem cfg)
    unfolding tick
    Sends-tick =
        search
          (
            quiet_rules,
            c.jobs,
            c.due_jobs,
            c.block_timestamp,
            Sends-observe rpc c,
            Sends-load_vaults rpc c,
            Sends-catch_up 0 none_allowed,
            Sends-run_due_quiet,
            Sends-look_for_uncovered rpc c cfg,
            Sends-next_delay rpc c cfg,
          )
          depth 24

    Sends-run_round : Sends sent 0 (run_round rpc viem cfg)
    unfolding run_round
    Sends-run_round = Sends-quiet-bind 0 _ _ (Sends-is_stopping rpc c) λ stop.
        Sends-if 0 stop _ _ (Sends-pure none) (
          Sends-quiet-bind 0 _ _ (Sends-catch-quiet 0 _ _ Sends-tick (λ e. search quiet_rules))
            (λ delay. search (quiet_rules, Sends-is_stopping rpc c)))

    after_round-quiet :
        (again : State → W → Bool × State × W)
        → ((s : State) (w : W) → sent (again s w).2 ≡ sent w)
        → (r : Outcome (Option ℕ)) (s : State) (w : W)
        → sent (after_round rpc viem cfg again r s w).2 ≡ sent w
    unfolding after_round
    after_round-quiet again ih (ok none) s w = refl
    after_round-quiet again ih (ok (some d)) s w = ih s (rpc.sleep d w) ∙ c.sleep d w
    after_round-quiet again ih (raised x) s w = refl

    -- A dry run, or a process with no key, never sends a transaction, however many rounds the main
    -- loop goes through and whatever the calls of the outside answer.
    pub dry_run-sends_nothing :
        (rounds : ℕ) (s : State) (w : W) → sent (run rpc viem cfg rounds s w).2 ≡ sent w
    unfolding run
    dry_run-sends_nothing zero s w = refl
    dry_run-sends_nothing (suc rounds) s w =
        let round = Sends-run_round in
        let (r, s', w') = run_round rpc viem cfg s w in
        let tail =
          after_round-quiet (run rpc viem cfg rounds) (dry_run-sends_nothing rounds) r s' w' in
        omega (arith, round.grows s w, round.bound s w, tail)

-- A pass over the due jobs sends at most `max_pages_per_job` transactions for each of them, and
-- never fewer than none, whatever the calls of the outside answer and wherever it stops or throws.
pub run_due-bounded :
    {W : Type 0} (sent : W → ℕ) (rpc : Rpc W) (c : Counts sent rpc) (viem : Viem) (cfg : Config)
    (jobs : List Job) (due : List ℕ) (s : State) (w : W)
    → (sent w ≤ sent (run_due rpc viem cfg jobs due s w).2)
      × (sent (run_due rpc viem cfg jobs due s w).2 ≤ sent w + length due * cfg.max_pages_per_job)
run_due-bounded sent rpc c viem cfg jobs due s w =
    let p = Sends-run_due rpc c viem cfg 1 (λ e. omega arith) jobs due in
    (p.grows s w, omega (arith, p.bound s w))
