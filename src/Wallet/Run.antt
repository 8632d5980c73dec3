-- ===== src/Wallet/Run.antt =====
-- The runs of `useTxSequence` of apps/web/src/hooks/useTx.ts: run, keep waiting, retry, reset.
use dca_protocol.Base.{
  Bool, ℕ, suc, true, false, ◌||◌, List, [], ◌∷◌, ◌++◌, Option, none, some, String, ◌==◌,
  if◌then◌else◌, is_some, length, take, drop,
}
use dca_protocol.Plan.Steps.{TxStep}
use dca_protocol.Wallet.Chain.{Chain, idle, RunRef, Tab}
use dca_protocol.Wallet.Sequence.{start_state}
use dca_protocol.Wallet.Ends.{StepEnd, step_mined, run_ends}
use dca_protocol.Wallet.Signing.{sign}
use dca_protocol.Wallet.Confirming.{confirm, after_confirm, after_sign}

unfoldable pub finish_all : List TxStep → Tab → Tab
finish_all steps' t = record t {
  state = record t.state { running = false; waiting = false; done = true; step = length steps' };
}

module _ {W : Type 0} (chain : Chain W) (chain_id : ℕ) (address : Option String) where
  -- One round of the loop; a resumed step has its hash and is not sent again.
  unfoldable pub run_step : List TxStep → ℕ → TxStep → Option String → Tab → W → StepEnd × Tab × W
  run_step steps' i st none t w =
      after_sign chain chain_id address steps' i st (sign chain chain_id address steps' i st t w)
  run_step steps' i st (some hash) t w =
      after_confirm chain chain_id address steps' i st hash
        (confirm chain chain_id address steps' i st hash t w)

  -- The steps from `i` on. The result is the last hash when every step was mined.
  unfoldable pub run_steps :
      List TxStep
      → ℕ
      → List TxStep
      → Option String
      → Option String
      → Tab
      → W
      → Option (Option String) × Tab × W
  run_steps steps' i [] resume last t w = (some last, finish_all steps' t, w)
  run_steps steps' i (st ∷ sts) resume last t w =
      let (end, t1, w1) = run_step steps' i st resume t w in
      elim end [
        | step_mined own ↦ run_steps steps' (suc i) sts none (some own) t1 w1
        | run_ends ↦ (none, t1, w1)
      ]

  -- The fields when a run starts.
  unfoldable pub begun : List TxStep → ℕ → Bool → Tab → Tab
  begun steps' from resumed t = record t {
    active = true;
    run_ref = some (record { steps = steps'; failed_at = none; waiting_hash = none });
    state = start_state steps' from resumed t.state;
  }

  unfoldable pub run_loop :
      List TxStep → ℕ → Option String → Tab → W → Option (Option String) × Tab × W
  run_loop steps' from resume t w =
      let (result, t1, w1) =
        run_steps steps' from (drop from steps') resume none (begun steps' from (is_some resume) t)
          w in
      (result, record t1 { active = false }, w1)

  -- Ignored while a run loops, and for no steps; `onDone` is called with the result, when there is one.
  unfoldable pub run_from :
      List TxStep → ℕ → Option String → Tab → W → Option (Option String) × Tab × W
  run_from steps' from resume t w =
      if length steps' == 0 || t.active then (none, t, w) else run_loop steps' from resume t w

  unfoldable pub run : List TxStep → Tab → W → Option (Option String) × Tab × W
  run steps' t w = run_from steps' 0 none t w

  unfoldable pub resume_at :
      RunRef → Option ℕ → Option String → Tab → W → Option (Option String) × Tab × W
  resume_at r none hash t w = (none, t, w)
  resume_at r (some i) none t w = (none, t, w)
  resume_at r (some i) (some hash) t w = run_from r.steps i (some hash) t w

  unfoldable pub keep_waiting : Tab → W → Option (Option String) × Tab × W
  unfolding resume_at
  keep_waiting t w = elim t.run_ref [
    | none ↦ (none, t, w)
    | some r ↦ resume_at r r.failed_at r.waiting_hash t w
  ]

  -- Nothing is left to send: the steps that were mined are all there are.
  unfoldable pub complete : List TxStep → Tab → Tab
  complete steps' t = record t {
    run_ref = none;
    state = record t.state {
      running = false;
      waiting = false;
      error_text = none;
      done = true;
      step = length steps';
      total = length steps';
      steps = take (length steps') t.state.steps;
    };
  }

  unfoldable pub retry_at :
      RunRef
      → Option ℕ
      → Option String
      → Option (List TxStep)
      → Tab
      → W
      → Option (Option String) × Tab × W
  retry_at r none hash remaining t w = (none, t, w)
  retry_at r (some i) (some hash) remaining t w = run_from r.steps i (some hash) t w
  retry_at r (some i) none none t w = run_from r.steps i none t w
  retry_at r (some i) none (some []) t w = (some none, complete (take i r.steps ++ []) t, w)
  retry_at r (some i) none (some (st ∷ sts)) t w = run_from (take i r.steps ++ st ∷ sts) i none t w

  unfoldable pub retry : Option (List TxStep) → Tab → W → Option (Option String) × Tab × W
  retry remaining t w = elim t.run_ref [
    | none ↦ (none, t, w)
    | some r ↦ retry_at r r.failed_at r.waiting_hash remaining t w
  ]

  unfoldable pub reset : Tab → Tab
  reset t = record t { run_ref = none; state = idle }
