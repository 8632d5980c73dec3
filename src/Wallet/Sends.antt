-- ===== src/Wallet/Sends.antt =====
-- How many transactions a sequence of apps/web/src/hooks/useTx.ts sends: none for a step that is sent already.
use dca_protocol.Base.{
  true, false, ap, ℕ, suc, ◌+◌, ◌-◌, ◌≤◌, Bool, true, List, [], ◌∷◌, Option, none, some, String,
  ◌≡◌, refl, ◌∙◌, length, drop, arith, if◌then◌else◌,
}
use dca_protocol.Plan.Steps.{TxParams, TxStep}
use dca_protocol.Wallet.Errors.{Thrown, SendConflict, already_sent, stale_nonce, nonce_in_use}
use dca_protocol.Wallet.Sync.{MinedTx}
use dca_protocol.Wallet.Chain.{
  Tried, ok, threw, ReplaceReason, repriced, cancelled, replaced, Mined, Chain, Tab, TxStepState,
  signing,
}
use dca_protocol.Wallet.Sequence.{patch, set_syncing}
use dca_protocol.Wallet.Ends.{
  Signed, Confirmed, unanswered, without_effect, mined_as, cut_off, refused, sent_as, hold, stop_at,
}
use dca_protocol.Wallet.Signing.{
  gas_with_buffer, pending_count_of, found_slow, previous, told, prompt, estimated, prepare, sign,
}
use dca_protocol.Wallet.Confirming.{
  mined_nonce, name_revert, own_receipt, own_receipt_as, judge, answered, confirm, count_after,
  report_refusal, after_confirm, after_sign,
}
use dca_protocol.Wallet.Run.{
  run_step, run_steps, run_loop, run_from, run, keep_waiting, resume_at, retry_at, retry,
}

-- A count of the transactions that were handed to the wallet: a send raises it by one, nothing else does.
pub record SendCount {W : Type 0} (chain : Chain W) : Type 0 where
  pub sent : W → ℕ
  pub aborted_law : (w : W) → sent ((chain.aborted w).1) ≡ sent w
  pub answers_law : (m : MinedTx) (w : W) → sent ((chain.wallet_answers m w).1) ≡ sent w
  pub estimate_law : (p : TxParams) (w : W) → sent ((chain.estimate_gas p w).1) ≡ sent w
  pub pending_law : (w : W) → sent ((chain.pending_count w).1) ≡ sent w
  pub nonce_law : (h : String) (w : W) → sent ((chain.transaction_nonce h w).1) ≡ sent w
  pub receipt_law : (h : String) (w : W) → sent ((chain.wait_for_receipt h w).1) ≡ sent w
  pub simulate_law : (p : TxParams) (b : ℕ) (w : W) → sent ((chain.simulate p b w).1) ≡ sent w
  pub send_law : (p : TxParams) (g : Option ℕ) (w : W) → sent ((chain.send p g w).1) ≡ suc (sent w)

module _ {W : Type 0} (chain : Chain W) (chain_id : ℕ) (address : Option String)
    (count : SendCount chain) where
  gas-sent :
      (p : TxParams) (w : W)
      → count.sent ((gas_with_buffer chain chain_id address p w).1) ≡ count.sent w
  unfolding gas_with_buffer
  gas-sent p w = ground (arith, count.estimate_law p w)

  pending-sent : (w : W) → count.sent ((pending_count_of chain chain_id address w).1) ≡ count.sent w
  unfolding pending_count_of
  pending-sent w = ground (arith, count.pending_law w)

  slow-sent :
      (m : Option MinedTx) (w : W)
      → count.sent ((found_slow chain chain_id address m w).1) ≡ count.sent w
  unfolding found_slow
  slow-sent none w = refl
  slow-sent (some m) w = count.answers_law m w

  told-sent :
      (steps : List TxStep) (i : ℕ) (before : Option ℕ) (t : Tab) (w : W) (answer : Tried String)
      → count.sent ((told chain chain_id address steps i before t w answer).2) ≡ count.sent w
  unfolding told
  told-sent steps i before t w (ok h) = refl
  told-sent steps i before t w (threw e) = refl

  prompt-sent :
      (steps : List TxStep) (i : ℕ) (st : TxStep) (prev : Option MinedTx) (gas : Option ℕ) (t : Tab)
      (w : W)
      → count.sent ((prompt chain chain_id address steps i st prev gas t w).2) ≡ suc (count.sent w)
  unfolding prompt
  prompt-sent steps i st prev gas t w =
      let w1 = (pending_count_of chain chain_id address w).1 in
      let answer = chain.send st.params gas w1 in
      told-sent steps i _ _ answer.1 answer.0
      ∙ count.send_law st.params gas w1
      ∙ ap suc (pending-sent w)

  estimated-sent :
      (steps : List TxStep) (i : ℕ) (st : TxStep) (prev : Option MinedTx) (t : Tab) (w : W)
      (gas : Tried (Option ℕ))
      → count.sent ((estimated chain chain_id address steps i st prev t w gas).2)
        ≤ suc (count.sent w)
  unfolding estimated
  estimated-sent steps i st prev t w (ok gas) = omega (arith, prompt-sent steps i st prev gas t w)
  estimated-sent steps i st prev t w (threw e) = omega arith

  prepare-sent :
      (steps : List TxStep) (i : ℕ) (st : TxStep) (prev : Option MinedTx) (stop : Bool) (t : Tab)
      (w : W)
      → count.sent ((prepare chain chain_id address steps i st prev stop t w).2)
        ≤ suc (count.sent w)
  unfolding prepare
  prepare-sent steps i st prev true t w = omega arith
  prepare-sent steps i st prev false t w =
      let gas = gas_with_buffer chain chain_id address st.params w in
      omega (arith, gas-sent st.params w, estimated-sent steps i st prev t gas.1 gas.0)

  sign-sent :
      (steps : List TxStep) (i : ℕ) (st : TxStep) (t : Tab) (w : W)
      → count.sent ((sign chain chain_id address steps i st t w).2) ≤ suc (count.sent w)
  unfolding sign
  sign-sent steps i st t w =
      let seen =
        previous chain chain_id address
          (patch steps i (λ (x : TxStepState). record x { phase = signing }) t) w in
      let slow = found_slow chain chain_id address seen.0 w in
      omega (
        arith,
        slow-sent seen.0 w,
        count.aborted_law slow.1,
        prepare-sent steps i st seen.0 ((chain.aborted slow.1).0)
            (if slow.0 then set_syncing i true seen.1 else seen.1) ((chain.aborted slow.1).1),
      )

  mined_nonce-sent :
      (m : Mined) (h : String) (w : W)
      → count.sent ((mined_nonce chain chain_id address m h w).1) ≡ count.sent w
  unfolding mined_nonce
  mined_nonce-sent m h w = ground (
    arith,
    count.nonce_law h w,
    count.nonce_law m.transaction_hash ((chain.transaction_nonce h w).1),
  )

  own-sent :
      (b : Bool) (steps : List TxStep) (i : ℕ) (st : TxStep) (m : Mined) (t : Tab) (w : W)
      → count.sent ((own_receipt_as chain chain_id address b steps i st m t w).2) ≡ count.sent w
  unfolding own_receipt_as name_revert
  own-sent true steps i st m t w = refl
  own-sent false steps i st m t w = count.simulate_law st.params m.block_number w

  judge-sent :
      (r : Option (ReplaceReason × ℕ)) (steps : List TxStep) (i : ℕ) (st : TxStep) (m : Mined)
      (t : Tab) (w : W)
      → count.sent ((judge chain chain_id address r steps i st m t w).2) ≡ count.sent w
  unfolding judge own_receipt
  judge-sent none steps i st m t w = own-sent m.success steps i st m t w
  judge-sent (some (repriced, n)) steps i st m t w = own-sent m.success steps i st m t w
  judge-sent (some (cancelled, n)) steps i st m t w = refl
  judge-sent (some (replaced, n)) steps i st m t w = refl

  answered-sent :
      (steps : List TxStep) (i : ℕ) (st : TxStep) (h : String) (t : Tab) (w : W)
      (answer : Tried Mined)
      → count.sent ((answered chain chain_id address steps i st h t w answer).2) ≡ count.sent w
  unfolding answered
  answered-sent steps i st h t w (threw e) = refl
  answered-sent steps i st h t w (ok m) =
      let nonce = mined_nonce chain chain_id address m h w in
      judge-sent m.replacement steps i st m _ nonce.1 ∙ mined_nonce-sent m h w

  confirm-sent :
      (steps : List TxStep) (i : ℕ) (st : TxStep) (h : String) (t : Tab) (w : W)
      → count.sent ((confirm chain chain_id address steps i st h t w).2) ≡ count.sent w
  unfolding confirm
  confirm-sent steps i st h t w =
      let answer = chain.wait_for_receipt h w in
      answered-sent steps i st h t answer.1 answer.0 ∙ count.receipt_law h w

  counted-sent :
      (c : SendConflict) (b : Option ℕ) (v : W)
      → count.sent ((count_after chain chain_id address c b v).1) ≡ count.sent v
  unfolding count_after
  counted-sent already_sent b v = refl
  counted-sent stale_nonce none v = refl
  counted-sent stale_nonce (some b) v = pending-sent v
  counted-sent nonce_in_use none v = refl
  counted-sent nonce_in_use (some b) v = pending-sent v

  refusal-sent :
      (steps : List TxStep) (i : ℕ) (st : TxStep) (e : Thrown) (before : Option ℕ) (t : Tab) (w : W)
      → count.sent ((report_refusal chain chain_id address steps i st e before t w).1)
        ≡ count.sent w
  unfolding report_refusal
  refusal-sent steps i st e before t w = grind (arith, counted-sent)

  after_confirm-sent :
      (steps : List TxStep) (i : ℕ) (st : TxStep) (h : String) (r : Confirmed) (t : Tab) (w : W)
      → count.sent ((after_confirm chain chain_id address steps i st h (r, t, w)).2) ≡ count.sent w
  unfolding after_confirm
  after_confirm-sent steps i st h unanswered t w = refl
  after_confirm-sent steps i st h (without_effect e) t w = refl
  after_confirm-sent steps i st h (mined_as own) t w = refl

  after_sign-sent :
      (steps : List TxStep) (i : ℕ) (st : TxStep) (r : Signed) (t : Tab) (w : W)
      → count.sent ((after_sign chain chain_id address steps i st (r, t, w)).2) ≡ count.sent w
  unfolding after_sign
  after_sign-sent steps i st cut_off t w = refl
  after_sign-sent steps i st (refused e before) t w = refusal-sent steps i st e before t w
  after_sign-sent steps i st (sent_as h) t w =
      let c = confirm chain chain_id address steps i st h t w in
      after_confirm-sent steps i st h c.0 c.1 c.2 ∙ confirm-sent steps i st h t w

  -- A step that was sent already is not sent again.
  resumed-sent :
      (steps : List TxStep) (i : ℕ) (st : TxStep) (h : String) (t : Tab) (w : W)
      → count.sent ((run_step chain chain_id address steps i st (some h) t w).2) ≡ count.sent w
  unfolding run_step
  resumed-sent steps i st h t w =
      let c = confirm chain chain_id address steps i st h t w in
      after_confirm-sent steps i st h c.0 c.1 c.2 ∙ confirm-sent steps i st h t w

  step-sent :
      (steps : List TxStep) (i : ℕ) (st : TxStep) (t : Tab) (w : W)
      → count.sent ((run_step chain chain_id address steps i st none t w).2) ≤ suc (count.sent w)
  unfolding run_step
  step-sent steps i st t w =
      let r = sign chain chain_id address steps i st t w in
      omega (arith, after_sign-sent steps i st r.0 r.1 r.2, sign-sent steps i st t w)

  run_steps-sent :
      (sts steps : List TxStep) (i : ℕ) (last : Option String) (t : Tab) (w : W)
      → count.sent ((run_steps chain chain_id address steps i sts none last t w).2)
        ≤ count.sent w + length sts
  unfolding run_steps
  run_steps-sent [] steps i last t w = omega arith
  run_steps-sent (st ∷ sts) steps i last t w =
      let r = run_step chain chain_id address steps i st none t w in
      grind (
        arith,
        step-sent steps i st t w,
        λ (own : String). run_steps-sent sts steps (suc i) (some own) r.1 r.2,
      )

  resumed_steps-sent :
      (st : TxStep) (sts steps : List TxStep) (i : ℕ) (h : String) (t : Tab) (w : W)
      → count.sent ((run_steps chain chain_id address steps i (st ∷ sts) (some h) none t w).2)
        ≤ count.sent w + length sts
  unfolding run_steps
  resumed_steps-sent st sts steps i h t w =
      let r = run_step chain chain_id address steps i st (some h) t w in
      grind (
        arith,
        resumed-sent steps i st h t w,
        λ (own : String). run_steps-sent sts steps (suc i) (some own) r.1 r.2,
      )

  resumed_list-sent :
      (sts steps : List TxStep) (i : ℕ) (h : String) (t : Tab) (w : W)
      → count.sent ((run_steps chain chain_id address steps i sts (some h) none t w).2)
        ≤ count.sent w + (length sts - 1)
  unfolding run_steps
  resumed_list-sent [] steps i h t w = omega arith
  resumed_list-sent (st ∷ sts) steps i h t w =
      omega (arith, resumed_steps-sent st sts steps i h t w)

  fresh_from-sent :
      (steps : List TxStep) (from : ℕ) (t : Tab) (w : W)
      → count.sent ((run_from chain chain_id address steps from none t w).2)
        ≤ count.sent w + length (drop from steps)
  unfolding run_from run_loop
  fresh_from-sent steps from t w = grind (arith, run_steps-sent (drop from steps) steps from none)

  resumed_from-sent :
      (steps : List TxStep) (from : ℕ) (h : String) (t : Tab) (w : W)
      → count.sent ((run_from chain chain_id address steps from (some h) t w).2)
        ≤ count.sent w + (length (drop from steps) - 1)
  unfolding run_from run_loop
  resumed_from-sent steps from h t w =
      grind (arith, resumed_list-sent (drop from steps) steps from h)

  -- A run sends no more transactions than it has steps from its start on.
  pub run-bounded :
      (steps : List TxStep) (t : Tab) (w : W)
      → count.sent ((run chain chain_id address steps t w).2) ≤ count.sent w + length steps
  unfolding run
  run-bounded steps t w = fresh_from-sent steps 0 t w

  -- A step that is held with its hash is never sent again: keeping on waiting, or trying again with
  -- whatever remaining steps, sends at most the steps after it.
  pub held-not_resent :
      (steps : List TxStep) (i : ℕ) (h : String) (remaining : Option (List TxStep)) (t : Tab)
      (w : W)
      → (count.sent ((retry chain chain_id address remaining (hold steps i h t) w).2)
          ≤ count.sent w + (length (drop i steps) - 1))
        × (count.sent ((keep_waiting chain chain_id address (hold steps i h t) w).2)
            ≤ count.sent w + (length (drop i steps) - 1))
  unfolding retry keep_waiting hold stop_at retry_at resume_at
  held-not_resent steps i h remaining t w = (
    resumed_from-sent steps i h (hold steps i h t) w,
    resumed_from-sent steps i h (hold steps i h t) w,
  )
