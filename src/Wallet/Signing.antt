-- ===== src/Wallet/Signing.antt =====
-- `gasWithBuffer`, and the preparation and the prompt of a step, of apps/web/src/hooks/useTx.ts.
use dca_protocol.Base.{
  ℕ, ◌+◌, ◌/◌, Bool, true, false, List, Option, none, some, String, if◌then◌else◌, is_some,
}
use dca_protocol.Plan.Steps.{TxParams, TxStep}
use dca_protocol.Wallet.Describe.{describe_tx_error}
use dca_protocol.Wallet.Sync.{MinedTx, Answer, last_mined_of, wait_for_wallet_nonce}
use dca_protocol.Wallet.Chain.{Tried, ok, threw, Chain, signing, mining, TxStepState, idle, Tab}
use dca_protocol.Wallet.Sequence.{patch, set_syncing}
use dca_protocol.Wallet.Ends.{Signed, cut_off, refused, sent_as}

module _ {W : Type 0} (chain : Chain W) (chain_id : ℕ) (address : Option String) where
  padded : Tried ℕ → Tried (Option ℕ)
  padded (ok est) = ok (some (est + est / 4 + 100000))
  padded (threw e) = if is_some (describe_tx_error e).error_name then threw e else ok none

  unfoldable pub gas_with_buffer : TxParams → W → Tried (Option ℕ) × W
  unfolding padded
  gas_with_buffer params w = elim address [
    | none ↦ (ok none, w)
    | some a ↦ let (est, w1) = chain.estimate_gas params w in (padded est, w1)
  ]

  unfoldable pub pending_count_of : W → Option ℕ × W
  pending_count_of w = elim address [ none ↦ (none, w) | some a ↦ chain.pending_count w ]

  -- The account's last mined transaction, if it is recent.
  unfoldable pub previous : Tab → W → Option MinedTx × Tab
  previous t w = elim address [
    | none ↦ (none, t)
    | some a ↦
        let (prev, left) = last_mined_of (chain.now w) chain_id a t.mined in
        (prev, record t { mined = left })
  ]

  slow_of : ℕ → Option (List Answer) → Bool
  slow_of nonce none = false
  slow_of nonce (some answers) = (wait_for_wallet_nonce nonce answers).1

  -- Whether the wallet is found behind the last mined transaction.
  unfoldable pub found_slow : Option MinedTx → W → Bool × W
  unfolding slow_of
  found_slow none w = (false, w)
  found_slow (some m) w =
      let (answers, w1) = chain.wallet_answers m w in (slow_of m.nonce answers, w1)

  -- What the wallet answers to the prompt.
  unfoldable pub told : List TxStep → ℕ → Option ℕ → Tab → W → Tried String → Signed × Tab × W
  told steps' i before t w (threw e) = (refused e before, t, w)
  told steps' i before t w (ok hash') = (
    sent_as hash',
    patch steps' i (λ (x : TxStepState). record x { phase = mining; hash = some hash' }) t,
    w,
  )

  -- The prompt, after the preparation.
  unfoldable pub prompt :
      List TxStep → ℕ → TxStep → Option MinedTx → Option ℕ → Tab → W → Signed × Tab × W
  prompt steps' i st prev gas t w =
      let (before, w1) = pending_count_of w in
      let t1 : Tab = if is_some prev then set_syncing i false t else t in
      let (answer, w2) = chain.send st.params gas w1 in told steps' i before t1 w2 answer

  unfoldable pub estimated :
      List TxStep → ℕ → TxStep → Option MinedTx → Tab → W → Tried (Option ℕ) → Signed × Tab × W
  estimated steps' i st prev t w (threw e) = (refused e none, t, w)
  estimated steps' i st prev t w (ok gas) = prompt steps' i st prev gas t w

  -- The preparation: an abort ends the run, and an estimate that names a revert is thrown.
  unfoldable pub prepare :
      List TxStep → ℕ → TxStep → Option MinedTx → Bool → Tab → W → Signed × Tab × W
  prepare steps' i st prev true t w = (cut_off, record t { run_ref = none; state = idle }, w)
  prepare steps' i st prev false t w =
      let (gas, w1) = gas_with_buffer st.params w in estimated steps' i st prev t w1 gas

  unfoldable pub sign : List TxStep → ℕ → TxStep → Tab → W → Signed × Tab × W
  sign steps' i st t w =
      let (prev, t1) =
        previous (patch steps' i (λ (x : TxStepState). record x { phase = signing }) t) w in
      let (slow, w1) = found_slow prev w in
      let (stop, w2) = chain.aborted w1 in
      prepare steps' i st prev stop (if slow then set_syncing i true t1 else t1) w2
