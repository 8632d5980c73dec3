-- ===== src/Wallet/Confirming.antt =====
-- The wait for a step's receipt, and the `catch` of a step, of apps/web/src/hooks/useTx.ts.
use dca_protocol.Base.{
  Bool, true, false, ℕ, not, List, [], ◌∷◌, Option, none, some, String, if◌then◌else◌, is_some,
}
use dca_protocol.Base.Text.{template}
use dca_protocol.Plan.Steps.{TxStep}
use dca_protocol.Wallet.Errors.{
  Thrown, SendConflict, already_sent, stale_nonce, nonce_in_use, conflict_copy,
}
use dca_protocol.Wallet.Describe.{describe_tx_error}
use dca_protocol.Wallet.Sync.{note_mined}
use dca_protocol.Wallet.Chain.{
  Tried, ok, threw, ReplaceReason, repriced, cancelled, replaced, Mined, Chain, done, TxStepState,
  Tab,
}
use dca_protocol.Wallet.Sequence.{patch, plain_error}
use dca_protocol.Wallet.Ends.{
  Signed, cut_off, refused, sent_as, Confirmed, unanswered, without_effect, mined_as, StepEnd,
  step_mined, run_ends, hold, mark_failed, may_be_sent,
}
use dca_protocol.Wallet.Signing.{pending_count_of}

module _ {W : Type 0} (chain : Chain W) (chain_id : ℕ) (address : Option String) where
  -- The nonce of the mined transaction, read from the node where the receipt does not bring it.
  unfoldable pub mined_nonce : Mined → String → W → Option ℕ × W
  mined_nonce m hash w = elim m.replacement [
    | some (reason, nonce) ↦ (some nonce, w)
    | none ↦
        let (known, w1) = chain.transaction_nonce hash w in
        elim known [
          | some nonce ↦ (some nonce, w1)
          | none ↦ chain.transaction_nonce m.transaction_hash w1
        ]
  ]

  unfoldable pub note : ℕ → Mined → Option ℕ → Tab → Tab
  note now m none t = t
  note now m (some nonce) t = record t {
    mined = note_mined now chain_id m.from nonce m.transaction_hash t.mined;
  }

  -- The name of a mined revert, by a replay of the call at its block.
  unfoldable pub name_revert : TxStep → Mined → W → Thrown × W
  name_revert st m w =
      let (answer, w1) = chain.simulate st.params m.block_number w in
      (
        elim answer [
          | ok u ↦ plain_error (template (st.label ∷ " reverted" ∷ []))
          | threw e ↦
              if is_some (describe_tx_error e).error_name
              then e
              else plain_error (template (st.label ∷ " reverted" ∷ []))
        ],
        w1,
      )

  -- The effect of a mined transaction that is the step's own, by its success.
  unfoldable pub own_receipt_as :
      Bool → List TxStep → ℕ → TxStep → Mined → Tab → W → Confirmed × Tab × W
  own_receipt_as true steps' i st m t w = (
    mined_as m.transaction_hash,
    patch steps' i (λ (x : TxStepState). record x { phase = done; hash = some m.transaction_hash })
        t,
    w,
  )
  own_receipt_as false steps' i st m t w =
      let (reason, w1) = name_revert st m w in (without_effect reason, t, w1)

  unfoldable pub own_receipt : List TxStep → ℕ → TxStep → Mined → Tab → W → Confirmed × Tab × W
  own_receipt steps' i st m t w = own_receipt_as m.success steps' i st m t w

  not_run : String → Thrown
  not_run word = plain_error (template (word ∷ " in your wallet — this step did not run." ∷ []))

  -- Only a repriced copy counts as the step.
  unfoldable pub judge :
      Option (ReplaceReason × ℕ) → List TxStep → ℕ → TxStep → Mined → Tab → W → Confirmed × Tab × W
  unfolding not_run
  judge none steps' i st m t w = own_receipt steps' i st m t w
  judge (some (repriced, nonce)) steps' i st m t w = own_receipt steps' i st m t w
  judge (some (cancelled, nonce)) steps' i st m t w = (without_effect (not_run "Cancelled"), t, w)
  judge (some (replaced, nonce)) steps' i st m t w = (without_effect (not_run "Replaced"), t, w)

  unfoldable pub answered :
      List TxStep → ℕ → TxStep → String → Tab → W → Tried Mined → Confirmed × Tab × W
  answered steps' i st hash t w (threw e) = (unanswered, t, w)
  answered steps' i st hash t w (ok m) =
      let (nonce, w1) = mined_nonce m hash w in
      judge m.replacement steps' i st m (note (chain.now w1) m nonce t) w1

  unfoldable pub confirm : List TxStep → ℕ → TxStep → String → Tab → W → Confirmed × Tab × W
  confirm steps' i st hash t w =
      let (answer, w1) = chain.wait_for_receipt hash w in answered steps' i st hash t w1 answer

  -- The count after a refusal that may leave the send open; an "already sent" needs none.
  unfoldable pub count_after : SendConflict → Option ℕ → W → Option ℕ × W
  count_after already_sent before w = (none, w)
  count_after stale_nonce none w = (none, w)
  count_after stale_nonce (some b) w = pending_count_of chain chain_id address w
  count_after nonce_in_use none w = (none, w)
  count_after nonce_in_use (some b) w = pending_count_of chain chain_id address w

  -- The `catch` of a step that has no hash.
  unfoldable pub report_refusal : List TxStep → ℕ → TxStep → Thrown → Option ℕ → Tab → W → Tab × W
  report_refusal steps' i st e before t w =
      let d = describe_tx_error e in
      elim d.conflict [
        | none ↦ (mark_failed steps' i st.label d d.title none t, w)
        | some c ↦
            let (now_counted, w1) = count_after c before w in
            let sent = may_be_sent before now_counted in
            (mark_failed steps' i st.label d (conflict_copy c (not sent)) (some sent) t, w1)
      ]

  -- The `catch` of a step that was mined without effect.
  unfoldable pub report_mined : List TxStep → ℕ → TxStep → Thrown → Tab → Tab
  report_mined steps' i st e t =
      let d = describe_tx_error e in mark_failed steps' i st.label d d.title none t

  unfoldable pub after_confirm :
      List TxStep → ℕ → TxStep → String → Confirmed × Tab × W → StepEnd × Tab × W
  after_confirm steps' i st hash (unanswered, t, w) = (run_ends, hold steps' i hash t, w)
  after_confirm steps' i st hash (without_effect e, t, w) =
      (run_ends, report_mined steps' i st e t, w)
  after_confirm steps' i st hash (mined_as own, t, w) = (step_mined own, t, w)

  unfoldable pub after_sign : List TxStep → ℕ → TxStep → Signed × Tab × W → StepEnd × Tab × W
  after_sign steps' i st (cut_off, t, w) = (run_ends, t, w)
  after_sign steps' i st (refused e before, t, w) =
      let (t1, w1) = report_refusal steps' i st e before t w in (run_ends, t1, w1)
  after_sign steps' i st (sent_as hash, t, w) =
      after_confirm steps' i st hash (confirm steps' i st hash t w)
