-- ===== src/Wallet/Tests.antt =====
-- A chain that counts what it is sent, runs of a sequence on it, and the theorems applied to them.
use dca_protocol.Base.{
  ℕ, suc, ◌+◌, ◌-◌, ◌≤◌, max, Bool, true, false, List, [], ◌∷◌, Option, none, some, String, ◌≡◌,
  refl, ◌↔◌, is_some, length, drop, any,
}
use dca_protocol.Plan.Steps.{TxParams, TxStep, step, plan_vault_abi, number}
use dca_protocol.Wallet.Errors.{Link, other_class, base_error, js_error, Thrown, stale_nonce}
use dca_protocol.Wallet.Describe.{describe_tx_error}
use dca_protocol.Wallet.Sync.{counted, unreadable, last_mined_of, note_mined, wait_for_wallet_nonce}
use dca_protocol.Wallet.Chain.{ok, Mined, Chain, Tab, idle}
use dca_protocol.Wallet.Ends.{hold}
use dca_protocol.Wallet.Run.{run, retry, keep_waiting}
use dca_protocol.Wallet.Sends.{SendCount, run-bounded, held-not_resent}
use dca_protocol.Wallet.Progress.{AllMined, run-AllMined}
use dca_protocol.Wallet.Memory.{
  nonce_of, shows_past, wait_for_wallet_nonce-past, note_mined-highest,
}

abbrev receipt : Mined
receipt = record {
  success = true;
  from = "0xaa";
  transaction_hash = "0x1";
  block_number = 9;
  replacement = none;
}

-- Every transaction is mined; the world is the number of them.
abbrev chain : Chain ℕ
chain = record {
  now = λ w. w;
  aborted = λ w. (false, w);
  wallet_answers = λ m w. (some (counted w ∷ []), w);
  estimate_gas = λ p w. (ok 40000, w);
  pending_count = λ w. (some w, w);
  send = λ p g w. (ok "0x1", suc w);
  transaction_nonce = λ h w. (some w, w);
  wait_for_receipt = λ h w. (ok receipt, w);
  simulate = λ p b w. (ok tt, w);
}

abbrev chain_count : SendCount chain
chain_count = record {
  sent = λ w. w;
  aborted_law = λ w. refl;
  answers_law = λ m w. refl;
  estimate_law = λ p w. refl;
  pending_law = λ w. refl;
  nonce_law = λ h w. refl;
  receipt_law = λ h w. refl;
  simulate_law = λ p b w. refl;
  send_law = λ p g w. refl;
}

abbrev call : String → TxParams
call name = record {
  address = "0x01";
  abi = plan_vault_abi;
  function_name = name;
  args = number 7 ∷ [];
  value = none;
}

abbrev two_steps : List TxStep
two_steps = step "Claim AAPL" (call "claim") ∷ step "Delete plan" (call "prunePlan") ∷ []

abbrev tab : Tab
tab = record { state = idle; run_ref = none; active = false; mined = [] }

abbrev one_step : List TxStep
one_step = step "Delete plan" (call "prunePlan") ∷ []

one_mined : (run chain 31337 (some "0xaa") one_step tab 0).2 ≡ 1
unfolding run dca_protocol.Wallet.Run.run_from dca_protocol.Wallet.Run.run_loop
    dca_protocol.Wallet.Run.begun dca_protocol.Wallet.Run.run_steps dca_protocol.Wallet.Run.run_step
    dca_protocol.Wallet.Run.finish_all dca_protocol.Wallet.Confirming.after_sign
    dca_protocol.Wallet.Confirming.after_confirm dca_protocol.Wallet.Confirming.confirm
    dca_protocol.Wallet.Confirming.answered dca_protocol.Wallet.Confirming.judge
    dca_protocol.Wallet.Confirming.own_receipt dca_protocol.Wallet.Confirming.own_receipt_as
    dca_protocol.Wallet.Confirming.mined_nonce dca_protocol.Wallet.Confirming.note
    dca_protocol.Wallet.Signing.sign dca_protocol.Wallet.Signing.prepare
    dca_protocol.Wallet.Signing.estimated dca_protocol.Wallet.Signing.told
    dca_protocol.Wallet.Signing.gas_with_buffer dca_protocol.Wallet.Signing.prompt
    dca_protocol.Wallet.Signing.found_slow dca_protocol.Wallet.Signing.previous
    dca_protocol.Wallet.Signing.pending_count_of last_mined_of wait_for_wallet_nonce note_mined
    dca_protocol.Wallet.Sequence.start_state dca_protocol.Wallet.Sequence.kept_states
    dca_protocol.Wallet.Sequence.label_at dca_protocol.Wallet.Sequence.change_at
    dca_protocol.Wallet.Sequence.patch dca_protocol.Wallet.Sequence.set_syncing
    dca_protocol.Wallet.Sync.key_of dca_protocol.Wallet.Sync.fresh_entry
    dca_protocol.Wallet.Sync.later_checks dca_protocol.Base.Text.to_lower
    dca_protocol.Base.Dict.lookup dca_protocol.Base.Dict.insert
one_mined = refl

one_reported : (run chain 31337 (some "0xaa") one_step tab 0).0 ≡ some (some "0x1")
unfolding run dca_protocol.Wallet.Run.run_from dca_protocol.Wallet.Run.run_loop
    dca_protocol.Wallet.Run.begun dca_protocol.Wallet.Run.run_steps dca_protocol.Wallet.Run.run_step
    dca_protocol.Wallet.Run.finish_all dca_protocol.Wallet.Confirming.after_sign
    dca_protocol.Wallet.Confirming.after_confirm dca_protocol.Wallet.Confirming.confirm
    dca_protocol.Wallet.Confirming.answered dca_protocol.Wallet.Confirming.judge
    dca_protocol.Wallet.Confirming.own_receipt dca_protocol.Wallet.Confirming.own_receipt_as
    dca_protocol.Wallet.Confirming.mined_nonce dca_protocol.Wallet.Confirming.note
    dca_protocol.Wallet.Signing.sign dca_protocol.Wallet.Signing.prepare
    dca_protocol.Wallet.Signing.estimated dca_protocol.Wallet.Signing.told
    dca_protocol.Wallet.Signing.gas_with_buffer dca_protocol.Wallet.Signing.prompt
    dca_protocol.Wallet.Signing.found_slow dca_protocol.Wallet.Signing.previous
    dca_protocol.Wallet.Signing.pending_count_of last_mined_of wait_for_wallet_nonce note_mined
    dca_protocol.Wallet.Sequence.start_state dca_protocol.Wallet.Sequence.kept_states
    dca_protocol.Wallet.Sequence.label_at dca_protocol.Wallet.Sequence.change_at
    dca_protocol.Wallet.Sequence.patch dca_protocol.Wallet.Sequence.set_syncing
    dca_protocol.Wallet.Sync.key_of dca_protocol.Wallet.Sync.fresh_entry
    dca_protocol.Wallet.Sync.later_checks dca_protocol.Base.Text.to_lower
    dca_protocol.Base.Dict.lookup dca_protocol.Base.Dict.insert
one_reported = refl

run-AllMined_example :
    AllMined chain (length one_step) ((run chain 31337 (some "0xaa") one_step tab 0).1)
run-AllMined_example =
    run-AllMined chain 31337 (some "0xaa") one_step (some "0x1") tab 0 one_reported

run-bounded_example :
    chain_count.sent ((run chain 31337 (some "0xaa") two_steps tab 0).2)
    ≤ chain_count.sent 0 + length two_steps
run-bounded_example = run-bounded chain 31337 (some "0xaa") chain_count two_steps tab 0

held-not_resent_example :
    (chain_count.sent ((retry chain 31337 (some "0xaa") none (hold two_steps 0 "0x1" tab) 1).2)
      ≤ chain_count.sent 1 + (length (drop 0 two_steps) - 1))
    × (chain_count.sent ((keep_waiting chain 31337 (some "0xaa") (hold two_steps 0 "0x1" tab) 1).2)
        ≤ chain_count.sent 1 + (length (drop 0 two_steps) - 1))
held-not_resent_example =
    held-not_resent chain 31337 (some "0xaa") chain_count two_steps 0 "0x1" none tab 1

abbrev too_low : Thrown
too_low =
    base_error
      (record {
        class = other_class;
        details = none;
        short_message = some "RPC Request failed.";
        message = some "RPC Request failed.";
        data_message = none;
      })
      (record {
        class = other_class;
        details = some "Nonce too low";
        short_message = none;
        message = none;
        data_message = none;
      }
        ∷ [])
      none

named : (describe_tx_error too_low).conflict ≡ some stale_nonce
unfolding describe_tx_error dca_protocol.Wallet.Describe.describe_as
    dca_protocol.Wallet.Errors.is_user_rejection dca_protocol.Wallet.Errors.reads_rejected
    dca_protocol.Wallet.Errors.contains dca_protocol.Base.Text.to_lower
    dca_protocol.Wallet.Errors.is_receipt_timeout dca_protocol.Wallet.Describe.describe_conflict
    dca_protocol.Wallet.Errors.send_conflict_of dca_protocol.Wallet.Errors.conflict_in
    dca_protocol.Wallet.Errors.contains_words dca_protocol.Wallet.Errors.cause_text
    dca_protocol.Base.Text.join
named = refl

abbrev four : Option ℕ
four = some 4

wait_for_wallet_nonce-past_example :
    any (shows_past 4) (counted 4 ∷ unreadable ∷ counted 5 ∷ []) ≡ true
unfolding wait_for_wallet_nonce
wait_for_wallet_nonce-past_example =
    wait_for_wallet_nonce-past 4 (counted 4 ∷ unreadable ∷ counted 5 ∷ []) refl

note_mined-highest_example :
    nonce_of (
      (last_mined_of 1000 1 "0xAA"
        (note_mined 1000 1 "0xAA" 5 "0x2" (note_mined 900 1 "0xaa" 6 "0x1" []))).0)
    ≡ max 5 (nonce_of ((last_mined_of 1000 1 "0xAA" (note_mined 900 1 "0xaa" 6 "0x1" [])).0))
note_mined-highest_example =
    note_mined-highest 1000 1 "0xAA" 5 "0x2" (note_mined 900 1 "0xaa" 6 "0x1" [])
