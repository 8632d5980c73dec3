-- ===== src/Wallet/Ends.antt =====
-- How a step of `useTxSequence` (apps/web/src/hooks/useTx.ts) ends, and what a failed one leaves.
use dca_protocol.Base.{ℕ, Bool, true, false, not, List, [], ◌∷◌, Option, none, some, String, ◌==◌}
use dca_protocol.Base.Text.{template}
use dca_protocol.Plan.Steps.{TxStep}
use dca_protocol.Wallet.Errors.{Thrown, TxErrorDescription}
use dca_protocol.Wallet.Chain.{error, TxStepState, RunRef, Tab}
use dca_protocol.Wallet.Sequence.{label_at, patch}

-- How the signing of a step ended: aborted, refused (with the count read before the prompt), or sent.
pub data Signed : Type 0 where
  cut_off : Signed
  refused : Thrown → Option ℕ → Signed
  sent_as : String → Signed

-- How the wait for its receipt ended: no answer, mined without effect, or mined.
pub data Confirmed : Type 0 where
  unanswered : Confirmed
  without_effect : Thrown → Confirmed
  mined_as : String → Confirmed

pub data StepEnd : Type 0 where
  step_mined : String → StepEnd
  run_ends : StepEnd

-- The run that stopped at a step, for a retry.
unfoldable pub stop_at : List TxStep → ℕ → Option String → RunRef
stop_at steps' i hash = record { steps = steps'; failed_at = some i; waiting_hash = hash }

-- Sent, but no receipt: hold the hash, and keep running.
unfoldable pub hold : List TxStep → ℕ → String → Tab → Tab
hold steps' i hash t = record t {
  run_ref = some (stop_at steps' i (some hash));
  state = record t.state { step = i; label = label_at steps' i; waiting = true };
}

-- The patch of a failed step, and the end of the run.
unfoldable pub mark_failed :
    List TxStep → ℕ → String → TxErrorDescription → String → Option Bool → Tab → Tab
mark_failed steps' i name d text sent t =
    let t1 : Tab =
      patch steps' i
        (λ (x : TxStepState). record x {
          phase = error;
          error_text = some text;
          error_name = d.error_name;
          conflict = d.conflict;
          maybe_sent = sent;
        })
        (record t { run_ref = some (stop_at steps' i none) }) in
    record t1 {
      state = record t1.state {
        running = false;
        waiting = false;
        syncing = false;
        error_text = some (template (name ∷ ": " ∷ text ∷ []));
      };
    }

-- Whether a refused send may have gone out after all: only an unchanged count says no.
unfoldable pub may_be_sent : Option ℕ → Option ℕ → Bool
may_be_sent before none = true
may_be_sent none (some a) = true
may_be_sent (some b) (some a) = not (a == b)
