-- ===== src/Wallet/Sequence.antt =====
-- `useTxSequence` of apps/web/src/hooks/useTx.ts: several writes one after another, each mined before the
-- next. The hook's client is connected (without one `runFrom` returns at once).
use dca_protocol.Base.{
  ℕ, zero, suc, Bool, true, false, ◌&&◌, ◌||◌, List, [], ◌∷◌, Option, none, some, String, ltb, ◌==◌,
  if◌then◌else◌, length, get_elem?,
}
use dca_protocol.Plan.Steps.{TxStep}
use dca_protocol.Wallet.Errors.{other_class, Thrown, js_error}
use dca_protocol.Wallet.Chain.{
  Phase, todo, signing, mining, done, error, TxStepState, SeqState, Tab,
}

abbrev pub wallet_sync_copy : String
wallet_sync_copy = "Waiting for your wallet to catch up with the last step…"

abbrev untouched : TxStep → TxStepState
untouched st = record {
  label = st.label;
  phase = todo;
  hash = none;
  error_text = none;
  error_name = none;
  note = none;
  conflict = none;
  maybe_sent = none;
}

is_done : Phase → Bool
is_done todo = false
is_done signing = false
is_done mining = false
is_done done = true
is_done error = false

-- The state of a step when a run starts: mined before it, resumed, or still to do.
kept_state : ℕ → Bool → ℕ → TxStep → Option TxStepState → TxStepState
unfolding is_done
kept_state from resumed i st none = untouched st
kept_state from resumed i st (some old) =
    if (ltb i from && is_done old.phase) || (i == from && resumed) then old else untouched st

unfoldable pub kept_states : ℕ → Bool → List TxStepState → ℕ → List TxStep → List TxStepState
unfolding kept_state
kept_states from resumed old i [] = []
kept_states from resumed old i (st ∷ sts) =
    kept_state from resumed i st (get_elem? old i) ∷ kept_states from resumed old (suc i) sts

unfoldable pub label_at : List TxStep → ℕ → Option String
label_at steps i = elim (get_elem? steps i) [ none ↦ none | some st ↦ some st.label ]

unfoldable pub start_state : List TxStep → ℕ → Bool → SeqState → SeqState
start_state steps' from resumed s = record {
  running = true;
  waiting = false;
  syncing = false;
  step = from;
  total = length steps';
  label = label_at steps' from;
  error_text = none;
  done = false;
  steps = kept_states from resumed s.steps 0 steps';
}

-- `s.steps.map((x, j) => (j === i ? change(x) : x))`
unfoldable pub change_at : ℕ → (TxStepState → TxStepState) → List TxStepState → List TxStepState
change_at i change [] = []
change_at zero change (x ∷ xs) = change x ∷ xs
change_at (suc i) change (x ∷ xs) = x ∷ change_at i change xs

unfoldable pub patch : List TxStep → ℕ → (TxStepState → TxStepState) → Tab → Tab
patch steps' i change t = record t {
  state = record t.state {
    step = i;
    label = label_at steps' i;
    steps = change_at i change t.state.steps;
  };
}

unfoldable pub set_syncing : ℕ → Bool → Tab → Tab
set_syncing i on t = record t {
  state = record t.state {
    syncing = on;
    steps =
        change_at i
          (λ (x : TxStepState). record x { note = if on then some wallet_sync_copy else none })
          t.state.steps;
  };
}

abbrev pub plain_error : String → Thrown
plain_error text =
    js_error
      (record {
        class = other_class;
        details = none;
        short_message = none;
        message = some text;
        data_message = none;
      })
      [] none
