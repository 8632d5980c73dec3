-- ===== src/Wallet/Chain.antt =====
-- What apps/web/src/hooks/useTx.ts asks of the wallet and of the node, which are parameters, and the state
-- of a sequence.
use dca_protocol.Base.{ℕ, Bool, false, List, [], Option, none, String}
use dca_protocol.Base.Dict.{Dict}
use dca_protocol.Plan.Steps.{TxParams, TxStep}
use dca_protocol.Wallet.Errors.{Thrown, SendConflict}
use dca_protocol.Wallet.Sync.{MinedTx, Answer}

pub data Tried (A : Type 0) : Type 0 where
  ok : A → Tried A
  threw : Thrown → Tried A

-- Why another transaction stands in the place of the one that was sent.
pub data ReplaceReason : Type 0 where
  repriced : ReplaceReason
  cancelled : ReplaceReason
  replaced : ReplaceReason

-- The receipt, and the transaction that took the sent one's place, if any, with its nonce.
pub record Mined : Type 0 where
  pub success : Bool
  pub from : String
  pub transaction_hash : String
  pub block_number : ℕ
  pub replacement : Option (ReplaceReason × ℕ)

-- A world that answers. A sequence reads and writes nothing else.
pub record Chain (W : Type 0) : Type 0 where
  pub now : W → ℕ
  -- Whether the preparation of a step is aborted before it is over.
  pub aborted : W → Bool × W
  -- What the wallet answers to the wait for its count, if it can be reached.
  pub wallet_answers : MinedTx → W → Option (List Answer) × W
  pub estimate_gas : TxParams → W → Tried ℕ × W
  -- The account's pending transaction count at the node, if it can be read.
  pub pending_count : W → Option ℕ × W
  pub send : TxParams → Option ℕ → W → Tried String × W
  -- The nonce of a transaction, if the node knows it.
  pub transaction_nonce : String → W → Option ℕ × W
  pub wait_for_receipt : String → W → Tried Mined × W
  pub simulate : TxParams → ℕ → W → Tried (Unit {0}) × W

pub data Phase : Type 0 where
  todo : Phase
  signing : Phase
  mining : Phase
  done : Phase
  error : Phase

pub record TxStepState : Type 0 where
  pub label : String
  pub phase : Phase
  pub hash : Option String
  pub error_text : Option String
  pub error_name : Option String
  pub note : Option String
  pub conflict : Option SendConflict
  pub maybe_sent : Option Bool

pub record SeqState : Type 0 where
  pub running : Bool
  pub step : ℕ
  pub total : ℕ
  pub label : Option String
  pub error_text : Option String
  pub done : Bool
  pub steps : List TxStepState
  pub waiting : Bool
  pub syncing : Bool

abbrev pub idle : SeqState
idle = record {
  running = false;
  step = 0;
  total = 0;
  label = none;
  error_text = none;
  done = false;
  steps = [];
  waiting = false;
  syncing = false;
}

-- The steps of the current run and where it stopped; a hash when it stopped on a slow receipt.
pub record RunRef : Type 0 where
  pub steps : List TxStep
  pub failed_at : Option ℕ
  pub waiting_hash : Option String

-- The hook's state and refs, and the mined transactions that the tab remembers.
pub record Tab : Type 0 where
  pub state : SeqState
  pub run_ref : Option RunRef
  pub active : Bool
  pub mined : Dict MinedTx
