-- ===== src/Scheduler/Rpc.antt =====
-- What the scheduler calls and does not implement: the chain behind viem's clients, the clock, and
-- viem's decoding and formatting. `W` is the outside world, which every call may change; `stopping`
-- is the flag that a signal handler sets through `stop()` while some call is awaited.
use dca_protocol.Base.{ℕ, Bool, List, Option, String}
use dca_protocol.Scheduler.Types.{Job, Abi, Decoded, Failure, Receipt}

-- The result of an awaited call.
pub data Outcome {ℓ} (A : Type ℓ) : Type ℓ where
  ok : A → Outcome A
  raised : Failure → Outcome A

-- The answer of an awaited call, and the world after it.
abbrev pub Reply : Type 0 → Type 0 → Type 0
Reply W A = W → Outcome A × W

pub record Rpc (W : Type 0) : Type 0 where
  pub date_now : W → ℕ × W
  pub stopping : W → Bool
  pub sleep : ℕ → W → W
  pub jobs : Reply W (List Job)
  pub due_jobs : Reply W (List ℕ)
  pub block_timestamp : Reply W ℕ
  pub origin : String → Reply W ℕ
  pub epoch_length : String → Reply W ℕ
  pub vault_kind : String → Reply W String
  pub registry : String → Reply W String
  pub stock_symbol : String → String → Reply W String
  pub token_decimals : String → Reply W ℕ
  pub token_symbol : String → Reply W String
  pub approved_stocks : String → Reply W (List String)
  pub stock_plan_count : String → String → Reply W ℕ
  pub simulate_run : ℕ → ℕ → Reply W (Unit {0})
  pub write_run : ℕ → ℕ → Reply W String
  pub send_to_self : Reply W String
  pub wait_receipt : String → Reply W Receipt

-- viem's pure functions: `decodeErrorResult` (`none` when it throws) and `formatUnits`.
pub record Viem : Type 0 where
  pub decode_error : Abi → String → Option Decoded
  pub format_units : ℕ → ℕ → String
