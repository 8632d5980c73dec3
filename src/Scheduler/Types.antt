-- ===== src/Scheduler/Types.antt =====
-- The data of apps/scheduler/src/scheduler.ts: jobs, caches, the class's fields, the decoded events
-- of a receipt, and the settings of apps/scheduler/src/config.ts.
use dca_protocol.Base.{ℕ, Bool, List, Option, String}
use dca_protocol.Base.Int.{ℤ}
use dca_protocol.Scheduler.Epoch.{VaultMeta}

pub record Job : Type 0 where
  pub vault : String
  pub stock : String
  pub active : Bool

pub record StockMeta : Type 0 where
  pub symbol : String
  pub decimals : ℕ

-- The latest block seen, and the wall clock when it was first seen.
pub record Seen : Type 0 where
  pub ts : ℕ
  pub seen_at_ms : ℕ

pub record Uncovered : Type 0 where
  pub plans : ℕ
  pub label : String

-- Times are in whole milliseconds.
pub record Config : Type 0 where
  pub rpc_url : String
  pub private_key : Option String
  pub keeper : Option String
  pub poll_interval_ms : ℕ
  pub boundary_grace_ms : ℕ
  pub max_pages_per_job : ℕ
  pub page_limit : ℕ
  pub tx_timeout_ms : ℕ
  pub uncovered_check_ms : ℕ
  pub dry_run : Bool
  pub once : Bool

pub data Level : Type 0 where
  info warn error debug : Level

-- A line of the log: its level and message; the `key=value` fields behind the message are left out.
pub record Line : Type 0 where
  pub level : Level
  pub message : String

-- The fields of the class that change; the log is kept newest first.
pub record State : Type 0 where
  pub usdg_decimals : ℕ
  pub vaults : List (String × VaultMeta)
  pub stocks : List (String × StockMeta)
  pub seen : Option Seen
  pub announced_boundary : Option ℤ
  pub uncovered : List (String × Uncovered)
  pub last_uncovered_check : ℕ
  pub log : List Line

-- The contracts whose error tables are searched.
pub data Abi : Type 0 where
  plan_vault aggregator_router stock_registry morpho_blue_strategy error_string : Abi

-- A decoded custom error.
pub record Decoded : Type 0 where
  pub error_name : String
  pub args : List String

-- What a call can throw: viem's revert, another viem error, an `Error`, or any other value.
pub data Failure : Type 0 where
  reverted :
      (decoded : Option Decoded) (raw reason : Option String) (short_message : String) → Failure
  base_error : String → Failure
  js_error : String → Failure
  thrown : String → Failure

pub data VaultEvent : Type 0 where
  epoch_page_executed :
      (net_usdg stock_out plans_filled epoch_id from_index to_index : ℕ) → VaultEvent
  epoch_executed : VaultEvent
  plan_too_large : (plan_id spend cap : ℕ) → VaultEvent
  boost_withdraw_failed : (usdg_requested : ℕ) (reason : Option String) → VaultEvent
  other_vault_event : VaultEvent

pub data KeeperEvent : Type 0 where
  job_run : (completed : Bool) → KeeperEvent
  tips_forwarded : (amount : ℕ) → KeeperEvent

-- A log of a receipt, with what viem decodes it to by the vault's and by the keeper's ABI.
pub record EventLog : Type 0 where
  pub address : String
  pub vault_event : Option VaultEvent
  pub keeper_event : Option KeeperEvent

pub record Receipt : Type 0 where
  pub success : Bool
  pub logs : List EventLog
