-- ===== src/Logs/Epochs.antt =====
-- `useEpochLogs` of apps/web/src/hooks/useLogs.ts: the five kinds of logs of a window of blocks, with the times of
-- their blocks, newest first. The node is a parameter.
use dca_protocol.Base.{
  ℕ, ◌-◌, ◌==◌, Bool, List, [], ◌∷◌, ◌++◌, map, Option, none, some, String, if◌then◌else◌, any,
  drop, length,
}
use mathlib.Core.List.{reverse}
use dca_protocol.Logs.Liveness.{Logged, scan_from}
use dca_protocol.Logs.Reasons.{SkipDecoders, describe_skip_reason}
use dca_protocol.Logs.Series.{EpochLog}

pub record PlanFilled : Type 0 where
  pub plan_id : ℕ
  pub epoch_id : ℕ
  pub spend_usdg : ℕ
  pub fee_usdg : ℕ
  pub stock_share : ℕ
  pub auto_distributed : Bool

pub record EpochPage : Type 0 where
  pub stock : String
  pub epoch_id : ℕ
  pub from_index : ℕ
  pub to_index : ℕ
  pub net_usdg : ℕ
  pub stock_out : ℕ
  pub plans_filled : ℕ

pub record BoostWithdrawFailed : Type 0 where
  pub stock : String
  pub epoch_id : ℕ
  pub usdg_requested : ℕ
  pub reason : Option String

pub record PlanTooLarge : Type 0 where
  pub plan_id : ℕ
  pub spend : ℕ
  pub cap : ℕ

pub record IdleWithdrawn : Type 0 where
  pub plan_id : ℕ
  pub usdg_amount : ℕ
  pub usdg_fee : ℕ

pub record FillLog : Type 0 where
  pub vault : String
  pub plan_id : ℕ
  pub epoch_id : ℕ
  pub spend_usdg : ℕ
  pub fee_usdg : ℕ
  pub stock_share : ℕ
  pub auto_distributed : Bool
  pub block_number : ℕ
  pub log_index : ℕ
  pub tx_hash : String
  pub timestamp : Option ℕ

pub record WithdrawLog : Type 0 where
  pub vault : String
  pub plan_id : ℕ
  pub usdg_fee : ℕ
  pub block_number : ℕ
  pub timestamp : Option ℕ

pub record BoostSkipLog : Type 0 where
  pub vault : String
  pub stock : String
  pub epoch_id : ℕ
  pub usdg_requested : ℕ
  pub reason : String
  pub block_number : ℕ
  pub log_index : ℕ
  pub tx_hash : String
  pub timestamp : Option ℕ

pub record TooLargeLog : Type 0 where
  pub vault : String
  pub plan_id : ℕ
  pub spend : ℕ
  pub cap : ℕ
  pub block_number : ℕ
  pub log_index : ℕ
  pub tx_hash : String
  pub timestamp : Option ℕ

-- What the node answers: the logs between two blocks, and the time of a block.
pub record EpochReads : Type 0 where
  pub fills : ℕ → ℕ → List (Logged PlanFilled)
  pub epochs : ℕ → ℕ → List (Logged EpochPage)
  pub boost_fails : ℕ → ℕ → List (Logged BoostWithdrawFailed)
  pub too_large : ℕ → ℕ → List (Logged PlanTooLarge)
  pub withdrawals : ℕ → ℕ → List (Logged IdleWithdrawn)
  pub block_time : ℕ → ℕ

pub record EpochLogs : Type 0 where
  pub fills : List FillLog
  pub epochs : List EpochLog
  pub boost_skips : List BoostSkipLog
  pub too_large : List TooLargeLog
  pub withdrawals : List WithdrawLog
  pub from_block : ℕ
  pub head : ℕ

-- `Array.from(new Set(ns))`: each once, at its first place.
unfoldable pub unique_from : List ℕ → List ℕ → List ℕ
unique_from seen [] = []
unique_from seen (n ∷ ns) =
    if any (λ m. m == n) seen then unique_from seen ns else n ∷ unique_from (n ∷ seen) ns

-- `ns.slice(-200)`
abbrev last_200 : List ℕ → List ℕ
last_200 ns = drop (length ns - 200) ns

abbrev blocks_of : {A : Type 0} → List (Logged A) → List ℕ
blocks_of logs = map (λ l. l.block_number) logs

-- The blocks whose times are read: the last two hundred, in the order of the kinds.
unfoldable pub timed_blocks : EpochReads → ℕ → ℕ → List ℕ
unfolding unique_from
timed_blocks node from head = last_200 (
    unique_from [] (
      blocks_of (node.fills from head)
      ++ (blocks_of (node.epochs from head)
          ++ (blocks_of (node.boost_fails from head)
              ++ (blocks_of (node.too_large from head)
                  ++ blocks_of (node.withdrawals from head))))))

-- `ts.get(blockNumber)`
unfoldable pub time_at : EpochReads → List ℕ → ℕ → Option ℕ
time_at node blocks b = if any (λ n. n == b) blocks then some (node.block_time b) else none

module _ (at : ℕ → Option ℕ) where
  unfoldable pub fill_log : Logged PlanFilled → FillLog
  fill_log l = record {
    vault = l.address;
    plan_id = l.args.plan_id;
    epoch_id = l.args.epoch_id;
    spend_usdg = l.args.spend_usdg;
    fee_usdg = l.args.fee_usdg;
    stock_share = l.args.stock_share;
    auto_distributed = l.args.auto_distributed;
    block_number = l.block_number;
    log_index = l.log_index;
    tx_hash = l.transaction_hash;
    timestamp = at l.block_number;
  }

  unfoldable pub epoch_log : Logged EpochPage → EpochLog
  epoch_log l = record {
    vault = l.address;
    stock = l.args.stock;
    epoch_id = l.args.epoch_id;
    from_index = l.args.from_index;
    to_index = l.args.to_index;
    net_usdg = l.args.net_usdg;
    stock_out = l.args.stock_out;
    plans_filled = l.args.plans_filled;
    block_number = l.block_number;
    log_index = l.log_index;
    tx_hash = l.transaction_hash;
    timestamp = at l.block_number;
  }

  unfoldable pub boost_skip_log : SkipDecoders → Logged BoostWithdrawFailed → BoostSkipLog
  boost_skip_log d l = record {
    vault = l.address;
    stock = l.args.stock;
    epoch_id = l.args.epoch_id;
    usdg_requested = l.args.usdg_requested;
    reason = describe_skip_reason d l.args.reason;
    block_number = l.block_number;
    log_index = l.log_index;
    tx_hash = l.transaction_hash;
    timestamp = at l.block_number;
  }

  unfoldable pub too_large_log : Logged PlanTooLarge → TooLargeLog
  too_large_log l = record {
    vault = l.address;
    plan_id = l.args.plan_id;
    spend = l.args.spend;
    cap = l.args.cap;
    block_number = l.block_number;
    log_index = l.log_index;
    tx_hash = l.transaction_hash;
    timestamp = at l.block_number;
  }

  unfoldable pub withdraw_log : Logged IdleWithdrawn → WithdrawLog
  withdraw_log l = record {
    vault = l.address;
    plan_id = l.args.plan_id;
    usdg_fee = l.args.usdg_fee;
    block_number = l.block_number;
    timestamp = at l.block_number;
  }

unfoldable pub epoch_logs : SkipDecoders → ℕ → EpochReads → ℕ → EpochLogs
epoch_logs d lookback node head' =
    let from = scan_from lookback head' in
    let at = time_at node (timed_blocks node from head') in
    record {
      fills = reverse (map (fill_log at) (node.fills from head'));
      epochs = reverse (map (epoch_log at) (node.epochs from head'));
      boost_skips = reverse (map (boost_skip_log at d) (node.boost_fails from head'));
      too_large = reverse (map (too_large_log at) (node.too_large from head'));
      withdrawals = reverse (map (withdraw_log at) (node.withdrawals from head'));
      from_block = from;
      head = head';
    }
