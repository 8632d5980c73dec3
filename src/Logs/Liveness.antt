-- ===== src/Logs/Liveness.antt =====
-- `planLiveness` and `usePlanIndex` of apps/web/src/hooks/useLogs.ts: which plans the vaults still iterate.
use dca_protocol.Base.{
  ℕ, ◌-◌, Bool, true, false, List, [], ◌∷◌, ◌++◌, map, String, ltb, if◌then◌else◌,
}
use dca_protocol.Base.Dict.{Dict, insert}
use dca_protocol.Base.Sort.{sort_by}
use dca_protocol.Base.Text.{template, decimal, to_lower}

-- `PlanIndexed` with `active`, `PlanClosed` with `unindexed`, `Deposited`.
pub data IndexEvent : Type 0 where
  plan_indexed : Bool → IndexEvent
  plan_closed : Bool → IndexEvent
  deposited : IndexEvent

pub record IndexLog : Type 0 where
  pub key : String
  pub block_number : ℕ
  pub log_index : ℕ
  pub event : IndexEvent

unfoldable pub plan_key : String → ℕ → String
plan_key vault plan_id = template (to_lower vault ∷ ":" ∷ decimal plan_id ∷ [])

-- Chain order: by block, then by the place in it.
unfoldable pub earlier : IndexLog → IndexLog → Bool
earlier a b =
    if ltb a.block_number b.block_number
    then true
    else if ltb b.block_number a.block_number
    then false
    else ltb a.log_index b.log_index

-- A close that only parked the plan changes nothing.
unfoldable pub noted : IndexEvent → String → Dict Bool → Dict Bool
noted (plan_indexed active) key live = insert key active live
noted deposited key live = insert key true live
noted (plan_closed true) key live = insert key false live
noted (plan_closed false) key live = live

unfoldable pub note_all : List IndexLog → Dict Bool → Dict Bool
note_all [] live = live
note_all (l ∷ logs) live = note_all logs (noted l.event l.key live)

unfoldable pub plan_liveness : List IndexLog → Dict Bool
plan_liveness logs = note_all (sort_by earlier logs) []

-- A log as the node returns it, with its decoded arguments.
pub record Logged (A : Type 0) : Type 0 where
  pub address : String
  pub block_number : ℕ
  pub log_index : ℕ
  pub transaction_hash : String
  pub args : A

pub record PlanFlag : Type 0 where
  pub plan_id : ℕ
  pub flag : Bool

abbrev flag_log : (Bool → IndexEvent) → Logged PlanFlag → IndexLog
flag_log f l = record {
  key = plan_key l.address l.args.plan_id;
  block_number = l.block_number;
  log_index = l.log_index;
  event = f l.args.flag;
}

abbrev deposit_log : Logged ℕ → IndexLog
deposit_log l = record {
  key = plan_key l.address l.args;
  block_number = l.block_number;
  log_index = l.log_index;
  event = deposited;
}

unfoldable pub index_logs :
    List (Logged PlanFlag) → List (Logged PlanFlag) → List (Logged ℕ) → List IndexLog
index_logs indexed closed deposits =
    map (flag_log plan_indexed) indexed
    ++ (map (flag_log plan_closed) closed ++ map deposit_log deposits)

-- The first block that is scanned.
unfoldable pub scan_from : ℕ → ℕ → ℕ
scan_from lookback head = if ltb lookback head then head - lookback else 0

-- The node's logs of each kind between two blocks.
pub record IndexReads : Type 0 where
  pub indexed : ℕ → ℕ → List (Logged PlanFlag)
  pub closed : ℕ → ℕ → List (Logged PlanFlag)
  pub deposits : ℕ → ℕ → List (Logged ℕ)

unfoldable pub plan_index : ℕ → IndexReads → ℕ → Dict Bool
plan_index lookback node head =
    let from_block = scan_from lookback head in
    plan_liveness (
      index_logs (node.indexed from_block head) (node.closed from_block head)
        (node.deposits from_block head))
