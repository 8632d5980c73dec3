-- ===== src/Scheduler/Receipts.antt =====
-- `summarize` of apps/scheduler/src/scheduler.ts: what a page's receipt says was done.
use dca_protocol.Base.{
  ℕ, ◌+◌, ltb, Bool, true, false, ◌||◌, List, [], ◌∷◌, ◌++◌, Option, none, some, String,
  if◌then◌else◌,
}
use dca_protocol.Base.Text.{template, decimal, to_lower, str_eq}
use dca_protocol.Scheduler.Types.{
  Job, VaultEvent, epoch_page_executed, epoch_executed, plan_too_large, boost_withdraw_failed,
  other_vault_event, KeeperEvent, job_run, tips_forwarded, EventLog, Receipt,
}
use dca_protocol.Scheduler.Rpc.{Viem}
use dca_protocol.Scheduler.Texts.{describe_skip_reason}

pub record Summary : Type 0 where
  pub net_usdg : ℕ
  pub stock_out : ℕ
  pub plans_filled : ℕ
  pub epoch_id : Option ℕ
  pub from : Option ℕ
  pub to : Option ℕ
  pub too_large : List String
  pub boost_failed : List String
  pub completed : Bool
  pub tips : ℕ

abbrev pub no_events : Summary
no_events = record {
  net_usdg = 0;
  stock_out = 0;
  plans_filled = 0;
  epoch_id = none;
  from = none;
  to = none;
  too_large = [];
  boost_failed = [];
  completed = false;
  tips = 0;
}

abbrev pub lower_of : Option ℕ → ℕ → ℕ
lower_of none i = i
lower_of (some from) i = if ltb from i then from else i

abbrev pub upper_of : Option ℕ → ℕ → ℕ
upper_of none i = i
upper_of (some to) i = if ltb to i then i else to

module _ (viem : Viem) (usdg_decimals : ℕ) where
  abbrev too_large_text : ℕ → ℕ → ℕ → String
  too_large_text plan_id spend cap = template (
      "plan "
      ∷ decimal plan_id
      ∷ ": "
      ∷ viem.format_units spend usdg_decimals
      ∷ " > cap "
      ∷ viem.format_units cap usdg_decimals
      ∷ " USDG"
      ∷ [])

  abbrev boost_failed_text : ℕ → Option String → String
  boost_failed_text requested reason = template (
      viem.format_units requested usdg_decimals ∷ " USDG: " ∷ describe_skip_reason viem reason ∷ [])

  unfoldable pub add_vault_event : Summary → VaultEvent → Summary
  add_vault_event s (epoch_page_executed net stock plans epoch from to) = record s {
    net_usdg = s.net_usdg + net;
    stock_out = s.stock_out + stock;
    plans_filled = s.plans_filled + plans;
    epoch_id = some epoch;
    from = some (lower_of s.from from);
    to = some (upper_of s.to to);
  }
  add_vault_event s epoch_executed = record s { completed = true }
  add_vault_event s (plan_too_large plan_id spend cap) = record s {
    too_large = s.too_large ++ too_large_text plan_id spend cap ∷ [];
  }
  add_vault_event s (boost_withdraw_failed requested reason) = record s {
    boost_failed = s.boost_failed ++ boost_failed_text requested reason ∷ [];
  }
  add_vault_event s other_vault_event = s

  unfoldable pub add_vault_events : Summary → List VaultEvent → Summary
  add_vault_events s [] = s
  add_vault_events s (e ∷ es) = add_vault_events (add_vault_event s e) es

unfoldable pub add_keeper_events : Summary → List KeeperEvent → Summary
add_keeper_events s [] = s
add_keeper_events s (job_run completed ∷ es) =
    add_keeper_events (record s { completed = s.completed || completed }) es
add_keeper_events s (tips_forwarded amount ∷ es) =
    add_keeper_events (record s { tips = s.tips + amount }) es

abbrev pub prepend {ℓ} : {A : Type ℓ} → Option A → List A → List A
prepend none xs = xs
prepend (some x) xs = x ∷ xs

-- The vault's events: only the logs that the job's own vault emitted.
unfoldable pub vault_events : String → List EventLog → List VaultEvent
vault_events vault [] = []
vault_events vault (l ∷ ls) =
    let rest = vault_events vault ls in
    if str_eq (to_lower l.address) (to_lower vault) then prepend l.vault_event rest else rest

unfoldable pub keeper_events : List EventLog → List KeeperEvent
keeper_events [] = []
keeper_events (l ∷ ls) = prepend l.keeper_event (keeper_events ls)

unfoldable pub summarize : Viem → ℕ → Receipt → Job → Summary
unfolding add_vault_events add_vault_event add_keeper_events vault_events keeper_events
summarize viem usdg_decimals receipt job =
    add_keeper_events
      (add_vault_events viem usdg_decimals no_events (vault_events job.vault receipt.logs))
      (keeper_events receipt.logs)

-- `range`, when a page was executed.
abbrev pub range_of : Summary → Option String
range_of s = elim s.from [
  | none ↦ none
  | some from ↦ elim s.to [
    | none ↦ none
    | some to ↦ some (template (decimal from ∷ "-" ∷ decimal to ∷ []))
  ]
]
