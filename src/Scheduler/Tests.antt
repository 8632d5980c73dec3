-- ===== src/Scheduler/Tests.antt =====
-- A small chain with one vault and one job, and the theorems at it.
use dca_protocol.Base.{
  ℕ, ◌+◌, ◌*◌, ◌≤◌, true, false, List, [], ◌∷◌, Option, none, some, String, ◌≡◌, refl, arith, ◌↔◌,
  ◌⊎◌, ◌/◌, ◌-◌, if◌then◌else◌, ◌==◌,
}
use dca_protocol.Base.Int.{pos, ◌≤ℤ◌, ◌<ℤ◌, ◌+ℤ◌}
use dca_protocol.Base.Text.{decimal, to_lower, template, drop_text}
use dca_protocol.Base.Dict.{Dict, lookup, insert}
use dca_protocol.Scheduler.Epoch.{VaultMeta, next_boundary, next_boundary_lem}
use dca_protocol.Scheduler.Types.{
  Job, Config, State, Seen, Receipt, epoch_page_executed, epoch_executed, job_run,
}
use dca_protocol.Scheduler.Monad.{
  ◌>>=◌, gets, await, await_or, match_option, pure, continue, modify, write_log, when, try_catch,
  recover,
}
use dca_protocol.Scheduler.Rpc.{Outcome, ok, Rpc, Viem}
use dca_protocol.Scheduler.Texts.{pair_key, fmt_dur, describe_skip_reason}
use dca_protocol.Scheduler.Time.{chain_now, boundary_passed}
use dca_protocol.Scheduler.Receipts.{summarize}
use dca_protocol.Scheduler.Delay.{soonest_boundary}
use dca_protocol.Scheduler.Caches.{
  vault_meta, stock_meta, label, read_clock, observe, date_now, is_stopping,
}
use dca_protocol.Scheduler.Uncovered.{
  Pair, count_all, count_batches, check_uncovered, collect_pairs, report_pairs, report_gone,
  distinct, pairs_of, covered_keys,
}
use dca_protocol.Scheduler.Loop.{
  run_due, run_round, run, tick, run_index, load_vaults, catch_up, look_for_uncovered, next_delay,
  announce,
}
use dca_protocol.Scheduler.Jobs.{run_job, run_pages, run_page, send_page, report_page}
use dca_protocol.Scheduler.Sending.{Counts}
use dca_protocol.Scheduler.Sending.Senders.{dry_run-sends_nothing, run_due-bounded}
use dca_protocol.Scheduler.Pace.{Paced, run_round-Paced, run_once-ends}
use dca_protocol.Scheduler.Wake.{IsSoonest, soonest_boundary-IsSoonest}
use dca_protocol.Scheduler.Clock.{Behind, boundary_passed_iff, chain_now_bounds}
use dca_protocol.Scheduler.Totals.{Totals, summarize-Totals}
use dca_protocol.Scheduler.Batches.{count_batches-eq-count_all}
use dca_protocol.Scheduler.Known.{vault_meta-again}

-- The world: its clock in seconds, and the transactions sent.
record World : Type 0 where
  clock : ℕ
  sent : ℕ

abbrev answer : {A : Type 0} → A → World → Outcome A × World
answer a w = (ok a, w)

abbrev daily_job : Job
daily_job = record { vault = "0xV1"; stock = "0xS1"; active = true }

abbrev page_receipt : Receipt
page_receipt = record {
  success = true;
  logs =
      record {
        address = "0xv1";
        vault_event = some (epoch_page_executed 100 7 3 20 0 3);
        keeper_event = none;
      }
      ∷ record { address = "0xother"; vault_event = some epoch_executed; keeper_event = none }
      ∷ record { address = "0xk"; vault_event = none; keeper_event = some (job_run false) }
      ∷ [];
}

-- The second page completes the epoch.
abbrev last_receipt : Receipt
last_receipt = record {
  success = true;
  logs = record { address = "0xV1"; vault_event = some epoch_executed; keeper_event = none } ∷ [];
}

abbrev receipt_of : World → Receipt
receipt_of w = if w.sent == 1 then page_receipt else last_receipt

abbrev send : World → Outcome String × World
send w = (ok "0xhash", record w { sent = w.sent + 1 })

abbrev chain : Rpc World
chain = record {
  date_now = λ w. (w.clock * 1000, w);
  stopping = λ w. false;
  sleep = λ d w. record w { clock = w.clock + d / 1000 };
  jobs = answer (daily_job ∷ []);
  due_jobs = answer (0 ∷ 5 ∷ []);
  block_timestamp = answer 86500;
  origin = λ v. answer 0;
  epoch_length = λ v. answer 86400;
  vault_kind = λ v. answer "daily";
  registry = λ v. answer "0xR";
  stock_symbol = λ r t. answer "NVDA";
  token_decimals = λ t. answer 18;
  token_symbol = λ t. answer "NVDA";
  approved_stocks = λ r. answer ("0xS1" ∷ "0xS2" ∷ []);
  stock_plan_count = λ v t. answer 4;
  simulate_run = λ i n. answer tt;
  write_run = λ i n. send;
  send_to_self = send;
  wait_receipt = λ h w. (ok (receipt_of w), w);
}

abbrev viem : Viem
viem = record { decode_error = λ a raw. none; format_units = λ v d. decimal v }

abbrev config : Config
config = record {
  rpc_url = "http://127.0.0.1:8545";
  private_key = some "0xkey";
  keeper = none;
  poll_interval_ms = 30000;
  boundary_grace_ms = 3000;
  max_pages_per_job = 20;
  page_limit = 0;
  tx_timeout_ms = 120000;
  uncovered_check_ms = 300000;
  dry_run = false;
  once = false;
}

abbrev fresh : State
fresh = record {
  usdg_decimals = 6;
  vaults = [];
  stocks = [];
  seen = none;
  announced_boundary = none;
  uncovered = [];
  last_uncovered_check = 0;
  log = [];
}

abbrev start : World
start = record { clock = 86520; sent = 0 }

chain-Counts : Counts (λ w. w.sent) chain
chain-Counts = record {
  date_now = λ w. refl;
  sleep = λ d w. refl;
  jobs = record { grows = λ w. omega arith; bound = λ w. omega arith };
  due_jobs = record { grows = λ w. omega arith; bound = λ w. omega arith };
  block_timestamp = record { grows = λ w. omega arith; bound = λ w. omega arith };
  origin = λ v. record { grows = λ w. omega arith; bound = λ w. omega arith };
  epoch_length = λ v. record { grows = λ w. omega arith; bound = λ w. omega arith };
  vault_kind = λ v. record { grows = λ w. omega arith; bound = λ w. omega arith };
  registry = λ v. record { grows = λ w. omega arith; bound = λ w. omega arith };
  stock_symbol = λ r t. record { grows = λ w. omega arith; bound = λ w. omega arith };
  token_decimals = λ t. record { grows = λ w. omega arith; bound = λ w. omega arith };
  token_symbol = λ t. record { grows = λ w. omega arith; bound = λ w. omega arith };
  approved_stocks = λ r. record { grows = λ w. omega arith; bound = λ w. omega arith };
  stock_plan_count = λ v t. record { grows = λ w. omega arith; bound = λ w. omega arith };
  simulate_run = λ i n. record { grows = λ w. omega arith; bound = λ w. omega arith };
  write_run = λ i n. record { grows = λ w. omega arith; bound = λ w. omega arith };
  send_to_self = record { grows = λ w. omega arith; bound = λ w. omega arith };
  wait_receipt = λ h. record { grows = λ w. omega arith; bound = λ w. omega arith };
}

fmt_dur_days : fmt_dur (pos 93784) ≡ "1d 2h"
unfolding fmt_dur template decimal
fmt_dur_days = refl

-- A round runs the due job's two pages, passes over the index with no job, and sleeps.
round_sends : (run_round chain viem config fresh start).2.sent ≡ 2
unfolding run_round tick run_due run_index run_job run_pages run_page send_page report_page
    load_vaults catch_up look_for_uncovered next_delay announce check_uncovered collect_pairs
    count_all count_batches report_pairs report_gone label vault_meta stock_meta read_clock observe
    date_now is_stopping ◌>>=◌ gets await await_or match_option pure continue modify write_log when
    try_catch recover lookup insert to_lower summarize distinct pairs_of covered_keys pair_key
    template soonest_boundary
round_sends = refl

-- The ASCII of "illiquid".
skip_ascii : describe_skip_reason viem (some "0x696c6c6971756964") ≡ "illiquid"
unfolding describe_skip_reason drop_text template
skip_ascii = refl

dry_run-sends_nothing_example :
    (run chain viem (record config { dry_run = true }) 3 fresh start).2.sent ≡ 0
dry_run-sends_nothing_example =
    dry_run-sends_nothing chain chain-Counts viem (record config { dry_run = true }) refl 3 fresh
      start

run_due-bounded_example :
    let after = (run_due chain viem config (daily_job ∷ []) (0 ∷ 5 ∷ []) fresh start).2.sent in
    (0 ≤ after) × (after ≤ 40)
run_due-bounded_example =
    run_due-bounded (λ w. w.sent) chain chain-Counts viem config (daily_job ∷ []) (0 ∷ 5 ∷ []) fresh
      start

run_round-Paced_example :
    (o : Option ℕ) × ((run_round chain viem config fresh start).0 ≡ ok o)
    × Paced chain viem config o
run_round-Paced_example = run_round-Paced chain viem config fresh start

run_once-ends_example : (run chain viem (record config { once = true }) 1 fresh start).0 ≡ true
run_once-ends_example = run_once-ends chain viem (record config { once = true }) 0 fresh start refl

abbrev daily : VaultMeta
daily = record { address = "0xV1"; kind = "daily"; origin = 0; epoch_length = 86400 }

abbrev known_vaults : Dict VaultMeta
known_vaults = ("0xv1", daily) ∷ []

next_boundary_lem_example :
    (pos 86520 <ℤ next_boundary daily 86520) × (next_boundary daily 86520 ≤ℤ pos 86520 +ℤ pos 86400)
next_boundary_lem_example = next_boundary_lem daily (omega arith) 86520

soonest_boundary-IsSoonest_example :
    IsSoonest known_vaults 86520
      (daily_job ∷ [])
      (soonest_boundary known_vaults 86520 (daily_job ∷ []) [] none)
soonest_boundary-IsSoonest_example = soonest_boundary-IsSoonest known_vaults 86520 (daily_job ∷ [])

boundary_passed_iff_example :
    (boundary_passed known_vaults 86520 86300 (daily_job ∷ []) ≡ true)
    ↔ Behind known_vaults 86520 86300 (daily_job ∷ [])
unfolding lookup to_lower
boundary_passed_iff_example =
    boundary_passed_iff known_vaults 86520 86300 (daily_job ∷ []) ((λ m e. ground arith), tt)

chain_now_bounds_example :
    let seen : Seen = record { ts = 90000; seen_at_ms = 86500000 } in
    (86520000 / 1000 ≤ chain_now (some seen) 86520000 86520000)
    × (90000 ≤ chain_now (some seen) 86520000 86520000)
    × ((chain_now (some seen) 86520000 86520000 ≡ 86520000 / 1000)
        ⊎ (chain_now (some seen) 86520000 86520000 ≡ 90000 + (86520000 - 86500000) / 1000))
chain_now_bounds_example =
    chain_now_bounds (record { ts = 90000; seen_at_ms = 86500000 }) 86520000 (omega arith)

summarize-Totals_example :
    Totals viem 6 page_receipt daily_job (summarize viem 6 page_receipt daily_job)
summarize-Totals_example = summarize-Totals viem 6 page_receipt daily_job

abbrev two_pairs : List Pair
two_pairs =
    record { vault = "0xV1"; stock = "0xS2" } ∷ record { vault = "0xV1"; stock = "0xS3" } ∷ []

count_batches-eq-count_all_example : count_batches chain 2 two_pairs ≡ count_all chain two_pairs
count_batches-eq-count_all_example = count_batches-eq-count_all chain 2 two_pairs (omega arith)

vault_meta-again_example :
    vault_meta chain "0xV1" (vault_meta chain "0xV1" fresh start).1 start
    ≡ (ok daily, (vault_meta chain "0xV1" fresh start).1, start)
unfolding vault_meta ◌>>=◌ gets await await_or match_option pure continue modify lookup
vault_meta-again_example = vault_meta-again chain "0xV1" daily fresh start start refl
