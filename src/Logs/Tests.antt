-- ===== src/Logs/Tests.antt =====
-- Concrete logs and plans for apps/web/src/hooks/useLogs.ts: runs, and the theorems applied to them.
use dca_protocol.Base.{
  ℕ, ◌+◌, Bool, true, false, List, [], ◌∷◌, Option, none, some, String, In, here, there, inl, inr,
  ◌≡◌, refl, arith, last_of,
}
use dca_protocol.Base.Dict.{Dict, lookup}
use dca_protocol.Base.Text.{template}
use dca_protocol.Logs.Liveness.{
  IndexLog, plan_indexed, plan_closed, deposited, IndexReads, Logged, PlanFlag, plan_liveness,
  plan_index,
}
use dca_protocol.Logs.Visible.{BalanceLike, visible_positions}
use dca_protocol.Logs.Latest.{latest, state_of, plan_liveness-eq-latest}
use dca_protocol.Logs.Hidden.{IsGone, visible_positions-IsGone}
use dca_protocol.Logs.Series.{
  EpochLog, millionths, cumulative_series, net_total, Climbs, cumulative_series-Climbs,
}
use dca_protocol.Logs.Reasons.{SkipDecoders, describe_skip_reason}
use dca_protocol.Logs.Epochs.{unique_from}

abbrev index_log : String → ℕ → ℕ → Bool → IndexLog
index_log k b i active = record {
  key = k;
  block_number = b;
  log_index = i;
  event = plan_indexed active;
}

abbrev parked : IndexLog
parked = record { key = "0xa:7"; block_number = 12; log_index = 0; event = plan_closed false }

-- The plan numbered 7 was dropped in block 11, before it was parked; its re-index is older.
abbrev some_logs : List IndexLog
some_logs =
    index_log "0xa:7" 11 4 false
    ∷ parked
    ∷ index_log "0xa:7" 9 0 true
    ∷ index_log "0xa:8" 3 1 true
    ∷ []

seven_dropped : lookup "0xa:7" (plan_liveness some_logs) ≡ some false
unfolding lookup plan_liveness dca_protocol.Base.Dict.insert dca_protocol.Base.Sort.sort_by
    dca_protocol.Base.Sort.sorted_insert dca_protocol.Logs.Liveness.earlier
    dca_protocol.Logs.Liveness.note_all dca_protocol.Logs.Liveness.noted
seven_dropped = refl

plan_liveness-eq-latest_example :
    lookup "0xa:7" (plan_liveness some_logs) ≡ state_of (latest "0xa:7" some_logs)
plan_liveness-eq-latest_example = plan_liveness-eq-latest "0xa:7" some_logs

abbrev spent : BalanceLike
spent = record { usdg_idle = 0; boost_value = 0; stock_accrued = 0 }

abbrev funded : BalanceLike
funded = record { usdg_idle = 0; boost_value = 5; stock_accrued = 0 }

abbrev all_plans : List (String × BalanceLike)
all_plans = ("0xa:7", spent) ∷ ("0xa:8", funded) ∷ []

only_eight :
    visible_positions
      (λ (p : String × BalanceLike). p.1)
      (λ p. p.0)
      all_plans
      (some (plan_liveness some_logs))
      ("0xa:8" ∷ [])
    ≡ ("0xa:8", funded) ∷ []
unfolding visible_positions dca_protocol.Logs.Visible.is_hidden_plan
    dca_protocol.Logs.Visible.looks_empty lookup plan_liveness dca_protocol.Base.Dict.insert
    dca_protocol.Base.Sort.sort_by dca_protocol.Base.Sort.sorted_insert
    dca_protocol.Logs.Liveness.earlier dca_protocol.Logs.Liveness.note_all
    dca_protocol.Logs.Liveness.noted
only_eight = refl

not_listed : ¬ In {A = String × BalanceLike} ("0xa:7", spent) (("0xa:8", funded) ∷ [])
not_listed (here e) = absurd (cc e)
not_listed (there m) = elim m [ ]

visible_positions-IsGone_example :
    IsGone (λ (p : String × BalanceLike). p.1) (λ p. p.0) some_logs ("0xa:8" ∷ []) ("0xa:7", spent)
visible_positions-IsGone_example =
    visible_positions-IsGone (λ p. p.1) (λ p. p.0) all_plans some_logs ("0xa:8" ∷ [])
      ("0xa:7", spent) (here refl) (rw only_eight not_listed)

abbrev bought_at : ℕ → ℕ → EpochLog
bought_at b n = record {
  vault = "0xa";
  stock = "0xb";
  epoch_id = b;
  from_index = 0;
  to_index = 1;
  net_usdg = n;
  stock_out = 1;
  plans_filled = 1;
  block_number = b;
  log_index = 0;
  tx_hash = "0xc";
  timestamp = none;
}

three_points :
    cumulative_series (some (bought_at 9 30 ∷ bought_at 4 20 ∷ [])) 100
    ≡ millionths 100 ∷ millionths 120 ∷ millionths 150 ∷ []
unfolding cumulative_series dca_protocol.Base.Sort.sort_by dca_protocol.Base.Sort.sorted_insert
three_points = refl

cumulative_series-Climbs_example :
    Climbs 100 (cumulative_series (some (bought_at 9 30 ∷ bought_at 4 20 ∷ [])) 100)
    × (last_of (cumulative_series (some (bought_at 9 30 ∷ bought_at 4 20 ∷ [])) 100)
        ≡ some (millionths (100 + net_total (bought_at 9 30 ∷ bought_at 4 20 ∷ []))))
cumulative_series-Climbs_example =
    cumulative_series-Climbs (bought_at 9 30) (bought_at 4 20 ∷ []) 100

abbrev no_decoder : SkipDecoders
no_decoder = record {
  strategy = λ raw. none;
  router = λ raw. none;
  vault = λ raw. none;
  error_text = λ raw. none;
}

plain_text : describe_skip_reason no_decoder (some "0x4869207e") ≡ "Hi ~"
unfolding describe_skip_reason dca_protocol.Base.Text.drop_text dca_protocol.Logs.Reasons.bytes_of
    dca_protocol.Logs.Reasons.raw_reason dca_protocol.Logs.Reasons.printable
plain_text = refl

no_text : describe_skip_reason no_decoder (some "0x07") ≡ "unknown error"
unfolding describe_skip_reason dca_protocol.Base.Text.drop_text dca_protocol.Logs.Reasons.bytes_of
    dca_protocol.Logs.Reasons.raw_reason
no_text = refl

each_once : unique_from [] (3 ∷ 5 ∷ 3 ∷ 9 ∷ 5 ∷ []) ≡ 3 ∷ 5 ∷ 9 ∷ []
unfolding unique_from
each_once = refl
