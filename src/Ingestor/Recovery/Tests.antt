-- ===== src/Ingestor/Recovery/Tests.antt =====
-- A run of recovery over a few minutes of one pair, and a small hot cache.
use live_forex_volatility_tr.Base.{
  ℕ, zero, suc, ◌+◌, ◌*◌, ◌≤◌, ◌≡◌, inl, refl, Bool, true, false, none, List, [], ◌∷◌, All, length,
  arith,
}
use live_forex_volatility_tr.Base.Clock.{Instant}
use live_forex_volatility_tr.Base.Text.{Text, codes}
use live_forex_volatility_tr.Fixtures.{hundredths}
use live_forex_volatility_tr.Volatility.Bars.{Bar, backfill}
use live_forex_volatility_tr.Ingestor.Recovery.{
  minute, floor_minute, recovery_window, Span, missing_spans, is_missing,
}
use live_forex_volatility_tr.Ingestor.Recovery.Requests.{Request, plan_requests}
use live_forex_volatility_tr.Ingestor.Recovery.Days.{IsAligned}
use live_forex_volatility_tr.Ingestor.Recovery.Asking.{asks_of}
use live_forex_volatility_tr.Ingestor.Recovery.Planned.{plan_requests-IsSized, IsSized}
use live_forex_volatility_tr.Ingestor.Recovery.Aligned.{minutes_of}
use live_forex_volatility_tr.Ingestor.Recovery.Eligible.{planned_minutes}
use live_forex_volatility_tr.Ingestor.Recovery.Cache.{SortedSet, cache_add_script, cache_would_take}
use live_forex_volatility_tr.Ingestor.Recovery.Cache.Script.{
  IsBounded, newest_with_all, cache_add_script-newest,
}
use live_forex_volatility_tr.Ingestor.Recovery.Cache.Batch.{cache_would_take-add}
use live_forex_volatility_tr.Ingestor.Recovery.Report.{
  World, RunReport, new_report, running, entitlement_error,
}
use live_forex_volatility_tr.Ingestor.Recovery.Fetch.{bars, refusal}
use live_forex_volatility_tr.Ingestor.Recovery.Run.{RecoveryConfig, Turn, BackOff, request_all}
use live_forex_volatility_tr.Ingestor.Recovery.Follows.{Obeys}
use live_forex_volatility_tr.Ingestor.Recovery.Obedience.{request_all-Obeys}
use live_forex_volatility_tr.Ingestor.Recovery.Accounting.{AddsUp, request_all-AddsUp}
use live_forex_volatility_tr.Ingestor.Recovery.Steps.{Surroundings}
use live_forex_volatility_tr.Ingestor.Recovery.Once.{run_once}
use live_forex_volatility_tr.Ingestor.Recovery.Safe.{IsSafe, run_once-IsSafe}
use live_forex_volatility_tr.Ingestor.Recovery.Dry.{Leaves, run_once-Leaves}

abbrev eurusd : Text
eurusd = codes "EURUSD"

abbrev gbpusd : Text
gbpusd = codes "GBPUSD"

abbrev always : Instant → Bool
always m = true

-- Minutes 990 to 997 may be asked for; there is a bar for 994.
planned_minutes_example :
    asks_of eurusd (995 * minute) (
      plan_requests
        (missing_spans eurusd
          (minutes_of always (recovery_window (1_000 * minute) (10 * minute) (2 * minute)))
          (994 * minute ∷ [])
          [])
        3)
    ≡ 1
unfolding is_missing floor_minute
planned_minutes_example =
    planned_minutes eurusd (995 * minute) (1_000 * minute) (10 * minute) (2 * minute) 3 always
      (994 * minute ∷ []) [] (omega arith) (omega arith)

abbrev span_at : Text → ℕ → ℕ → Span
span_at symbol first steps = record {
  symbol = symbol;
  start = first * minute;
  end = first * minute + steps * minute;
}

abbrev aligned_at : (symbol : Text) (first steps : ℕ) → IsAligned (span_at symbol first steps)
aligned_at symbol first steps = record {
  first = first;
  steps = steps;
  start_is = refl;
  end_is = refl;
}

-- A span over three days, and one of another pair.
abbrev long_spans : List Span
long_spans = span_at eurusd 1_000 2_000 ∷ span_at gbpusd 1_439 1 ∷ []

plan_requests-IsSized_example : All (IsSized 1) (plan_requests long_spans 1)
plan_requests-IsSized_example =
    plan_requests-IsSized long_spans 1 (omega arith)
      (aligned_at eurusd 1_000 2_000, (aligned_at gbpusd 1_439 1, tt))

abbrev two_cached : SortedSet ℕ
two_cached = (60, 1) ∷ (180, 2) ∷ []

two_cached-IsBounded : IsBounded 2 two_cached
two_cached-IsBounded = record { ascends = ((omega arith, tt), (tt, tt)); within = omega arith }

-- The lowest goes, and a minute that is there stays as it is.
cache_add_script-newest_example :
    (cache_add_script 2 ((120, 3) ∷ (180, 4) ∷ []) two_cached).1
    ≡ newest_with_all 2 ((120, 3) ∷ (180, 4) ∷ []) two_cached
cache_add_script-newest_example =
    cache_add_script-newest 2 ((120, 3) ∷ (180, 4) ∷ []) two_cached (omega arith)
      two_cached-IsBounded

cache_would_take-add_example :
    (cache_add_script 2 ((120, 3) ∷ (180, 4) ∷ (240, 5) ∷ []) two_cached).0
    ≡ length (cache_would_take 2 (120 ∷ 180 ∷ 240 ∷ []) two_cached)
cache_would_take-add_example =
    cache_would_take-add 2 ((120, 3) ∷ (180, 4) ∷ (240, 5) ∷ []) two_cached (omega arith)
      ((omega arith, (omega arith, tt)), ((omega arith, tt), (tt, tt))) two_cached-IsBounded

abbrev cfg : RecoveryConfig
cfg = record {
  lookback = 10 * minute;
  horizon = 2 * minute;
  max_requests = 2;
  days_per_request = 3;
  include_settled = false;
}

abbrev bar_at : Text → ℕ → Bar ℕ
bar_at symbol m = record {
  symbol = symbol;
  bucket = m * minute;
  open_price = 110;
  high = 112;
  low = 109;
  close = 111;
  tick_count = 0;
  sum_ret = 0;
  sum_ret_sq = 0;
  source = backfill;
}

-- The first request is answered in part, the second refused.
abbrev turns : ℕ → Turn ℕ
turns zero = record { stopped = false; granted = true; reply = bars (bar_at eurusd 991 ∷ []) }
turns (suc i) = record { stopped = false; granted = true; reply = refusal entitlement_error }

abbrev empty_world : World ℕ
empty_world = record {
  bars = [];
  run_ids = [];
  runs = [];
  spans = [];
  cache = [];
  refreshed = [];
  asked = [];
}

abbrev env : Surroundings ℕ
env = record {
  now = 1_000 * minute;
  new_id = 7;
  schema_ready = true;
  lock_free = true;
  is_open = always;
  turns = turns;
  stale_buckets = λ bars view range. none;
}

abbrev no_back_off : BackOff
no_back_off = record { blocked_until = none; symbol_blocked_until = [] }

abbrev requests : List Request
requests =
    record { symbol = eurusd; spans = span_at eurusd 990 2 ∷ [] }
    ∷ record { symbol = gbpusd; spans = span_at gbpusd 990 2 ∷ [] }
    ∷ record { symbol = gbpusd; spans = span_at gbpusd 9_990 2 ∷ [] }
    ∷ []

abbrev report : RunReport
report = new_report running

request_all-Obeys_example :
    (length
        (request_all cfg 7
          (1_000 * minute)
          requests
          turns
          report
          no_back_off
          empty_world).world.asked
      ≤ 2)
    × Obeys
        (request_all cfg 7
          (1_000 * minute)
          requests
          turns
          report
          no_back_off
          empty_world).world.asked
request_all-Obeys_example =
    request_all-Obeys cfg 7 (1_000 * minute) requests turns report no_back_off empty_world refl

abbrev counts : RunReport → List ℕ
counts r = r.requests ∷ r.bars_inserted ∷ r.minutes_silent ∷ []

-- The first request stores its one bar, and two of its minutes are silent; the second is refused.
counts_run :
    counts (request_all cfg 7 (1_000 * minute) requests turns report no_back_off empty_world).report
    ≡ 2 ∷ 1 ∷ 2 ∷ []
unfolding request_all new_report
counts_run = refl

spans_run :
    missing_spans eurusd
      (990 * minute ∷ 991 * minute ∷ 992 * minute ∷ 994 * minute ∷ [])
      (991 * minute ∷ [])
      []
    ≡ span_at eurusd 990 0 ∷ span_at eurusd 992 0 ∷ span_at eurusd 994 0 ∷ []
unfolding missing_spans
spans_run = refl

report-AddsUp : AddsUp report
unfolding new_report
report-AddsUp = record { spans_balanced = tt; received_is = refl }

request_all-AddsUp_example :
    AddsUp (request_all cfg 7 (1_000 * minute) requests turns report no_back_off empty_world).report
request_all-AddsUp_example =
    request_all-AddsUp cfg 7 (1_000 * minute) requests turns report no_back_off empty_world
      report-AddsUp

run_once-IsSafe_example :
    IsSafe [] (run_once cfg env (eurusd ∷ []) true none no_back_off empty_world).world
run_once-IsSafe_example = run_once-IsSafe cfg env (eurusd ∷ []) true none no_back_off empty_world tt

run_once-Leaves_example :
    Leaves no_back_off empty_world
      (run_once cfg env (eurusd ∷ []) false none no_back_off empty_world)
run_once-Leaves_example =
    run_once-Leaves cfg env (eurusd ∷ []) no_back_off empty_world false none (inl refl)
