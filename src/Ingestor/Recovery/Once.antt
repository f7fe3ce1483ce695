-- ===== src/Ingestor/Recovery/Once.antt =====
-- `run_once` of recovery.py, and the repair of the hot cache.
use live_forex_volatility_tr.Base.{
  ℕ, ◌+◌, Bool, true, false, ◌&&◌, not, Option, none, some, List, [], ◌∷◌, ◌++◌, ltb, ◌==◌,
  if◌then◌else◌, length, any, map, is_some,
}
use live_forex_volatility_tr.Base.Clock.{Instant, epoch_of}
use live_forex_volatility_tr.Base.Float.{Float}
use live_forex_volatility_tr.Base.Text.{Text}
use live_forex_volatility_tr.Base.Dict.{text_key, number_key, pair_key}
use live_forex_volatility_tr.Volatility.Bars.{Bar}
use live_forex_volatility_tr.Ingestor.Recovery.{
  hot_cache_bars, Window, recovery_window, Span, span_minutes,
}
use live_forex_volatility_tr.Ingestor.Recovery.Requests.{Request, plan_requests}
use live_forex_volatility_tr.Ingestor.Recovery.Cache.{cache_horizon, cache_would_take}
use live_forex_volatility_tr.Ingestor.Recovery.Report.{
  RunId, planned, partial, idle, skipped, dry_run, running, succeeded, Reason, empty_window,
  not_migrated, lock_held, nothing_missing, asked_within_hour, backing_off, SpanResult, rollups,
  Refresh, RunReport, new_report, RunRow, World,
}
use live_forex_volatility_tr.Ingestor.Recovery.Store.{
  abort_stale, finish_row, cached, cache_add, is_running,
}
use live_forex_volatility_tr.Ingestor.Recovery.Run.{RecoveryConfig, BackOff, request_all}
use live_forex_volatility_tr.Ingestor.Recovery.Steps.{
  Surroundings, missing_of, unblocked, stale_from, refresh_rollups, recovered_since,
}

-- `sum(s.minutes for s in spans)`
unfoldable pub sum_minutes : List Span → ℕ
unfolding span_minutes
sum_minutes [] = 0
sum_minutes (s ∷ spans) = span_minutes s + sum_minutes spans

unfoldable pub planned_result : Span → SpanResult
planned_result span = record {
  span = span;
  status = planned;
  received = 0;
  inserted = 0;
  present = 0;
  silent_minutes = 0;
  error = none;
}

-- The recovered rows whose minutes the cache would take.
unfoldable pub taken_rows : {F : Type 0} → List ℕ → List (Bar F × RunId) → List (Bar F × RunId)
taken_rows times [] = []
taken_rows times (r ∷ rows) =
    let rest = taken_rows times rows in
    if any (λ t. epoch_of r.0.bucket == t) times then r ∷ rest else rest

abbrev pub epochs : {F : Type 0} → List (Bar F × RunId) → List ℕ
epochs [] = []
epochs (r ∷ rows) = epoch_of r.0.bucket ∷ epochs rows

-- The row of `begin_run`.
unfoldable pub begun_row : RunId → Window → ℕ → RunRow
begun_row id window missing = record {
  id = id;
  status = running;
  window = window;
  minutes_missing = missing;
  report = none;
  error = none;
}

-- `self.blocked_until is not None and now < self.blocked_until`
unfoldable pub is_blocked : Instant → BackOff → Option Instant
is_blocked now b = elim b.blocked_until [
  | none ↦ none
  | some until ↦ if ltb now until then some until else none
]

-- A report, with the attributes and the world after the run.
pub record Outcome (F : Type 0) : Type 0 where
  pub report : RunReport
  pub back_off : BackOff
  pub world : World F

abbrev pub is_empty : {A : Type 0} → List A → Bool
is_empty [] = true
is_empty (x ∷ xs) = false

module _ {F : Type 0} ⦃f : Float F⦄ where
  -- `_cache_repairs`
  unfoldable pub cache_repairs : Instant → List Text → World F → List (Bar F × RunId)
  unfolding cache_horizon recovered_since cache_would_take taken_rows
  cache_repairs now [] world = []
  cache_repairs now (symbol ∷ symbols) world =
      let rows = recovered_since symbol (cache_horizon now) world.bars world.run_ids in
      taken_rows (cache_would_take hot_cache_bars (epochs rows) (cached symbol world)) rows
      ++ cache_repairs now symbols world

  -- `_repair_cache`: each row by itself.
  unfoldable pub repair_rows : List (Bar F × RunId) → World F → ℕ × World F
  unfolding cache_add
  repair_rows [] world = (0, world)
  repair_rows ((bar, id) ∷ rows) world =
      let first = cache_add bar.symbol (bar ∷ []) id world in
      let rest = repair_rows rows first.1 in (first.0 + rest.0, rest.1)

  unfoldable pub repair_cache : Instant → List Text → World F → ℕ × World F
  unfolding cache_repairs repair_rows
  repair_cache now symbols world = repair_rows (cache_repairs now symbols world) world

  -- The run that makes requests and writes, from `begin_run` to `finish_run`.
  unfoldable pub apply_run :
      RecoveryConfig
      → Surroundings F
      → List Text
      → Window
      → List Request
      → List Refresh
      → RunReport
      → BackOff
      → World F
      → Outcome F
  unfolding request_all refresh_rollups repair_cache finish_row begun_row
  apply_run cfg env symbols window requests stale report back_off world =
      let id = env.new_id in
      let begun = begun_row id window report.minutes_missing in
      let asked =
        request_all cfg id env.now requests env.turns
          (record report { run_id = some id; status = running }) back_off
          (record world { runs = begun ∷ world.runs }) in
      let rolled = refresh_rollups asked.changed stale env.now asked in
      let repaired = repair_cache env.now symbols rolled.world in
      let status =
        if is_running rolled.report.status
        then if asked.incomplete then partial else succeeded
        else rolled.report.status in
      let done = record rolled.report {
        status = status;
        cache_added = rolled.report.cache_added + repaired.0;
      } in
      record {
        report = done;
        back_off = asked.back_off;
        world = record repaired.1 { runs = finish_row id done asked.error repaired.1.runs };
      }

  -- The branches of `_locked` once everything is read.
  unfoldable pub decided :
      RecoveryConfig
      → Surroundings F
      → List Text
      → Bool
      → Window
      → List Span × List Span
      → List Request
      → List Refresh
      → List (Bar F × RunId)
      → RunReport
      → BackOff
      → World F
      → Outcome F
  unfolding apply_run planned_result
  decided cfg env symbols false window (spans, askable) requests stale repairs report back_off
        world =
      record {
        report = record report {
          spans = map planned_result spans;
          rollups_refreshed = stale;
          cache_added = length repairs;
        };
        back_off = back_off;
        world = world;
      }
  decided cfg env symbols true window (spans, askable) requests stale repairs report back_off
        world =
      let nothing_else = is_empty stale && is_empty repairs in
      if is_empty spans && nothing_else
      then record {
        report = record report { reason = some nothing_missing };
        back_off = back_off;
        world = world;
      }
      else if is_empty askable && nothing_else
      then record {
        report = record report { reason = some asked_within_hour };
        back_off = back_off;
        world = world;
      }
      else apply_run cfg env symbols window requests stale report back_off world

  -- `_locked`
  unfoldable pub locked :
      RecoveryConfig → Surroundings F → List Text → Bool → Window → BackOff → World F → Outcome F
  unfolding missing_of unblocked plan_requests stale_from cache_repairs sum_minutes decided
      abort_stale
  locked cfg env symbols apply window back_off world =
      let marked : ℕ × List RunRow = if apply then abort_stale world.runs else (0, world.runs) in
      let cleaned = record world { runs = marked.1 } in
      let spans = missing_of cfg env window cleaned symbols in
      let requests = unblocked env.now back_off (plan_requests spans.1 cfg.days_per_request) in
      let stale = stale_from env window cleaned.bars rollups in
      let repairs = if env.schema_ready then cache_repairs env.now symbols cleaned else [] in
      let report = record (new_report (if apply then idle else dry_run)) {
        window = some window;
        minutes_missing = sum_minutes spans.0;
        requests_planned = length requests;
        stale_runs_aborted = marked.0;
      } in
      decided cfg env symbols apply window spans requests stale repairs report back_off cleaned

  unfoldable pub skip : Reason → Option Window → BackOff → World F → Outcome F
  skip why window back_off world = record {
    report = record (new_report skipped) { reason = some why; window = window };
    back_off = back_off;
    world = world;
  }

  unfoldable pub in_window :
      RecoveryConfig
      → Surroundings F
      → List Text
      → Bool
      → Option Window
      → BackOff
      → World F
      → Outcome F
  unfolding locked skip
  in_window cfg env symbols apply none back_off world = skip empty_window none back_off world
  in_window cfg env symbols apply (some window) back_off world =
      if apply && not env.schema_ready
      then skip not_migrated (some window) back_off world
      else if env.lock_free
      then locked cfg env symbols apply window back_off world
      else skip lock_held (some window) back_off world

  -- `run_once`, with the window it is given or its own.
  unfoldable pub run_once :
      RecoveryConfig
      → Surroundings F
      → List Text
      → Bool
      → Option Window
      → BackOff
      → World F
      → Outcome F
  unfolding recovery_window in_window skip is_blocked
  run_once cfg env symbols apply window back_off world = elim (is_blocked env.now back_off) [
    | some until ↦ skip (backing_off until) none back_off world
    | none ↦
        let own = recovery_window env.now cfg.lookback cfg.horizon in
        in_window cfg env symbols apply (if is_some window then window else own) back_off world
  ]
