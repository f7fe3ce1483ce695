-- ===== src/Ingestor/Recovery/Report.antt =====
-- The reports, tables and statuses of recovery.py: `bars_1m` with its column `recovery_run_id`, the
-- two tables of runs and spans, and the hot cache of each symbol.
use live_forex_volatility_tr.Base.{ℕ, ◌*◌, Option, none, List, [], ◌∷◌}
use live_forex_volatility_tr.Base.Clock.{Instant}
use live_forex_volatility_tr.Base.Text.{Text}
use live_forex_volatility_tr.Base.Dict.{Dict, text_key, number_key, pair_key}
use live_forex_volatility_tr.Worker.Table.{Table, RowKey}
use live_forex_volatility_tr.Ingestor.Recovery.{minute, Window, Span}
use live_forex_volatility_tr.Ingestor.Recovery.Requests.{Request}
use live_forex_volatility_tr.Ingestor.Recovery.Cache.{SortedSet, CacheMember}

-- `uuid.uuid4()`, as a number.
abbrev pub RunId : Type 0
RunId = ℕ

-- The statuses of spans and of runs.
pub data Status : Type 0 where
  planned recovered partial silent idle skipped dry_run running succeeded failed aborted : Status

-- The errors that a provider raises; `retry_after` is in microseconds.
pub data ProviderError : Type 0 where
  auth_error entitlement_error other_error : ProviderError
  rate_limit_error : (retry_after : Option ℕ) → ProviderError

-- The texts of a run's `reason` and `error`.
pub data Reason : Type 0 where
  empty_window not_migrated lock_held nothing_missing asked_within_hour run_ended postponed : Reason
  backing_off : (until : Instant) → Reason
  provider_said : ProviderError → Reason

pub record SpanResult : Type 0 where
  pub span : Span
  pub status : Status
  pub received : ℕ
  pub inserted : ℕ
  pub present : ℕ
  pub silent_minutes : ℕ
  pub error : Option ProviderError

-- The views of `ROLLUPS`, with their bucket width and their policy's offset.
pub data View : Type 0 where
  bars_5m bars_1h : View

pub record Rollup : Type 0 where
  pub view : View
  pub width : ℕ
  pub offset : ℕ

abbrev pub rollups : List Rollup
rollups =
    record { view = bars_5m; width = 5 * minute; offset = minute }
    ∷ record { view = bars_1h; width = 60 * minute; offset = 5 * minute }
    ∷ []

-- A view, and the range it is refreshed over.
abbrev pub Refresh : Type 0
Refresh = View × (Instant × Instant)

pub record RunReport : Type 0 where
  pub status : Status
  pub reason : Option Reason
  pub run_id : Option RunId
  pub window : Option Window
  pub minutes_missing : ℕ
  pub requests_planned : ℕ
  pub requests : ℕ
  pub bars_received : ℕ
  pub bars_inserted : ℕ
  pub bars_present : ℕ
  pub minutes_silent : ℕ
  pub cache_added : ℕ
  pub rollups_refreshed : List Refresh
  pub stale_runs_aborted : ℕ
  pub spans : List SpanResult

-- `RunReport(status)`
unfoldable pub new_report : Status → RunReport
new_report status = record {
  status = status;
  reason = none;
  run_id = none;
  window = none;
  minutes_missing = 0;
  requests_planned = 0;
  requests = 0;
  bars_received = 0;
  bars_inserted = 0;
  bars_present = 0;
  minutes_silent = 0;
  cache_added = 0;
  rollups_refreshed = [];
  stale_runs_aborted = 0;
  spans = [];
}

-- A row of `history_recovery_runs`, less the labels of who ran it.
pub record RunRow : Type 0 where
  pub id : RunId
  pub status : Status
  pub window : Window
  pub minutes_missing : ℕ
  pub report : Option RunReport
  pub error : Option Reason

-- A row of `history_recovery_spans`, under (run_id, symbol, span_start).
pub record SpanRow : Type 0 where
  pub result : SpanResult
  pub fetched_at : Instant

abbrev pub SpanTable : Type 0
SpanTable = Dict ((RunId × Text) × Instant) SpanRow

-- PostgreSQL, Redis, the refreshes called for, and what the provider was asked, the newest first,
-- with the errors it raised.
pub record World (F : Type 0) : Type 0 where
  pub bars : Table F
  pub run_ids : Dict RowKey RunId
  pub runs : List RunRow
  pub spans : SpanTable
  pub cache : Dict Text (SortedSet (CacheMember F RunId))
  pub refreshed : List Refresh
  pub asked : List (Request × Option ProviderError)
