-- ===== src/Ingestor/Recovery/Store.antt =====
-- `RecoveryStore` of recovery.py. A call that cannot reach PostgreSQL or Redis raises out of the
-- run, and is not modelled.
use live_forex_volatility_tr.Base.{
  ℕ, suc, ◌+◌, Bool, true, false, ◌&&◌, Option, some, List, [], ◌∷◌, leb, ltb, ◌==◌, if◌then◌else◌,
}
use live_forex_volatility_tr.Base.Clock.{Instant, epoch_of}
use live_forex_volatility_tr.Base.Float.{Float}
use live_forex_volatility_tr.Base.Text.{Text, eq_text}
use live_forex_volatility_tr.Base.Dict.{
  Dict, lookup, contains, insert, insert_new, get_or, text_key, number_key, pair_key,
}
use live_forex_volatility_tr.Volatility.Bars.{Bar, backfill}
use live_forex_volatility_tr.Worker.Table.{Table, Row, RowKey}
use live_forex_volatility_tr.Ingestor.Recovery.{hot_cache_bars, settle, Window}
use live_forex_volatility_tr.Ingestor.Recovery.Cache.{
  SortedSet, CacheMember, cache_member, cache_add_script,
}
use live_forex_volatility_tr.Ingestor.Recovery.Report.{
  RunId, Status, Reason, SpanResult, RunReport, RunRow, SpanRow, SpanTable, World, recovered,
  partial, silent, running, aborted,
}

-- `abort_stale_runs`: how many, and the table. The lock is held.
unfoldable pub is_running : Status → Bool
is_running running = true
is_running other = false

unfoldable pub abort_stale : List RunRow → ℕ × List RunRow
unfolding is_running
abort_stale [] = (0, [])
abort_stale (r ∷ runs) =
    let rest = abort_stale runs in
    if is_running r.status
    then (suc rest.0, record r { status = aborted } ∷ rest.1)
    else (rest.0, r ∷ rest.1)

-- `finish_run`
unfoldable pub finish_row : RunId → RunReport → Option Reason → List RunRow → List RunRow
finish_row id report error [] = []
finish_row id report error (r ∷ runs) =
    let rest = finish_row id report error runs in
    if r.id == id
    then record r { status = report.status; report = some report; error = error } ∷ rest
    else r ∷ rest

-- `record_spans`: a span that a run has recorded stays as it is.
unfoldable pub record_spans : RunId → List SpanResult → Instant → SpanTable → SpanTable
record_spans id [] fetched_at table = table
record_spans id (r ∷ results) fetched_at table = record_spans id results fetched_at (
    insert_new ((id, r.span.symbol), r.span.start) (record { result = r; fetched_at = fetched_at })
      table)

-- `present`
unfoldable pub present : {F : Type 0} → Text → Window → Table F → List Instant
present symbol window [] = []
present symbol window ((key, row) ∷ table) =
    let rest = present symbol window table in
    if eq_text key.0 symbol && (leb window.start key.1 && leb key.1 window.end)
    then key.1 ∷ rest
    else rest

-- `status IN ('recovered', 'partial', 'silent')`
unfoldable pub was_answered : Status → Bool
was_answered recovered = true
was_answered partial = true
was_answered silent = true
was_answered other = false

-- The spans of a symbol that meet the window and pass a test.
unfoldable pub spans_where : (SpanRow → Bool) → Text → Window → SpanTable → List (Instant × Instant)
spans_where test symbol window [] = []
spans_where test symbol window ((key, row) ∷ table) =
    let rest = spans_where test symbol window table in
    let span = row.result.span in
    if eq_text span.symbol symbol
      && (leb window.start span.end && (leb span.start window.end && test row))
    then (span.start, span.end) ∷ rest
    else rest

unfoldable pub settled : Text → Window → SpanTable → List (Instant × Instant)
unfolding spans_where was_answered
settled =
    spans_where
      (λ row. was_answered row.result.status && leb (row.result.span.end + settle) row.fetched_at)

unfoldable pub asked_since : Text → Window → Instant → SpanTable → List (Instant × Instant)
unfolding spans_where
asked_since symbol window since = spans_where (λ row. ltb since row.fetched_at) symbol window

-- `bars_1m`, and its column `recovery_run_id` where that is not NULL.
abbrev pub Tables : Type 0 → Type 0
Tables F = Table F × Dict RowKey RunId

module _ {F : Type 0} ⦃f : Float F⦄ where
  -- The row that `_INSERT_BARS` makes of a bar.
  unfoldable pub backfill_row : Text → Bar F → Row F
  backfill_row symbol bar = record {
    bar = record bar {
      symbol = symbol;
      tick_count = 0;
      sum_ret = f.of_ℕ 0;
      sum_ret_sq = f.of_ℕ 0;
      source = backfill;
    };
    last_stream_id = record { ms = 0; seq = 0 };
  }

  -- One row of `insert`: ON CONFLICT (symbol, bucket) DO NOTHING.
  unfoldable pub insert_bar : Text → Bar F → RunId → Tables F → Tables F
  unfolding backfill_row
  insert_bar symbol bar id (table, run_ids) =
      let key : RowKey = (symbol, bar.bucket) in
      if contains key table
      then (table, run_ids)
      else (insert key (backfill_row symbol bar) table, insert key id run_ids)

  -- `insert`, with the minutes that RETURNING lists.
  unfoldable pub insert_bars : Text → List (Bar F) → RunId → Tables F → List Instant × Tables F
  unfolding insert_bar
  insert_bars symbol [] id tables = ([], tables)
  insert_bars symbol (bar ∷ bars) id tables =
      let rest = insert_bars symbol bars id (insert_bar symbol bar id tables) in
      if contains (symbol, bar.bucket) tables.0 then rest else (bar.bucket ∷ rest.0, rest.1)

-- The pairs that `cache_add` gives the script.
unfoldable pub cache_entries : {F : Type 0} → List (Bar F) → RunId → List (ℕ × CacheMember F RunId)
unfolding cache_member
cache_entries [] id = []
cache_entries (bar ∷ bars) id = (epoch_of bar.bucket, cache_member bar id) ∷ cache_entries bars id

abbrev pub cached : {F : Type 0} → Text → World F → SortedSet (CacheMember F RunId)
cached symbol world = get_or [] (lookup symbol world.cache)

-- `cache_add`: how many were added, and the world after it.
unfoldable pub cache_add : {F : Type 0} → Text → List (Bar F) → RunId → World F → ℕ × World F
unfolding cache_entries cache_add_script
cache_add symbol [] id world = (0, world)
cache_add symbol (bar ∷ bars) id world =
    let reply =
      cache_add_script hot_cache_bars (cache_entries (bar ∷ bars) id) (cached symbol world) in
    (reply.0, record world { cache = insert symbol reply.1 world.cache })
