-- ===== src/Ingestor/Recovery/Fetch.antt =====
-- One request of recovery.py, `_fetch`: the provider's answer, written through.
use live_forex_volatility_tr.Base.{
  ℕ, suc, ◌+◌, ◌-◌, Bool, ◌&&◌, Option, none, some, List, [], ◌∷◌, ◌++◌, leb, ◌==◌, if◌then◌else◌,
  length, any, map,
}
use live_forex_volatility_tr.Base.Clock.{Instant}
use live_forex_volatility_tr.Base.Float.{Float}
use live_forex_volatility_tr.Base.Text.{Text, eq_text}
use live_forex_volatility_tr.Base.Dict.{Dict, lookup, contains, insert, number_key}
use live_forex_volatility_tr.Volatility.Bars.{Bar}
use live_forex_volatility_tr.Ingestor.Recovery.{floor_minute, Span, span_minutes, each_minute}
use live_forex_volatility_tr.Ingestor.Recovery.Requests.{Request}
use live_forex_volatility_tr.Ingestor.Recovery.Cache.{cache_horizon}
use live_forex_volatility_tr.Ingestor.Recovery.Report.{
  RunId, failed, recovered, silent, partial, ProviderError, SpanResult, RunReport, World,
}
use live_forex_volatility_tr.Ingestor.Recovery.Store.{record_spans, insert_bars, cache_add}

-- What a call of `backfill` gives.
pub data Reply (F : Type 0) : Type 0 where
  bars : List (Bar F) → Reply F
  refusal : ProviderError → Reply F

abbrev pub error_of : {F : Type 0} → Reply F → Option ProviderError
error_of (bars answer) = none
error_of (refusal error) = some error

-- `{m for s in request.spans for m in s.each_minute()}`
unfoldable pub wanted : List Span → List Instant
unfolding each_minute
wanted [] = []
wanted (s ∷ spans) = each_minute s ++ wanted spans

-- `received[b.bucket] = b`, where the bar is one that was asked for.
unfoldable pub is_asked_for : {F : Type 0} → Text → List Instant → Bar F → Bool
unfolding floor_minute
is_asked_for symbol minutes b =
    eq_text b.symbol symbol
    && (any (λ m. b.bucket == m) minutes && (b.bucket == floor_minute b.bucket))

unfoldable pub received_bars :
    {F : Type 0} → Text → List Instant → List (Bar F) → Dict Instant (Bar F) → Dict Instant (Bar F)
unfolding is_asked_for
received_bars symbol minutes [] received = received
received_bars symbol minutes (b ∷ answer) received =
    received_bars symbol minutes answer
      (if is_asked_for symbol minutes b then insert b.bucket b received else received)

-- `[received[m] for m in sorted(received)]`
unfoldable pub add_in_order : {F : Type 0} → Instant → Bar F → List (Bar F) → List (Bar F)
add_in_order m b [] = b ∷ []
add_in_order m b (c ∷ ordered) =
    let rest = add_in_order m b ordered in if leb m c.bucket then b ∷ c ∷ ordered else c ∷ rest

unfoldable pub in_order : {F : Type 0} → Dict Instant (Bar F) → List (Bar F)
unfolding add_in_order
in_order [] = []
in_order ((m, b) ∷ received) = add_in_order m b (in_order received)

-- `[received[m] for m in inserted if m >= recent]`
unfoldable pub recent_bars :
    {F : Type 0} → Instant → Dict Instant (Bar F) → List Instant → List (Bar F)
recent_bars recent received [] = []
recent_bars recent received (m ∷ inserted) =
    let rest = recent_bars recent received inserted in
    if leb recent m then elim (lookup m received) [ none ↦ rest | some b ↦ b ∷ rest ] else rest

-- `sum(1 for m in span.each_minute() if test(m))`
unfoldable pub count_if : (Instant → Bool) → List Instant → ℕ
count_if test [] = 0
count_if test (m ∷ minutes) = (if test m then 1 else 0) + count_if test minutes

-- The differences are not negative: what is new was received, and is among the span's minutes.
unfoldable pub span_result : (Instant → Bool) → (Instant → Bool) → Span → SpanResult
unfolding count_if span_minutes
span_result was_received was_inserted span =
    let got = count_if was_received (each_minute span) in
    let new = count_if was_inserted (each_minute span) in
    record {
      span = span;
      status = if got == span_minutes span then recovered else if got == 0 then silent else partial;
      received = got;
      inserted = new;
      present = got - new;
      silent_minutes = span_minutes span - got;
      error = none;
    }

unfoldable pub failed_result : ProviderError → Span → SpanResult
failed_result error span = record {
  span = span;
  status = failed;
  received = 0;
  inserted = 0;
  present = 0;
  silent_minutes = 0;
  error = some error;
}

unfoldable pub sum_silent : List SpanResult → ℕ
sum_silent [] = 0
sum_silent (r ∷ results) = r.silent_minutes + sum_silent results

-- The minutes inserted or the error, with the report and the world.
pub record Fetched (F : Type 0) : Type 0 where
  pub inserted : List Instant
  pub error : Option ProviderError
  pub report : RunReport
  pub world : World F

module _ {F : Type 0} ⦃f : Float F⦄ where
  -- The provider raised.
  unfoldable pub fetch_failed :
      Request → RunId → Instant → ProviderError → RunReport → World F → Fetched F
  unfolding failed_result record_spans
  fetch_failed request id now error report world =
      let results = map (failed_result error) request.spans in
      record {
        inserted = [];
        error = some error;
        report = record report { spans = report.spans ++ results };
        world = record world { spans = record_spans id results now world.spans };
      }

  unfoldable pub fetch_stored :
      Request → RunId → Instant → List (Bar F) → RunReport → World F → Fetched F
  unfolding wanted received_bars in_order insert_bars recent_bars span_result sum_silent
      cache_horizon cache_add record_spans
  fetch_stored request id now answer report world =
      let received = received_bars request.symbol (wanted request.spans) answer [] in
      let (inserted, tables) =
        insert_bars request.symbol (in_order received) id (world.bars, world.run_ids) in
      let (added, after) =
        cache_add request.symbol (recent_bars (cache_horizon now) received inserted) id
          (record world { bars = tables.0; run_ids = tables.1 }) in
      let results =
        map (span_result (λ m. contains m received) (λ m. any (λ i. m == i) inserted))
          request.spans in
      record {
        inserted = inserted;
        error = none;
        report = record report {
          cache_added = report.cache_added + added;
          spans = report.spans ++ results;
          bars_received = report.bars_received + length received;
          bars_inserted = report.bars_inserted + length inserted;
          bars_present = report.bars_present + (length received - length inserted);
          minutes_silent = report.minutes_silent + sum_silent results;
        };
        world = record after { spans = record_spans id results now after.spans };
      }

  -- `_fetch`: the request is counted and made.
  unfoldable pub fetch : Request → Reply F → RunId → Instant → RunReport → World F → Fetched F
  unfolding fetch_failed fetch_stored
  fetch request reply id now report world =
      let counted = record report { requests = suc report.requests } in
      let made = record world { asked = (request, error_of reply) ∷ world.asked } in
      elim reply [
        | bars answer ↦ fetch_stored request id now answer counted made
        | refusal error ↦ fetch_failed request id now error counted made
      ]
