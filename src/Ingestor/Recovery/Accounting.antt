-- ===== src/Ingestor/Recovery/Accounting.antt =====
-- The counts of a run in recovery.py: they add up, whatever the provider answers.
use live_forex_volatility_tr.Base.{ℕ, ◌+◌, ◌≡◌, List, [], arith, All, All-append, take}
use live_forex_volatility_tr.Base.Clock.{Instant}
use live_forex_volatility_tr.Base.Float.{Float}
use live_forex_volatility_tr.Base.Dict.{number_key, text_key, pair_key}
use live_forex_volatility_tr.Volatility.Bars.{Bar}
use live_forex_volatility_tr.Ingestor.Recovery.Requests.{Request}
use live_forex_volatility_tr.Ingestor.Recovery.Report.{RunId, ProviderError, RunReport, World}
use live_forex_volatility_tr.Ingestor.Recovery.Store.{Tables}
use live_forex_volatility_tr.Ingestor.Recovery.Fetch.{
  Reply, bars, refusal, fetch, fetch_stored, fetch_failed, failed_result, in_order, received_bars,
  wanted, wanted,
}
use live_forex_volatility_tr.Ingestor.Recovery.Run.{RecoveryConfig, Turn, BackOff, request_all}
use live_forex_volatility_tr.Ingestor.Recovery.Rule.{loop-Holds}
use live_forex_volatility_tr.Ingestor.Recovery.Balanced.{
  IsBalanced, span_result-IsBalanced, failed_result-IsBalanced, map-IsBalanced,
}
use live_forex_volatility_tr.Ingestor.Recovery.Received.{
  Keyed, received_bars-Keyed, length-in_order, in_order-Within, length-insert_bars,
  insert_bars-Within,
}

-- A report whose spans are balanced, and whose received bars are the inserted and the present ones.
pub record AddsUp (r : RunReport) : Type 0 where
  pub spans_balanced : All IsBalanced r.spans
  pub received_is : r.bars_received ≡ r.bars_inserted + r.bars_present

counted : {r : RunReport} {n : ℕ} → AddsUp r → AddsUp (record r { requests = n })
counted h = record { spans_balanced = h.spans_balanced; received_is = h.received_is }

module _ {F : Type 0} ⦃f : Float F⦄ (id : RunId) (now : Instant) where
  fetch_failed-AddsUp :
      (request : Request) (error : ProviderError) (r : RunReport) (w : World F)
      → AddsUp r
      → AddsUp (fetch_failed request id now error r w).report
  unfolding fetch_failed
  fetch_failed-AddsUp request error r w h = record {
    spans_balanced =
        All-append IsBalanced r.spans _ h.spans_balanced
          (map-IsBalanced (failed_result error) request.spans (failed_result-IsBalanced error));
    received_is = h.received_is;
  }

  fetch_stored-AddsUp :
      (request : Request) (answer : List (Bar F)) (r : RunReport) (w : World F)
      → AddsUp r
      → AddsUp (fetch_stored request id now answer r w).report
  unfolding fetch_stored Keyed
  fetch_stored-AddsUp request answer r w h =
      let received = received_bars request.symbol (wanted request.spans) answer [] in
      let keyed = received_bars-Keyed request.symbol (wanted request.spans) answer [] tt in
      let tables : Tables F = (w.bars, w.run_ids) in
      record {
        spans_balanced = All-append IsBalanced r.spans _ h.spans_balanced (
            map-IsBalanced _ request.spans (λ s. span_result-IsBalanced _ _ s (λ m.
              insert_bars-Within request.symbol received (in_order received) id tables m
                (in_order-Within received keyed))));
        received_is = omega (
          arith,
          h.received_is,
          length-insert_bars request.symbol (in_order received) id tables,
          length-in_order received,
        );
      }

  fetch-AddsUp :
      (request : Request) (reply : Reply F) (r : RunReport) (w : World F)
      → AddsUp r
      → AddsUp (fetch request reply id now r w).report
  unfolding fetch
  fetch-AddsUp request (bars answer) r w h = fetch_stored-AddsUp request answer _ _ (counted h)
  fetch-AddsUp request (refusal error) r w h = fetch_failed-AddsUp request error _ w (counted h)

-- In a run's requests, whatever the provider answers, each span's minutes are the received and the
-- silent ones, unless its request failed; the received are the inserted and those that had a
-- bar; and its status says which. The run's own counts of bars add up likewise.
pub request_all-AddsUp :
    {F : Type 0} ⦃f : Float F⦄ (cfg : RecoveryConfig) (id : RunId) (now : Instant)
    (requests : List Request) (turns : ℕ → Turn F) (report : RunReport) (back_off : BackOff)
    (world : World F)
    → AddsUp report
    → AddsUp (request_all cfg id now requests turns report back_off world).report
unfolding request_all
request_all-AddsUp cfg id now requests turns report back_off world h =
    loop-Holds id now (λ r w. AddsUp r)
      (record {
        by_status =
            λ s r w k. record { spans_balanced = k.spans_balanced; received_is = k.received_is };
        by_fetch = fetch-AddsUp id now;
      })
      (take cfg.max_requests requests) turns 0 _ h
