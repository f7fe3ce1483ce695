-- ===== src/Ingestor/Pipeline/Tests.antt =====
-- A feed of four ticks of two pairs.
use live_forex_volatility_tr.Base.{ℕ, ◌+◌, ◌*◌, refl, false, none, List, [], ◌∷◌, arith}
use live_forex_volatility_tr.Base.Result.{ok, Returns, ◌>>=◌}
use live_forex_volatility_tr.Base.Text.{Text, codes}
use live_forex_volatility_tr.Fixtures.{hundredths}
use live_forex_volatility_tr.Volatility.Bars.{floor_to_bucket}
use live_forex_volatility_tr.Alerts.Detector.Tests.{
  pair, trigger_config, detector, detector-IsSound,
}
use live_forex_volatility_tr.Worker.Persister.{created}
use live_forex_volatility_tr.Ingestor.Pipeline.{IngestPipeline, begin}
use live_forex_volatility_tr.Ingestor.Pipeline.Write.{handle}
use live_forex_volatility_tr.Ingestor.Pipeline.Replay.{Fed, handle_all, ingest_all, InOrder}
use live_forex_volatility_tr.Ingestor.Pipeline.Ready.{IsReady, EndsReady, handle-IsReady}
use live_forex_volatility_tr.Ingestor.Pipeline.Whole.{Agrees, handle_all-Agrees}

abbrev pipeline : IngestPipeline ℕ
pipeline = record {
  bucket_seconds = 60;
  ewma_lambda = 94;
  memory_ticks = 16;
  make_detector = λ symbol. ok detector;
  trigger_config = trigger_config;
  feed_is_stale = false;
  states = [];
  provider = codes "mock";
  held_until = none;
}

abbrev at_second : Text → ℕ → ℕ → Fed ℕ
at_second symbol second price = record {
  now = second * 1_000_000;
  tick = record {
    symbol = symbol;
    bid = price;
    ask = price + 2;
    ts_event = second * 1_000_000;
    ts_ingest = second * 1_000_000;
    seq = second;
  };
  id = record { ms = second * 1_000; seq = 0 };
}

abbrev feed : List (Fed ℕ)
feed =
    at_second pair 61 15_000
    ∷ at_second (codes "EURUSD") 59 11_000
    ∷ at_second pair 100 15_020
    ∷ at_second pair 125 15_010
    ∷ []

pipeline-IsReady : IsReady pipeline
pipeline-IsReady = record {
  has_seconds = refl;
  has_lambda = refl;
  makes_sound = λ q. detector-IsSound;
  sound = λ q st found. cc;
}

feed-InOrder : InOrder 60 feed
unfolding floor_to_bucket
feed-InOrder = (
  (λ same. cc, (λ same. omega arith, (λ same. omega arith, tt))),
  ((λ same. omega arith, (λ same. omega arith, tt)), ((λ same. omega arith, tt), (tt, tt))),
)

handle_all-Agrees_example :
    Returns
      (Agrees (ingest_all (codes "mock") feed (created 60 500 2_000_000 0)))
      (begin (pair ∷ []) pipeline >>= handle_all feed)
handle_all-Agrees_example =
    handle_all-Agrees (pair ∷ []) feed pipeline 500 2_000_000 0 pipeline-IsReady refl refl
      feed-InOrder

handle-IsReady_example : EndsReady false (handle false 0 (at_second pair 61 15_000).tick pipeline)
handle-IsReady_example =
    handle-IsReady false 0 (at_second pair 61 15_000).tick pipeline pipeline-IsReady
