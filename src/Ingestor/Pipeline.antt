-- ===== src/Ingestor/Pipeline.antt =====
-- `IngestPipeline` of apps/ingestor/fx_ingestor/pipeline.py: a tick is folded into the state of its
-- symbol, and the commands of one MULTI are queued for Redis.
pub mod Write
pub mod Agreement
pub mod Step
pub mod Cases
pub mod Feed
pub mod Replay
pub mod Tracking
pub mod Ready
pub mod Begin
pub mod Whole
pub mod Tests
use live_forex_volatility_tr.Base.{
  ℕ, zero, suc, ◌+◌, ◌-◌, ◌*◌, Bool, true, false, not, ◌&&◌, ◌||◌, Option, none, some, List, [],
  ◌∷◌, ◌++◌, ltb, if◌then◌else◌, length, is_some,
}
use live_forex_volatility_tr.Base.Clock.{Instant, epoch_of}
use live_forex_volatility_tr.Base.Float.{Float}
use live_forex_volatility_tr.Base.Text.{Text}
use live_forex_volatility_tr.Base.Result.{Result, ok, raise, ◌>>=◌}
use live_forex_volatility_tr.Base.Dict.{Dict, lookup, insert, text_key}
use live_forex_volatility_tr.Alerts.Regime.{Regime, RegimeTransition, TriggerConfig}
use live_forex_volatility_tr.Alerts.Detector.{RegimeDetector, SealedBar, DetectorSnapshot}
use live_forex_volatility_tr.Alerts.Detector as Detector
use live_forex_volatility_tr.Volatility.Bars.{
  Bar, BarSource, stream, floor_to_bucket, start, add_tick, seal, realized_vol,
}
use live_forex_volatility_tr.Volatility.Window.{RollingWindow, push}
use live_forex_volatility_tr.Volatility.Welford as Welford
use live_forex_volatility_tr.Volatility.Ewma.{EwmaVariance}
use live_forex_volatility_tr.Volatility.Ewma as Ewma
use live_forex_volatility_tr.Volatility.Ticks.{Tick, mid, VolSnapshot, build, ewma}
use live_forex_volatility_tr.Worker.Table.{is_stream}

pub record SymbolState (F : Type 0) : Type 0 where
  pub symbol : Text
  pub bucket : Option (Bar F)
  pub window : RollingWindow F
  pub ewma_variance : EwmaVariance F
  pub last_price : Option F
  pub last_sealed : Option Instant
  pub detector : RegimeDetector F

-- The pipeline. `memory_ticks` is `int(1 / (1 - ewma_lambda))`, and `make_detector` is `RegimeDetector(...)` with the configuration, and the assertion of
-- `_new_state` on its baseline.
pub record IngestPipeline (F : Type 0) : Type 0 where
  pub bucket_seconds : ℕ
  pub ewma_lambda : F
  pub memory_ticks : ℕ
  pub make_detector : Text → Result (RegimeDetector F)
  pub trigger_config : TriggerConfig F
  pub feed_is_stale : Bool
  pub states : Dict Text (SymbolState F)
  pub provider : Text
  pub held_until : Option Instant

-- What `_queue_vol_snapshot` stores and publishes.
pub record VolReading (F : Type 0) : Type 0 where
  pub snapshot : VolSnapshot F
  pub realized_sigma : F
  pub regime : Regime
  pub armed : Bool
  pub warmed_up : Bool
  pub bars : ℕ
  pub enter_z : F
  pub exit_z : F

-- The commands of the transaction, with the values that their texts are made of. A ZADD stands
-- for itself and the trimming and expiry that follow it.
pub data Command (F : Type 0) : Type 0 where
  xadd_tick : (tick : Tick F) → (provider : Text) → Command F
  hset_quote : Tick F → Command F
  hset_bar : Bar F → Command F
  publish_tick : Tick F → Bar F → Command F
  zadd_history : Bar F → Command F
  hset_vol : VolReading F → Command F
  publish_vol : VolReading F → Bar F → Command F
  zadd_zhist : (epoch : ℕ) → (z : F) → Regime → Command F
  set_regime : Text → DetectorSnapshot F → Command F
  xadd_alert : RegimeTransition F → Command F
  publish_alert : RegimeTransition F → Command F

-- `timedelta(seconds=bucket_seconds * GAP_BAR_MULTIPLE)` lies between the two.
abbrev pub beyond_gap : Instant → Instant → ℕ → Bool
beyond_gap later earlier seconds = ltb (earlier + seconds * 3 * 1_000_000) later

-- `self._held_until is not None and tick.ts_event < self._held_until`
abbrev pub is_held : Option Instant → Instant → Bool
is_held none ts = false
is_held (some until) ts = ltb ts until

module _ {F : Type 0} ⦃f : Float F⦄ where
  -- `_new_state`
  unfoldable pub new_state : Text → IngestPipeline F → Result (SymbolState F)
  unfolding Ewma.new
  new_state symbol p = do
    detector ← p.make_detector symbol
    ewma_variance ← Ewma.new p.ewma_lambda
    ok (record {
      symbol = symbol;
      bucket = none;
      window = record { window_seconds = 3_600; bars = [] };
      ewma_variance = ewma_variance;
      last_price = none;
      last_sealed = none;
      detector = detector;
    })

  -- The states that `__init__` makes, on the rest of the configuration.
  unfoldable pub begin : List Text → IngestPipeline F → Result (IngestPipeline F)
  unfolding new_state
  begin [] p = ok p
  begin (symbol ∷ symbols) p =
      new_state symbol p >>= (λ st. begin symbols (record p { states = insert symbol st p.states }))

  -- The bucket of a tick: the bar under way goes on, or is sealed by the first tick of a later
  -- bucket.
  unfoldable pub cross : ℕ → Tick F → SymbolState F → SymbolState F × Option (Bar F)
  unfolding mid
  cross seconds tick st =
      let begun = start tick.symbol tick.ts_event (mid tick) seconds stream in
      let bucket_start = floor_to_bucket tick.ts_event seconds in
      elim st.bucket [
        | none ↦ (record st { bucket = some begun }, none)
        | some bar ↦
            if ltb bar.bucket bucket_start
            then (
              record st {
                bucket = some begun;
                window = push st.window (seal bar);
                last_price =
                    if beyond_gap bucket_start bar.bucket seconds then none else st.last_price;
              },
              some (seal bar),
            )
            else (st, none)
      ]

  -- The return that the EWMA takes, where both prices are positive.
  abbrev pub step_ewma : Option F → F → EwmaVariance F → EwmaVariance F
  step_ewma none price e = e
  step_ewma (some last) price e =
      if f.lt (f.of_ℕ 0) last && f.lt (f.of_ℕ 0) price
      then Ewma.update e (f.log (f.div price last))
      else e

  abbrev pub add_to : Option (Bar F) → F → Option F → Option (Bar F)
  add_to none price last = none
  add_to (some bar) price last = some (add_tick bar price last)

  -- The price of the tick: into the bar, the EWMA, and the last price.
  unfoldable pub fold_price : F → SymbolState F → SymbolState F
  fold_price price st = record st {
    bucket = add_to st.bucket price st.last_price;
    ewma_variance = step_ewma st.last_price price st.ewma_variance;
    last_price = some price;
  }

  -- The state and the sealed bar after the body of `handle`, before `_write`.
  unfoldable pub advance : ℕ → Tick F → SymbolState F → SymbolState F × Option (Bar F)
  unfolding cross fold_price mid
  advance seconds tick st =
      let crossed = cross seconds tick st in (fold_price (mid tick) crossed.0, crossed.1)
