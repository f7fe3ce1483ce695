-- ===== src/Ingestor/Pipeline/Write.antt =====
-- `handle`, `_write` and `_seal_bar` of pipeline.py: the commands of a tick. The clock of a volatility
-- reading is an argument.
use live_forex_volatility_tr.Base.{
  ℕ, Bool, false, not, Option, none, some, List, [], ◌∷◌, ◌++◌, if◌then◌else◌, length, is_some,
}
use live_forex_volatility_tr.Base.Clock.{Instant, epoch_of}
use live_forex_volatility_tr.Base.Float.{Float}
use live_forex_volatility_tr.Base.Text.{Text}
use live_forex_volatility_tr.Base.Result.{Result, ok, raise, connection_error, ◌>>=◌}
use live_forex_volatility_tr.Base.Dict.{lookup, insert, text_key}
use live_forex_volatility_tr.Alerts.Regime.{RegimeTransition}
use live_forex_volatility_tr.Alerts.Detector.{RegimeDetector, SealedBar, DetectorSnapshot}
use live_forex_volatility_tr.Alerts.Detector as Detector
use live_forex_volatility_tr.Volatility.Bars.{Bar, realized_vol}
use live_forex_volatility_tr.Volatility.Welford as Welford
use live_forex_volatility_tr.Volatility.Ewma.{EwmaVariance}
use live_forex_volatility_tr.Volatility.Ewma as Ewma
use live_forex_volatility_tr.Volatility.Ticks.{Tick, build, ewma}
use live_forex_volatility_tr.Worker.Table.{is_stream}
use live_forex_volatility_tr.Ingestor.Pipeline.{
  SymbolState, IngestPipeline, VolReading, Command, xadd_tick, hset_quote, hset_bar, publish_tick,
  zadd_history, hset_vol, publish_vol, zadd_zhist, set_regime, xadd_alert, publish_alert,
  beyond_gap, is_held, new_state, advance,
}

-- How `handle` ends: with the commands that Redis executed or an exception, and the pipeline after it.
pub record Handling (F : Type 0) : Type 0 where
  pub outcome : Result (List (Command F))
  pub pipeline : IngestPipeline F

module _ {F : Type 0} ⦃f : Float F⦄ where
  -- The detector's reading of a sealed bar.
  unfoldable pub reading_of : ℕ → Bool → SymbolState F → Bar F → SealedBar F
  unfolding realized_vol
  reading_of seconds feed_is_stale st bar = record {
    sigma = realized_vol bar;
    ts = bar.bucket;
    is_gap_bar = elim st.last_sealed [
      | none ↦ false
      | some last ↦ beyond_gap bar.bucket last seconds
    ];
    is_backfill = not (is_stream bar.source);
    feed_is_stale = feed_is_stale;
  }

  -- `_queue_vol_snapshot`, up to its commands.
  unfoldable pub vol_reading :
      IngestPipeline F → Instant → SymbolState F → Bar F → F → Result (VolReading F)
  unfolding build Ewma.sigma
  vol_reading p now st bar realized = do
    snapshot ←
        build st.symbol ewma st.window.window_seconds
          (f.mul (Ewma.sigma st.ewma_variance) (f.sqrt (f.of_ℕ bar.tick_count))) st.ewma_variance.n
          p.bucket_seconds now st.detector.last_zscore
    ok (record {
      snapshot = snapshot;
      realized_sigma = realized;
      regime = st.detector.trigger.regime;
      armed = not (is_some st.detector.trigger.unobserved_since);
      warmed_up = Ewma.warmed_up p.memory_ticks st.ewma_variance;
      bars = length st.window.bars;
      enter_z = p.trigger_config.enter_z;
      exit_z = p.trigger_config.exit_z;
    })

  -- `_queue_zhist`: a gated bar has no point.
  unfoldable pub zhist_of : SymbolState F → Bar F → List (Command F)
  zhist_of st bar = elim st.detector.last_zscore [
    | none ↦ []
    | some z ↦
        if f.is_finite z
        then zadd_zhist (epoch_of bar.bucket) z st.detector.trigger.regime ∷ []
        else []
  ]

  -- `_queue_transition`: the log and the broadcast.
  unfoldable pub alert_of : Option (RegimeTransition F) → List (Command F)
  alert_of none = []
  alert_of (some transition) = xadd_alert transition ∷ publish_alert transition ∷ []

  -- The commands of `_seal_bar`, in order.
  unfoldable pub seal_commands :
      SymbolState F → Bar F → VolReading F → Option (RegimeTransition F) → List (Command F)
  unfolding zhist_of alert_of Detector.snapshot
  seal_commands after bar reading transition =
      hset_vol reading ∷ publish_vol reading bar ∷ zhist_of after bar
      ++ set_regime after.symbol (Detector.snapshot after.detector) ∷ alert_of transition

  -- `_seal_bar` after the detector's update.
  unfoldable pub seal_updated :
      IngestPipeline F
      → Instant
      → SymbolState F
      → Bar F
      → RegimeDetector F × Option (RegimeTransition F)
      → Result (SymbolState F × List (Command F))
  unfolding Welford.sigma vol_reading seal_commands
  seal_updated p now st bar (detector, transition) =
      let after = record st { last_sealed = some bar.bucket; detector = detector } in
      vol_reading p now after bar (Welford.sigma st.window)
      >>= (λ reading. ok (after, seal_commands after bar reading transition))

  -- `_seal_bar`: the state with the detector's, and the commands.
  unfoldable pub seal_bar :
      IngestPipeline F → Instant → SymbolState F → Bar F → Result (SymbolState F × List (Command F))
  unfolding reading_of Detector.update seal_updated
  seal_bar p now st bar =
      Detector.update st.detector (reading_of p.bucket_seconds p.feed_is_stale st bar)
      >>= seal_updated p now st bar

  -- `_write`: the commands of a tick, and after them those of a bar it sealed.
  unfoldable pub tick_commands : IngestPipeline F → Tick F → Option (Bar F) → List (Command F)
  tick_commands p tick none = []
  tick_commands p tick (some bar) =
      xadd_tick tick p.provider ∷ hset_quote tick ∷ hset_bar bar ∷ publish_tick tick bar ∷ []

  unfoldable pub write :
      IngestPipeline F
      → Instant
      → Tick F
      → SymbolState F × Option (Bar F)
      → Result (SymbolState F × List (Command F))
  unfolding tick_commands seal_bar
  write p now tick (st, none) = ok (st, tick_commands p tick st.bucket)
  write p now tick (st, some bar) = do
    sealed ← seal_bar p now st bar
    ok (sealed.0, tick_commands p tick st.bucket ++ zadd_history bar ∷ sealed.1)

  -- `state_for`
  unfoldable pub state_for : Text → IngestPipeline F → Result (SymbolState F)
  unfolding new_state
  state_for symbol p = elim (lookup symbol p.states) [ none ↦ new_state symbol p | some st ↦ ok st ]

  unfoldable pub stored :
      IngestPipeline F
      → Text
      → SymbolState F × List (Command F)
      → Result (IngestPipeline F × List (Command F))
  stored p symbol (st, commands) = ok (record p { states = insert symbol st p.states }, commands)

  -- `handle` behind its guard.
  unfoldable pub take_tick :
      Instant → Tick F → IngestPipeline F → Result (IngestPipeline F × List (Command F))
  unfolding state_for advance write stored
  take_tick now tick p =
      state_for tick.symbol p
      >>= (λ st. write p now tick (advance p.bucket_seconds tick st) >>= stored p tick.symbol)

  -- The transaction of a tick. Where Redis does not execute it, the state has the tick all the same.
  unfoldable pub executed :
      Bool → IngestPipeline F → Result (IngestPipeline F × List (Command F)) → Handling F
  executed redis_up p (raise e) = record { outcome = raise e; pipeline = p }
  executed redis_up p (ok (q, commands)) = record {
    outcome = if redis_up then ok commands else raise connection_error;
    pipeline = q;
  }

  -- `handle`. Where the detector or the reading raises, the part of the state that was changed before
  -- it is not kept here.
  unfoldable pub handle : Bool → Instant → Tick F → IngestPipeline F → Handling F
  unfolding take_tick executed
  handle redis_up now tick p =
      if is_held p.held_until tick.ts_event
      then record { outcome = ok []; pipeline = p }
      else executed redis_up p (take_tick now tick p)

  -- The commands of a tick that was handled, with the pipeline after it.
  abbrev pub answered : Handling F → Result (IngestPipeline F × List (Command F))
  answered h = h.outcome >>= (λ commands. ok (h.pipeline, commands))
