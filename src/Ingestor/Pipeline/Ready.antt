-- ===== src/Ingestor/Pipeline/Ready.antt =====
-- The calls of pipeline.py that can raise, with sound detectors and a sound configuration.
use live_forex_volatility_tr.Base.{
  ◌⊎◌, [], ℕ, Bool, ◌≡◌, ◌∙◌, refl, sym, inl, inr, true, false, ◌&&◌, Option, none, some, List,
  arith, ◌==◌, subst, Bool-cases, Option-cases,
}
use live_forex_volatility_tr.Base.Clock.{Instant}
use live_forex_volatility_tr.Base.Float.{Float}
use live_forex_volatility_tr.Base.Text.{Text, eq_text}
use live_forex_volatility_tr.Base.Dict.{
  lookup, insert, text_key, number_key, pair_key, lookup-insert,
}
use live_forex_volatility_tr.Alerts.Regime.{RegimeTransition}
use live_forex_volatility_tr.Alerts.Detector.{RegimeDetector}
use live_forex_volatility_tr.Volatility.Bars.{Bar}
use live_forex_volatility_tr.Volatility.Welford as Welford
use live_forex_volatility_tr.Volatility.Ticks.{Tick}
use live_forex_volatility_tr.Ingestor.Pipeline.{SymbolState, cross, fold_price, advance}
use live_forex_volatility_tr.Ingestor.Pipeline.{IngestPipeline, Command, is_held, new_state}
use live_forex_volatility_tr.Ingestor.Pipeline.Write.{
  Handling, executed, answered, take_tick, stored, handle, write, seal_updated, vol_reading,
  seal_bar, state_for,
}
use live_forex_volatility_tr.Volatility.Ewma as Ewma
use live_forex_volatility_tr.Ingestor.Pipeline.Tracking.{
  answered-executed, state_for-known, state_for-new,
}
use live_forex_volatility_tr.Base.Result.{
  connection_error, Result, ok, raise, Returns, Returns-bind,
}
use live_forex_volatility_tr.Alerts.Detector.Learning.{IsSound, After}
use live_forex_volatility_tr.Alerts.Detector.Gates.{update-After}
use live_forex_volatility_tr.Alerts.Detector as Detector
use live_forex_volatility_tr.Volatility.Ticks.{bars_per_year, build}
use live_forex_volatility_tr.Ingestor.Pipeline.Write.{reading_of}

module _ {F : Type 0} ⦃f : Float F⦄ where
  -- The configuration is one that the constructors accept, and every detector is sound.
  pub record IsReady (p : IngestPipeline F) : Type 0 where
    pub has_seconds : p.bucket_seconds == 0 ≡ false
    pub has_lambda : f.lt (f.of_ℕ 0) p.ewma_lambda && f.lt p.ewma_lambda (f.of_ℕ 1) ≡ true
    pub makes_sound : (q : Text) → Returns IsSound (p.make_detector q)
    pub sound : (q : Text) (st : SymbolState F) → lookup q p.states ≡ some st → IsSound st.detector

  abbrev SoundState : SymbolState F × List (Command F) → Type 0
  SoundState out = IsSound out.0.detector

  pub new_state-IsSound :
      (q : Text) (p : IngestPipeline F)
      → IsReady p
      → Returns (λ st. IsSound st.detector) (new_state q p)
  unfolding new_state Ewma.new
  new_state-IsSound q p r =
      Returns-bind IsSound (λ st. IsSound st.detector) (p.make_detector q) _ (r.makes_sound q)
        (λ detector sound. rw r.has_lambda sound)

  state_for-IsSound :
      (q : Text) (p : IngestPipeline F)
      → IsReady p
      → Returns (λ st. IsSound st.detector) (state_for q p)
  state_for-IsSound q p r = elim (Option-cases (lookup q p.states)) [
    | inl c ↦
        subst (Returns (λ st. IsSound st.detector)) (sym (state_for-new q p c))
          (new_state-IsSound q p r)
    | inr (st, c) ↦
        subst (Returns (λ st. IsSound st.detector)) (sym (state_for-known q p st c))
          (r.sound q st c)
  ]

  advance-detector :
      (seconds : ℕ) (tick : Tick F) (st : SymbolState F)
      → (advance seconds tick st).0.detector ≡ st.detector
  unfolding advance cross fold_price
  advance-detector seconds tick st = ground arith

  vol_reading-Returns :
      (p : IngestPipeline F) (now : Instant) (st : SymbolState F) (bar : Bar F) (realized : F)
      → p.bucket_seconds == 0 ≡ false
      → Returns (λ reading. Unit {0}) (vol_reading p now st bar realized)
  unfolding vol_reading build bars_per_year
  vol_reading-Returns p now st bar realized some_seconds = rw some_seconds tt

  seal_updated-Returns :
      (p : IngestPipeline F) (now : Instant) (st : SymbolState F) (bar : Bar F)
      (u : RegimeDetector F × Option (RegimeTransition F))
      → p.bucket_seconds == 0 ≡ false
      → IsSound u.0
      → Returns SoundState (seal_updated p now st bar u)
  unfolding seal_updated
  seal_updated-Returns p now st bar (detector, transition) some_seconds sound =
      let after = record st { last_sealed = some bar.bucket; detector = detector } in
      let realized = Welford.sigma st.window in
      Returns-bind (λ reading. Unit {0}) SoundState (vol_reading p now after bar realized) _
        (vol_reading-Returns p now after bar realized some_seconds) (λ reading any_reading. sound)

  seal_bar-Returns :
      (p : IngestPipeline F) (now : Instant) (st : SymbolState F) (bar : Bar F)
      → p.bucket_seconds == 0 ≡ false
      → IsSound st.detector
      → Returns SoundState (seal_bar p now st bar)
  unfolding seal_bar
  seal_bar-Returns p now st bar some_seconds sound =
      let reading = reading_of p.bucket_seconds p.feed_is_stale st bar in
      Returns-bind (After st.detector) SoundState (Detector.update st.detector reading) _
        (update-After st.detector reading sound)
        (λ u after. seal_updated-Returns p now st bar u some_seconds after.0)

  write-Returns :
      (p : IngestPipeline F) (now : Instant) (tick : Tick F) (st : SymbolState F)
      (sealed : Option (Bar F))
      → p.bucket_seconds == 0 ≡ false
      → IsSound st.detector
      → Returns SoundState (write p now tick (st, sealed))
  unfolding write
  write-Returns p now tick st none some_seconds sound = sound
  write-Returns p now tick st (some bar) some_seconds sound =
      Returns-bind SoundState SoundState (seal_bar p now st bar) _
        (seal_bar-Returns p now st bar some_seconds sound) (λ out kept. kept)

  pub stored-IsReady :
      (p : IngestPipeline F) (q : Text) (st : SymbolState F)
      → IsReady p
      → IsSound st.detector
      → IsReady (record p { states = insert q st p.states })
  stored-IsReady p q st r sound = record {
    has_seconds = r.has_seconds;
    has_lambda = r.has_lambda;
    makes_sound = r.makes_sound;
    sound = λ s known found. elim (Bool-cases (eq_text s q)) [
      | inl c ↦
          let own : some st ≡ some known =
            sym (lookup-insert q s st p.states ∙ rw c refl) ∙ found in
          let same : st ≡ known = cc in subst (λ s. IsSound s.detector) same sound
      | inr c ↦ r.sound s known (sym (lookup-insert q s st p.states ∙ rw c refl) ∙ found)
    ];
  }

  take_tick-IsReady :
      (now : Instant) (tick : Tick F) (p : IngestPipeline F)
      → IsReady p
      → Returns (λ out. IsReady out.0) (take_tick now tick p)
  unfolding take_tick stored
  take_tick-IsReady now tick p r =
      Returns-bind (λ st. IsSound st.detector) (λ out. IsReady out.0) (state_for tick.symbol p) _
        (state_for-IsSound tick.symbol p r)
        (λ st sound.
          let adv = advance p.bucket_seconds tick st in
          Returns-bind SoundState (λ out. IsReady out.0) (write p now tick adv) _
            (write-Returns p now tick adv.0 adv.1 r.has_seconds
              (subst IsSound (sym (advance-detector p.bucket_seconds tick st)) sound))
            (λ out kept. stored-IsReady p tick.symbol out.0 r kept))

  -- What a ready pipeline's tick can end in.
  abbrev OnlyLost : Bool → Result (List (Command F)) → Type 0
  OnlyLost redis_up (ok commands) = (redis_up ≡ true) ⊎ (commands ≡ [])
  OnlyLost redis_up (raise e) = (redis_up ≡ false) × (e ≡ connection_error)

  abbrev pub EndsReady : Bool → Handling F → Type 0
  EndsReady redis_up h = IsReady h.pipeline × OnlyLost redis_up h.outcome

  executed-EndsReady :
      (redis_up : Bool) (p : IngestPipeline F) (m : Result (IngestPipeline F × List (Command F)))
      → Returns (λ out. IsReady out.0) m
      → EndsReady redis_up (executed redis_up p m)
  unfolding executed
  executed-EndsReady redis_up p (raise e) h = absurd h
  executed-EndsReady true p (ok (q, commands)) h = (h, inl refl)
  executed-EndsReady false p (ok (q, commands)) h = (h, (refl, refl))

  -- A tick on a ready pipeline, one that has a configuration which the constructors accept, makes
  -- sound detectors and has sound ones: whether Redis executes the transaction or not, the pipeline
  -- is ready for the next tick; nothing is raised but the connection error of a Redis that does not
  -- answer; and the call returns only where Redis answers, or where it has no commands to execute.
  -- Logarithms and exponentials are taken to be total.
  pub handle-IsReady :
      (redis_up : Bool) (now : Instant) (tick : Tick F) (p : IngestPipeline F)
      → IsReady p
      → EndsReady redis_up (handle redis_up now tick p)
  unfolding handle
  handle-IsReady redis_up now tick p r = elim (Bool-cases (is_held p.held_until tick.ts_event)) [
    | inl held ↦ rw held (r, inr refl)
    | inr free ↦
        rw free
          (executed-EndsReady redis_up p (take_tick now tick p) (take_tick-IsReady now tick p r))
  ]

  pub answered-IsReady :
      (now : Instant) (tick : Tick F) (p : IngestPipeline F)
      → IsReady p
      → Returns (λ out. IsReady out.0) (answered (handle true now tick p))
  unfolding handle
  answered-IsReady now tick p r = elim (Bool-cases (is_held p.held_until tick.ts_event)) [
    | inl held ↦ rw held r
    | inr free ↦ rw free (
        subst (Returns (λ out. IsReady out.0)) (sym (answered-executed p (take_tick now tick p)))
          (take_tick-IsReady now tick p r))
  ]
