-- ===== src/Ingestor/Pipeline/Feed.antt =====
-- The bars that the commands of pipeline.py add to the history.
use live_forex_volatility_tr.Base.{
  ◌≡◌, ◌∙◌, refl, ap, inl, inr, Option, none, some, List, [], ◌∷◌, ◌++◌, Bool-cases, Option-cases,
}
use live_forex_volatility_tr.Base.Clock.{Instant}
use live_forex_volatility_tr.Base.Float.{Float}
use live_forex_volatility_tr.Base.Dict.{text_key, number_key, pair_key}
use live_forex_volatility_tr.Base.Result.{Ends, Ends-bind, Ends-any}
use live_forex_volatility_tr.Alerts.Regime.{RegimeTransition}
use live_forex_volatility_tr.Alerts.Detector.{RegimeDetector}
use live_forex_volatility_tr.Volatility.Bars.{Bar}
use live_forex_volatility_tr.Volatility.Welford as Welford
use live_forex_volatility_tr.Volatility.Ticks.{Tick}
use live_forex_volatility_tr.Ingestor.Pipeline.{SymbolState}
use live_forex_volatility_tr.Ingestor.Pipeline.{
  VolReading, IngestPipeline, Command, xadd_tick, hset_quote, hset_bar, publish_tick, zadd_history,
  hset_vol, publish_vol, zadd_zhist, set_regime, xadd_alert, publish_alert,
}
use live_forex_volatility_tr.Ingestor.Pipeline.Write.{
  write, seal_commands, seal_updated, vol_reading, seal_bar, tick_commands, zhist_of, alert_of,
}

-- The bars that the commands add to the history.
unfoldable pub history_of : {F : Type 0} → List (Command F) → List (Bar F)
history_of [] = []
history_of (zadd_history bar ∷ commands) = bar ∷ history_of commands
history_of (xadd_tick tick provider ∷ commands) = history_of commands
history_of (hset_quote tick ∷ commands) = history_of commands
history_of (hset_bar bar ∷ commands) = history_of commands
history_of (publish_tick tick bar ∷ commands) = history_of commands
history_of (hset_vol reading ∷ commands) = history_of commands
history_of (publish_vol reading bar ∷ commands) = history_of commands
history_of (zadd_zhist epoch z regime ∷ commands) = history_of commands
history_of (set_regime symbol snapshot ∷ commands) = history_of commands
history_of (xadd_alert transition ∷ commands) = history_of commands
history_of (publish_alert transition ∷ commands) = history_of commands

history_of-append :
    {F : Type 0} (cs ds : List (Command F)) → history_of (cs ++ ds) ≡ history_of cs ++ history_of ds
unfolding history_of
history_of-append [] ds = refl
history_of-append (zadd_history bar ∷ cs) ds = ap (λ bars. bar ∷ bars) (history_of-append cs ds)
history_of-append (xadd_tick tick provider ∷ cs) ds = history_of-append cs ds
history_of-append (hset_quote tick ∷ cs) ds = history_of-append cs ds
history_of-append (hset_bar bar ∷ cs) ds = history_of-append cs ds
history_of-append (publish_tick tick bar ∷ cs) ds = history_of-append cs ds
history_of-append (hset_vol reading ∷ cs) ds = history_of-append cs ds
history_of-append (publish_vol reading bar ∷ cs) ds = history_of-append cs ds
history_of-append (zadd_zhist epoch z regime ∷ cs) ds = history_of-append cs ds
history_of-append (set_regime symbol snapshot ∷ cs) ds = history_of-append cs ds
history_of-append (xadd_alert transition ∷ cs) ds = history_of-append cs ds
history_of-append (publish_alert transition ∷ cs) ds = history_of-append cs ds

abbrev pub listed : {A : Type 0} → Option A → List A
listed none = []
listed (some a) = a ∷ []

module _ {F : Type 0} ⦃f : Float F⦄ where
  zhist_of-history : (st : SymbolState F) (bar : Bar F) → history_of (zhist_of st bar) ≡ []
  unfolding zhist_of history_of
  zhist_of-history st bar = elim (Option-cases st.detector.last_zscore) [
    | inl e ↦ rw e refl
    | inr (z, e) ↦
        rw e (elim (Bool-cases (f.is_finite z)) [ inl c ↦ rw c refl | inr c ↦ rw c refl ])
  ]

  alert_of-history : (o : Option (RegimeTransition F)) → history_of (alert_of o) ≡ []
  unfolding alert_of history_of
  alert_of-history none = refl
  alert_of-history (some transition) = refl

  tick_commands-history :
      (p : IngestPipeline F) (tick : Tick F) (o : Option (Bar F))
      → history_of (tick_commands p tick o) ≡ []
  unfolding tick_commands history_of
  tick_commands-history p tick none = refl
  tick_commands-history p tick (some bar) = refl

  -- The part of the state that the worker has too, and the bars of the commands.
  pub record Wrote (st : SymbolState F) (sealed : List (Bar F))
      (out : SymbolState F × List (Command F)) : Type 0 where
    pub same_bucket : out.0.bucket ≡ st.bucket
    pub same_price : out.0.last_price ≡ st.last_price
    pub sealed_is : history_of out.1 ≡ sealed

  seal_commands-history :
      (st : SymbolState F) (bar : Bar F) (reading : VolReading F) (o : Option (RegimeTransition F))
      → history_of (seal_commands st bar reading o) ≡ []
  unfolding seal_commands history_of
  seal_commands-history st bar reading o =
      history_of-append (zhist_of st bar) _ ∙ rw (zhist_of-history st bar) (alert_of-history o)

  seal_updated-Wrote :
      (p : IngestPipeline F) (now : Instant) (st : SymbolState F) (bar : Bar F)
      (u : RegimeDetector F × Option (RegimeTransition F))
      → Ends (Wrote st []) (seal_updated p now st bar u)
  unfolding seal_updated
  seal_updated-Wrote p now st bar (detector, transition) =
      let sealed = record st { last_sealed = some bar.bucket; detector = detector } in
      Ends-bind (λ r. Unit) (Wrote st []) (vol_reading p now sealed bar (Welford.sigma st.window)) _
        (Ends-any _)
        (λ r any_reading. record {
          same_bucket = refl;
          same_price = refl;
          sealed_is = seal_commands-history sealed bar r transition;
        })

  seal_bar-Wrote :
      (p : IngestPipeline F) (now : Instant) (st : SymbolState F) (bar : Bar F)
      → Ends (Wrote st []) (seal_bar p now st bar)
  unfolding seal_bar
  seal_bar-Wrote p now st bar =
      Ends-bind (λ u. Unit) (Wrote st []) _ (seal_updated p now st bar) (Ends-any _)
        (λ u any_update. seal_updated-Wrote p now st bar u)

  pub write-Wrote :
      (p : IngestPipeline F) (now : Instant) (tick : Tick F) (st : SymbolState F)
      (o : Option (Bar F))
      → Ends (Wrote st (listed o)) (write p now tick (st, o))
  unfolding write history_of
  write-Wrote p now tick st none = record {
    same_bucket = refl;
    same_price = refl;
    sealed_is = tick_commands-history p tick st.bucket;
  }
  write-Wrote p now tick st (some bar) =
      Ends-bind (Wrote st []) (Wrote st (bar ∷ [])) _ _ (seal_bar-Wrote p now st bar) (λ out h.
        record {
          same_bucket = h.same_bucket;
          same_price = h.same_price;
          sealed_is =
              history_of-append (tick_commands p tick st.bucket) _
              ∙ rw (tick_commands-history p tick st.bucket, h.sealed_is) refl;
        })
