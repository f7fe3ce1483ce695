-- ===== src/Alerts/Detector/Kept.antt =====
-- What a bar leaves alone in the detector of packages/core/fx_core/alerts/detector.py behind its
-- gates: the session clock and the count of clean bars.
use live_forex_volatility_tr.Base.{◌≡◌, refl, true, false, Option, none, [], arith}
use live_forex_volatility_tr.Base.Clock.{Instant, hour_of}
use live_forex_volatility_tr.Base.Float.{Float}
use live_forex_volatility_tr.Base.Text.{Text}
use live_forex_volatility_tr.Base.Result.{ok, >>=-eq-ok, Returns-ok}
use live_forex_volatility_tr.Alerts.Regime.{RegimeTransition}
use live_forex_volatility_tr.Alerts.Trigger
use live_forex_volatility_tr.Alerts.Trigger.{SchmittTrigger, holds_since}
use live_forex_volatility_tr.Alerts.Trigger.Blackout.{OnlyLoses, update-OnlyLoses}
use live_forex_volatility_tr.Alerts.Baseline
use live_forex_volatility_tr.Alerts.Seasonality
use live_forex_volatility_tr.Alerts.Detector.{
  RegimeDetector, SealedBar, suppress, rebaseline, after_update, learn, evaluate,
}

module _ {F : Type 0} ⦃f : Float F⦄ where
  pub record Kept (d d' : RegimeDetector F) : Type 0 where
    pub config : d'.config ≡ d.config
    pub market : d'.market_is_open ≡ d.market_is_open
    pub was_open : d'.was_open ≡ d.was_open
    pub opened : d'.opened_at ≡ d.opened_at
    pub count : d'.contiguous_ok ≡ d.contiguous_ok

  abbrev pub Quiet : RegimeDetector F → RegimeDetector F × Option (RegimeTransition F) → Type 0
  Quiet d r = Kept d r.0 × (r.0.last_zscore ≡ none) × OnlyLoses d.trigger (r.0.trigger, r.1)

  pub suppress-Quiet :
      (d : RegimeDetector F) (bar : SealedBar F) (reason : Text)
      {r : RegimeDetector F × Option (RegimeTransition F)}
      → suppress d bar reason ≡ ok r
      → Quiet d r
  unfolding suppress
  suppress-Quiet d bar reason e =
      let (u, call, e) =
        >>=-eq-ok (Trigger.update d.trigger none bar.sigma bar.ts false reason) _ e in
      let loses : OnlyLoses d.trigger u =
        Returns-ok (OnlyLoses d.trigger) _ (update-OnlyLoses d.trigger none bar.sigma bar.ts reason)
          call in
      let settled = record d { last_zscore = none; trigger = u.0 } in
      let kept : Kept d settled = record {
        config = refl;
        market = refl;
        was_open = refl;
        opened = refl;
        count = refl;
      } in
      Returns-ok (Quiet d) (ok (settled, u.1)) (kept, refl, loses) e

  learn-Kept :
      (d : RegimeDetector F) (adjusted sigma : F) (ts : Instant) {d' : RegimeDetector F}
      → learn d adjusted sigma ts ≡ ok d'
      → Kept d d'
  unfolding learn
  learn-Kept d adjusted sigma ts e = ground arith

  rebaseline-Kept : (d : RegimeDetector F) (ts : Instant) → Kept d (rebaseline d ts)
  unfolding rebaseline
  rebaseline-Kept d ts = ground arith

  pub evaluate-Kept :
      (d : RegimeDetector F) (bar : SealedBar F)
      (r : RegimeDetector F × Option (RegimeTransition F))
      → evaluate d bar ≡ ok r
      → Kept d r.0
  unfolding evaluate
  evaluate-Kept d bar r e =
      let (adjusted, _, e) =
        >>=-eq-ok (Seasonality.deseasonalize d.profile bar.sigma (hour_of bar.ts)) _ e in
      let z = Baseline.zscore d.baseline adjusted in
      let d' = rebaseline (record d { last_zscore = z }) bar.ts in
      let (u, _, e) = >>=-eq-ok (Trigger.update d'.trigger z adjusted bar.ts true []) _ e in
      let (d'', taught, e) = >>=-eq-ok (learn (after_update d' u) adjusted bar.sigma bar.ts) _ e in
      let k = learn-Kept (after_update d' u) adjusted bar.sigma bar.ts taught in
      let k' = rebaseline-Kept (record d { last_zscore = z }) bar.ts in ground arith
