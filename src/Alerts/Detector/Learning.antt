-- ===== src/Alerts/Detector/Learning.antt =====
-- What a bar teaches the baseline and the seasonal profile, and when it teaches them nothing.
use live_forex_volatility_tr.Base.{
  ℕ, ◌<◌, ◌≡◌, ◌≢◌, sym, subst, ◌∙◌, true, false, Option, none, some, [], arith, length, length-set,
  get_elem?-lt,
}
use live_forex_volatility_tr.Base.Clock.{Instant, hour_of}
use live_forex_volatility_tr.Base.Float.{Float}
use live_forex_volatility_tr.Base.Text.{Text}
use live_forex_volatility_tr.Base.Result.{Result, Returns, Returns-bind, Returns-both}
use live_forex_volatility_tr.Alerts.Regime.{stressed, RegimeTransition}
use live_forex_volatility_tr.Alerts.Trigger
use live_forex_volatility_tr.Alerts.Trigger.{SchmittTrigger}
use live_forex_volatility_tr.Alerts.Trigger.Invariant.{IsValid, Good, update-Good}
use live_forex_volatility_tr.Alerts.Trigger.Blackout.{OnlyLoses, update-OnlyLoses}
use live_forex_volatility_tr.Alerts.Baseline
use live_forex_volatility_tr.Alerts.Seasonality
use live_forex_volatility_tr.Alerts.Seasonality.{DiurnalProfile, at}
use live_forex_volatility_tr.Alerts.Detector.{
  RegimeDetector, SealedBar, suppress, rebaseline, after_update, learn, evaluate,
}

hour_of-lt : (ts : Instant) → hour_of ts < 24
hour_of-lt ts = omega arith

module _ {F : Type 0} ⦃f : Float F⦄ where
  -- The profile has its 24 hours.
  pub record IsWhole (p : DiurnalProfile F) : Type 0 where
    pub means : length p.hour_mean ≡ 24
    pub counts : length p.hour_n ≡ 24

  admit-IsWhole :
      (p : DiurnalProfile F) (x : F) (hour n : ℕ) (mean : F)
      → IsWhole p
      → IsWhole (Seasonality.admit p x hour n mean)
  unfolding Seasonality.admit
  admit-IsWhole p x hour n mean w = record {
    means = length-set p.hour_mean hour _ ∙ w.means;
    counts = length-set p.hour_n hour _ ∙ w.counts;
  }

  observe-IsWhole :
      (p : DiurnalProfile F) (sigma : F) (hour : ℕ)
      → IsWhole p
      → hour < 24
      → Returns IsWhole (Seasonality.observe p sigma hour)
  unfolding Seasonality.observe
  observe-IsWhole p sigma hour w h =
      let (n, found) = get_elem?-lt p.hour_n hour (omega arith) in
      let (m, found') = get_elem?-lt p.hour_mean hour (omega arith) in
      ground (arith, admit-IsWhole p (f.log sigma) hour n m w)

  deseasonalize-Returns :
      (p : DiurnalProfile F) (sigma : F) (hour : ℕ)
      → IsWhole p
      → hour < 24
      → Returns (λ _. Unit {0}) (Seasonality.deseasonalize p sigma hour)
  unfolding Seasonality.deseasonalize Seasonality.factor
  deseasonalize-Returns p sigma hour w h =
      let (n, found) = get_elem?-lt p.hour_n hour (omega arith) in
      let (m, found') = get_elem?-lt p.hour_mean hour (omega arith) in ground arith

  -- The statistics of the baseline are left alone; its freeze switch may move.
  pub record Unmoved (b b' : Baseline.VolatilityBaseline F) : Type 0 where
    pub mean : b'.mean ≡ b.mean
    pub var : b'.var ≡ b.var
    pub n : b'.n ≡ b.n
    pub debias : b'.debias ≡ b.debias
    pub lam : b'.lam ≡ b.lam

  -- What holds of a detector between two bars.
  pub record IsSound (d : RegimeDetector F) : Type 0 where
    pub trigger : IsValid d.trigger
    pub whole : IsWhole d.profile
    pub frozen : d.trigger.regime ≡ stressed → d.rebaselining ≡ false → d.baseline.frozen ≡ true

  -- Under stress nothing is learned, but by a detector that accepted the stress as normal.
  pub record Discipline (d d' : RegimeDetector F) : Type 0 where
    pub profile : d'.trigger.regime ≡ stressed → d'.profile ≡ d.profile
    pub baseline :
        d'.trigger.regime ≡ stressed → d'.rebaselining ≡ false → Unmoved d.baseline d'.baseline
    pub thawed :
        d'.rebaselining ≡ false → d.rebaselining ≡ true → d'.trigger.regime ≢ d.trigger.regime

  abbrev Taught : RegimeDetector F → RegimeDetector F → Type 0
  Taught d d' =
      IsSound d'
      × (d'.trigger ≡ d.trigger)
      × (d'.rebaselining ≡ d.rebaselining)
      × (d.trigger.regime ≡ stressed → d'.profile ≡ d.profile)
      × (d.trigger.regime ≡ stressed → d.rebaselining ≡ false → Unmoved d.baseline d'.baseline)

  learn-Discipline :
      (d : RegimeDetector F) (adjusted sigma : F) (ts : Instant)
      → IsValid d.trigger
      → IsWhole d.profile
      → Returns (Taught d) (learn d adjusted sigma ts)
  unfolding learn Baseline.freeze Baseline.thaw
  learn-Discipline d adjusted sigma ts v w =
      ground (arith, observe-IsWhole d.profile sigma (hour_of ts) w (hour_of-lt ts))

  abbrev Rebaselined : RegimeDetector F → RegimeDetector F → Type 0
  Rebaselined d d' =
      IsValid d'.trigger
      × (d'.trigger.regime ≡ d.trigger.regime)
      × (d'.profile ≡ d.profile)
      × Unmoved d.baseline d'.baseline
      × (d.rebaselining ≡ true → d'.rebaselining ≡ true)

  rebaseline-fields :
      (d : RegimeDetector F) (ts : Instant) → IsValid d.trigger → Rebaselined d (rebaseline d ts)
  unfolding rebaseline Baseline.thaw Trigger.mark_thawed
  rebaseline-fields d ts v = ground arith

  abbrev pub After : RegimeDetector F → RegimeDetector F × Option (RegimeTransition F) → Type 0
  After d r = IsSound r.0 × Discipline d r.0

  abbrev pub Suppressed : RegimeDetector F → RegimeDetector F × Option (RegimeTransition F) → Type 0
  Suppressed d r =
      After d r
      × (r.0.baseline ≡ d.baseline)
      × (r.0.profile ≡ d.profile)
      × (r.0.contiguous_ok ≡ d.contiguous_ok)
      × (r.0.last_zscore ≡ none)
      × OnlyLoses d.trigger (r.0.trigger, r.1)

  settle :
      (d : RegimeDetector F) (u : SchmittTrigger F × Option (RegimeTransition F))
      → IsSound d
      → Good d.trigger u
      → OnlyLoses d.trigger u
      → Suppressed d (record d { last_zscore = none; trigger = u.0 }, u.1)
  settle d (t, none) s g l = ground arith
  settle d (t, some x) s g l = ground arith

  pub suppress-After :
      (d : RegimeDetector F) (bar : SealedBar F) (reason : Text)
      → IsSound d
      → Returns (Suppressed d) (suppress d bar reason)
  unfolding suppress
  suppress-After d bar reason s =
      let call : Result (SchmittTrigger F × Option (RegimeTransition F)) =
        Trigger.update d.trigger none bar.sigma bar.ts false reason in
      Returns-bind (λ u. Good d.trigger u × OnlyLoses d.trigger u) (Suppressed d) call _
        (Returns-both (Good d.trigger) (OnlyLoses d.trigger) call
          (update-Good d.trigger none bar.sigma bar.ts false reason s.trigger)
          (update-OnlyLoses d.trigger none bar.sigma bar.ts reason))
        (λ u g. settle d u s g.0 g.1)

  finish :
      (d d' : RegimeDetector F) (u : SchmittTrigger F × Option (RegimeTransition F))
      (d'' : RegimeDetector F)
      → Rebaselined d d'
      → Good d'.trigger u
      → Taught (after_update d' u) d''
      → IsSound d'' × Discipline d d''
  finish d d' (t, none) d'' a g k = ground arith
  finish d d' (t, some x) d'' a g k = ground arith

  pub evaluate-After :
      (d : RegimeDetector F) (bar : SealedBar F) → IsSound d → Returns (After d) (evaluate d bar)
  unfolding evaluate
  evaluate-After d bar s =
      Returns-bind (λ _. Unit {0}) (After d)
        (Seasonality.deseasonalize d.profile bar.sigma (hour_of bar.ts)) _
        (deseasonalize-Returns d.profile bar.sigma (hour_of bar.ts) s.whole (hour_of-lt bar.ts))
        (λ adjusted _.
          let z = Baseline.zscore d.baseline adjusted in
          let scored = record d { last_zscore = z } in
          let d' = rebaseline scored bar.ts in
          let fields = rebaseline-fields scored bar.ts s.trigger in
          Returns-bind (Good d'.trigger) (After d)
            (Trigger.update d'.trigger z adjusted bar.ts true []) _
            (update-Good d'.trigger z adjusted bar.ts true [] fields.0)
            (λ u g.
              let d₂ = after_update d' u in
              Returns-bind (Taught d₂) (After d) (learn d₂ adjusted bar.sigma bar.ts) _
                (learn-Discipline d₂ adjusted bar.sigma bar.ts g.0
                  (subst IsWhole (sym fields.2) s.whole))
                (λ d'' k. finish d d' u d'' fields g k)))
