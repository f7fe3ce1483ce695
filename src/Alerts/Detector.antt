-- ===== src/Alerts/Detector.antt =====
-- `RegimeDetector` of packages/core/fx_core/alerts/detector.py: gates, then seasonality,
-- baseline and trigger, for one symbol.
pub mod Learning
pub mod Gates
pub mod Kept
pub mod Rearm
pub mod Failover
pub mod Tests
use live_forex_volatility_tr.Base.{
  ℕ, suc, Bool, true, false, ◌&&◌, ◌||◌, not, Option, none, some, [], leb, if◌then◌else◌, is_some,
}
use live_forex_volatility_tr.Base.Int.{pos, ltb_ℤ}
use live_forex_volatility_tr.Base.Clock.{Instant, Duration, elapsed_lt, hour_of}
use live_forex_volatility_tr.Base.Float.{Float}
use live_forex_volatility_tr.Base.Text.{Text, codes}
use live_forex_volatility_tr.Base.Result.{Result, ok, raise, value_error, ◌>>=◌, ◌>>◌, raise_if}
use live_forex_volatility_tr.Alerts.Regime.{
  normal, stressed, same_regime, RegimeTransition, TriggerConfig, TriggerSnapshot,
}
use live_forex_volatility_tr.Alerts.Trigger
use live_forex_volatility_tr.Alerts.Trigger.{SchmittTrigger, holds_since}
use live_forex_volatility_tr.Alerts.Baseline
use live_forex_volatility_tr.Alerts.Baseline.{VolatilityBaseline, BaselineSnapshot}
use live_forex_volatility_tr.Alerts.Seasonality
use live_forex_volatility_tr.Alerts.Seasonality.{DiurnalProfile, DiurnalSnapshot}

pub record DetectorConfig : Type 0 where
  pub session_warmup : Duration
  pub rearm_bars : ℕ

-- `DetectorConfig.__post_init__`; a count of bars is no negative number here.
unfoldable pub post_init : DetectorConfig → Result DetectorConfig
post_init c = do raise_if (ltb_ℤ c.session_warmup (pos 0)) value_error; ok c

pub record RegimeDetector (F : Type 0) : Type 0 where
  pub symbol : Text
  pub config : DetectorConfig
  pub trigger_config : TriggerConfig F
  pub baseline : VolatilityBaseline F
  pub profile : DiurnalProfile F
  pub trigger : SchmittTrigger F
  pub market_is_open : Instant → Bool
  pub was_open : Option Bool
  pub opened_at : Option Instant
  pub contiguous_ok : ℕ
  pub last_zscore : Option F
  pub rebaselining : Bool

pub record DetectorSnapshot (F : Type 0) : Type 0 where
  pub trigger : TriggerSnapshot
  pub baseline : BaselineSnapshot F
  pub profile : DiurnalSnapshot F

-- The arguments of `update`: one sealed bar's volatility.
pub record SealedBar (F : Type 0) : Type 0 where
  pub sigma : F
  pub ts : Instant
  pub is_gap_bar : Bool
  pub is_backfill : Bool
  pub feed_is_stale : Bool

abbrev pub is_false : Option Bool → Bool
is_false none = false
is_false (some b) = not b

abbrev pub Update : Type 0 → Type 0
Update F = Result (RegimeDetector F × Option (RegimeTransition F))

module _ {F : Type 0} ⦃f : Float F⦄ where
  -- `_gate`: first the session clock, then the first reason that applies.
  pub see_session : RegimeDetector F → Instant → RegimeDetector F
  see_session d ts =
      let open_now = d.market_is_open ts in
      record d {
        opened_at = if is_false d.was_open && open_now then some ts else d.opened_at;
        was_open = some open_now;
      }

  pub gate : RegimeDetector F → SealedBar F → Option Text
  gate d bar =
      if not (d.market_is_open bar.ts)
      then some (codes "market closed")
      else if holds_since d.opened_at (λ at. elapsed_lt bar.ts at d.config.session_warmup)
      then some (codes "session warm-up")
      else if bar.is_gap_bar
      then some (codes "session gap bar")
      else if bar.is_backfill
      then some (codes "backfilled bar")
      else if bar.feed_is_stale
      then some (codes "feed stale")
      else none

  -- The trigger is told that the bar was not evaluated.
  pub suppress : RegimeDetector F → SealedBar F → Text → Update F
  suppress d bar reason = do
    (trigger, transition) ← Trigger.update d.trigger none bar.sigma bar.ts false reason
    ok (record d { last_zscore = none; trigger = trigger }, transition)

  -- The bounded freeze: a stress that lasted is accepted as the new normal.
  pub rebaseline : RegimeDetector F → Instant → RegimeDetector F
  rebaseline d ts =
      if Trigger.baseline_should_thaw d.trigger ts && not d.rebaselining
      then record d {
        rebaselining = true;
        baseline = Baseline.thaw d.baseline;
        trigger = Trigger.mark_thawed d.trigger;
      }
      else d

  -- Freeze under stress, thaw otherwise; then learn, last of all.
  pub learn : RegimeDetector F → F → F → Instant → Result (RegimeDetector F)
  learn d adjusted sigma ts =
      let calm = same_regime d.trigger.regime normal in
      let baseline =
        if same_regime d.trigger.regime stressed && not d.rebaselining
        then Baseline.freeze d.baseline
        else if calm
        then Baseline.thaw d.baseline
        else d.baseline in
      let learned =
        if calm || d.rebaselining then Baseline.observe baseline adjusted else baseline in
      if calm
      then (do
        profile ← Seasonality.observe d.profile sigma (hour_of ts)
        ok (record d { baseline = learned; profile = profile }))
      else ok (record d { baseline = learned })

  -- What the trigger answered, taken over.
  abbrev pub after_update :
      RegimeDetector F → SchmittTrigger F × Option (RegimeTransition F) → RegimeDetector F
  after_update d (trigger, transition) = record d {
    trigger = trigger;
    rebaselining = if is_some transition then false else d.rebaselining;
  }

  pub evaluate : RegimeDetector F → SealedBar F → Update F
  evaluate d bar = do
    adjusted ← Seasonality.deseasonalize d.profile bar.sigma (hour_of bar.ts)
    let zscore = Baseline.zscore d.baseline adjusted
    let d' = rebaseline (record d { last_zscore = zscore }) bar.ts
    answer ← Trigger.update d'.trigger zscore adjusted bar.ts true []
    d'' ← learn (after_update d' answer) adjusted bar.sigma bar.ts
    ok (d'', answer.1)

  -- What `update` does with the gate's answer.
  pub after_gate : RegimeDetector F → SealedBar F → Option Text → Update F
  after_gate d bar (some reason) = suppress (record d { contiguous_ok = 0 }) bar reason
  after_gate d bar none =
      let counted = record d { contiguous_ok = suc d.contiguous_ok } in
      if leb counted.contiguous_ok counted.config.rearm_bars
      then suppress counted bar (codes "re-arming after gate")
      else evaluate counted bar

  unfoldable pub update : RegimeDetector F → SealedBar F → Update F
  update d bar = let seen = see_session d bar.ts in after_gate seen bar (gate seen bar)

  unfoldable pub snapshot : RegimeDetector F → DetectorSnapshot F
  snapshot d = record {
    trigger = Trigger.snapshot d.trigger;
    baseline = Baseline.snapshot d.baseline;
    profile = Seasonality.snapshot d.profile;
  }

  -- The three parts are replaced one after another, so an exception leaves those before it.
  unfoldable pub restore :
      RegimeDetector F → DetectorSnapshot F → RegimeDetector F × Result (Unit {0})
  restore d state = elim (Trigger.restore d.symbol state.trigger d.trigger_config) [
    | raise e ↦ (d, raise e)
    | ok trigger ↦
        let d₁ = record d { trigger = trigger } in
        elim (Baseline.restore state.baseline d.baseline.min_samples) [
          | raise e ↦ (d₁, raise e)
          | ok baseline ↦
              let d₂ = record d₁ { baseline = baseline } in
              elim (Seasonality.restore state.profile d.profile.min_samples
                d.profile.min_ready_hours) [
                  | raise e ↦ (d₂, raise e)
                  | ok profile ↦ (record d₂ { profile = profile }, ok tt)
                ]
        ]
  ]
