-- ===== src/Alerts/Detector/Failover.antt =====
-- Snapshot and restore of the whole detector, as a promoted standby does it.
use live_forex_volatility_tr.Base.{◌≤◌, ◌≡◌, true, arith}
use live_forex_volatility_tr.Base.Float.{Float}
use live_forex_volatility_tr.Base.Result.{ok}
use live_forex_volatility_tr.Alerts.Trigger
use live_forex_volatility_tr.Alerts.Trigger.Invariant.{IsValid}
use live_forex_volatility_tr.Alerts.Trigger.Snapshot.{without_evidence, restore-snapshot}
use live_forex_volatility_tr.Alerts.Baseline
use live_forex_volatility_tr.Alerts.Baseline.{in_unit}
use live_forex_volatility_tr.Alerts.Seasonality
use live_forex_volatility_tr.Alerts.Seasonality.{DiurnalProfile}
use live_forex_volatility_tr.Alerts.Detector.{RegimeDetector, snapshot, restore}
use live_forex_volatility_tr.Alerts.Detector.Learning.{IsSound, IsWhole}

module _ {F : Type 0} ⦃f : Float F⦄ where
  -- The constructors accept the settings of the detector's parts and the default clamp, and its
  -- trigger was built from its own symbol and configuration.
  pub record IsConfigured (d : RegimeDetector F) : Type 0 where
    pub baseline_lam : in_unit d.baseline.lam ≡ true
    pub baseline_samples : 2 ≤ d.baseline.min_samples
    pub profile_lam : in_unit d.profile.lam ≡ true
    pub ready_hours : 1 ≤ d.profile.min_ready_hours
    pub ready_hours_bound : d.profile.min_ready_hours ≤ 24
    pub clamp_pos : f.lt (f.of_ℕ 0) (f.literal 25 2) ≡ true
    pub clamp_below : f.lt (f.literal 25 2) (f.of_ℕ 1) ≡ true
    pub clamp_above : f.lt (f.of_ℕ 1) (f.of_ℕ 4) ≡ true
    pub symbol : d.trigger.symbol ≡ d.symbol
    pub config : d.trigger.config ≡ d.trigger_config

  baseline-restore :
      (d : RegimeDetector F)
      → IsConfigured d
      → Baseline.restore (Baseline.snapshot d.baseline) d.baseline.min_samples ≡ ok d.baseline
  unfolding Baseline.restore Baseline.snapshot
  baseline-restore d c = ground arith

  -- A restored profile has the default clamp, whatever the snapshot's detector had.
  abbrev pub with_default_clamp : DiurnalProfile F → DiurnalProfile F
  with_default_clamp p = record p { clamp_lo = f.literal 25 2; clamp_hi = f.of_ℕ 4 }

  profile-restore :
      (d : RegimeDetector F)
      → IsConfigured d
      → IsWhole d.profile
      → Seasonality.restore
          (Seasonality.snapshot d.profile)
          d.profile.min_samples
          d.profile.min_ready_hours
        ≡ ok (with_default_clamp d.profile)
  unfolding Seasonality.restore Seasonality.snapshot
  profile-restore d c w = ground arith

  trigger-restore :
      (d : RegimeDetector F)
      → IsConfigured d
      → IsValid d.trigger
      → Trigger.restore d.symbol (Trigger.snapshot d.trigger) d.trigger_config
        ≡ ok (without_evidence d.trigger)
  trigger-restore d c v = rw (← c.symbol, ← c.config) ((restore-snapshot d.trigger v).0)

  -- Two replicas run with the same settings.
  pub record SameSettings (d d' : RegimeDetector F) : Type 0 where
    pub symbol : d'.symbol ≡ d.symbol
    pub trigger_config : d'.trigger_config ≡ d.trigger_config
    pub baseline_samples : d'.baseline.min_samples ≡ d.baseline.min_samples
    pub profile_samples : d'.profile.min_samples ≡ d.profile.min_samples
    pub ready_hours : d'.profile.min_ready_hours ≡ d.profile.min_ready_hours

  -- A standby that restores the snapshot of a sound leader, under the same settings, returns with
  -- the leader's regime, counter, last escalation, baseline and profile, whatever it held itself.
  -- Of the leader's it does not get the candidate and its evidence, the last sample's time, the
  -- start of an unobserved stretch, the reason of the gate and a clamp other than the default; its
  -- session clock, its count of clean bars, its last z-score and its mark of a new baseline stay
  -- its own.
  pub restore-snapshot_detector :
      (d standby : RegimeDetector F)
      → IsConfigured d
      → IsSound d
      → SameSettings d standby
      → restore standby (snapshot d) ≡ (
        record standby {
          trigger = without_evidence d.trigger;
          baseline = d.baseline;
          profile = with_default_clamp d.profile;
        },
        ok tt,
      )
  unfolding restore snapshot
  restore-snapshot_detector d standby c s same =
      let t : Trigger.restore standby.symbol (Trigger.snapshot d.trigger) standby.trigger_config
          ≡ ok (without_evidence d.trigger) =
        rw (same.symbol, same.trigger_config) (trigger-restore d c s.trigger) in
      let b : Baseline.restore (Baseline.snapshot d.baseline) standby.baseline.min_samples
          ≡ ok d.baseline =
        rw same.baseline_samples (baseline-restore d c) in
      let p : Seasonality.restore (Seasonality.snapshot d.profile) standby.profile.min_samples
            standby.profile.min_ready_hours
          ≡ ok (with_default_clamp d.profile) =
        rw (same.profile_samples, same.ready_hours) (profile-restore d c s.whole) in
      ground arith
