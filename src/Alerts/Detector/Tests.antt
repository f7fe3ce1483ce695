-- ===== src/Alerts/Detector/Tests.antt =====
-- Runs of a detector at concrete bars.
use live_forex_volatility_tr.Base.{
  ℕ, ◌*◌, ◌≡◌, refl, true, false, none, some, [], ◌∷◌, ltb, replicate, arith,
}
use live_forex_volatility_tr.Base.Clock.{minutes, hours}
use live_forex_volatility_tr.Base.Text.{Text, codes}
use live_forex_volatility_tr.Base.Result.{ok, raise, value_error, Returns}
use live_forex_volatility_tr.Alerts.Regime.{stressed, TriggerConfig}
use live_forex_volatility_tr.Alerts.Trigger
use live_forex_volatility_tr.Alerts.Trigger.{fresh, reset_candidate, hold, unobserved_from}
use live_forex_volatility_tr.Alerts.Trigger.Invariant.{fresh-IsValid}
use live_forex_volatility_tr.Alerts.Trigger.Snapshot.{without_evidence}
use live_forex_volatility_tr.Alerts.Baseline
use live_forex_volatility_tr.Alerts.Baseline.{VolatilityBaseline}
use live_forex_volatility_tr.Alerts.Seasonality.{DiurnalProfile}
use live_forex_volatility_tr.Alerts.Detector.{
  RegimeDetector, DetectorSnapshot, SealedBar, see_session, gate, suppress, after_gate, update,
  snapshot, restore,
}
use live_forex_volatility_tr.Alerts.Detector.Learning.{IsSound, After}
use live_forex_volatility_tr.Alerts.Detector.Gates.{Shut, drive, update-After, gated-Shut}
use live_forex_volatility_tr.Alerts.Detector.Rearm.{Earned, drive-Earned}
use live_forex_volatility_tr.Alerts.Detector.Failover.{
  IsConfigured, SameSettings, restore-snapshot_detector,
}
use live_forex_volatility_tr.Alerts.Seasonality
use live_forex_volatility_tr.Fixtures.{hundredths}

abbrev pub pair : Text
pair = codes "USDJPY"

abbrev pub trigger_config : TriggerConfig ℕ
trigger_config = record {
  enter_z = 300;
  exit_z = 100;
  min_confirm_samples = 3;
  confirm_for = minutes 2;
  sample_timeout = minutes 5;
  cooldown = minutes 10;
  thaw_after = hours 4;
  observation_timeout = minutes 30;
}

abbrev baseline : VolatilityBaseline ℕ
baseline = record {
  lam = 94;
  min_samples = 2;
  mean = 500;
  var = 100;
  n = 5;
  frozen = false;
  debias = 0;
}

abbrev profile : DiurnalProfile ℕ
profile = record {
  lam = 97;
  min_samples = 20;
  min_ready_hours = 6;
  clamp_lo = 25;
  clamp_hi = 400;
  hour_mean = replicate 24 0;
  hour_n = replicate 24 0;
}

abbrev pub detector : RegimeDetector ℕ
detector = record {
  symbol = pair;
  config = record { session_warmup = minutes 30; rearm_bars = 5 };
  trigger_config = trigger_config;
  baseline = baseline;
  profile = profile;
  trigger = fresh pair trigger_config;
  market_is_open = λ ts. ltb ts 9_000_000_000;
  was_open = none;
  opened_at = none;
  contiguous_ok = 0;
  last_zscore = none;
  rebaselining = false;
}

pub detector-IsSound : IsSound detector
detector-IsSound = record {
  trigger = fresh-IsValid pair trigger_config;
  whole = record { means = refl; counts = refl };
  frozen = λ e. cc;
}

abbrev bar : ℕ → SealedBar ℕ
bar minute = record {
  sigma = 600;
  ts = minute * 60_000_000;
  is_gap_bar = false;
  is_backfill = false;
  feed_is_stale = false;
}

abbrev stale_bar : SealedBar ℕ
stale_bar = record {
  sigma = 600;
  ts = 60_000_000;
  is_gap_bar = false;
  is_backfill = false;
  feed_is_stale = true;
}

update-After_example : Returns (After detector) (update detector (bar 1))
update-After_example = update-After detector (bar 1) detector-IsSound

stale : gate (see_session detector 60_000_000) stale_bar ≡ some (codes "feed stale")
unfolding gate see_session
stale = refl

gated-Shut_example : Returns (Shut detector) (update detector stale_bar)
gated-Shut_example = gated-Shut detector stale_bar (codes "feed stale") detector-IsSound stale

-- The detector after one bar, which the count of clean bars holds back.
abbrev after_one : RegimeDetector ℕ
after_one = record detector {
  was_open = some true;
  contiguous_ok = 1;
  trigger = record (fresh pair trigger_config) {
    unobserved_since = some 60_000_000;
    gate_reason = codes "re-arming after gate";
  };
}

one_bar : drive (bar 1 ∷ []) detector ≡ ok (after_one, none)
unfolding drive update after_gate gate see_session suppress Trigger.update hold reset_candidate
    unobserved_from
one_bar = refl

drive-Earned_example : Earned detector.config detector.market_is_open (bar 1 ∷ []) (after_one, none)
drive-Earned_example = drive-Earned detector (bar 1) [] (after_one, none) refl refl refl one_bar

-- A leader whose profile has a wider clamp than the default.
abbrev leader : RegimeDetector ℕ
leader = record detector { profile = record profile { clamp_lo = 10; clamp_hi = 800 } }

leader-IsSound : IsSound leader
leader-IsSound = record {
  trigger = fresh-IsValid pair trigger_config;
  whole = record { means = refl; counts = refl };
  frozen = λ e. cc;
}

leader-IsConfigured : IsConfigured leader
leader-IsConfigured = record {
  baseline_lam = refl;
  baseline_samples = omega arith;
  profile_lam = refl;
  ready_hours = omega arith;
  ready_hours_bound = omega arith;
  clamp_pos = refl;
  clamp_below = refl;
  clamp_above = refl;
  symbol = refl;
  config = refl;
}

abbrev standby : RegimeDetector ℕ
standby = record detector {
  baseline = record baseline { mean = 0; var = 0; n = 0 };
  contiguous_ok = 4;
}

standby-SameSettings : SameSettings leader standby
standby-SameSettings = record {
  symbol = refl;
  trigger_config = refl;
  baseline_samples = refl;
  profile_samples = refl;
  ready_hours = refl;
}

restore-snapshot_detector_example : restore standby (snapshot leader) ≡ (
  record standby {
    trigger = without_evidence leader.trigger;
    baseline = leader.baseline;
    profile = record leader.profile { clamp_lo = 25; clamp_hi = 400 };
  },
  ok tt,
)
restore-snapshot_detector_example =
    restore-snapshot_detector leader standby leader-IsConfigured leader-IsSound standby-SameSettings

-- A snapshot of a stressed detector, whose profile lost an hour.
abbrev torn : DetectorSnapshot ℕ
torn = record {
  trigger = record {
    regime = codes "stressed";
    seq = 8;
    regime_since = some 60_000_000;
    last_escalation = some 60_000_000;
    thawed = false;
  };
  baseline = record { lam = 94; mean = 400; var = 50; n = 90; debias = 70; frozen = true };
  profile = record { lam = 97; hour_mean = replicate 23 0; hour_n = replicate 24 0 };
}

torn_mixed : restore detector torn ≡ (
  record detector {
    trigger = record (fresh pair trigger_config) {
      regime = stressed;
      seq = 8;
      regime_since = some 60_000_000;
      last_escalation = some 60_000_000;
    };
    baseline = record {
      lam = 94;
      min_samples = 2;
      mean = 400;
      var = 50;
      n = 90;
      frozen = true;
      debias = 70;
    };
  },
  raise value_error,
)
unfolding restore Trigger.restore Baseline.restore Seasonality.restore
torn_mixed = refl
