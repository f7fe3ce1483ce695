-- ===== src/Alerts/Trigger/Tests.antt =====
-- Runs of a trigger at concrete samples.
use live_forex_volatility_tr.Base.{
  ℕ, ◌*◌, ◌≡◌, ◌≢◌, refl, true, false, none, some, List, [], ◌∷◌, inl, arith,
}
use live_forex_volatility_tr.Base.Int.{pos}
use live_forex_volatility_tr.Base.Clock.{minutes, hours}
use live_forex_volatility_tr.Base.Text.{codes}
use live_forex_volatility_tr.Base.Result.{ok, Returns}
use live_forex_volatility_tr.Alerts.Regime.{
  normal, stressed, threshold, held, RegimeTransition, TriggerConfig,
}
use live_forex_volatility_tr.Alerts.Trigger.{
  SchmittTrigger, fresh, update, evaluate, accumulate, confirm, commit, take_sample, count_sample,
  target_regime, reset_candidate,
}
use live_forex_volatility_tr.Alerts.Trigger.Invariant.{IsValid, fresh-IsValid, Good, update-Good}
use live_forex_volatility_tr.Alerts.Trigger.Runs.{Observation, after, Sound, after-Alternates}
use live_forex_volatility_tr.Alerts.Trigger.Streaks.{Confirmed, Streak}
use live_forex_volatility_tr.Alerts.Trigger.Evidence.{commit-Confirmed}
use live_forex_volatility_tr.Alerts.Trigger.Fires.{streak_fires}
use live_forex_volatility_tr.Alerts.Trigger.Spacing.{Spaced, after-Spaced}
use live_forex_volatility_tr.Alerts.Trigger.Blackout.{Unobserved, Held, after_blackout}
use live_forex_volatility_tr.Fixtures.{hundredths}

abbrev eurusd : List ℕ
eurusd = codes "EURUSD"

abbrev config : TriggerConfig ℕ
config = record {
  enter_z = 3;
  exit_z = 1;
  min_confirm_samples = 2;
  confirm_for = minutes 1;
  sample_timeout = minutes 5;
  cooldown = minutes 10;
  thaw_after = hours 4;
  observation_timeout = minutes 30;
}

abbrev calm : SchmittTrigger ℕ
calm = fresh eurusd config

abbrev sample : ℕ → ℕ → Observation ℕ
sample minute z = record {
  zscore = some z;
  sigma = 7;
  ts = minute * 60_000_000;
  armed = true;
  gate_reason = [];
}

abbrev gated : ℕ → Observation ℕ
gated minute = record {
  zscore = none;
  sigma = 7;
  ts = minute * 60_000_000;
  armed = false;
  gate_reason = codes "feed stale";
}

-- The transition that two samples in a row confirm.
abbrev escalation : RegimeTransition ℕ
escalation = record {
  symbol = eurusd;
  ts = 120_000_000;
  seq = 1;
  old_regime = normal;
  new_regime = stressed;
  trigger_value = 5;
  threshold_value = 3;
  sigma = 7;
  cause = threshold;
  reason = held stressed 5 3 (pos 60_000_000) 2;
}

abbrev stressed_trigger : SchmittTrigger ℕ
stressed_trigger = record calm {
  regime = stressed;
  seq = 1;
  regime_since = some 120_000_000;
  last_sample_ts = some 120_000_000;
  last_escalation = some 120_000_000;
}

two_samples : after (sample 2 5 ∷ sample 1 4 ∷ []) calm ≡ ok (stressed_trigger, escalation ∷ [])
unfolding after update evaluate accumulate confirm commit take_sample count_sample target_regime
    reset_candidate
two_samples = refl

stressed_trigger-IsValid : IsValid stressed_trigger
stressed_trigger-IsValid = record { candidate = tt; since = λ _. refl; escalated = λ _. refl }

update-Good_example :
    Returns (Good stressed_trigger) (update stressed_trigger (some 0) 7 180_000_000 true [])
update-Good_example =
    update-Good stressed_trigger (some 0) 7 180_000_000 true [] stressed_trigger-IsValid

after-Alternates_example : Returns (Sound calm) (after (sample 2 5 ∷ sample 1 4 ∷ []) calm)
after-Alternates_example =
    after-Alternates calm (sample 2 5 ∷ sample 1 4 ∷ []) (fresh-IsValid eurusd config)

one_sample :
    after (sample 1 4 ∷ []) calm
    ≡ ok (
      record calm {
        candidate = some stressed;
        candidate_since = some 60_000_000;
        candidate_samples = 1;
        last_sample_ts = some 60_000_000;
      },
      [],
    )
unfolding after update evaluate accumulate confirm commit take_sample count_sample target_regime
    reset_candidate
one_sample = refl

commit-Confirmed_example : Confirmed config escalation (sample 2 5 ∷ sample 1 4 ∷ [])
unfolding after update evaluate accumulate confirm commit take_sample count_sample target_regime
    reset_candidate
commit-Confirmed_example =
    commit-Confirmed eurusd config (sample 1 4 ∷ []) (sample 2 5) {x = escalation} one_sample refl
      (λ e. cc)

two_crossings : Streak config normal 60_000_000 2 (sample 2 5 ∷ sample 1 4 ∷ [])
two_crossings =
    Streak.extend (sample 2 5) (sample 1 4) [] refl refl
      (Streak.start (sample 1 4) [] refl refl refl)

streak_fires_example : Returns (λ s. s.1 ≢ []) (after (sample 2 5 ∷ sample 1 4 ∷ []) calm)
streak_fires_example =
    streak_fires calm (fresh-IsValid eurusd config) refl two_crossings refl
      (omega arith, refl, λ _. refl)

after-Spaced_example :
    Returns (λ s. Spaced config none s.1) (after (sample 2 5 ∷ sample 1 4 ∷ []) calm)
after-Spaced_example =
    after-Spaced calm (sample 2 5 ∷ sample 1 4 ∷ []) (fresh-IsValid eurusd config)

after_blackout_example :
    Returns
      (Held config 180_000_000 2_400_000_000)
      (after (gated 40 ∷ gated 3 ∷ []) stressed_trigger)
after_blackout_example = after_blackout stressed_trigger refl refl (
    Unobserved.next_unseen (gated 40) (gated 3) [] (inl refl)
      (Unobserved.first_unseen (gated 3) (inl refl) refl))
