-- ===== src/Alerts/Trigger/Streaks.antt =====
-- Streaks of samples that cross the threshold of the trigger of
-- packages/core/fx_core/alerts/hysteresis.py, read off the history of observations and not off
-- its own counters.
use live_forex_volatility_tr.Base.{
  ℕ, suc, ◌≤◌, ◌≡◌, Bool, true, false, ◌&&◌, Option, none, some, List, [], ◌∷◌,
}
use live_forex_volatility_tr.Base.Clock.{Instant, elapsed_lt, elapsed_gt}
use live_forex_volatility_tr.Base.Float.{Float}
use live_forex_volatility_tr.Alerts.Regime.{
  Regime, normal, stressed, flip, RegimeTransition, TriggerConfig,
}
use live_forex_volatility_tr.Alerts.Trigger.{SchmittTrigger}
use live_forex_volatility_tr.Alerts.Trigger.Runs.{Observation}

module _ {F : Type 0} ⦃f : Float F⦄ where
  -- The z-score lies on the far side of the threshold that applies in the regime.
  abbrev pub beyond : TriggerConfig F → Regime → Option F → Bool
  beyond c r none = false
  beyond c normal (some z) = f.le c.enter_z z
  beyond c stressed (some z) = f.le z c.exit_z

  abbrev pub crosses : TriggerConfig F → Regime → Observation F → Bool
  crosses c r o = o.armed && beyond c r o.zscore

  -- Newest first: `n` consecutive samples that cross, none more than `sample_timeout` after the
  -- one before, the oldest of them at `since`.
  pub data Streak (c : TriggerConfig F) (r : Regime) (since : Instant)
      : ℕ → List (Observation F) → Type 0 where
    start :
        {n : ℕ} (o : Observation F) (h : List (Observation F))
        → n ≡ 1
        → crosses c r o ≡ true
        → o.ts ≡ since
        → Streak c r since n (o ∷ h)
    extend :
        {n : ℕ} (o p : Observation F) (h : List (Observation F))
        → crosses c r o ≡ true
        → elapsed_gt o.ts p.ts c.sample_timeout ≡ false
        → Streak c r since n (p ∷ h)
        → Streak c r since (suc n) (o ∷ p ∷ h)

  -- The trigger's candidate is backed by the history.
  abbrev pub Backs :
      TriggerConfig F
      → Regime
      → Option Regime
      → Option Instant
      → ℕ
      → Option Instant
      → List (Observation F)
      → Type 0
  Backs c r none since n last h = Unit
  Backs c r (some k) none n last h = ⊥
  Backs c r (some k) (some s) n last [] = ⊥
  Backs c r (some k) (some s) n last (p ∷ h) =
      (k ≡ flip r) × (last ≡ some p.ts) × Streak c r s n (p ∷ h)

  abbrev pub Backed : SchmittTrigger F → List (Observation F) → Type 0
  Backed t h =
      Backs t.config t.regime t.candidate t.candidate_since t.candidate_samples t.last_sample_ts h

  -- The transition is confirmed by a streak of at least `min_confirm_samples` samples that
  -- spans at least `confirm_for`.
  abbrev pub Confirmed : TriggerConfig F → RegimeTransition F → List (Observation F) → Type 0
  Confirmed c x h =
      (n : ℕ) × (since : Instant) × Streak c x.old_regime since n h
      × (c.min_confirm_samples ≤ n)
      × (elapsed_lt x.ts since c.confirm_for ≡ false)
