-- ===== src/Alerts/Trigger/Spacing.antt =====
-- The cooldown: escalations are rate limited, and nothing else is.
use live_forex_volatility_tr.Base.{
  ◌≡◌, refl, Bool, true, false, Option, none, some, List, [], ◌∷◌, arith, if◌then◌else◌,
}
use live_forex_volatility_tr.Base.Clock.{Instant, elapsed_lt}
use live_forex_volatility_tr.Base.Float.{Float}
use live_forex_volatility_tr.Base.Text.{Text}
use live_forex_volatility_tr.Base.Result.{Returns, Returns-bind, Returns-both, Returns-weaken}
use live_forex_volatility_tr.Alerts.Regime.{RegimeTransition, TriggerConfig, is_escalation}
use live_forex_volatility_tr.Alerts.Trigger.{
  SchmittTrigger, holds_since, update, hold, evaluate, accumulate, confirm, commit, take_sample,
  count_sample, target_regime, reset_candidate, unobserved_from,
}
use live_forex_volatility_tr.Alerts.Trigger.Invariant.{IsValid, Good, update-Good}
use live_forex_volatility_tr.Alerts.Trigger.Runs.{Observation, feed, after, push, Sound, push-Sound}

module _ {F : Type 0} where
  -- The time of the newest escalation among the transitions, or the one known before them.
  abbrev pub last_of : Option Instant → List (RegimeTransition F) → Option Instant
  last_of before [] = before
  last_of before (x ∷ xs) = if is_escalation x then some x.ts else last_of before xs

  -- Each escalation comes at least the cooldown after the escalation before it.
  abbrev pub Spaced : TriggerConfig F → Option Instant → List (RegimeTransition F) → Type 0
  Spaced c before [] = Unit
  Spaced c before (x ∷ xs) =
      (is_escalation x ≡ true
        → holds_since (last_of before xs) (λ last. elapsed_lt x.ts last c.cooldown) ≡ false)
      × Spaced c before xs

  abbrev Cooled : SchmittTrigger F → SchmittTrigger F × Option (RegimeTransition F) → Type 0
  Cooled t (t', none) = t'.last_escalation ≡ t.last_escalation
  Cooled t (t', some x) =
      (t'.last_escalation ≡ (if is_escalation x then some x.ts else t.last_escalation))
      × (is_escalation x ≡ true
          → holds_since t.last_escalation (λ last. elapsed_lt x.ts last t.config.cooldown) ≡ false)

  module _ ⦃f : Float F⦄ where
    update-Cooled :
        (t : SchmittTrigger F) (z : Option F) (sigma : F) (ts : Instant) (armed : Bool)
        (gate_reason : Text)
        → IsValid t
        → Returns (Cooled t) (update t z sigma ts armed gate_reason)
    unfolding update evaluate hold accumulate confirm commit take_sample count_sample target_regime
        reset_candidate unobserved_from
    update-Cooled t none sigma ts armed gate_reason h = ground arith
    update-Cooled t (some z) sigma ts true gate_reason h = ground arith
    update-Cooled t (some z) sigma ts false gate_reason h = ground arith

    abbrev Paced : SchmittTrigger F → SchmittTrigger F × List (RegimeTransition F) → Type 0
    Paced t (t', xs) =
        (t'.last_escalation ≡ last_of t.last_escalation xs) × Spaced t.config t.last_escalation xs

    push-Paced :
        (t t' : SchmittTrigger F) (xs : List (RegimeTransition F))
        (r : SchmittTrigger F × Option (RegimeTransition F))
        → t'.config ≡ t.config
        → Paced t (t', xs)
        → Cooled t' r
        → Paced t (r.0, push r.1 xs)
    push-Paced t t' xs (t'', none) same h g = ground arith
    push-Paced t t' xs (t'', some x) same h g = ground arith

    after-Paced :
        (t : SchmittTrigger F) (history : List (Observation F))
        → IsValid t
        → Returns (λ s. Sound t s × Paced t s) (after history t)
    unfolding after
    after-Paced t [] h = ((h, (refl, refl), refl), (refl, tt))
    after-Paced t (o ∷ older) h =
        Returns-bind (λ s. Sound t s × Paced t s) (λ s. Sound t s × Paced t s) (after older t) _
          (after-Paced t older h)
          (λ s g.
            Returns-bind (λ u. Good s.0 u × Cooled s.0 u) (λ s. Sound t s × Paced t s) (feed s.0 o)
              _
              (Returns-both (Good s.0) (Cooled s.0) (feed s.0 o)
                (update-Good s.0 o.zscore o.sigma o.ts o.armed o.gate_reason g.0.0)
                (update-Cooled s.0 o.zscore o.sigma o.ts o.armed o.gate_reason g.0.0))
              (λ u m. (push-Sound t s.0 s.1 u g.0 m.0, push-Paced t s.0 s.1 u g.0.2 g.1 m.1)))

    -- From a valid trigger, over any history, each escalation comes at least `cooldown` after the one before it, also
    -- the one that the trigger remembered at the start.
    pub after-Spaced :
        (t : SchmittTrigger F) (history : List (Observation F))
        → IsValid t
        → Returns (λ s. Spaced t.config t.last_escalation s.1) (after history t)
    after-Spaced t history h =
        Returns-weaken (λ s. Sound t s × Paced t s) (λ s. Spaced t.config t.last_escalation s.1)
          (after history t) (λ s g. g.1.1) (after-Paced t history h)
