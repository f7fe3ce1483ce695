-- ===== src/Alerts/Trigger/Blackout.antt =====
-- Samples that cannot be evaluated: the regime is held, but not forever.
use live_forex_volatility_tr.Base.{
  ◌≡◌, false, true, Option, none, some, List, [], ◌∷◌, arith, ◌⊎◌, inl, inr,
}
use live_forex_volatility_tr.Base.Clock.{Instant, elapsed_ge}
use live_forex_volatility_tr.Base.Float.{Float}
use live_forex_volatility_tr.Base.Text.{Text}
use live_forex_volatility_tr.Base.Result.{Returns, Returns-bind}
use live_forex_volatility_tr.Alerts.Regime.{
  normal, stressed, RegimeTransition, TriggerConfig, observation_lost,
}
use live_forex_volatility_tr.Alerts.Trigger.{
  SchmittTrigger, update, hold, commit, reset_candidate, unobserved_from,
}
use live_forex_volatility_tr.Alerts.Trigger.Runs.{Observation, feed, after, push}
use live_forex_volatility_tr.Alerts.Trigger.Fires.{newest}

module _ {F : Type 0} where
  -- The sample is gated, or it has no z-score.
  abbrev pub Unseen : Observation F → Type 0
  Unseen o = (o.armed ≡ false) ⊎ (o.zscore ≡ none)

  -- Newest first: samples that cannot be evaluated, the oldest of them at `since`.
  pub data Unobserved (since : Instant) : List (Observation F) → Type 0 where
    first_unseen : (o : Observation F) → Unseen o → o.ts ≡ since → Unobserved since (o ∷ [])
    next_unseen :
        (o p : Observation F) (h : List (Observation F))
        → Unseen o
        → Unobserved since (p ∷ h)
        → Unobserved since (o ∷ p ∷ h)

  -- While it holds a stress, the trigger knows since when; and once it gave the stress up it is
  -- back to normal, by the one transition that says so, whose sample comes no less than the timeout
  -- after the first unseen one.
  abbrev pub Held :
      TriggerConfig F → Instant → Instant → SchmittTrigger F × List (RegimeTransition F) → Type 0
  Held c since now (t, []) =
      (t.regime ≡ stressed)
      × (t.config ≡ c)
      × (t.unobserved_since ≡ some since)
      × (elapsed_ge now since c.observation_timeout ≡ false)
  Held c since now (t, x ∷ xs) =
      (t.regime ≡ normal)
      × (x.cause ≡ observation_lost)
      × (elapsed_ge x.ts since c.observation_timeout ≡ true)
      × (xs ≡ [])

  -- What a gated call can do: nothing, or give a stress up as unobserved.
  abbrev pub OnlyLoses : SchmittTrigger F → SchmittTrigger F × Option (RegimeTransition F) → Type 0
  OnlyLoses t (t', none) = t'.regime ≡ t.regime
  OnlyLoses t (t', some x) =
      (t.regime ≡ stressed) × (t'.regime ≡ normal) × (x.cause ≡ observation_lost)

  module _ ⦃f : Float F⦄ where
    first-Held :
        (t : SchmittTrigger F) (o : Observation F)
        → t.regime ≡ stressed
        → t.unobserved_since ≡ none
        → Unseen o
        → Returns (λ u. Held t.config o.ts o.ts (u.0, push u.1 [])) (feed t o)
    unfolding update hold commit reset_candidate unobserved_from
    first-Held t o e free (inl off) = ground arith
    first-Held t o e free (inr off) = ground arith

    next-Held :
        (c : TriggerConfig F) (since now : Instant) (o : Observation F)
        (s : SchmittTrigger F × List (RegimeTransition F))
        → Held c since now s
        → Unseen o
        → Returns (λ u. Held c since o.ts (u.0, push u.1 s.1)) (feed s.0 o)
    unfolding update hold commit reset_candidate unobserved_from
    next-Held c since now o (t, []) h (inl off) = ground arith
    next-Held c since now o (t, []) h (inr off) = ground arith
    next-Held c since now o (t, x ∷ xs) h (inl off) = ground arith
    next-Held c since now o (t, x ∷ xs) h (inr off) = ground arith

    -- A stressed trigger that sees nothing more holds the stress, without a transition, for as
    -- long as the newest sample comes less than `observation_timeout` after the first unseen one;
    -- otherwise it has gone back to normal, by one transition, whose cause is that the
    -- observation was lost, and whose sample came at least `observation_timeout` after the first
    -- unseen one.
    pub after_blackout :
        (t : SchmittTrigger F) {since : Instant} {h : List (Observation F)}
        → t.regime ≡ stressed
        → t.unobserved_since ≡ none
        → Unobserved since h
        → Returns (Held t.config since (newest h)) (after h t)
    unfolding after
    after_blackout t {since} e free (first_unseen o unseen s) = rw (← s) (
        Returns-bind (λ u. Held t.config o.ts o.ts (u.0, push u.1 [])) (Held t.config o.ts o.ts)
          (feed t o) _ (first-Held t o e free unseen) (λ u m. m))
    after_blackout t {since} e free (next_unseen o p h unseen rest) =
        Returns-bind (Held t.config since p.ts) (Held t.config since o.ts) (after (p ∷ h) t) _
          (after_blackout t e free rest)
          (λ s held.
            Returns-bind (λ u. Held t.config since o.ts (u.0, push u.1 s.1))
              (Held t.config since o.ts) (feed s.0 o) _
              (next-Held t.config since p.ts o s held unseen) (λ u m. m))

    pub update-OnlyLoses :
        (t : SchmittTrigger F) (z : Option F) (sigma : F) (ts : Instant) (reason : Text)
        → Returns (OnlyLoses t) (update t z sigma ts false reason)
    unfolding update hold commit reset_candidate unobserved_from
    update-OnlyLoses t none sigma ts reason = ground arith
    update-OnlyLoses t (some z) sigma ts reason = ground arith
