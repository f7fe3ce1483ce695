-- ===== src/Alerts/Trigger/Evidence.antt =====
-- What a committed transition of packages/core/fx_core/alerts/hysteresis.py rests on.
use live_forex_volatility_tr.Base.{
  ◌≤◌, ◌≡◌, ◌≢◌, ◌⊎◌, refl, subst, Bool, true, false, Option, none, some, Option-cases, inl, inr,
  List, [], ◌∷◌, arith,
}
use live_forex_volatility_tr.Base.Clock.{Instant, elapsed_lt}
use live_forex_volatility_tr.Base.Float.{Float}
use live_forex_volatility_tr.Base.Text.{Text}
use live_forex_volatility_tr.Base.Result.{ok, >>=-eq-ok, Returns-ok}
use live_forex_volatility_tr.Alerts.Regime.{
  Regime, flip, RegimeTransition, TriggerConfig, observation_lost,
}
use live_forex_volatility_tr.Alerts.Trigger.{
  SchmittTrigger, fresh, update, hold, evaluate, accumulate, confirm, take_sample, count_sample,
  target_regime, reset_candidate,
}
use live_forex_volatility_tr.Alerts.Trigger.Runs.{Observation, feed, after, Sound, after-Alternates}
use live_forex_volatility_tr.Alerts.Trigger.Invariant.{fresh-IsValid}
use live_forex_volatility_tr.Alerts.Trigger.Streaks.{
  beyond, crosses, Streak, Backed, Confirmed, start, extend,
}

module _ {F : Type 0} ⦃f : Float F⦄ where
  hold-candidate :
      (t : SchmittTrigger F) (ts : Instant) (reason : Text)
      {r : SchmittTrigger F × Option (RegimeTransition F)}
      → hold t ts reason ≡ ok r
      → r.0.candidate ≡ none
  unfolding hold
  hold-candidate t ts reason e = ground arith

  hold-cause :
      (t : SchmittTrigger F) (ts : Instant) (reason : Text) {t' : SchmittTrigger F}
      {x : RegimeTransition F}
      → hold t ts reason ≡ ok (t', some x)
      → x.cause ≡ observation_lost
  unfolding hold
  hold-cause t ts reason e = ground arith

  confirm-keeps :
      (t : SchmittTrigger F) (target : Regime) (z sigma : F) (ts since : Instant)
      {r : SchmittTrigger F × Option (RegimeTransition F)}
      → confirm t target z sigma ts (some since) ≡ ok r
      → ((r.0 ≡ t) ⊎ (r.0.candidate ≡ none))
  unfolding confirm
  confirm-keeps t target z sigma ts since e = ground arith

  confirm-Confirmed :
      (t : SchmittTrigger F) (target : Regime) (z sigma : F) (ts since : Instant)
      {t' : SchmittTrigger F} {x : RegimeTransition F}
      → confirm t target z sigma ts (some since) ≡ ok (t', some x)
      → (x.old_regime ≡ t.regime)
        × (x.ts ≡ ts)
        × (t.config.min_confirm_samples ≤ t.candidate_samples)
        × (elapsed_lt ts since t.config.confirm_for ≡ false)
  unfolding confirm
  confirm-Confirmed t target z sigma ts since e = ground arith

  evaluate-cases :
      (t : SchmittTrigger F) (z sigma : F) (ts : Instant)
      {r : SchmittTrigger F × Option (RegimeTransition F)}
      → evaluate t z sigma ts ≡ ok r
      → ((r.0.candidate ≡ none) × (r.1 ≡ none))
        ⊎ ((beyond t.config t.regime (some z) ≡ true)
            × (accumulate (take_sample t ts) (flip t.regime) z sigma ts ≡ ok r))
  unfolding evaluate take_sample target_regime reset_candidate
  evaluate-cases t z sigma ts e = ground arith

  counted-fields :
      (t : SchmittTrigger F) (ts : Instant)
      → let t' = count_sample (take_sample t ts) (flip t.regime) ts in
        (t'.candidate ≡ some (flip t.regime)) × (t'.regime ≡ t.regime) × (t'.config ≡ t.config)
  unfolding count_sample take_sample
  counted-fields t ts = ground arith

  module _ (t : SchmittTrigger F) (o : Observation F) where
    counted-Backed :
        (h : List (Observation F))
        → Backed t h
        → crosses t.config t.regime o ≡ true
        → Backed (count_sample (take_sample t o.ts) (flip t.regime) o.ts) (o ∷ h)
    unfolding count_sample take_sample
    counted-Backed [] b k = grind (arith, start, extend)
    counted-Backed (p ∷ h) b k = grind (arith, start, extend)

    -- The counted trigger has a start, so `confirm` is called with it.
    accumulate-confirm :
        (h : List (Observation F)) (z : F) {r : SchmittTrigger F × Option (RegimeTransition F)}
        → Backed t h
        → crosses t.config t.regime o ≡ true
        → accumulate (take_sample t o.ts) (flip t.regime) z o.sigma o.ts ≡ ok r
        → let t' = count_sample (take_sample t o.ts) (flip t.regime) o.ts in
          (since : Instant) × (confirm t' (flip t.regime) z o.sigma o.ts (some since) ≡ ok r)
          × Streak t.config t.regime since t'.candidate_samples (o ∷ h)
    unfolding accumulate
    accumulate-confirm h z b k e =
        let t' : SchmittTrigger F = count_sample (take_sample t o.ts) (flip t.regime) o.ts in
        let backed : Backed t' (o ∷ h) = counted-Backed h b k in
        let fields = counted-fields t o.ts in
        elim (Option-cases t'.candidate_since) [
          | inl absent ↦ absurd (ground arith)
          | inr (since, found) ↦ (since, ground arith, ground arith)
        ]

    -- A call is held, or it evaluates a z-score.
    feed-cases :
        {r : SchmittTrigger F × Option (RegimeTransition F)}
        → feed t o ≡ ok r
        → ((reason : Text) × (hold t o.ts reason ≡ ok r))
          ⊎ ((z : F) × (o.armed ≡ true) × (o.zscore ≡ some z) × (evaluate t z o.sigma o.ts ≡ ok r))
    unfolding update
    feed-cases e = split o.zscore o.armed refl refl e
      where
        split :
            (zscore : Option F) (armed : Bool) {r : SchmittTrigger F × Option (RegimeTransition F)}
            → o.zscore ≡ zscore
            → o.armed ≡ armed
            → update t zscore o.sigma o.ts armed o.gate_reason ≡ ok r
            → ((reason : Text) × (hold t o.ts reason ≡ ok r))
              ⊎ ((z : F) × (o.armed ≡ true)
                  × (o.zscore ≡ some z)
                  × (evaluate t z o.sigma o.ts ≡ ok r))
        split none armed p q e = inl (_, e)
        split (some z) true p q e = inr (z, q, p, e)
        split (some z) false p q e = inl (_, e)

    feed-Backed :
        (h : List (Observation F)) (r : SchmittTrigger F × Option (RegimeTransition F))
        → Backed t h
        → feed t o ≡ ok r
        → Backed r.0 (o ∷ h)
    feed-Backed h r b e = elim (feed-cases e) [
      | inl (reason, e) ↦ ground (arith, hold-candidate t o.ts reason e)
      | inr (z, on, found, e) ↦ elim (evaluate-cases t z o.sigma o.ts e) [
        | inl (dropped, _) ↦ rw dropped tt
        | inr (beyond_it, e) ↦
            let (since, e, _) = accumulate-confirm h z b (ground arith) e in
            elim (confirm-keeps _ _ z o.sigma o.ts since e) [
              | inl same ↦ rw same (counted-Backed h b (ground arith))
              | inr dropped ↦ rw dropped tt
            ]
      ]
    ]

    feed-Confirmed :
        (h : List (Observation F)) {t' : SchmittTrigger F} {x : RegimeTransition F}
        → Backed t h
        → feed t o ≡ ok (t', some x)
        → x.cause ≢ observation_lost
        → Confirmed t.config x (o ∷ h)
    feed-Confirmed h b e n = elim (feed-cases e) [
      | inl (reason, e) ↦ absurd (n (hold-cause t o.ts reason e))
      | inr (z, on, found, e) ↦ elim (evaluate-cases t z o.sigma o.ts e) [
        | inl (_, nothing) ↦ absurd (ground arith)
        | inr (beyond_it, e) ↦
            let (since, e, streak) = accumulate-confirm h z b (ground arith) e in
            let facts = confirm-Confirmed _ _ z o.sigma o.ts since e in
            let fields = counted-fields t o.ts in
            let n' = (count_sample (take_sample t o.ts) (flip t.regime) o.ts).candidate_samples in
            (n', since, rw (facts.0, fields.1) streak, ground arith, ground arith)
      ]
    ]

  -- Every history of a trigger that began with no candidate backs its candidate.
  after-Backed :
      (t : SchmittTrigger F) (history : List (Observation F))
      (r : SchmittTrigger F × List (RegimeTransition F))
      → t.candidate ≡ none
      → after history t ≡ ok r
      → Backed r.0 history
  unfolding after
  after-Backed t [] r free e = ground arith
  after-Backed t (o ∷ older) r free e =
      let (s, before, e) = >>=-eq-ok (after older t) _ e in
      let (u, now, e) = >>=-eq-ok (feed s.0 o) _ e in
      let backed : Backed u.0 (o ∷ older) =
        feed-Backed s.0 o older u (after-Backed t older s free before) now in
      ground arith

  -- After any history of a new trigger, a transition that is not for want of observations is
  -- confirmed: the samples up to it that crossed the threshold form an unbroken streak of at
  -- least `min_confirm_samples`, over at least `confirm_for`.
  pub commit-Confirmed :
      (symbol : Text) (c : TriggerConfig F) (history : List (Observation F)) (o : Observation F)
      {s : SchmittTrigger F × List (RegimeTransition F)} {t' : SchmittTrigger F}
      {x : RegimeTransition F}
      → after history (fresh symbol c) ≡ ok s
      → feed s.0 o ≡ ok (t', some x)
      → x.cause ≢ observation_lost
      → Confirmed c x (o ∷ history)
  commit-Confirmed symbol c history o {s} {x = x} e e' n =
      let valid = fresh-IsValid symbol c in
      let sound : Sound (fresh symbol c) s =
        Returns-ok (Sound (fresh symbol c)) _ (after-Alternates (fresh symbol c) history valid) e in
      let backed : Backed s.0 history = after-Backed (fresh symbol c) history s refl e in
      subst (λ k. Confirmed k x (o ∷ history)) sound.2 (feed-Confirmed s.0 o history backed e' n)
