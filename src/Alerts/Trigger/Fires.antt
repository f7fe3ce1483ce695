-- ===== src/Alerts/Trigger/Fires.antt =====
-- The trigger is no filter that swallows events: a streak that meets the configuration commits.
use live_forex_volatility_tr.Base.{
  ℕ, suc, ◌≤◌, ◌≡◌, ◌≢◌, true, false, Option, none, some, List, [], ◌∷◌, arith, length, sym, subst₂,
  ◌⊎◌, inl, inr,
}
use live_forex_volatility_tr.Base.Clock.{Instant, elapsed_lt, elapsed_gt}
use live_forex_volatility_tr.Base.Float.{Float}
use live_forex_volatility_tr.Base.Result.{
  ok, ◌>>=◌, Returns, Returns-bind, Returns-both, Returns-weaken,
}
use live_forex_volatility_tr.Alerts.Regime.{Regime, normal, flip, RegimeTransition, TriggerConfig}
use live_forex_volatility_tr.Alerts.Trigger.{
  SchmittTrigger, holds_since, update, evaluate, accumulate, confirm, commit, take_sample,
  count_sample, target_regime, reset_candidate,
}
use live_forex_volatility_tr.Alerts.Trigger.Invariant.{IsValid, Good, update-Good}
use live_forex_volatility_tr.Alerts.Trigger.Runs.{Observation, feed, after, push}
use live_forex_volatility_tr.Alerts.Trigger.Streaks.{crosses, Streak, start, extend}

-- The newest sample's timestamp in a history.
abbrev pub newest : {F : Type 0} → List (Observation F) → Instant
newest [] = 0
newest (o ∷ h) = o.ts

module _ {F : Type 0} ⦃f : Float F⦄ where
  -- How far the confirmation has come: the candidate counts `n` samples since `since`.
  record Progress (c : TriggerConfig F) (r : Regime) (since : Instant) (n : ℕ) (last : Instant)
      (escalation : Option Instant) (t : SchmittTrigger F) : Type 0 where
    config : t.config ≡ c
    regime : t.regime ≡ r
    candidate : t.candidate ≡ some (flip r)
    candidate_since : t.candidate_since ≡ some since
    samples : t.candidate_samples ≡ n
    last_sample : t.last_sample_ts ≡ some last
    last_escalation : t.last_escalation ≡ escalation

  -- A commit is due: the counts are met, and no cooldown holds an escalation back.
  abbrev pub Due : TriggerConfig F → Regime → Instant → ℕ → Instant → Option Instant → Type 0
  Due c r since n now escalation =
      (c.min_confirm_samples ≤ n)
      × (elapsed_lt now since c.confirm_for ≡ false)
      × (r ≡ normal → holds_since escalation (λ last. elapsed_lt now last c.cooldown) ≡ false)

  abbrev Moved :
      (SchmittTrigger F → Type 0) → Type 0 → SchmittTrigger F × Option (RegimeTransition F) → Type 0
  Moved P Q (t, some x) = Unit
  Moved P Q (t, none) = P t × ¬ Q

  module _ (t : SchmittTrigger F) (o : Observation F) where
    feed-start :
        t.candidate ≡ none
        → crosses t.config t.regime o ≡ true
        → Returns
            (Moved
              (Progress t.config t.regime o.ts 1 o.ts t.last_escalation)
              (Due t.config t.regime o.ts 1 o.ts t.last_escalation))
            (feed t o)
    unfolding update evaluate accumulate confirm commit take_sample count_sample target_regime
        reset_candidate
    feed-start free k = grind arith

    feed-extend :
        (c : TriggerConfig F) (r : Regime) (since : Instant) (n : ℕ) (last : Instant)
        (escalation : Option Instant)
        → Progress c r since n last escalation t
        → crosses c r o ≡ true
        → elapsed_gt o.ts last c.sample_timeout ≡ false
        → Returns
            (Moved
              (Progress c r since (suc n) o.ts escalation)
              (Due c r since (suc n) o.ts escalation))
            (feed t o)
    unfolding update evaluate accumulate confirm commit take_sample count_sample target_regime
        reset_candidate
    feed-extend c r since n last escalation p k gap = grind arith

  -- After a history: a transition was committed, or the streak is all counted and none is due.
  abbrev Outcome :
      TriggerConfig F
      → Regime
      → Instant
      → ℕ
      → Option Instant
      → List (Observation F)
      → SchmittTrigger F × List (RegimeTransition F)
      → Type 0
  Outcome c r since n escalation [] s = ⊥
  Outcome c r since n escalation (o ∷ h) s =
      (s.1 ≢ []) ⊎ (Progress c r since n o.ts escalation s.0 × ¬ Due c r since n o.ts escalation)

  push-ne-nil :
      (x : Option (RegimeTransition F)) (xs : List (RegimeTransition F)) → xs ≢ [] → push x xs ≢ []
  push-ne-nil none xs h = h
  push-ne-nil (some x) xs h = ground arith

  Moved-Outcome :
      (c : TriggerConfig F) (r : Regime) (since : Instant) (n : ℕ) (escalation : Option Instant)
      (o : Observation F) (h : List (Observation F)) (xs : List (RegimeTransition F))
      (u : SchmittTrigger F × Option (RegimeTransition F))
      → Moved (Progress c r since n o.ts escalation) (Due c r since n o.ts escalation) u
      → Outcome c r since n escalation (o ∷ h) (u.0, push u.1 xs)
  Moved-Outcome c r since n escalation o h xs (t, none) m = inr m
  Moved-Outcome c r since n escalation o h xs (t, some x) m = inl (ground arith)

  -- A call on a valid trigger, with what it returns and what is known of that.
  feed-both :
      (t : SchmittTrigger F) (o : Observation F)
      (P : SchmittTrigger F × Option (RegimeTransition F) → Type 0)
      → IsValid t
      → Returns P (feed t o)
      → Returns (λ u. Good t u × P u) (feed t o)
  feed-both t o P valid h =
      Returns-both (Good t) P (feed t o)
        (update-Good t o.zscore o.sigma o.ts o.armed o.gate_reason valid) h

  module _ (t : SchmittTrigger F) (valid : IsValid t) (free : t.candidate ≡ none) where
    abbrev Step :
        Instant → ℕ → Observation F → SchmittTrigger F × Option (RegimeTransition F) → Type 0
    Step since n o =
        Moved (Progress t.config t.regime since n o.ts t.last_escalation)
          (Due t.config t.regime since n o.ts t.last_escalation)

    abbrev Counted :
        Instant → ℕ → List (Observation F) → SchmittTrigger F × List (RegimeTransition F) → Type 0
    Counted since n h s = IsValid s.0 × Outcome t.config t.regime since n t.last_escalation h s

    first-Counted :
        {since : Instant} {n : ℕ} (o : Observation F)
        → n ≡ 1
        → crosses t.config t.regime o ≡ true
        → o.ts ≡ since
        → Returns (Counted since n (o ∷ [])) (after (o ∷ []) t)
    unfolding after
    first-Counted {since} {n} o one k e =
        let stepped : Returns (Step since n o) (feed t o) =
          subst₂ (λ a b. Returns (Step a b o) (feed t o)) e (sym one) (feed-start t o free k) in
        Returns-bind (λ u. Good t u × Step since n o u) (Counted since n (o ∷ [])) (feed t o) _
          (feed-both t o (Step since n o) valid stepped)
          (λ u m. (m.0.0, Moved-Outcome t.config t.regime since n t.last_escalation o [] [] u m.1))

    next-Counted :
        (since : Instant) (n : ℕ) (o q : Observation F) (h : List (Observation F))
        (s : SchmittTrigger F × List (RegimeTransition F))
        → crosses t.config t.regime o ≡ true
        → elapsed_gt o.ts q.ts t.config.sample_timeout ≡ false
        → Counted since n (q ∷ h) s
        → Returns (Counted since (suc n) (o ∷ q ∷ h)) (feed s.0 o >>= λ u. ok (u.0, push u.1 s.1))
    next-Counted since n o q h s k gap (valid', inl committed) =
        Returns-bind (Good s.0) (Counted since (suc n) (o ∷ q ∷ h)) (feed s.0 o) _
          (update-Good s.0 o.zscore o.sigma o.ts o.armed o.gate_reason valid')
          (λ u m. (m.0, inl (push-ne-nil u.1 s.1 committed)))
    next-Counted since n o q h s k gap (valid', inr (progress, _)) =
        Returns-bind (λ u. Good s.0 u × Step since (suc n) o u) (Counted since (suc n) (o ∷ q ∷ h))
          (feed s.0 o) _
          (feed-both s.0 o (Step since (suc n) o) valid'
            (feed-extend s.0 o t.config t.regime since n q.ts t.last_escalation progress k gap))
          (λ u m. (
            m.0.0,
            Moved-Outcome t.config t.regime since (suc n) t.last_escalation o (q ∷ h) s.1 u m.1,
          ))

    streak-Counted :
        {since : Instant} {n : ℕ} {h : List (Observation F)}
        → Streak t.config t.regime since n h
        → n ≡ length h
        → Returns (Counted since n h) (after h t)
    unfolding after
    streak-Counted (start o [] one k e) p = first-Counted o one k e
    streak-Counted (start o (q ∷ h) one k e) p = absurd (omega arith)
    streak-Counted {since} (extend {n = n} o q h k gap s) p =
        Returns-bind (Counted since n (q ∷ h)) (Counted since (suc n) (o ∷ q ∷ h)) (after (q ∷ h) t)
          _ (streak-Counted s (omega arith)) (λ r g. next-Counted since n o q h r k gap g)

    -- A valid trigger with no candidate that is fed a streak, and nothing else, has committed a
    -- transition by its end, if the streak has `min_confirm_samples` samples over `confirm_for`
    -- and, for an escalation, the cooldown is over.
    pub streak_fires :
        {since : Instant} {n : ℕ} {h : List (Observation F)}
        → Streak t.config t.regime since n h
        → n ≡ length h
        → Due t.config t.regime since n (newest h) t.last_escalation
        → Returns (λ s. s.1 ≢ []) (after h t)
    streak_fires {since} {n} {h} s p due =
        Returns-weaken (Counted since n h) (λ r. r.1 ≢ []) (after h t) (fires h due)
          (streak-Counted s p)
      where
        fires :
            (h : List (Observation F))
            → Due t.config t.regime since n (newest h) t.last_escalation
            → (r : SchmittTrigger F × List (RegimeTransition F)) → Counted since n h r
            → r.1 ≢ []
        fires [] due r (_, none_left) = absurd none_left
        fires (o ∷ h) due r (_, inl committed) = committed
        fires (o ∷ h) due r (_, inr (_, not_due)) = absurd (not_due due)
