-- ===== src/Alerts/Trigger/Runs.antt =====
-- A trigger fed one observation after another, as the detector calls `update` bar by bar.
use live_forex_volatility_tr.Base.{
  ℕ, ◌-◌, ◌<◌, ◌≡◌, refl, Bool, Option, none, some, List, [], ◌∷◌, arith,
}
use live_forex_volatility_tr.Base.Clock.{Instant}
use live_forex_volatility_tr.Base.Float.{Float}
use live_forex_volatility_tr.Base.Text.{Text}
use live_forex_volatility_tr.Base.Result.{Result, ok, ◌>>=◌, Returns, Returns-bind}
use live_forex_volatility_tr.Alerts.Regime.{Regime, flip, RegimeTransition}
use live_forex_volatility_tr.Alerts.Trigger.{SchmittTrigger, Update, update}
use live_forex_volatility_tr.Alerts.Trigger.Invariant.{IsValid, Good, update-Good}

-- The arguments of one call of `update`.
pub record Observation (F : Type 0) : Type 0 where
  pub zscore : Option F
  pub sigma : F
  pub ts : Instant
  pub armed : Bool
  pub gate_reason : Text

abbrev pub push : {A : Type 0} → Option A → List A → List A
push none xs = xs
push (some x) xs = x ∷ xs

module _ {F : Type 0} where
  -- Newest first: the transitions end in the regime `r` and the counter `n`, alternate, count
  -- down by one, and lead back to the regime `r₀` and the counter `n₀`.
  abbrev pub Alternates : Regime → ℕ → Regime → ℕ → List (RegimeTransition F) → Type 0
  Alternates r₀ n₀ r n [] = (r ≡ r₀) × (n ≡ n₀)
  Alternates r₀ n₀ r n (x ∷ xs) =
      (x.new_regime ≡ r)
      × (x.old_regime ≡ flip r)
      × (x.seq ≡ n)
      × (0 < n)
      × Alternates r₀ n₀ (flip r) (n - 1) xs

  module _ ⦃f : Float F⦄ where
    abbrev pub feed : SchmittTrigger F → Observation F → Update F
    feed t o = update t o.zscore o.sigma o.ts o.armed o.gate_reason

    -- The state and the transitions after the observations of a history, both newest first.
    unfoldable pub after :
        List (Observation F)
        → SchmittTrigger F
        → Result (SchmittTrigger F × List (RegimeTransition F))
    after [] t = ok (t, [])
    after (o ∷ older) t = do (t', xs) ← after older t; (t'', x) ← feed t' o; ok (t'', push x xs)

    abbrev pub Sound : SchmittTrigger F → SchmittTrigger F × List (RegimeTransition F) → Type 0
    Sound t (t', xs) =
        IsValid t' × Alternates t.regime t.seq t'.regime t'.seq xs × (t'.config ≡ t.config)

    pub push-Sound :
        (t t' : SchmittTrigger F) (xs : List (RegimeTransition F))
        (r : SchmittTrigger F × Option (RegimeTransition F))
        → Sound t (t', xs)
        → Good t' r
        → Sound t (r.0, push r.1 xs)
    push-Sound t t' xs (t'', none) h g = ground arith
    push-Sound t t' xs (t'', some x) h g = ground arith

    -- From a valid trigger no history of observations makes an assertion of the code fail, and
    -- the transitions alternate without a hole under consecutive numbers.
    pub after-Alternates :
        (t : SchmittTrigger F) (history : List (Observation F))
        → IsValid t
        → Returns (Sound t) (after history t)
    unfolding after
    after-Alternates t [] h = (h, (refl, refl), refl)
    after-Alternates t (o ∷ older) h =
        Returns-bind (Sound t) (Sound t) (after older t) _ (after-Alternates t older h) (λ s g.
          Returns-bind (Good s.0) (Sound t) (feed s.0 o) _
            (update-Good s.0 o.zscore o.sigma o.ts o.armed o.gate_reason g.0)
            (λ r k. push-Sound t s.0 s.1 r g k))
