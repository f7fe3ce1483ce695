-- ===== src/Alerts/Trigger/Invariant.antt =====
-- What holds of a trigger between two calls of `update`, and that no assertion of the code fails.
use live_forex_volatility_tr.Base.{
  ℕ, suc, ◌<◌, ◌≡◌, Bool, true, false, Option, none, some, arith, is_some,
}
use live_forex_volatility_tr.Base.Clock.{Instant}
use live_forex_volatility_tr.Base.Float.{Float}
use live_forex_volatility_tr.Base.Text.{Text}
use live_forex_volatility_tr.Base.Result.{Returns}
use live_forex_volatility_tr.Alerts.Regime.{Regime, stressed, flip, RegimeTransition, TriggerConfig}
use live_forex_volatility_tr.Alerts.Trigger.{
  SchmittTrigger, fresh, update, hold, evaluate, accumulate, confirm, take_sample, target_regime,
  reset_candidate, count_sample,
}

-- A candidate is the other regime, with a start and at least one sample.
abbrev pub Confirms : Regime → Option Regime → Option Instant → ℕ → Type 0
Confirms r none since n = Unit
Confirms r (some c) since n = (c ≡ flip r) × (is_some since ≡ true) × (0 < n)

pub record IsValid {F : Type 0} (t : SchmittTrigger F) : Type 0 where
  pub candidate : Confirms t.regime t.candidate t.candidate_since t.candidate_samples
  pub since : t.regime ≡ stressed → is_some t.regime_since ≡ true
  pub escalated : t.regime ≡ stressed → is_some t.last_escalation ≡ true

module _ {F : Type 0} where
  -- What a call reports against what it did: nothing and the same regime and counter, or the
  -- other regime under the next number.
  abbrev pub Reported : SchmittTrigger F → SchmittTrigger F × Option (RegimeTransition F) → Type 0
  Reported t (t', none) = (t'.regime ≡ t.regime) × (t'.seq ≡ t.seq)
  Reported t (t', some x) =
      (x.old_regime ≡ t.regime)
      × (x.new_regime ≡ flip t.regime)
      × (x.seq ≡ suc t.seq)
      × (t'.regime ≡ x.new_regime)
      × (t'.seq ≡ x.seq)
      × (x.symbol ≡ t.symbol)
      × (t'.regime_since ≡ some x.ts)

  abbrev pub Good : SchmittTrigger F → SchmittTrigger F × Option (RegimeTransition F) → Type 0
  Good t r = IsValid r.0 × Reported t r × (r.0.config ≡ t.config) × (r.0.symbol ≡ t.symbol)

  pub fresh-IsValid : (symbol : Text) (c : TriggerConfig F) → IsValid (fresh symbol c)
  fresh-IsValid symbol c = ground arith

  module _ ⦃f : Float F⦄ (t : SchmittTrigger F) where
    hold-Good : (ts : Instant) (reason : Text) → IsValid t → Returns (Good t) (hold t ts reason)
    unfolding hold
    hold-Good ts reason h = ground arith

    evaluate-Good :
        (z sigma : F) (ts : Instant) → IsValid t → Returns (Good t) (evaluate t z sigma ts)
    unfolding evaluate take_sample target_regime accumulate count_sample confirm reset_candidate
    evaluate-Good z sigma ts h = ground arith

    -- One call on a valid trigger returns: neither assertion of the code fails. It keeps the
    -- invariant, and reports exactly the change of regime that it made.
    pub update-Good :
        (z : Option F) (sigma : F) (ts : Instant) (armed : Bool) (gate_reason : Text)
        → IsValid t
        → Returns (Good t) (update t z sigma ts armed gate_reason)
    unfolding update
    update-Good none sigma ts armed gate_reason h = hold-Good ts _ h
    update-Good (some z) sigma ts true gate_reason h = evaluate-Good z sigma ts h
    update-Good (some z) sigma ts false gate_reason h = hold-Good ts _ h
