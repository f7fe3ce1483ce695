-- ===== src/Alerts/Trigger/Snapshot.antt =====
-- `snapshot` and `restore`: what survives a failover.
use live_forex_volatility_tr.Base.{◌≡◌, refl, none, [], arith}
use live_forex_volatility_tr.Base.Result.{ok}
use live_forex_volatility_tr.Alerts.Regime.{Regime, normal, stressed, regime_text, parse_regime}
use live_forex_volatility_tr.Alerts.Trigger.{SchmittTrigger, snapshot, restore}
use live_forex_volatility_tr.Alerts.Trigger.Invariant.{IsValid}

parse-regime_text : (r : Regime) → parse_regime (regime_text r) ≡ ok r
parse-regime_text normal = refl
parse-regime_text stressed = refl

module _ {F : Type 0} where
  -- The trigger with its evidence dropped: no candidate, no sample seen, nothing held.
  abbrev pub without_evidence : SchmittTrigger F → SchmittTrigger F
  without_evidence t = record t {
    candidate = none;
    candidate_since = none;
    candidate_samples = 0;
    last_sample_ts = none;
    unobserved_since = none;
    gate_reason = [];
  }

  -- A restored snapshot is the trigger that wrote it, without the evidence for a candidate; and
  -- it is valid if that trigger was.
  pub restore-snapshot :
      (t : SchmittTrigger F)
      → IsValid t
      → (restore t.symbol (snapshot t) t.config ≡ ok (without_evidence t))
        × IsValid (without_evidence t)
  unfolding restore snapshot
  restore-snapshot t h = (rw (parse-regime_text t.regime), ground arith)
