-- ===== src/Alerts/Trigger.antt =====
-- `SchmittTrigger` of packages/core/fx_core/alerts/hysteresis.py, method by method. A method
-- returns the new state beside its result, or raises the code's AssertionError.
pub mod Invariant
pub mod Runs
pub mod Streaks
pub mod Evidence
pub mod Fires
pub mod Spacing
pub mod Snapshot
pub mod Blackout
mod Tests
use live_forex_volatility_tr.Base.{
  ℕ, suc, ◌+◌, Bool, true, false, ◌&&◌, ◌||◌, Option, none, some, [], ltb, if◌then◌else◌,
}
use live_forex_volatility_tr.Base.Int.{sub_ℕ}
use live_forex_volatility_tr.Base.Clock.{Instant, elapsed_lt, elapsed_ge, elapsed_gt}
use live_forex_volatility_tr.Base.Float.{Float}
use live_forex_volatility_tr.Base.Text.{Text, codes}
use live_forex_volatility_tr.Base.Result.{Result, ok, raise, assertion_error, ◌>>=◌}
use live_forex_volatility_tr.Alerts.Regime.{
  Regime, normal, stressed, same_regime, regime_text, parse_regime, TransitionCause, threshold,
  baseline_thaw, observation_lost, Reason, held, thawed_level, no_samples, RegimeTransition,
  TriggerConfig, TriggerSnapshot,
}

pub record SchmittTrigger (F : Type 0) : Type 0 where
  pub symbol : Text
  pub config : TriggerConfig F
  pub regime : Regime
  pub seq : ℕ
  pub regime_since : Option Instant
  pub candidate : Option Regime
  pub candidate_since : Option Instant
  pub candidate_samples : ℕ
  pub last_sample_ts : Option Instant
  pub last_escalation : Option Instant
  pub unobserved_since : Option Instant
  pub thawed : Bool
  pub gate_reason : Text

-- A call's new state and the transition that it committed, if any.
abbrev pub Update : Type 0 → Type 0
Update F = Result (SchmittTrigger F × Option (RegimeTransition F))

-- `a or b` on texts.
abbrev pub or_text : Text → Text → Text
or_text [] b = b
or_text a b = a

abbrev pub same_candidate : Option Regime → Regime → Bool
same_candidate none r = false
same_candidate (some c) r = same_regime c r

-- `since is not None and test(since)`
abbrev pub holds_since : Option Instant → (Instant → Bool) → Bool
holds_since none test = false
holds_since (some since) test = test since

-- `_hold`: the clock of the unobserved stretch starts at its first gated sample.
unfoldable pub unobserved_from : Option Instant → Instant → Instant
unobserved_from none ts = ts
unobserved_from (some since) ts = since

module _ {F : Type 0} where
  -- `SchmittTrigger(symbol=symbol, config=config)`
  abbrev pub fresh : Text → TriggerConfig F → SchmittTrigger F
  fresh symbol config = record {
    symbol = symbol;
    config = config;
    regime = normal;
    seq = 0;
    regime_since = none;
    candidate = none;
    candidate_since = none;
    candidate_samples = 0;
    last_sample_ts = none;
    last_escalation = none;
    unobserved_since = none;
    thawed = false;
    gate_reason = [];
  }

  unfoldable pub reset_candidate : SchmittTrigger F → SchmittTrigger F
  reset_candidate t = record t { candidate = none; candidate_since = none; candidate_samples = 0 }

  unfoldable pub baseline_should_thaw : SchmittTrigger F → Instant → Bool
  baseline_should_thaw t now =
      same_regime t.regime stressed
      && holds_since t.regime_since (λ since. elapsed_ge now since t.config.thaw_after)

  unfoldable pub mark_thawed : SchmittTrigger F → SchmittTrigger F
  mark_thawed t = record t { thawed = true }

  pub commit :
      SchmittTrigger F → Regime → F → F → F → Instant → TransitionCause → Reason F → Update F
  unfolding reset_candidate
  commit t target zscore level sigma ts cause reason =
      if same_regime target t.regime
      then raise assertion_error
      else ok (
        record (reset_candidate t) {
          regime = target;
          seq = suc t.seq;
          regime_since = some ts;
          thawed = false;
          last_escalation = if same_regime target stressed then some ts else t.last_escalation;
        },
        some (record {
          symbol = t.symbol;
          ts = ts;
          seq = suc t.seq;
          old_regime = t.regime;
          new_regime = target;
          trigger_value = zscore;
          threshold_value = level;
          sigma = sigma;
          cause = cause;
          reason = reason;
        }),
      )

  module _ ⦃f : Float F⦄ where
    unfoldable pub hold : SchmittTrigger F → Instant → Text → Update F
    unfolding reset_candidate unobserved_from commit
    hold t ts reason =
        let since = unobserved_from t.unobserved_since ts in
        let t' = record (reset_candidate t) {
          gate_reason = reason;
          unobserved_since = some since;
        } in
        if same_regime t.regime stressed && elapsed_ge ts since t.config.observation_timeout
        then commit t' normal f.nan t.config.exit_z f.nan ts observation_lost
            (no_samples (sub_ℕ ts since) reason)
        else ok (t', none)

    pub target_regime : SchmittTrigger F → F → Regime
    target_regime t zscore =
        if same_regime t.regime normal
        then (if f.le t.config.enter_z zscore then stressed else normal)
        else (if f.le zscore t.config.exit_z then normal else stressed)

    -- The part of `_accumulate` behind its assertion that the candidate has a start.
    pub confirm : SchmittTrigger F → Regime → F → F → Instant → Option Instant → Update F
    unfolding commit
    confirm t target zscore sigma ts none = raise assertion_error
    confirm t target zscore sigma ts (some since) =
        if ltb t.candidate_samples t.config.min_confirm_samples
          || elapsed_lt ts since t.config.confirm_for
        then ok (t, none)
        else if same_regime target stressed
            && holds_since t.last_escalation (λ last. elapsed_lt ts last t.config.cooldown)
        then ok (t, none)
        else let level =
            if same_regime target stressed then t.config.enter_z else t.config.exit_z in
          let reason = held target zscore level (sub_ℕ ts since) t.candidate_samples in
          if same_regime target normal && t.thawed
          then commit t target zscore level sigma ts baseline_thaw (thawed_level reason)
          else commit t target zscore level sigma ts threshold reason

    pub count_sample : SchmittTrigger F → Regime → Instant → SchmittTrigger F
    count_sample t target ts =
        if same_candidate t.candidate target
        then record t { candidate_samples = suc t.candidate_samples }
        else record t { candidate = some target; candidate_since = some ts; candidate_samples = 1 }

    pub accumulate : SchmittTrigger F → Regime → F → F → Instant → Update F
    accumulate t target zscore sigma ts =
        let t' = count_sample t target ts in confirm t' target zscore sigma ts t'.candidate_since

    -- The evaluated branch of `update`: first the candidate is dropped across a gap, and the
    -- sample becomes the last one seen.
    pub take_sample : SchmittTrigger F → Instant → SchmittTrigger F
    unfolding reset_candidate
    take_sample t ts =
        record (if holds_since t.last_sample_ts (λ last. elapsed_gt ts last t.config.sample_timeout)
          then reset_candidate t
          else t) { unobserved_since = none; gate_reason = []; last_sample_ts = some ts }

    pub evaluate : SchmittTrigger F → F → F → Instant → Update F
    evaluate t zscore sigma ts =
        let t' = take_sample t ts in
        let target = target_regime t' zscore in
        if same_regime target t'.regime
        then ok (reset_candidate t', none)
        else accumulate t' target zscore sigma ts

    unfoldable pub update : SchmittTrigger F → Option F → F → Instant → Bool → Text → Update F
    update t (some zscore) sigma ts true gate_reason = evaluate t zscore sigma ts
    update t (some zscore) sigma ts false gate_reason =
        hold t ts (or_text gate_reason (codes "gated"))
    update t none sigma ts armed gate_reason =
        hold t ts
          (or_text gate_reason (if armed then codes "baseline not ready" else codes "gated"))

  unfoldable pub snapshot : SchmittTrigger F → TriggerSnapshot
  snapshot t = record {
    regime = regime_text t.regime;
    seq = t.seq;
    regime_since = t.regime_since;
    last_escalation = t.last_escalation;
    thawed = t.thawed;
  }

  unfoldable pub restore : Text → TriggerSnapshot → TriggerConfig F → Result (SchmittTrigger F)
  restore symbol state config = do
    regime ← parse_regime state.regime
    ok (record (fresh symbol config) {
      regime = regime;
      seq = state.seq;
      regime_since = state.regime_since;
      last_escalation = state.last_escalation;
      thawed = state.thawed;
    })
