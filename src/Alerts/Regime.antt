-- ===== src/Alerts/Regime.antt =====
-- The values that packages/core/fx_core/alerts/hysteresis.py passes around: regimes, transitions
-- and the trigger's configuration.
use live_forex_volatility_tr.Base.{ℕ, Bool, true, false, Option, ltb}
use live_forex_volatility_tr.Base.Int.{ℤ, pos, ltb_ℤ, leb_ℤ}
use live_forex_volatility_tr.Base.Clock.{Instant, Duration}
use live_forex_volatility_tr.Base.Float.{Float}
use live_forex_volatility_tr.Base.Text.{Text, codes, eq_text}
use live_forex_volatility_tr.Base.Result.{Result, ok, raise, value_error, ◌>>◌, raise_if}
use live_forex_volatility_tr.Base.{if◌then◌else◌}

pub data Regime : Type 0 where
  normal stressed : Regime

abbrev pub flip : Regime → Regime
flip normal = stressed
flip stressed = normal

-- `a is b`
abbrev pub same_regime : Regime → Regime → Bool
same_regime normal normal = true
same_regime normal stressed = false
same_regime stressed normal = false
same_regime stressed stressed = true

-- `str(regime)`
abbrev pub regime_text : Regime → Text
regime_text normal = codes "normal"
regime_text stressed = codes "stressed"

-- `Regime(raw)`, which raises on any other text.
abbrev pub parse_regime : Text → Result Regime
parse_regime raw =
    if eq_text raw (codes "normal")
    then ok normal
    else if eq_text raw (codes "stressed")
    then ok stressed
    else raise value_error

pub data TransitionCause : Type 0 where
  threshold baseline_thaw observation_lost : TransitionCause

-- The text of a reason, as the values that it is formatted from.
pub data Reason (F : Type 0) : Type 0 where
  held : Regime → F → F → ℤ → ℕ → Reason F
  thawed_level : Reason F → Reason F
  no_samples : ℤ → Text → Reason F

pub record RegimeTransition (F : Type 0) : Type 0 where
  pub symbol : Text
  pub ts : Instant
  pub seq : ℕ
  pub old_regime : Regime
  pub new_regime : Regime
  pub trigger_value : F
  pub threshold_value : F
  pub sigma : F
  pub cause : TransitionCause
  pub reason : Reason F

abbrev pub is_escalation : {F : Type 0} → RegimeTransition F → Bool
is_escalation t = same_regime t.new_regime stressed

pub record TriggerConfig (F : Type 0) : Type 0 where
  pub enter_z : F
  pub exit_z : F
  pub min_confirm_samples : ℕ
  pub confirm_for : Duration
  pub sample_timeout : Duration
  pub cooldown : Duration
  pub thaw_after : Duration
  pub observation_timeout : Duration

-- `TriggerConfig.__post_init__`
unfoldable pub post_init : {F : Type 0} ⦃f : Float F⦄ → TriggerConfig F → Result (TriggerConfig F)
post_init ⦃f⦄ c = do
  raise_if (f.le c.enter_z c.exit_z) value_error
  raise_if (ltb c.min_confirm_samples 1) value_error
  raise_if (ltb_ℤ c.confirm_for (pos 0)) value_error
  raise_if (leb_ℤ c.sample_timeout (pos 0)) value_error
  raise_if (leb_ℤ c.sample_timeout c.confirm_for) value_error
  ok c

-- `TriggerSnapshot`: an instant stands for its ISO text.
pub record TriggerSnapshot : Type 0 where
  pub regime : Text
  pub seq : ℕ
  pub regime_since : Option Instant
  pub last_escalation : Option Instant
  pub thawed : Bool
