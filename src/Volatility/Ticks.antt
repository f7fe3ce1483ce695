-- ===== src/Volatility/Ticks.antt =====
-- `Tick`, `VolSnapshot` and `bars_per_year` of packages/core/fx_core/models.py.
use live_forex_volatility_tr.Base.{
  ℕ, ◌*◌, Bool, true, false, not, ◌&&◌, ◌||◌, Option, [], ◌∷◌, ◌==◌, if◌then◌else◌,
}
use live_forex_volatility_tr.Base.Clock.{Instant}
use live_forex_volatility_tr.Base.Float.{Float}
use live_forex_volatility_tr.Base.Text.{Text}
use live_forex_volatility_tr.Base.Result.{Result, ok, raise, raise_if, ◌>>◌, ◌>>=◌, value_error}

pub record Tick (F : Type 0) : Type 0 where
  pub symbol : Text
  pub bid : F
  pub ask : F
  pub ts_event : Instant
  pub ts_ingest : Instant
  pub seq : ℕ

pub data Estimator : Type 0 where
  close_to_close ewma parkinson garman_klass rogers_satchell yang_zhang : Estimator

pub record VolSnapshot (F : Type 0) : Type 0 where
  pub symbol : Text
  pub ts : Instant
  pub estimator : Estimator
  pub window_s : ℕ
  pub sigma : F
  pub sigma_annualized : F
  pub sample_count : ℕ
  pub zscore : Option F

abbrev is_empty : Text → Bool
is_empty [] = true
is_empty (c ∷ text) = false

module _ {F : Type 0} ⦃f : Float F⦄ where
  unfoldable pub mid : Tick F → F
  mid t = f.div (f.add t.bid t.ask) (f.of_ℕ 2)

  unfoldable pub spread : Tick F → F
  spread t = f.sub t.ask t.bid

  -- `Tick.validate`
  unfoldable pub validate : Tick F → Result (Unit {0})
  unfolding mid spread
  validate t =
      raise_if (is_empty t.symbol) value_error
      >> raise_if (not (f.is_finite t.bid && f.is_finite t.ask)) value_error
      >> raise_if (f.le t.bid (f.of_ℕ 0) || f.le t.ask (f.of_ℕ 0)) value_error
      >> raise_if (f.lt t.ask t.bid) value_error
      >> raise_if (f.lt (f.mul (f.literal 5 2) (mid t)) (spread t)) value_error

  -- `bars_per_year`
  unfoldable pub bars_per_year : ℕ → Result F
  bars_per_year bar_seconds =
      if bar_seconds == 0
      then raise value_error
      else ok (f.div (f.of_ℕ (252 * 24 * 3_600)) (f.of_ℕ bar_seconds))

  -- `VolSnapshot.build`, at a given time.
  unfoldable pub build :
      Text → Estimator → ℕ → F → ℕ → ℕ → Instant → Option F → Result (VolSnapshot F)
  unfolding bars_per_year
  build symbol estimator window_s sigma sample_count bar_seconds ts zscore = do
    bars ← bars_per_year bar_seconds
    ok (record {
      symbol = symbol;
      ts = ts;
      estimator = estimator;
      window_s = window_s;
      sigma = sigma;
      sigma_annualized = f.mul sigma (f.sqrt bars);
      sample_count = sample_count;
      zscore = zscore;
    })
