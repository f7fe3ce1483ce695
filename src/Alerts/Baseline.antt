-- ===== src/Alerts/Baseline.antt =====
-- `VolatilityBaseline` of packages/core/fx_core/alerts/baseline.py: the location and scale of
-- ln(sigma), with a freeze switch.
use live_forex_volatility_tr.Base.{
  ℕ, suc, Bool, true, false, ◌&&◌, ◌||◌, not, Option, none, some, ltb, leb, ◌==◌, if◌then◌else◌,
}
use live_forex_volatility_tr.Base.Float.{Float, fmax}
use live_forex_volatility_tr.Base.Result.{Result, ok, value_error, ◌>>=◌, ◌>>◌, raise_if}

pub record VolatilityBaseline (F : Type 0) : Type 0 where
  pub lam : F
  pub min_samples : ℕ
  pub mean : F
  pub var : F
  pub n : ℕ
  pub frozen : Bool
  pub debias : F

pub record BaselineSnapshot (F : Type 0) : Type 0 where
  pub lam : F
  pub mean : F
  pub var : F
  pub n : ℕ
  pub debias : F
  pub frozen : Bool

module _ {F : Type 0} ⦃f : Float F⦄ where
  -- `_MIN_SIGMA`
  abbrev pub min_sigma : F
  min_sigma = f.literal 1 15

  -- `0.0 < lam < 1.0`
  abbrev pub in_unit : F → Bool
  in_unit lam = f.lt (f.of_ℕ 0) lam && f.lt lam (f.of_ℕ 1)

  -- A sigma that is unmeasurable: at or below `_MIN_SIGMA`, or not finite.
  abbrev pub unmeasurable : F → Bool
  unmeasurable sigma = f.le sigma min_sigma || not (f.is_finite sigma)

  -- The constructor and its `__post_init__`.
  unfoldable pub new : F → ℕ → Result (VolatilityBaseline F)
  new lam min_samples = do
    raise_if (not (in_unit lam)) value_error
    raise_if (ltb min_samples 2) value_error
    ok (record {
      lam = lam;
      min_samples = min_samples;
      mean = f.of_ℕ 0;
      var = f.of_ℕ 0;
      n = 0;
      frozen = false;
      debias = f.of_ℕ 0;
    })

  unfoldable pub observe : VolatilityBaseline F → F → VolatilityBaseline F
  observe b sigma =
      if b.frozen || unmeasurable sigma
      then b
      else let x = f.log sigma in
        let diff = f.sub x b.mean in
        let incr = f.mul (f.sub (f.of_ℕ 1) b.lam) diff in
        record b {
          mean = if b.n == 0 then x else f.add b.mean incr;
          var = if b.n == 0 then f.of_ℕ 0 else f.mul b.lam (f.add b.var (f.mul diff incr));
          n = suc b.n;
          debias = f.add (f.mul b.lam b.debias) (f.sub (f.of_ℕ 1) b.lam);
        }

  unfoldable pub ready : VolatilityBaseline F → Bool
  ready b = leb b.min_samples b.n && f.lt (f.of_ℕ 0) b.var

  unfoldable pub stdev : VolatilityBaseline F → F
  stdev b =
      if f.le b.debias (f.of_ℕ 0)
      then f.sqrt (fmax b.var (f.of_ℕ 0))
      else f.sqrt (fmax (f.div b.var b.debias) (f.of_ℕ 0))

  unfoldable pub zscore : VolatilityBaseline F → F → Option F
  unfolding ready stdev
  zscore b sigma =
      if not (ready b) || unmeasurable sigma
      then none
      else let sd = stdev b in
        if f.le sd (f.of_ℕ 0) then none else some (f.div (f.sub (f.log sigma) b.mean) sd)

  unfoldable pub freeze : VolatilityBaseline F → VolatilityBaseline F
  freeze b = record b { frozen = true }

  unfoldable pub thaw : VolatilityBaseline F → VolatilityBaseline F
  thaw b = record b { frozen = false }

  unfoldable pub reset : VolatilityBaseline F → VolatilityBaseline F
  reset b = record b { mean = f.of_ℕ 0; var = f.of_ℕ 0; debias = f.of_ℕ 0; n = 0; frozen = false }

  unfoldable pub snapshot : VolatilityBaseline F → BaselineSnapshot F
  snapshot b = record {
    lam = b.lam;
    mean = b.mean;
    var = b.var;
    n = b.n;
    debias = b.debias;
    frozen = b.frozen;
  }

  unfoldable pub restore : BaselineSnapshot F → ℕ → Result (VolatilityBaseline F)
  unfolding new
  restore state min_samples = do
    b ← new state.lam min_samples
    ok (record b {
      mean = state.mean;
      var = state.var;
      n = state.n;
      debias = state.debias;
      frozen = state.frozen;
    })
