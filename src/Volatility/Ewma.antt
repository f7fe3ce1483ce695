-- ===== src/Volatility/Ewma.antt =====
-- packages/core/fx_core/volatility/ewma.py
use live_forex_volatility_tr.Base.{ℕ, suc, Bool, not, ◌&&◌, leb, max, ◌==◌, if◌then◌else◌}
use live_forex_volatility_tr.Base.Float.{Float, fmax}
use live_forex_volatility_tr.Base.Result.{Result, ok, value_error, raise_if, ◌>>◌}

pub record EwmaVariance (F : Type 0) : Type 0 where
  pub lam : F
  pub variance : F
  pub n : ℕ

module _ {F : Type 0} ⦃f : Float F⦄ where
  -- `EwmaVariance(lam)` with its `__post_init__`
  unfoldable pub new : F → Result (EwmaVariance F)
  new lam =
      raise_if (not (f.lt (f.of_ℕ 0) lam && f.lt lam (f.of_ℕ 1))) value_error
      >> ok (record { lam = lam; variance = f.of_ℕ 0; n = 0 })

  -- `update`: a return that is not finite is left out.
  unfoldable pub update : EwmaVariance F → F → EwmaVariance F
  update e ret = if not (f.is_finite ret) then e else record e {
    variance =
        if e.n == 0
        then f.mul ret ret
        else f.add (f.mul e.lam e.variance) (f.mul (f.mul (f.sub (f.of_ℕ 1) e.lam) ret) ret);
    n = suc e.n;
  }

  unfoldable pub sigma : EwmaVariance F → F
  sigma e = f.sqrt (fmax e.variance (f.of_ℕ 0))

  unfoldable pub effective_memory : EwmaVariance F → F
  effective_memory e = f.div (f.of_ℕ 1) (f.sub (f.of_ℕ 1) e.lam)

  -- `warmed_up`, with the whole part of the effective memory.
  abbrev pub warmed_up : ℕ → EwmaVariance F → Bool
  warmed_up memory e = leb (max memory 2) e.n

  unfoldable pub reset : EwmaVariance F → EwmaVariance F
  reset e = record e { variance = f.of_ℕ 0; n = 0 }
