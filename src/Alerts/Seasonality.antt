-- ===== src/Alerts/Seasonality.antt =====
-- `DiurnalProfile` of packages/core/fx_core/alerts/seasonality.py: multiplicative hour-of-day
-- factors, learned online.
use live_forex_volatility_tr.Base.{
  ℕ, suc, Bool, ◌&&◌, not, Option, none, some, List, [], ◌∷◌, ltb, leb, ◌==◌, if◌then◌else◌, length,
  get_elem?, set, replicate, is_some,
}
use live_forex_volatility_tr.Base.Float.{Float, fmax, fmin}
use live_forex_volatility_tr.Base.Result.{
  Result, ok, raise, value_error, index_error, ◌>>=◌, ◌>>◌, raise_if,
}
use live_forex_volatility_tr.Alerts.Baseline.{in_unit, unmeasurable}

pub record DiurnalProfile (F : Type 0) : Type 0 where
  pub lam : F
  pub min_samples : ℕ
  pub min_ready_hours : ℕ
  pub clamp_lo : F
  pub clamp_hi : F
  pub hour_mean : List F
  pub hour_n : List ℕ

pub record DiurnalSnapshot (F : Type 0) : Type 0 where
  pub lam : F
  pub hour_mean : List F
  pub hour_n : List ℕ

-- `_HOURS`
abbrev pub hours_in_day : ℕ
hours_in_day = 24

-- `xs[i]`
abbrev pub at {ℓ} : {A : Type ℓ} → List A → ℕ → Result A
at xs i = elim (get_elem? xs i) [ none ↦ raise index_error | some a ↦ ok a ]

module _ {F : Type 0} ⦃f : Float F⦄ where
  -- The constructor with the default clamp, and its `__post_init__`.
  unfoldable pub new : F → ℕ → ℕ → Result (DiurnalProfile F)
  new lam min_samples min_ready_hours = do
    raise_if (not (in_unit lam)) value_error
    raise_if (not (leb 1 min_ready_hours && leb min_ready_hours hours_in_day)) value_error
    let lo = f.literal 25 2
    let hi = f.of_ℕ 4
    raise_if (not (f.lt (f.of_ℕ 0) lo && (f.lt lo (f.of_ℕ 1) && f.lt (f.of_ℕ 1) hi))) value_error
    ok (record {
      lam = lam;
      min_samples = min_samples;
      min_ready_hours = min_ready_hours;
      clamp_lo = lo;
      clamp_hi = hi;
      hour_mean = replicate hours_in_day (f.of_ℕ 0);
      hour_n = replicate hours_in_day 0;
    })

  -- The sample's logarithm moves the mean of its hour.
  unfoldable pub admit : DiurnalProfile F → F → ℕ → ℕ → F → DiurnalProfile F
  admit p x hour n mean = record p {
    hour_mean =
        set p.hour_mean hour
          (if n == 0 then x else f.add mean (f.mul (f.sub (f.of_ℕ 1) p.lam) (f.sub x mean)));
    hour_n = set p.hour_n hour (suc n);
  }

  unfoldable pub observe : DiurnalProfile F → F → ℕ → Result (DiurnalProfile F)
  observe p sigma hour =
      if unmeasurable sigma then ok p else if leb hours_in_day hour then raise value_error else (do
        n ← at p.hour_n hour
        mean ← at p.hour_mean hour
        ok (admit p (f.log sigma) hour n mean))

  -- The means of the hours that have enough samples.
  abbrev pub learned : ℕ → List ℕ → List F → List F
  learned least [] means = []
  learned least (n ∷ ns) [] = []
  learned least (n ∷ ns) (m ∷ means) =
      let rest = learned least ns means in if leb least n then m ∷ rest else rest

  -- `sum(xs)`, from the left.
  abbrev pub sum_from : F → List F → F
  sum_from acc [] = acc
  sum_from acc (x ∷ xs) = sum_from (f.add acc x) xs

  unfoldable pub reference_level : DiurnalProfile F → Option F
  reference_level p =
      let levels = learned p.min_samples p.hour_n p.hour_mean in
      if ltb (length levels) p.min_ready_hours
      then none
      else some (f.div (sum_from (f.of_ℕ 0) levels) (f.of_ℕ (length levels)))

  unfoldable pub ready : DiurnalProfile F → ℕ → Result Bool
  unfolding reference_level
  ready p hour = do n ← at p.hour_n hour; ok (leb p.min_samples n && is_some (reference_level p))

  -- `math.exp` raises OverflowError for hour means more than 709 apart, logarithms of levels that differ
  -- by a factor of 10³⁰⁸; `exp` is total here.
  unfoldable pub factor : DiurnalProfile F → ℕ → Result F
  factor p hour = elim (reference_level p) [
    | none ↦ ok (f.of_ℕ 1)
    | some reference ↦ do
      n ← at p.hour_n hour
      mean ← at p.hour_mean hour
      ok (
          if ltb n p.min_samples
          then f.of_ℕ 1
          else fmin (fmax (f.exp (f.sub mean reference)) p.clamp_lo) p.clamp_hi)
  ]

  unfoldable pub deseasonalize : DiurnalProfile F → F → ℕ → Result F
  deseasonalize p sigma hour = do by ← factor p hour; ok (f.div sigma by)

  unfoldable pub snapshot : DiurnalProfile F → DiurnalSnapshot F
  snapshot p = record { lam = p.lam; hour_mean = p.hour_mean; hour_n = p.hour_n }

  unfoldable pub restore : DiurnalSnapshot F → ℕ → ℕ → Result (DiurnalProfile F)
  unfolding new
  restore state min_samples min_ready_hours = do
    raise_if (not (length state.hour_mean == hours_in_day && length state.hour_n == hours_in_day))
        value_error
    p ← new state.lam min_samples min_ready_hours
    ok (record p { hour_mean = state.hour_mean; hour_n = state.hour_n })
