-- ===== src/Volatility/Welford.antt =====
-- packages/core/fx_core/volatility/welford.py, and what `RollingWindow` of buckets.py asks of it.
use live_forex_volatility_tr.Base.{
  ℕ, suc, ◌+◌, ◌-◌, ◌≡◌, ◌∙◌, List, [], ◌∷◌, ltb, ◌==◌, if◌then◌else◌, arith,
}
use live_forex_volatility_tr.Base.Float.{Float, fmax}
use live_forex_volatility_tr.Volatility.Bars.{Bar}
use live_forex_volatility_tr.Volatility.Window.{RollingWindow, tick_count}

pub record Welford (F : Type 0) : Type 0 where
  pub n : ℕ
  pub mean : F
  pub m2 : F

module _ {F : Type 0} ⦃f : Float F⦄ where
  -- `Welford()`
  unfoldable pub zero_samples : Welford F
  zero_samples = record { n = 0; mean = f.of_ℕ 0; m2 = f.of_ℕ 0 }

  unfoldable pub update : Welford F → F → Welford F
  update w x =
      let n = suc w.n in
      let delta = f.sub x w.mean in
      let mean = f.add w.mean (f.div delta (f.of_ℕ n)) in
      record { n = n; mean = mean; m2 = f.add w.m2 (f.mul delta (f.sub x mean)) }

  unfoldable pub update_many : Welford F → List F → Welford F
  unfolding update
  update_many w [] = w
  update_many w (x ∷ xs) = update_many (update w x) xs

  unfoldable pub variance : Welford F → F
  variance w = if ltb w.n 2 then f.of_ℕ 0 else fmax (f.div w.m2 (f.of_ℕ (w.n - 1))) (f.of_ℕ 0)

  unfoldable pub population_variance : Welford F → F
  population_variance w = if ltb w.n 1 then f.of_ℕ 0 else fmax (f.div w.m2 (f.of_ℕ w.n)) (f.of_ℕ 0)

  unfoldable pub stdev : Welford F → F
  unfolding variance
  stdev w = f.sqrt (variance w)

  unfoldable pub merge : Welford F → Welford F → Welford F
  merge a b =
      if b.n == 0
      then a
      else if a.n == 0
      then b
      else let n = a.n + b.n in
        let delta = f.sub b.mean a.mean in
        record {
          n = n;
          mean = f.add a.mean (f.mul delta (f.div (f.of_ℕ b.n) (f.of_ℕ n)));
          m2 =
              f.add (f.add a.m2 b.m2)
                (f.div (f.mul (f.mul (f.mul delta delta) (f.of_ℕ a.n)) (f.of_ℕ b.n)) (f.of_ℕ n));
        }

  unfoldable pub from_sums : ℕ → F → F → Welford F
  unfolding zero_samples
  from_sums n total total_sq =
      if ltb n 1
      then zero_samples
      else let mean = f.div total (f.of_ℕ n) in
        record {
          n = n;
          mean = mean;
          m2 = fmax (f.sub total_sq (f.mul (f.mul (f.of_ℕ n) mean) mean)) (f.of_ℕ 0);
        }

  -- The loop of `RollingWindow.welford`.
  unfoldable pub merge_bars : Welford F → List (Bar F) → Welford F
  unfolding merge from_sums
  merge_bars acc [] = acc
  merge_bars acc (b ∷ bars) =
      merge_bars (merge acc (from_sums b.tick_count b.sum_ret b.sum_ret_sq)) bars

  -- `RollingWindow.welford` and `RollingWindow.sigma`
  unfoldable pub of_window : RollingWindow F → Welford F
  unfolding merge_bars zero_samples
  of_window w = merge_bars zero_samples w.bars

  unfoldable pub sigma : RollingWindow F → F
  unfolding of_window stdev
  sigma w = stdev (of_window w)

  merge_bars-count :
      (acc : Welford F) (bars : List (Bar F)) → (merge_bars acc bars).n ≡ acc.n + tick_count bars
  unfolding merge_bars merge from_sums zero_samples tick_count
  merge_bars-count acc [] = omega arith
  merge_bars-count acc (b ∷ bars) =
      ground
        (arith, merge_bars-count (merge acc (from_sums b.tick_count b.sum_ret b.sum_ret_sq)) bars)

  -- The samples of a window's accumulator are the ticks of its bars, however they are spread.
  pub of_window-count : (w : RollingWindow F) → (of_window w).n ≡ tick_count w.bars
  unfolding of_window zero_samples
  of_window-count w = merge_bars-count zero_samples w.bars ∙ omega arith
