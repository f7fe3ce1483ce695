-- ===== src/Intervals/Tests.antt =====
-- Minutes rolled up into three-minute candles.
use live_forex_volatility_tr.Base.{ℕ, ◌≡◌, refl, none, some, List, [], ◌∷◌, ◌+◌, ◌*◌}
use live_forex_volatility_tr.Base.Text.{codes}
use live_forex_volatility_tr.Base.Result.{Returns, ok}
use live_forex_volatility_tr.Base.Dict.{lookup, text_key}
use live_forex_volatility_tr.Fixtures.{hundredths}
use live_forex_volatility_tr.Intervals.{
  BaseBar, Interval, one_minute, intervals, fold, start_of, bucket_start, base_count,
}
use live_forex_volatility_tr.Intervals.Months.{month_start, days_before}
use live_forex_volatility_tr.Intervals.Charts.{Charts, fold-Charts}

abbrev three_minutes : Interval
three_minutes = record { code = codes "3m"; seconds = some 180; base = one_minute }

three_minutes_known : lookup (codes "3m") intervals ≡ some three_minutes
unfolding intervals
three_minutes_known = refl

abbrev minute_bar : ℕ → ℕ → BaseBar ℕ
minute_bar minute price = record {
  t = minute * 60;
  o = price;
  h = price + 3;
  l = price;
  c = price + 1;
  n = some 4;
  src = none;
}

-- Out of order, with a bucket that has no bar.
abbrev minutes : List (BaseBar ℕ)
minutes = minute_bar 2 11_000 ∷ minute_bar 1 11_010 ∷ minute_bar 7 11_020 ∷ []

fold-Charts_example :
    Returns
      (Charts (λ epoch. start_of epoch (codes "3m") three_minutes) minutes)
      (fold minutes (codes "3m"))
fold-Charts_example = fold-Charts minutes (codes "3m") three_minutes three_minutes_known

-- 1 January 2024, by its days since 1970, and 1 March of that leap year.
new_year_2024 : days_before (54 * 12) ≡ 19_723
new_year_2024 = refl

march_2024 : days_before (54 * 12 + 2) ≡ 19_783
march_2024 = refl

-- 2000 is a leap year; 1 January 2001 is 366 days after 1 January 2000.
new_year_2001 : days_before (31 * 12) ≡ 10_957 + 366
new_year_2001 = refl

-- The week of 1 January 2024, a Monday, and two weeks of days.
week_2024 : bucket_start 1_704_300_000 (codes "1w") ≡ ok 1_704_067_200
unfolding bucket_start intervals start_of
week_2024 = refl

february_1972 : bucket_start 68_100_000 (codes "1M") ≡ ok 65_750_400
unfolding bucket_start intervals start_of month_start
february_1972 = refl

two_weeks : base_count (codes "1w") 2 ≡ ok 21
unfolding base_count intervals
two_weeks = refl
