-- ===== src/Intervals/Months.antt =====
-- `at.replace(day=1, ...)` of packages/core/fx_core/intervals.py. The method is the standard library's:
-- `is_leap`, `february`, `month_days` and `walk` are the Gregorian calendar that datetime documents, in
-- days since 1970, and only `month_start` stands for a call of the source.
use live_forex_volatility_tr.Base.{
  ℕ, zero, suc, ◌+◌, ◌/◌, ◌%◌, ◌<◌, ◌≤◌, ◌≡◌, refl, Bool, true, not, ◌&&◌, ◌||◌, leb, ◌==◌,
  if◌then◌else◌, arith, Bool-cases, inl, inr,
}

abbrev is_leap : ℕ → Bool
is_leap year = (year % 4 == 0) && (not (year % 100 == 0) || (year % 400 == 0))

abbrev february : ℕ → ℕ
february year = if is_leap year then 29 else 28

-- Of the month with this number, where 0 is January 1970.
abbrev month_days : ℕ → ℕ
month_days month =
    let place = month % 12 in
    if place == 1
    then february (1970 + month / 12)
    else if (place == 3) || (place == 5) || (place == 8) || (place == 10)
    then 30
    else 31

-- From month to month, until the next one starts behind the day.
unfoldable walk : ℕ → (start month day : ℕ) → ℕ
walk zero start month day = start
walk (suc fuel) start month day =
    let next = start + month_days month in
    let rest = walk fuel next (suc month) day in if leb next day then rest else start

unfoldable pub month_start : ℕ → ℕ
unfolding walk
month_start day = walk (suc day) 0 0 day

month_days-positive : (month : ℕ) → 0 < month_days month
month_days-positive month = ground arith

walk-from : (fuel start month day : ℕ) → start ≤ walk fuel start month day
unfolding walk
walk-from zero start month day = omega arith
walk-from (suc fuel) start month day =
    let next = start + month_days month in
    let later = walk-from fuel next (suc month) day in
    elim (Bool-cases (leb next day)) [ inl c ↦ rw c (omega arith) | inr c ↦ rw c (omega arith) ]

-- A later day and more rounds do not lead to an earlier month.
walk-le :
    (n k start month day later : ℕ)
    → n ≤ k
    → day ≤ later
    → walk n start month day ≤ walk k start month later
unfolding walk
walk-le zero k start month day later h d = walk-from k start month later
walk-le (suc n) zero start month day later h d = absurd (omega arith)
walk-le (suc n) (suc k) start month day later h d =
    let next = start + month_days month in
    let rest = walk-le n k next (suc month) day later (omega arith) d in
    let reached = walk-from k next (suc month) later in
    elim (Bool-cases (leb next day)) [
      | inl c ↦ let both : leb next later ≡ true = ground arith in rw (c, both) rest
      | inr c ↦ elim (Bool-cases (leb next later)) [
        | inl e ↦ rw (c, e) (omega arith)
        | inr e ↦ rw (c, e) (omega arith)
      ]
    ]

pub month_start-le : (day later : ℕ) → day ≤ later → month_start day ≤ month_start later
unfolding month_start
month_start-le day later h = walk-le (suc day) (suc later) 0 0 day later (omega arith) h

-- The first days of the months, counted up.
abbrev pub days_before : ℕ → ℕ
days_before zero = 0
days_before (suc month) = days_before month + month_days month

walk-Finds :
    (fuel month day : ℕ)
    → days_before month ≤ day
    → day < days_before month + fuel
    → (m : ℕ) × (walk fuel (days_before month) month day ≡ days_before m)
      × (days_before m ≤ day)
      × (day < days_before (suc m))
unfolding walk
walk-Finds zero month day from short = absurd (omega arith)
walk-Finds (suc fuel) month day from short =
    let some_days = month_days-positive month in
    elim (Bool-cases (leb (days_before (suc month)) day)) [
      | inl c ↦
          let below : days_before (suc month) ≤ day = ground arith in
          let (m, found, start, end) = walk-Finds fuel (suc month) day below (omega arith) in
          (m, rw c found, start, end)
      | inr c ↦ (month, rw c refl, from, ground arith)
    ]

-- The walk has rounds enough to reach the month that the day is in.
month_start-within :
    (day : ℕ)
    → (m : ℕ) × (month_start day ≡ days_before m)
      × (days_before m ≤ day)
      × (day < days_before (suc m))
unfolding month_start
month_start-within day = walk-Finds (suc day) 0 day (omega arith) (omega arith)
