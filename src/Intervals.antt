-- ===== src/Intervals.antt =====
-- packages/core/fx_core/intervals.py: base bars rolled up into the bars of a timeframe.
pub mod Months
pub mod Edges
pub mod Rollup
pub mod Charts
mod Tests
use live_forex_volatility_tr.Base.{
  ℕ, zero, suc, ◌+◌, ◌-◌, ◌*◌, ◌/◌, ◌%◌, max, Bool, true, false, not, ◌&&◌, ◌||◌, Option, none,
  some, List, [], ◌∷◌, ltb, ◌==◌, if◌then◌else◌,
}
use live_forex_volatility_tr.Base.Float.{Float, fmax, fmin}
use live_forex_volatility_tr.Base.Text.{Text, eq_text, codes}
use live_forex_volatility_tr.Base.Result.{
  Result, ok, raise, value_error, key_error, or_raise, ◌>>=◌,
}
use live_forex_volatility_tr.Base.Dict.{Dict, lookup, text_key, get_or}
use live_forex_volatility_tr.Intervals.Months.{month_start}

pub data Base : Type 0 where
  one_minute one_day : Base

pub record Interval : Type 0 where
  pub code : Text
  pub seconds : Option ℕ
  pub base : Base

abbrev fixed : Text → ℕ → Base → Text × Interval
fixed code seconds base = (code, record { code = code; seconds = some seconds; base = base })

abbrev by_calendar : Text → Text × Interval
by_calendar code = (code, record { code = code; seconds = none; base = one_day })

-- `INTERVALS`
unfoldable pub intervals : Dict Text Interval
intervals =
    fixed (codes "1m") 60 one_minute
    ∷ fixed (codes "3m") 180 one_minute
    ∷ fixed (codes "5m") 300 one_minute
    ∷ fixed (codes "10m") 600 one_minute
    ∷ fixed (codes "15m") 900 one_minute
    ∷ fixed (codes "30m") 1_800 one_minute
    ∷ fixed (codes "1h") 3_600 one_minute
    ∷ fixed (codes "4h") 14_400 one_minute
    ∷ fixed (codes "1d") 86_400 one_day
    ∷ by_calendar (codes "1w")
    ∷ by_calendar (codes "1M")
    ∷ []

abbrev pub seconds_of_day : ℕ
seconds_of_day = 86_400

-- `at.weekday()`: the first day of 1970 was a Thursday.
abbrev pub weekday : ℕ → ℕ
weekday day = (day + 3) % 7

-- The Monday of the day's week, which for the first four days of 1970 stands as day 0.
abbrev pub monday_of : ℕ → ℕ
monday_of day = day - weekday day

-- `bucket_start`, for the interval's entry in the table.
abbrev pub calendar_start : ℕ → Text → ℕ
calendar_start epoch interval =
    let day = epoch / seconds_of_day in
    if eq_text interval (codes "1w")
    then monday_of day * seconds_of_day
    else month_start day * seconds_of_day

unfoldable pub start_of : ℕ → Text → Interval → ℕ
start_of epoch interval spec = elim spec.seconds [
  | some seconds ↦ epoch - epoch % seconds
  | none ↦ calendar_start epoch interval
]

unfoldable pub bucket_start : ℕ → Text → Result ℕ
unfolding start_of
bucket_start epoch interval =
    or_raise key_error (lookup interval intervals) >>= (λ spec. ok (start_of epoch interval spec))

-- A base bar, as its dictionary: a missing "n" is none, and so is a missing "src".
pub record BaseBar (F : Type 0) : Type 0 where
  pub t : ℕ
  pub o : F
  pub h : F
  pub l : F
  pub c : F
  pub n : Option ℕ
  pub src : Option Text

pub record Candle (F : Type 0) : Type 0 where
  pub t : ℕ
  pub o : F
  pub h : F
  pub l : F
  pub c : F
  pub n : ℕ
  pub src : Text

abbrev pub count_of : {F : Type 0} → BaseBar F → ℕ
count_of bar = get_or 0 bar.n

abbrev pub source_of : {F : Type 0} → BaseBar F → Text
source_of bar = get_or (codes "agg") bar.src

-- `_fold_order`
abbrev pub fold_order : {F : Type 0} → BaseBar F → ℕ × ℕ
fold_order bar =
    (bar.t, elim bar.src [ none ↦ 1 | some src ↦ if eq_text src (codes "backfill") then 0 else 1 ])

-- The order of tuples.
abbrev pub before : ℕ × ℕ → ℕ × ℕ → Bool
before (t, rank) (u, place) = ltb t u || (t == u && ltb rank place)

-- `sorted(bars, key=_fold_order)`, which keeps the order of equals.
unfoldable pub put : {F : Type 0} → BaseBar F → List (BaseBar F) → List (BaseBar F)
put bar [] = bar ∷ []
put bar (next ∷ bars) =
    let rest = put bar bars in
    if before (fold_order next) (fold_order bar) then next ∷ rest else bar ∷ next ∷ bars

unfoldable pub in_fold_order : {F : Type 0} → List (BaseBar F) → List (BaseBar F)
unfolding put
in_fold_order [] = []
in_fold_order (bar ∷ bars) = put bar (in_fold_order bars)

module _ {F : Type 0} ⦃f : Float F⦄ where
  -- A new bucket, and a bar that falls into the last one.
  unfoldable pub opened : (ℕ → ℕ) → BaseBar F → Candle F
  opened start bar = record {
    t = start bar.t;
    o = bar.o;
    h = bar.h;
    l = bar.l;
    c = bar.c;
    n = count_of bar;
    src = source_of bar;
  }

  unfoldable pub absorb : Candle F → BaseBar F → Candle F
  absorb cur bar = record cur {
    h = fmax cur.h bar.h;
    l = fmin cur.l bar.l;
    c = bar.c;
    n = cur.n + count_of bar;
    src = if eq_text cur.src (source_of bar) then cur.src else codes "mixed";
  }

  -- The loop of `fold`, with the last candle of `out` at hand.
  unfoldable pub folded : (ℕ → ℕ) → Candle F → List (BaseBar F) → List (Candle F)
  unfolding opened absorb
  folded start cur [] = cur ∷ []
  folded start cur (bar ∷ bars) =
      let same = cur.t == start bar.t in
      let rest = folded start (if same then absorb cur bar else opened start bar) bars in
      if same then rest else cur ∷ rest

  unfoldable pub fold_sorted : (ℕ → ℕ) → List (BaseBar F) → List (Candle F)
  unfolding folded opened
  fold_sorted start [] = []
  fold_sorted start (bar ∷ bars) = folded start (opened start bar) bars

  unfoldable pub fold : List (BaseBar F) → Text → Result (List (Candle F))
  unfolding fold_sorted in_fold_order start_of
  fold bars interval = elim (lookup interval intervals) [
    | none ↦ raise value_error
    | some spec ↦ ok (fold_sorted (λ epoch. start_of epoch interval spec) (in_fold_order bars))
  ]

-- `base_count`: how many base bars are read for `limit` candles.
abbrev pub base_seconds : Base → ℕ
base_seconds one_minute = 60
base_seconds one_day = seconds_of_day

-- `_CALENDAR_SPAN`
abbrev pub calendar_span : Text → Result ℕ
calendar_span interval =
    if eq_text interval (codes "1w")
    then ok 7
    else if eq_text interval (codes "1M")
    then ok 31
    else raise key_error

unfoldable pub base_count : Text → ℕ → Result ℕ
base_count interval limit =
    or_raise key_error (lookup interval intervals)
    >>= (λ spec. elim spec.seconds [
      | some seconds ↦ ok (max (seconds / base_seconds spec.base) 1)
      | none ↦ calendar_span interval
    ])
    >>= (λ per. ok (limit * per + per))
