-- ===== src/Volatility/Bars.antt =====
-- `Bar` of packages/core/fx_core/models.py and `BucketAccumulator` of
-- packages/core/fx_core/volatility/buckets.py.
use live_forex_volatility_tr.Base.{
  ℕ, suc, ◌+◌, ◌-◌, ◌*◌, ◌%◌, ◌<◌, ◌≤◌, Bool, true, false, ◌&&◌, ◌||◌, not, Option, none, some,
  arith, ltb, leb, if◌then◌else◌,
}
use live_forex_volatility_tr.Base.Clock.{Instant, epoch_of, from_epoch}
use live_forex_volatility_tr.Base.Float.{Float, fmax, fmin}
use live_forex_volatility_tr.Base.Text.{Text, eq_text}
use live_forex_volatility_tr.Base.Result.{Result, ok, raise, value_error}

pub data BarSource : Type 0 where
  stream backfill synthetic : BarSource

abbrev pub is_backfill : BarSource → Bool
is_backfill backfill = true
is_backfill stream = false
is_backfill synthetic = false

pub record Bar (F : Type 0) : Type 0 where
  pub symbol : Text
  pub bucket : Instant
  pub open_price : F
  pub high : F
  pub low : F
  pub close : F
  pub tick_count : ℕ
  pub sum_ret : F
  pub sum_ret_sq : F
  pub source : BarSource

-- `floor_to_bucket`
unfoldable pub floor_to_bucket : Instant → ℕ → Instant
floor_to_bucket ts seconds = let epoch = epoch_of ts in from_epoch (epoch - epoch % seconds)

-- The bucket's start is not after the instant, and less than a bucket before it.
pub floor_to_bucket_bounds :
    (ts : Instant) (seconds : ℕ)
    → 0 < seconds
    → (floor_to_bucket ts seconds ≤ ts) × (ts < floor_to_bucket ts seconds + seconds * 1_000_000)
unfolding floor_to_bucket
floor_to_bucket_bounds ts seconds h = grind arith

module _ {F : Type 0} ⦃f : Float F⦄ where
  -- `Bar.merge`
  unfoldable pub merge : Bar F → Bar F → Result (Bar F)
  merge a b =
      if not (eq_text a.symbol b.symbol)
      then raise value_error
      else let earlier = if leb a.bucket b.bucket then a else b in
        let later = if leb a.bucket b.bucket then b else a in
        ok (record earlier {
          high = fmax a.high b.high;
          low = fmin a.low b.low;
          close = later.close;
          tick_count = a.tick_count + b.tick_count;
          sum_ret = f.add a.sum_ret b.sum_ret;
          sum_ret_sq = f.add a.sum_ret_sq b.sum_ret_sq;
          source = if is_backfill a.source || is_backfill b.source then backfill else a.source;
        })

  -- `Bar.variance`
  unfoldable pub variance : Bar F → F
  variance b =
      if ltb b.tick_count 2
      then f.of_ℕ 0
      else let n = f.of_ℕ b.tick_count in
        let mean = f.div b.sum_ret n in
        fmax (f.div (f.sub b.sum_ret_sq (f.mul (f.mul n mean) mean)) (f.of_ℕ (b.tick_count - 1)))
          (f.of_ℕ 0)

  -- `Bar.realized_vol`
  unfoldable pub realized_vol : Bar F → F
  realized_vol b = f.sqrt (fmax b.sum_ret_sq (f.of_ℕ 0))

  -- `BucketAccumulator.start`; the accumulator has the fields of the bar that seals it.
  unfoldable pub start : Text → Instant → F → ℕ → BarSource → Bar F
  start symbol ts price seconds source = record {
    symbol = symbol;
    bucket = floor_to_bucket ts seconds;
    open_price = price;
    high = price;
    low = price;
    close = price;
    tick_count = 0;
    sum_ret = f.of_ℕ 0;
    sum_ret_sq = f.of_ℕ 0;
    source = source;
  }

  -- The log return from the previous price, where both are positive.
  unfoldable pub return_from : Option F → F → Option F
  return_from none price = none
  return_from (some prev) price =
      if f.lt (f.of_ℕ 0) prev && f.lt (f.of_ℕ 0) price
      then some (f.log (f.div price prev))
      else none

  abbrev pub plus : F → Option F → F
  plus x none = x
  plus x (some y) = f.add x y

  abbrev pub plus_square : F → Option F → F
  plus_square x none = x
  plus_square x (some y) = f.add x (f.mul y y)

  -- `BucketAccumulator.add`
  unfoldable pub add_tick : Bar F → F → Option F → Bar F
  add_tick acc price prev = record acc {
    high = fmax acc.high price;
    low = fmin acc.low price;
    close = price;
    tick_count = suc acc.tick_count;
    sum_ret = plus acc.sum_ret (return_from prev price);
    sum_ret_sq = plus_square acc.sum_ret_sq (return_from prev price);
  }

  -- `BucketAccumulator.seal` copies the fields.
  unfoldable pub seal : Bar F → Bar F
  seal acc = record {
    symbol = acc.symbol;
    bucket = acc.bucket;
    open_price = acc.open_price;
    high = acc.high;
    low = acc.low;
    close = acc.close;
    tick_count = acc.tick_count;
    sum_ret = acc.sum_ret;
    sum_ret_sq = acc.sum_ret_sq;
    source = acc.source;
  }
