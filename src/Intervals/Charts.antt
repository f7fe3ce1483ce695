-- ===== src/Intervals/Charts.antt =====
-- `fold` of intervals.py on any list of bars: sorted, and rolled up.
use live_forex_volatility_tr.Base.{
  ℕ, ◌<◌, ◌≤◌, ◌≡◌, ◌∙◌, refl, ap, sym, subst, true, false, some, List, [], ◌∷◌, arith, ◌==◌,
  Bool-cases, inl, inr, All, All-map,
}
use live_forex_volatility_tr.Base.Float.{Float}
use live_forex_volatility_tr.Base.Text.{Text}
use live_forex_volatility_tr.Base.Result.{ok, Returns}
use live_forex_volatility_tr.Base.Dict.{lookup, text_key}
use live_forex_volatility_tr.Intervals.{
  BaseBar, Candle, fold_order, before, put, in_fold_order, opened, absorb, folded, fold_sorted,
  fold, start_of, intervals, Interval,
}
use live_forex_volatility_tr.Intervals.Edges.{start_of-le}
use live_forex_volatility_tr.Intervals.Rollup.{
  Forward, candle_at, summary, within, folded_at, opened_within,
}

le_trans : (a b c : ℕ) → a ≤ b → b ≤ c → a ≤ c
le_trans a b c h k = omega arith

lt_trans_le : (a b c : ℕ) → a < b → b ≤ c → a < c
lt_trans_le a b c h k = omega arith

before-le : (t u r s : ℕ) → before (t, r) (u, s) ≡ true → t ≤ u
before-le t u r s h = ground arith

before-ge : (t u r s : ℕ) → before (t, r) (u, s) ≡ false → u ≤ t
before-ge t u r s h = ground arith

module _ {F : Type 0} where
  -- Bars in the order of their times.
  Timely : List (BaseBar F) → Type 0
  Timely [] = Unit
  Timely (bar ∷ bars) = All (λ next. bar.t ≤ next.t) bars × Timely bars

  put-All :
      (P : BaseBar F → Type 0) (bar : BaseBar F) (bars : List (BaseBar F))
      → P bar
      → All P bars
      → All P (put bar bars)
  unfolding put
  put-All P bar [] own h = (own, tt)
  put-All P bar (next ∷ bars) own h =
      elim (Bool-cases (before (fold_order next) (fold_order bar))) [
        | inl c ↦ rw c (h.0, put-All P bar bars own h.1)
        | inr c ↦ rw c (own, h)
      ]

  put-Timely : (bar : BaseBar F) (bars : List (BaseBar F)) → Timely bars → Timely (put bar bars)
  unfolding put Timely
  put-Timely bar [] h = (tt, tt)
  put-Timely bar (next ∷ bars) h = elim (Bool-cases (before (fold_order next) (fold_order bar))) [
    | inl c ↦ rw c (
      put-All (λ later. next.t ≤ later.t) bar bars (before-le next.t bar.t _ _ c) h.0,
      put-Timely bar bars h.1,
    )
    | inr c ↦
        let first : bar.t ≤ next.t = before-ge next.t bar.t _ _ c in
        rw c
          ((first, All-map (λ later after. le_trans bar.t next.t later.t first after) bars h.0), h)
  ]

  in_fold_order-Timely : (bars : List (BaseBar F)) → Timely (in_fold_order bars)
  unfolding in_fold_order Timely
  in_fold_order-Timely [] = tt
  in_fold_order-Timely (bar ∷ bars) =
      put-Timely bar (in_fold_order bars) (in_fold_order-Timely bars)

module _ {F : Type 0} ⦃f : Float F⦄ (start : ℕ → ℕ) where
  -- Candles of later and later buckets.
  abbrev pub Rising : List (Candle F) → Type 0
  Rising [] = Unit
  Rising (c ∷ cs) = All (λ next. c.t < next.t) cs × Rising cs

  Timely-Forward :
      ((a b : ℕ) → a ≤ b → start a ≤ start b)
      → (bars : List (BaseBar F)) → Timely bars
      → Forward start bars
  unfolding Timely
  Timely-Forward up [] h = tt
  Timely-Forward up (bar ∷ bars) h =
      (All-map (λ next later. up bar.t next.t later) bars h.0, Timely-Forward up bars h.1)

  folded_from :
      (cur : Candle F) (bars : List (BaseBar F))
      → All (λ bar. cur.t ≤ start bar.t) bars
      → Forward start bars
      → All (λ c. cur.t ≤ c.t) (folded start cur bars)
  unfolding folded absorb opened
  folded_from cur [] later h = (omega arith, tt)
  folded_from cur (bar ∷ bars) later h = elim (Bool-cases (cur.t == start bar.t)) [
    | inl c ↦ rw c (folded_from (absorb cur bar) bars later.1 h.1)
    | inr c ↦ rw c (
      omega arith,
      All-map (λ d after. le_trans cur.t (start bar.t) d.t later.0 after) _
          (folded_from (opened start bar) bars h.0 h.1),
    )
  ]

  folded-Rising :
      (cur : Candle F) (bars : List (BaseBar F))
      → All (λ bar. cur.t ≤ start bar.t) bars
      → Forward start bars
      → Rising (folded start cur bars)
  unfolding folded absorb opened
  folded-Rising cur [] later h = (tt, tt)
  folded-Rising cur (bar ∷ bars) later h = elim (Bool-cases (cur.t == start bar.t)) [
    | inl c ↦ rw c (folded-Rising (absorb cur bar) bars later.1 h.1)
    | inr c ↦
        let next : cur.t < start bar.t = ground (arith, later.0) in
        rw c (
          All-map (λ d after. lt_trans_le cur.t (start bar.t) d.t next after) _
              (folded_from (opened start bar) bars h.0 h.1),
          folded-Rising (opened start bar) bars h.0 h.1,
        )
  ]

  -- The chart of some bars: at most one candle of each bucket, in the order of the buckets, and each
  -- candle the summary of its bucket's bars.
  pub record Charts (bars : List (BaseBar F)) (cs : List (Candle F)) : Type 0 where
    pub rising : Rising cs
    pub each : (t : ℕ) → candle_at t cs ≡ summary t (within start t (in_fold_order bars))

  sorted_Charts :
      (bars sorted : List (BaseBar F))
      → sorted ≡ in_fold_order bars
      → Forward start sorted
      → Charts bars (fold_sorted start sorted)
  unfolding fold_sorted opened summary
  sorted_Charts bars [] same h = record {
    rising = tt;
    each = λ t. ap (λ s. summary t (within start t s)) same;
  }
  sorted_Charts bars (bar ∷ sorted) same h = record {
    rising = folded-Rising (opened start bar) sorted h.0 h.1;
    each = λ t.
        folded_at start (opened start bar) sorted t h.0 h.1
        ∙ opened_within start bar sorted t
        ∙ ap (λ s. summary t (within start t s)) same;
  }

module _ {F : Type 0} ⦃f : Float F⦄ where
  fold-known :
      (bars : List (BaseBar F)) (interval : Text) (spec : Interval)
      → lookup interval intervals ≡ some spec
      → fold bars interval
        ≡ ok (fold_sorted (λ epoch. start_of epoch interval spec) (in_fold_order bars))
  unfolding fold
  fold-known bars interval spec known = rw (fold, known) refl

  -- For every timeframe of the table, `fold` returns, on bars in any order, a chart of them: candles
  -- of later and later buckets, and for each bucket the candle that its bars add up to when sorted,
  -- with the first open, the last close, the extrema, the sum of the counts, and their common
  -- source or "mixed", or no candle where the bucket has no bar.
  pub fold-Charts :
      (bars : List (BaseBar F)) (interval : Text) (spec : Interval)
      → lookup interval intervals ≡ some spec
      → Returns (Charts (λ epoch. start_of epoch interval spec) bars) (fold bars interval)
  fold-Charts bars interval spec known =
      let start : ℕ → ℕ = λ epoch. start_of epoch interval spec in
      subst (Returns (Charts start bars)) (sym (fold-known bars interval spec known)) (
        sorted_Charts start bars (in_fold_order bars) refl (
          Timely-Forward start (λ a b h. start_of-le interval spec a b h) (in_fold_order bars)
            (in_fold_order-Timely bars)))
