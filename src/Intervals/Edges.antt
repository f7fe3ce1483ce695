-- ===== src/Intervals/Edges.antt =====
-- `bucket_start` of intervals.py keeps the order of instants, for every timeframe.
use live_forex_volatility_tr.Base.{
  ℕ, zero, suc, ◌+◌, ◌-◌, ◌*◌, ◌/◌, ◌%◌, ◌≤◌, ◌≡◌, sym, subst₂, arith, Bool-cases, Option-cases,
  inl, inr,
}
use live_forex_volatility_tr.Base.Text.{Text, eq_text, codes}
use live_forex_volatility_tr.Intervals.{Interval, start_of, seconds_of_day, monday_of}
use live_forex_volatility_tr.Intervals.Months.{month_start-le}
use native.Mathlib.Nat.{
  div-add-mod', div-mul-le_self, le-div_iff_mul-le, mul-le-mul_right, div-zero,
}

whole_of : (q r a : ℕ) → q + r ≡ a → a - r ≡ q
whole_of q r a h = omega arith

pub div-le : (s a b : ℕ) → a ≤ b → a / s ≤ b / s
div-le zero a b h = rw (div-zero a, div-zero b) (omega arith)
div-le (suc s) a b h =
    let below = div-mul-le_self a (suc s) in (le-div_iff_mul-le (omega arith)).1 (omega arith)

floor-le : (s a b : ℕ) → a ≤ b → a - a % s ≤ b - b % s
floor-le s a b h =
    subst₂ ◌≤◌ (sym (whole_of (a / s * s) (a % s) a (div-add-mod' a s)))
      (sym (whole_of (b / s * s) (b % s) b (div-add-mod' b s)))
      (mul-le-mul_right s (div-le s a b h))

monday_of-le : (day later : ℕ) → day ≤ later → monday_of day ≤ monday_of later
monday_of-le day later h = omega arith

pub start_of-le :
    (interval : Text) (spec : Interval) (a b : ℕ)
    → a ≤ b
    → start_of a interval spec ≤ start_of b interval spec
unfolding start_of
start_of-le interval spec a b h = elim (Option-cases spec.seconds) [
  | inr (s, c) ↦ rw c (floor-le s a b h)
  | inl c ↦
      let days = div-le seconds_of_day a b h in
      rw c (elim (Bool-cases (eq_text interval (codes "1w"))) [
        | inl e ↦ rw e (mul-le-mul_right seconds_of_day (monday_of-le _ _ days))
        | inr e ↦ rw e (mul-le-mul_right seconds_of_day (month_start-le _ _ days))
      ])
]
