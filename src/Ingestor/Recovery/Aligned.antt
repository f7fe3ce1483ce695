-- ===== src/Ingestor/Recovery/Aligned.antt =====
-- The minutes of `open_minutes` in recovery.py are whole, and so are the spans made of them.
use live_forex_volatility_tr.Base.{
  ℕ, zero, suc, ◌+◌, ◌-◌, ◌*◌, ◌/◌, ◌≡◌, refl, sym, Bool, true, false, Option, none, some, ◌&&◌,
  List, [], ◌∷◌, arith, leb, ◌==◌, inl, inr, Bool-cases, All, ==→eq, subst,
}
use live_forex_volatility_tr.Base.Clock.{Instant}
use live_forex_volatility_tr.Base.Text.{Text}
use live_forex_volatility_tr.Ingestor.Recovery.{
  minute, floor_minute, Window, recovery_window, open_from, open_minutes, rounds, Span, Open,
  close_span, continues, next_open, spans_from,
}
use live_forex_volatility_tr.Ingestor.Recovery.Days.{IsAligned}
use live_forex_volatility_tr.Ingestor.Recovery.Asking.{OfSymbol}

abbrev IsWhole : Instant → Type 0
IsWhole m = (k : ℕ) × (m ≡ k * minute)

-- What the loop has under way is whole, and ends where whole minutes from its start do.
abbrev WholeOpen : Open → Type 0
WholeOpen none = Unit
WholeOpen (some (start, prev)) =
    (first : ℕ) × (steps : ℕ) × (start ≡ first * minute) × (prev ≡ first * minute + steps * minute)

next_open-WholeOpen :
    (missing : Bool) (under_way : Open) (m : Instant)
    → WholeOpen under_way
    → IsWhole m
    → WholeOpen (next_open missing under_way m)
unfolding next_open
next_open-WholeOpen false under_way m w h = tt
next_open-WholeOpen true none m w h = (h.0, 0, h.1, omega (arith, h.1))
next_open-WholeOpen true (some (start, prev)) m w h = elim (Bool-cases (m == prev + minute)) [
  | inl e ↦ rw e (w.0, suc w.1, w.2, omega (arith, w.3, ==→eq m _ e))
  | inr e ↦ rw e (h.0, 0, h.1, omega (arith, h.1))
]

module _ (symbol : Text) where
  close_span-IsAligned :
      (under_way : Open) (rest : List Span)
      → WholeOpen under_way
      → All IsAligned rest
      → All IsAligned (close_span symbol under_way rest)
  unfolding close_span
  close_span-IsAligned none rest w h = h
  close_span-IsAligned (some (start, prev)) rest w h =
      (record { first = w.0; steps = w.1; start_is = w.2; end_is = w.3 }, h)

  pub spans_from-IsAligned :
      (missing : Instant → Bool) (under_way : Open) (expected : List Instant)
      → WholeOpen under_way
      → All IsWhole expected
      → All IsAligned (spans_from symbol missing under_way expected)
  unfolding spans_from
  spans_from-IsAligned missing under_way [] w h = close_span-IsAligned under_way [] w tt
  spans_from-IsAligned missing under_way (m ∷ expected) w h =
      let rest =
        spans_from-IsAligned missing (next_open (missing m) under_way m) expected
          (next_open-WholeOpen (missing m) under_way m w h.0) h.1 in
      elim (Bool-cases (missing m && continues under_way m)) [
        | inl e ↦ rw e rest
        | inr e ↦ rw e (close_span-IsAligned under_way _ w rest)
      ]

  close_span-OfSymbol :
      (under_way : Open) (rest : List Span)
      → OfSymbol symbol rest
      → OfSymbol symbol (close_span symbol under_way rest)
  unfolding close_span
  close_span-OfSymbol none rest h = h
  close_span-OfSymbol (some (start, prev)) rest h = (refl, h)

  pub spans_from-OfSymbol :
      (missing : Instant → Bool) (under_way : Open) (expected : List Instant)
      → OfSymbol symbol (spans_from symbol missing under_way expected)
  unfolding spans_from
  spans_from-OfSymbol missing under_way [] = close_span-OfSymbol under_way [] tt
  spans_from-OfSymbol missing under_way (m ∷ expected) =
      let rest = spans_from-OfSymbol missing (next_open (missing m) under_way m) expected in
      elim (Bool-cases (missing m && continues under_way m)) [
        | inl e ↦ rw e rest
        | inr e ↦ rw e (close_span-OfSymbol under_way _ rest)
      ]

open_from-IsWhole :
    (fuel : ℕ) (is_open : Instant → Bool) (k : ℕ) (end : Instant)
    → All IsWhole (open_from fuel is_open (k * minute) end)
unfolding open_from
open_from-IsWhole zero is_open k end = tt
open_from-IsWhole (suc fuel) is_open k end =
    let rest : All IsWhole (open_from fuel is_open (k * minute + minute) end) =
      subst (λ m. All IsWhole (open_from fuel is_open m end)) (omega arith)
        (open_from-IsWhole fuel is_open (suc k) end) in
    elim (Bool-cases (leb (k * minute) end)) [
      | inr e ↦ rw e tt
      | inl e ↦ elim (Bool-cases (is_open (k * minute))) [
        | inl o ↦ rw (e, o) ((k, refl), rest)
        | inr o ↦ rw (e, o) rest
      ]
    ]

open_minutes-IsWhole :
    (window : Window) (is_open : Instant → Bool)
    → IsWhole window.start
    → All IsWhole (open_minutes window is_open)
unfolding open_minutes
open_minutes-IsWhole window is_open w =
    subst (λ m. All IsWhole (open_from (rounds window.start window.end) is_open m window.end))
      (sym w.1) (open_from-IsWhole (rounds window.start window.end) is_open w.0 window.end)

-- The open minutes of a run's window, where there is one.
abbrev pub minutes_of : (Instant → Bool) → Option Window → List Instant
minutes_of is_open none = []
minutes_of is_open (some window) = open_minutes window is_open

pub window-IsWhole :
    (now : Instant) (lookback horizon : ℕ) (is_open : Instant → Bool)
    → All IsWhole (minutes_of is_open (recovery_window now lookback horizon))
unfolding recovery_window floor_minute
window-IsWhole now lookback horizon is_open =
    let end = floor_minute (now - horizon) - minute in
    elim (Bool-cases (leb (floor_minute (now - lookback)) end)) [
      | inr e ↦ rw e tt
      | inl e ↦ rw e (
          open_minutes-IsWhole (record { start = floor_minute (now - lookback); end = end }) is_open
            ((now - lookback) / minute, omega arith))
    ]
