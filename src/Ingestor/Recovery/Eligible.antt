-- ===== src/Ingestor/Recovery/Eligible.antt =====
-- From the window of a run of recovery.py to its requests: which minutes are asked for.
use live_forex_volatility_tr.Base.{
  ℕ, zero, suc, ◌+◌, ◌-◌, ◌*◌, ◌/◌, ◌<◌, ◌≤◌, ◌≡◌, ap, ◌∙◌, Bool, none, ◌&&◌, List, [], ◌∷◌, ◌%◌,
  arith, leb, ◌==◌, if◌then◌else◌, inl, inr, Bool-cases, ==→eq,
}
use live_forex_volatility_tr.Base.Clock.{Instant}
use live_forex_volatility_tr.Base.Text.{Text, eq_text_refl}
use live_forex_volatility_tr.Ingestor.Recovery.{
  minute, floor_minute, recovery_window, open_from, open_minutes, rounds, is_missing, spans_from,
  missing_spans,
}
use live_forex_volatility_tr.Ingestor.Recovery.Missing.{all_minutes, keep, missing_spans-minutes}
use live_forex_volatility_tr.Ingestor.Recovery.Requests.{plan_requests}
use live_forex_volatility_tr.Ingestor.Recovery.Asking.{times, asks_of, asks-all_minutes}
use live_forex_volatility_tr.Ingestor.Recovery.Planned.{plan_requests-asks}
use live_forex_volatility_tr.Ingestor.Recovery.Aligned.{
  minutes_of, window-IsWhole, spans_from-IsAligned, spans_from-OfSymbol,
}

-- A whole minute from `start` to `end`.
abbrev in_range : Instant → Instant → Instant → Bool
in_range start end m = (m % minute == 0) && (leb start m && leb m end)

times-open_from :
    (fuel : ℕ) (is_open : Instant → Bool) (k : ℕ) (m end : Instant)
    → end < k * minute + fuel * minute
    → times m (open_from fuel is_open (k * minute) end)
      ≡ (if in_range (k * minute) end m && is_open m then 1 else 0)
unfolding open_from times
times-open_from zero is_open k m end room = ground arith
times-open_from (suc fuel) is_open k m end room =
    let next : k * minute + minute ≡ suc k * minute = omega arith in
    elim (Bool-cases (m == k * minute)) [
      | inl e ↦
          rw (next, ==→eq m (k * minute) e)
            (ground (arith, times-open_from fuel is_open (suc k) (k * minute) end (omega arith)))
      | inr e ↦ rw next (ground (arith, times-open_from fuel is_open (suc k) m end (omega arith)))
    ]

times-keep :
    (test : Instant → Bool) (m : Instant) (ms : List Instant)
    → times m (keep test ms) ≡ (if test m then times m ms else 0)
unfolding times
times-keep test m [] = ground arith
times-keep test m (i ∷ ms) = elim (Bool-cases (m == i)) [
  | inl e ↦ rw (==→eq m i e) (ground (arith, times-keep test i ms))
  | inr e ↦ ground (arith, times-keep test m ms)
]

-- A whole minute that began since the lookback, and whose bar ended the horizon ago or earlier.
abbrev pub is_eligible : Instant → ℕ → ℕ → Instant → Bool
is_eligible now lookback horizon m =
    (m % minute == 0) && (leb (floor_minute (now - lookback)) m && leb (m + minute + horizon) now)

module _ (now : Instant) (lookback horizon : ℕ) (is_open : Instant → Bool) (m : Instant) where
  times-open_minutes :
      (k end : ℕ)
      → times m (open_minutes (record { start = k * minute; end = end }) is_open)
        ≡ (if in_range (k * minute) end m && is_open m then 1 else 0)
  unfolding open_minutes rounds
  times-open_minutes k end = times-open_from (rounds (k * minute) end) is_open k m end (omega arith)

  times-window :
      minute + horizon ≤ now
      → times m (minutes_of is_open (recovery_window now lookback horizon))
        ≡ (if is_eligible now lookback horizon m && is_open m then 1 else 0)
  unfolding recovery_window floor_minute times
  times-window h =
      let k = (now - lookback) / minute in
      let end = floor_minute (now - horizon) - minute in
      let start_is : floor_minute (now - lookback) ≡ k * minute = omega arith in
      rw start_is (elim (Bool-cases (leb (k * minute) end)) [
        | inr e ↦ rw e (ground arith)
        | inl e ↦ rw e (times-open_minutes k end ∙ ground arith)
      ])

-- The requests planned for a symbol ask for a minute once where it is a whole minute since the
-- lookback whose bar ended the horizon ago or earlier, the market was open, and it has no bar and
-- lies in no settled span; and for no other minute. A request may cover one day or more, and the
-- clock stands a minute and the horizon after 1970 at least.
pub planned_minutes :
    (symbol : Text) (m now : Instant) (lookback horizon days : ℕ) (is_open : Instant → Bool)
    (present : List Instant) (settled : List (Instant × Instant))
    → 0 < days
    → minute + horizon ≤ now
    → asks_of symbol m (
        plan_requests
          (missing_spans symbol
            (minutes_of is_open (recovery_window now lookback horizon))
            present
            settled)
          days)
      ≡ (if is_missing present settled m && (is_eligible now lookback horizon m && is_open m)
          then 1
          else 0)
unfolding missing_spans
planned_minutes symbol m now lookback horizon days is_open present settled h past =
    let expected = minutes_of is_open (recovery_window now lookback horizon) in
    let missing = is_missing present settled in
    let spans = spans_from symbol missing none expected in
    plan_requests-asks symbol m spans days h (
      spans_from-IsAligned symbol missing none expected tt
        (window-IsWhole now lookback horizon is_open))
    ∙ asks-all_minutes symbol symbol m spans (spans_from-OfSymbol symbol missing none expected)
    ∙ ap (λ same. if same then times m (all_minutes spans) else 0) (eq_text_refl symbol)
    ∙ ap (times m) (missing_spans-minutes symbol expected present settled)
    ∙ times-keep missing m expected
    ∙ ground (arith, times-window now lookback horizon is_open m past)
