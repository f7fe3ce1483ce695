-- ===== src/Ingestor/Recovery/Balanced.antt =====
-- The counts of `_fetch` in recovery.py: they add up for each span.
use live_forex_volatility_tr.Base.{
  ℕ, zero, suc, ◌+◌, ◌-◌, ◌/◌, ◌<◌, ◌≤◌, ◌≡◌, ◌⊎◌, refl, Bool, true, List, [], ◌∷◌, arith, ◌==◌,
  inl, inr, Bool-cases, All, length, map,
}
use live_forex_volatility_tr.Base.Clock.{Instant}
use live_forex_volatility_tr.Base.Dict.{number_key, text_key, pair_key}
use live_forex_volatility_tr.Ingestor.Recovery.{
  minute, rounds, Span, span_minutes, each_minute, minutes_from,
}
use live_forex_volatility_tr.Ingestor.Recovery.Report.{
  Status, failed, recovered, silent, partial, ProviderError, SpanResult,
}
use live_forex_volatility_tr.Ingestor.Recovery.Fetch.{count_if, span_result, failed_result}

-- The status a span should have.
abbrev pub HasStatus : SpanResult → Status → Type 0
HasStatus r recovered = r.silent_minutes ≡ 0
HasStatus r silent = (r.received ≡ 0) × (0 < r.silent_minutes)
HasStatus r partial = (0 < r.received) × (0 < r.silent_minutes)
HasStatus r failed = (r.received ≡ 0) × (r.inserted ≡ 0)
HasStatus r other = ⊥

-- The counts of a span that was answered: its minutes are the received and the silent ones, the
-- received are the inserted and those that had a bar. A failed span has none.
pub record IsBalanced (r : SpanResult) : Type 0 where
  pub stored : r.received ≡ r.inserted + r.present
  pub all_minutes : (r.received + r.silent_minutes ≡ span_minutes r.span) ⊎ (r.status ≡ failed)
  pub status_is : HasStatus r r.status

pub count_if-le :
    (p q : Instant → Bool) (minutes : List Instant)
    → ((m : Instant) → p m ≡ true → q m ≡ true)
    → (count_if p minutes ≤ count_if q minutes) × (count_if q minutes ≤ length minutes)
unfolding count_if
count_if-le p q [] h = (omega arith, omega arith)
count_if-le p q (m ∷ minutes) h =
    let rest = count_if-le p q minutes h in (ground (arith, h m, rest), ground (arith, rest))

length-minutes_from : (fuel : ℕ) (m end : Instant) → length (minutes_from fuel m end) ≤ fuel
unfolding minutes_from
length-minutes_from zero m end = omega arith
length-minutes_from (suc fuel) m end = ground (arith, length-minutes_from fuel (m + minute) end)

length-each_minute : (s : Span) → length (each_minute s) ≤ span_minutes s
unfolding each_minute span_minutes rounds
length-each_minute s =
    omega (arith, length-minutes_from (suc ((s.end - s.start) / minute)) s.start s.end)

span_minutes_pos : (s : Span) → 0 < span_minutes s
unfolding span_minutes
span_minutes_pos s = omega arith

pub span_result-IsBalanced :
    (was_received was_inserted : Instant → Bool) (span : Span)
    → ((m : Instant) → was_inserted m ≡ true → was_received m ≡ true)
    → IsBalanced (span_result was_received was_inserted span)
unfolding span_result
span_result-IsBalanced was_received was_inserted span h =
    let counts = count_if-le was_inserted was_received (each_minute span) h in
    let fits = length-each_minute span in
    record {
      stored = omega (arith, counts);
      all_minutes = inl (omega (arith, counts, fits));
      status_is =
          elim (Bool-cases (count_if was_received (each_minute span) == span_minutes span)) [
            | inl e ↦ rw e (ground arith)
            | inr e ↦ elim (Bool-cases (count_if was_received (each_minute span) == 0)) [
              | inl c ↦ rw (e, c) (ground arith)
              | inr c ↦ rw (e, c) (ground arith)
            ]
          ];
    }

pub failed_result-IsBalanced :
    (error : ProviderError) (span : Span) → IsBalanced (failed_result error span)
unfolding failed_result
failed_result-IsBalanced error span = record {
  stored = omega arith;
  all_minutes = inr refl;
  status_is = (refl, refl);
}

pub map-IsBalanced :
    (make : Span → SpanResult) (spans : List Span)
    → ((s : Span) → IsBalanced (make s))
    → All IsBalanced (map make spans)
map-IsBalanced make [] h = tt
map-IsBalanced make (s ∷ spans) h = (h s, map-IsBalanced make spans h)
