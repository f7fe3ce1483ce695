-- ===== src/Ingestor/Recovery/Missing.antt =====
-- The spans of `missing_spans` in recovery.py and the minutes they are made of.
use live_forex_volatility_tr.Base.{
  ℕ, zero, suc, ◌+◌, ◌*◌, ◌≡◌, refl, ◌∙◌, append_assoc, sym, ap, Bool, true, Option, none, some,
  List, [], ◌∷◌, ◌++◌, arith, ◌==◌, if◌then◌else◌, inl, inr, Bool-cases, append_assoc, ==→eq, subst,
  le→leb, le→leb,
}
use live_forex_volatility_tr.Base.Clock.{Instant}
use live_forex_volatility_tr.Base.Text.{Text}
use live_forex_volatility_tr.Ingestor.Recovery.{
  minute, rounds, Span, minutes_from, each_minute, is_missing, Open, close_span, continues,
  next_open, spans_from, missing_spans,
}

-- `n` minutes from the first.
unfoldable pub consecutive : ℕ → Instant → List Instant
consecutive zero m = []
consecutive (suc n) m = m ∷ consecutive n (m + minute)

abbrev pub keep : (Instant → Bool) → List Instant → List Instant
keep test [] = []
keep test (m ∷ ms) = if test m then m ∷ keep test ms else keep test ms

-- The minutes of each span in turn.
unfoldable pub all_minutes : List Span → List Instant
all_minutes [] = []
all_minutes (s ∷ spans) = each_minute s ++ all_minutes spans

consecutive-last :
    (n : ℕ) (m : Instant) → consecutive (suc n) m ≡ consecutive n m ++ (m + n * minute) ∷ []
unfolding consecutive
consecutive-last zero m = ap (λ i. i ∷ []) (omega arith)
consecutive-last (suc n) m =
    ap (λ ms. m ∷ ms)
      (consecutive-last n (m + minute)
        ∙ ap (λ i. consecutive n (m + minute) ++ i ∷ []) (omega arith))

minutes_from-consecutive :
    (n : ℕ) (m : Instant) → minutes_from (suc n) m (m + n * minute) ≡ consecutive (suc n) m
unfolding minutes_from consecutive
minutes_from-consecutive zero m = ground arith
minutes_from-consecutive (suc n) m =
    let tail : minutes_from (suc n) (m + minute) (m + suc n * minute)
        ≡ consecutive (suc n) (m + minute) =
      subst (λ e. minutes_from (suc n) (m + minute) e ≡ consecutive (suc n) (m + minute))
        (omega arith) (minutes_from-consecutive n (m + minute)) in
    rw (le→leb m (m + suc n * minute) (omega arith)) (ap (λ ms. m ∷ ms) tail)

rounds-steps : (n m : ℕ) → rounds m (m + n * minute) ≡ suc n
unfolding rounds
rounds-steps n m = ground arith

-- The span under way in the loop, by its number of minutes after the first.
abbrev Run : Type 0
Run = Option (Instant × ℕ)

abbrev open_of : Run → Open
open_of none = none
open_of (some (start, n)) = some (start, start + n * minute)

abbrev run_minutes : Run → List Instant
run_minutes none = []
run_minutes (some (start, n)) = consecutive (suc n) start

pub each_minute-steps :
    (symbol : Text) (start : Instant) (n : ℕ)
    → each_minute (record { symbol = symbol; start = start; end = start + n * minute })
      ≡ consecutive (suc n) start
unfolding each_minute rounds
each_minute-steps symbol start n =
    subst (λ r. minutes_from r start (start + n * minute) ≡ consecutive (suc n) start)
      (sym (rounds-steps n start)) (minutes_from-consecutive n start)

module _ (symbol : Text) (missing : Instant → Bool) where
  close_span-minutes :
      (run : Run) (rest : List Span)
      → all_minutes (close_span symbol (open_of run) rest) ≡ run_minutes run ++ all_minutes rest
  unfolding close_span all_minutes
  close_span-minutes none rest = refl
  close_span-minutes (some (start, n)) rest = rw (each_minute-steps symbol start n) refl

  -- From a span under way, the loop makes up its minutes and the missing ones that follow.
  abbrev MakesUp : List Instant → Run → Type 0
  MakesUp expected run =
      all_minutes (spans_from symbol missing (open_of run) expected)
      ≡ run_minutes run ++ keep missing expected

  begun :
      (m : Instant) (expected : List Instant)
      → MakesUp expected (some (m, 0))
      → all_minutes (spans_from symbol missing (some (m, m)) expected) ≡ m ∷ keep missing expected
  unfolding consecutive
  begun m expected ih =
      subst
        (λ p.
          all_minutes (spans_from symbol missing (some (m, p)) expected)
          ≡ m ∷ keep missing expected)
        (omega arith) ih

  extended :
      (start m : Instant) (n : ℕ) (expected : List Instant)
      → m ≡ start + n * minute + minute
      → MakesUp expected (some (start, suc n))
      → all_minutes (spans_from symbol missing (some (start, m)) expected)
        ≡ consecutive (suc n) start ++ m ∷ keep missing expected
  extended start m n expected e ih =
      let same : start + suc n * minute ≡ m = omega arith in
      subst
        (λ p.
          all_minutes (spans_from symbol missing (some (start, p)) expected)
          ≡ consecutive (suc n) start ++ p ∷ keep missing expected)
        same
        (ih
          ∙ ap (λ ms. ms ++ keep missing expected) (consecutive-last (suc n) start)
          ∙ append_assoc (consecutive (suc n) start) ((start + suc n * minute) ∷ [])
              (keep missing expected))

  -- A missing minute goes on with the span, or closes it and begins another.
  after_missing :
      (m : Instant) (expected : List Instant) (run : Run)
      → ((next : Run) → MakesUp expected next)
      → all_minutes (
          let rest = spans_from symbol missing (next_open true (open_of run) m) expected in
          if continues (open_of run) m then rest else close_span symbol (open_of run) rest)
        ≡ run_minutes run ++ m ∷ keep missing expected
  unfolding next_open
  after_missing m expected none ih = close_span-minutes none _ ∙ begun m expected (ih (some (m, 0)))
  after_missing m expected (some (start, n)) ih =
      elim (Bool-cases (m == start + n * minute + minute)) [
        | inl e ↦ rw e (extended start m n expected (==→eq m _ e) (ih (some (start, suc n))))
        | inr e ↦ rw e (
            close_span-minutes (some (start, n)) (spans_from symbol missing (some (m, m)) expected)
            ∙ ap (λ ms. consecutive (suc n) start ++ ms) (begun m expected (ih (some (m, 0)))))
      ]

  spans_from-minutes : (run : Run) (expected : List Instant) → MakesUp expected run
  unfolding spans_from next_open all_minutes
  spans_from-minutes run [] = close_span-minutes run []
  spans_from-minutes run (m ∷ expected) = elim (Bool-cases (missing m)) [
    | inr e ↦ rw e (
        close_span-minutes run (spans_from symbol missing none expected)
        ∙ ap (λ ms. run_minutes run ++ ms) (spans_from-minutes none expected))
    | inl e ↦ rw e (after_missing m expected run (λ next. spans_from-minutes next expected))
  ]

-- The minutes of the spans of `missing_spans`, in order, are exactly the expected minutes that
-- have no bar and lie in no settled span.
pub missing_spans-minutes :
    (symbol : Text) (expected present : List Instant) (settled : List (Instant × Instant))
    → all_minutes (missing_spans symbol expected present settled)
      ≡ keep (is_missing present settled) expected
unfolding missing_spans
missing_spans-minutes symbol expected present settled =
    spans_from-minutes symbol (is_missing present settled) none expected
