-- ===== src/Ingestor/Recovery/Days.antt =====
-- The parts of `_split_by_days` in recovery.py.
use live_forex_volatility_tr.Base.{
  ℕ, zero, suc, ◌+◌, ◌-◌, ◌*◌, ◌/◌, ◌<◌, ◌≤◌, ◌≡◌, refl, sym, ap, ap₂, ◌∙◌, List, [], ◌∷◌, ◌++◌,
  arith, ltb, inl, inr, Bool-cases, subst, subst₂, le→leb, min, All,
}
use live_forex_volatility_tr.Base.Clock.{Instant}
use live_forex_volatility_tr.Ingestor.Recovery.{minute, Span, each_minute}
use live_forex_volatility_tr.Ingestor.Recovery.Missing.{consecutive, all_minutes, each_minute-steps}
use live_forex_volatility_tr.Ingestor.Recovery.Requests.{
  date_of, part_end, split_from, split_by_days,
}

-- A span of whole minutes, with `n` minutes after its first.
pub record IsAligned (s : Span) : Type 0 where
  pub first : ℕ
  pub steps : ℕ
  pub start_is : s.start ≡ first * minute
  pub end_is : s.end ≡ first * minute + steps * minute

-- A span that a request of `days` days may hold.
abbrev pub FitsIn : ℕ → Span → Type 0
FitsIn days s = date_of s.end < date_of s.start + days

consecutive-append :
    (n k j : ℕ) (m : Instant)
    → j ≡ n + k
    → consecutive j m ≡ consecutive n m ++ consecutive k (m + n * minute)
unfolding consecutive
consecutive-append zero k j m e =
    subst₂ (λ c i. consecutive j m ≡ consecutive c i) {x = j} (omega arith) (omega arith) refl
consecutive-append (suc n) k zero m e = absurd (omega arith)
consecutive-append (suc n) k (suc j) m e =
    ap (λ ms. m ∷ ms)
      (consecutive-append n k j (m + minute) (omega arith)
        ∙ ap (λ i. consecutive n (m + minute) ++ consecutive k i) (omega arith))

-- A part that begins at minute `a` of a span that ends at minute `a + n`: its length, and why it
-- fits. Where it is not the last, the next one begins on a later day.
record FirstPart (span : Span) (days a n : ℕ) : Type 0 where
  steps : ℕ
  inside : steps ≤ n
  end_is : part_end span days (a * minute) ≡ a * minute + steps * minute
  fits : date_of (a * minute + steps * minute) < date_of (a * minute) + days
  progress : steps < n → date_of (a * minute) < date_of (suc (a + steps) * minute)

part_end-FirstPart :
    (span : Span) (days a n : ℕ)
    → 0 < days
    → span.end ≡ a * minute + n * minute
    → FirstPart span days a n
unfolding part_end
part_end-FirstPart span days a n h e = record {
  steps = min n ((a / 1_440 + days) * 1_440 - suc a);
  inside = omega arith;
  end_is = rw e (omega arith);
  fits = omega arith;
  progress = omega arith;
}

split_from-past :
    (fuel : ℕ) (span : Span) (days start : ℕ)
    → span.end < start
    → split_from fuel span days start ≡ []
unfolding split_from
split_from-past zero span days start h = refl
split_from-past (suc fuel) span days start h = ground arith

-- The parts make up `n` minutes from the first, and each fits.
pub Splits : ℕ → ℕ → Instant → List Span → Type 0
Splits days n m parts = (all_minutes parts ≡ consecutive n m) × All (FitsIn days) parts

-- A part before those of the minutes after it.
part-Splits :
    (span : Span) (days a n : ℕ) (part : FirstPart span days a n) (parts : List Span)
    → Splits days (n - part.steps) (suc (a + part.steps) * minute) parts
    → Splits days
        (suc n)
        (a * minute)
        (record span { start = a * minute; end = part_end span days (a * minute) } ∷ parts)
unfolding Splits all_minutes
part-Splits span days a n part parts h = rw part.end_is (
  rw (each_minute-steps span.symbol (a * minute) part.steps, h.0)
      (sym (
        subst
          (λ m.
            consecutive (suc n) (a * minute)
            ≡ consecutive (suc part.steps) (a * minute) ++ consecutive (n - part.steps) m)
          (omega arith)
          (consecutive-append (suc part.steps) (n - part.steps) (suc n) (a * minute)
            (omega (arith, part.inside))))),
  (part.fits, h.1),
)

nothing-Splits :
    (days n : ℕ) (m : Instant) (parts : List Span) → n ≡ 0 → parts ≡ [] → Splits days n m parts
unfolding Splits all_minutes consecutive
nothing-Splits days n m parts e none_left = rw (e, none_left) (refl, tt)

split_from-Splits :
    (fuel : ℕ) (span : Span) (days a n : ℕ)
    → 0 < days
    → span.end ≡ a * minute + n * minute
    → date_of span.end < date_of (a * minute) + fuel
    → Splits days (suc n) (a * minute) (split_from fuel span days (a * minute))
unfolding split_from
split_from-Splits zero span days a n h e room = absurd (omega arith)
split_from-Splits (suc fuel) span days a n h e room =
    let part = part_end-FirstPart span days a n h e in
    let next : part_end span days (a * minute) + minute ≡ suc (a + part.steps) * minute =
      omega (arith, part.end_is) in
    let rest = split_from fuel span days (suc (a + part.steps) * minute) in
    let left : Splits days (n - part.steps) (suc (a + part.steps) * minute) rest =
      elim (Bool-cases (ltb part.steps n)) [
        | inl more ↦
            subst (λ c. Splits days c (suc (a + part.steps) * minute) rest) (ground arith)
              (split_from-Splits fuel span days (suc (a + part.steps)) (n - suc part.steps) h
                (ground arith) (ground (arith, part.progress)))
        | inr done ↦
            nothing-Splits days _ _ rest (ground (arith, part.inside))
              (split_from-past fuel span days _ (ground (arith, part.inside)))
      ] in
    rw (le→leb (a * minute) span.end (omega arith))
      (part-Splits span days a n part _ (rw next left))

each_minute-aligned :
    (span : Span) (w : IsAligned span)
    → each_minute span ≡ consecutive (suc w.steps) (w.first * minute)
each_minute-aligned span w =
    ap₂ (λ a b. each_minute (record span { start = a; end = b })) w.start_is w.end_is
    ∙ each_minute-steps span.symbol (w.first * minute) w.steps

-- The parts of a span of whole minutes have its minutes, and each fits in a request: a part for
-- each day is enough.
pub split_by_days-Splits :
    (span : Span) (days : ℕ)
    → 0 < days
    → IsAligned span
    → (all_minutes (split_by_days span days) ≡ each_minute span)
      × All (FitsIn days) (split_by_days span days)
unfolding split_by_days Splits
split_by_days-Splits span days h w =
    let (minutes, fits) =
      subst
        (λ a.
          Splits days (suc w.steps) (w.first * minute)
            (split_from (suc (date_of span.end - date_of a)) span days a))
        (sym w.start_is)
        (split_from-Splits (suc (date_of span.end - date_of (w.first * minute))) span days w.first
          w.steps h w.end_is (omega (arith, w.end_is))) in
    (minutes ∙ sym (each_minute-aligned span w), fits)
