-- ===== src/Ingestor/Recovery/Asking.antt =====
-- What spans and requests of recovery.py ask for, and how splitting, sorting and grouping keep it.
use live_forex_volatility_tr.Base.{
  ℕ, zero, suc, ◌+◌, ◌-◌, ◌<◌, ◌≡◌, refl, ap, ◌∙◌, append_assoc, List, [], ◌∷◌, ◌++◌, arith, leb,
  ◌==◌, if◌then◌else◌, inl, inr, Bool-cases, All, append-nil,
}
use live_forex_volatility_tr.Base.Clock.{Instant}
use live_forex_volatility_tr.Base.Text.{Text, eq_text, eq_text_refl, eq_text→eq}
use live_forex_volatility_tr.Ingestor.Recovery.{Span, each_minute}
use live_forex_volatility_tr.Ingestor.Recovery.Missing.{all_minutes}
use live_forex_volatility_tr.Ingestor.Recovery.Days.{IsAligned, split_by_days-Splits}
use live_forex_volatility_tr.Ingestor.Recovery.Requests.{
  date_of, split_by_days, Request, split_from, of_symbol, add_span, by_start, all_parts, is_full,
  close_request, group_parts,
}

-- How often a minute stands in a list.
unfoldable pub times : Instant → List Instant → ℕ
times m [] = 0
times m (i ∷ is) = (if m == i then 1 else 0) + times m is

-- How often the spans ask for a minute of a symbol.
unfoldable pub asks : Text → Instant → List Span → ℕ
unfolding times
asks symbol m [] = 0
asks symbol m (s ∷ spans) =
    (if eq_text s.symbol symbol then times m (each_minute s) else 0) + asks symbol m spans

-- How often the requests do.
unfoldable pub asks_of : Text → Instant → List Request → ℕ
unfolding asks
asks_of symbol m [] = 0
asks_of symbol m (r ∷ requests) = asks symbol m r.spans + asks_of symbol m requests

times-append : (m : Instant) (is js : List Instant) → times m (is ++ js) ≡ times m is + times m js
unfolding times
times-append m [] js = omega arith
times-append m (i ∷ is) js = omega (arith, times-append m is js)

pub asks-append :
    (symbol : Text) (m : Instant) (ss ts : List Span)
    → asks symbol m (ss ++ ts) ≡ asks symbol m ss + asks symbol m ts
unfolding asks
asks-append symbol m [] ts = omega arith
asks-append symbol m (s ∷ ss) ts = omega (arith, asks-append symbol m ss ts)

pub asks_of-append :
    (symbol : Text) (m : Instant) (rs qs : List Request)
    → asks_of symbol m (rs ++ qs) ≡ asks_of symbol m rs + asks_of symbol m qs
unfolding asks_of
asks_of-append symbol m [] qs = omega arith
asks_of-append symbol m (r ∷ rs) qs = omega (arith, asks_of-append symbol m rs qs)

-- Spans of one symbol.
abbrev pub OfSymbol : Text → List Span → Type 0
OfSymbol symbol = All (λ s. s.symbol ≡ symbol)

pub asks-all_minutes :
    (symbol q : Text) (m : Instant) (spans : List Span)
    → OfSymbol symbol spans
    → asks q m spans ≡ (if eq_text symbol q then times m (all_minutes spans) else 0)
unfolding asks all_minutes times
asks-all_minutes symbol q m [] h = ground arith
asks-all_minutes symbol q m (s ∷ spans) h = rw h.0 (
    ground (
      arith,
      asks-all_minutes symbol q m spans h.1,
      times-append m (each_minute s) (all_minutes spans),
    ))

-- A request's spans are those of the parts.
pub asks-group_parts :
    (symbol q : Text) (m : Instant) (days : ℕ) (current parts : List Span)
    → asks_of q m (group_parts symbol days current parts) ≡ asks q m (current ++ parts)
unfolding group_parts close_request asks_of
asks-group_parts symbol q m days [] [] = refl
asks-group_parts symbol q m days (first ∷ current) [] = rw append-nil (omega arith)
asks-group_parts symbol q m days current (part ∷ parts) =
    elim (Bool-cases (is_full current days part)) [
      | inl e ↦ rw e (
          omega (
            arith,
            asks-group_parts symbol q m days (part ∷ []) parts,
            asks-append q m current (part ∷ parts),
          ))
      | inr e ↦ rw e (
          asks-group_parts symbol q m days (current ++ part ∷ []) parts
          ∙ ap (asks q m) (append_assoc current (part ∷ []) parts))
    ]

split_from-OfSymbol :
    (fuel : ℕ) (span : Span) (days : ℕ) (start : Instant)
    → OfSymbol span.symbol (split_from fuel span days start)
unfolding split_from
split_from-OfSymbol zero span days start = tt
split_from-OfSymbol (suc fuel) span days start = elim (Bool-cases (leb start span.end)) [
  | inl e ↦ rw e (refl, split_from-OfSymbol fuel span days _)
  | inr e ↦ rw e tt
]

pub split_by_days-OfSymbol :
    (span : Span) (days : ℕ) → OfSymbol span.symbol (split_by_days span days)
unfolding split_by_days
split_by_days-OfSymbol span days =
    split_from-OfSymbol (suc (date_of span.end - date_of span.start)) span days span.start

-- The parts of a span ask for what the span asks.
asks-split_by_days :
    (q : Text) (m : Instant) (days : ℕ) (s : Span)
    → 0 < days
    → IsAligned s
    → asks q m (split_by_days s days) ≡ (if eq_text s.symbol q then times m (each_minute s) else 0)
asks-split_by_days q m days s h w =
    asks-all_minutes s.symbol q m (split_by_days s days) (split_by_days-OfSymbol s days)
    ∙ ap (λ is. if eq_text s.symbol q then times m is else 0) (split_by_days-Splits s days h w).0

pub asks-all_parts :
    (q : Text) (m : Instant) (days : ℕ) (spans : List Span)
    → 0 < days
    → All IsAligned spans
    → asks q m (all_parts spans days) ≡ asks q m spans
unfolding all_parts asks
asks-all_parts q m days [] h w = refl
asks-all_parts q m days (s ∷ spans) h w = omega (
  arith,
  asks-append q m (split_by_days s days) (all_parts spans days),
  asks-split_by_days q m days s h w.0,
  asks-all_parts q m days spans h w.1,
)

asks-add_span :
    (q : Text) (m : Instant) (s : Span) (spans : List Span)
    → asks q m (add_span s spans) ≡ asks q m (s ∷ spans)
unfolding add_span asks
asks-add_span q m s [] = refl
asks-add_span q m s (t ∷ spans) = ground (arith, asks-add_span q m s spans)

pub asks-by_start :
    (q : Text) (m : Instant) (spans : List Span) → asks q m (by_start spans) ≡ asks q m spans
unfolding by_start asks
asks-by_start q m [] = refl
asks-by_start q m (s ∷ spans) =
    omega (arith, asks-add_span q m s (by_start spans), asks-by_start q m spans)

pub asks-of_symbol :
    (symbol q : Text) (m : Instant) (spans : List Span)
    → asks q m (of_symbol symbol spans) ≡ (if eq_text symbol q then asks q m spans else 0)
unfolding of_symbol asks
asks-of_symbol symbol q m [] = ground arith
asks-of_symbol symbol q m (s ∷ spans) = ground (
  arith,
  asks-of_symbol symbol q m spans,
  eq_text→eq s.symbol symbol,
  eq_text→eq s.symbol q,
  eq_text→eq symbol q,
  eq_text_refl symbol,
)
