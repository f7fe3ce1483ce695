-- ===== src/Ingestor/Recovery/Planned.antt =====
-- `plan_requests` of recovery.py: what its requests ask for, and how long they are.
use live_forex_volatility_tr.Base.{
  ℕ, ◌+◌, ◌<◌, ◌≡◌, refl, ◌∙◌, false, List, [], ◌∷◌, ◌++◌, arith, leb, if◌then◌else◌, inl, inr,
  Bool-cases, leb→gt, subst, All, All-append, All-both, any,
}
use live_forex_volatility_tr.Base.Clock.{Instant}
use live_forex_volatility_tr.Base.Text.{Text, eq_text, eq_text_refl, eq_text→eq}
use live_forex_volatility_tr.Ingestor.Recovery.{Span}
use live_forex_volatility_tr.Ingestor.Recovery.Asking.{
  asks, asks_of, asks_of-append, asks-group_parts, asks-all_parts, asks-by_start, asks-of_symbol,
  OfSymbol, split_by_days-OfSymbol,
}
use live_forex_volatility_tr.Ingestor.Recovery.Days.{IsAligned, FitsIn, split_by_days-Splits}
use live_forex_volatility_tr.Ingestor.Recovery.Requests.{
  date_of, split_by_days, Request, symbol_set, add_symbol, sorted_symbols, of_symbol, add_span,
  by_start, all_parts, is_full, close_request, group_parts, plan_symbols, plan_requests,
}

-- `x` once for each time the symbol is in the list.
turns : Text → ℕ → List Text → ℕ
turns q x [] = 0
turns q x (t ∷ symbols) = (if eq_text t q then x else 0) + turns q x symbols

turns-add_symbol :
    (q s : Text) (x : ℕ) (symbols : List Text)
    → turns q x (add_symbol s symbols) ≡ turns q x (s ∷ symbols)
unfolding add_symbol turns
turns-add_symbol q s x [] = refl
turns-add_symbol q s x (t ∷ symbols) = ground (arith, turns-add_symbol q s x symbols)

turns-sorted_symbols :
    (q : Text) (x : ℕ) (symbols : List Text)
    → turns q x (sorted_symbols symbols) ≡ turns q x symbols
unfolding sorted_symbols turns
turns-sorted_symbols q x [] = refl
turns-sorted_symbols q x (s ∷ symbols) =
    omega (arith, turns-add_symbol q s x (sorted_symbols symbols), turns-sorted_symbols q x symbols)

turns-once :
    (q : Text) (x : ℕ) (spans : List Span)
    → turns q x (symbol_set spans) ≡ (if any (eq_text q) (symbol_set spans) then x else 0)
unfolding symbol_set turns
turns-once q x [] = refl
turns-once q x (s ∷ spans) =
    ground
      (arith, turns-once q x spans, eq_text→eq s.symbol q, eq_text→eq q s.symbol, eq_text_refl q)

-- A symbol that is not in the set is not asked for.
asks-absent :
    (q : Text) (m : Instant) (spans : List Span)
    → any (eq_text q) (symbol_set spans) ≡ false
    → asks q m spans ≡ 0
unfolding symbol_set asks
asks-absent q m [] h = refl
asks-absent q m (s ∷ spans) h =
    ground (arith, asks-absent q m spans, eq_text→eq s.symbol q, eq_text_refl q)

of_symbol-All :
    (P : Span → Type 0) (symbol : Text) (spans : List Span)
    → All P spans
    → All P (of_symbol symbol spans)
unfolding of_symbol
of_symbol-All P symbol [] h = tt
of_symbol-All P symbol (s ∷ spans) h = ground (arith, of_symbol-All P symbol spans h.1)

add_span-All :
    (P : Span → Type 0) (s : Span) (spans : List Span)
    → P s
    → All P spans
    → All P (add_span s spans)
unfolding add_span
add_span-All P s [] p h = (p, tt)
add_span-All P s (t ∷ spans) p h = elim (Bool-cases (leb s.start t.start)) [
  | inl e ↦ rw e (p, h)
  | inr e ↦ rw e (h.0, add_span-All P s spans p h.1)
]

by_start-All : (P : Span → Type 0) (spans : List Span) → All P spans → All P (by_start spans)
unfolding by_start
by_start-All P [] h = tt
by_start-All P (s ∷ spans) h = add_span-All P s (by_start spans) h.0 (by_start-All P spans h.1)

asks-plan_symbols :
    (q : Text) (m : Instant) (days : ℕ) (spans : List Span) (symbols : List Text)
    → 0 < days
    → All IsAligned spans
    → asks_of q m (plan_symbols symbols spans days) ≡ turns q (asks q m spans) symbols
unfolding plan_symbols asks_of turns
asks-plan_symbols q m days spans [] h w = refl
asks-plan_symbols q m days spans (t ∷ symbols) h w =
    let own = by_start (of_symbol t spans) in
    let own_aligned : All IsAligned own =
      by_start-All IsAligned _ (of_symbol-All IsAligned t spans w) in
    omega (
      arith,
      asks_of-append q m (group_parts t days [] (all_parts own days))
          (plan_symbols symbols spans days),
      asks-group_parts t q m days [] (all_parts own days),
      asks-all_parts q m days own h own_aligned,
      asks-by_start q m (of_symbol t spans),
      asks-of_symbol t q m spans,
      asks-plan_symbols q m days spans symbols h w,
    )

-- The requests of `plan_requests` ask for each minute of each symbol as often as the spans do,
-- where the spans are of whole minutes and a request may cover a day or more.
pub plan_requests-asks :
    (q : Text) (m : Instant) (spans : List Span) (days : ℕ)
    → 0 < days
    → All IsAligned spans
    → asks_of q m (plan_requests spans days) ≡ asks q m spans
unfolding plan_requests
plan_requests-asks q m spans days h w =
    asks-plan_symbols q m days spans (sorted_symbols (symbol_set spans)) h w
    ∙ turns-sorted_symbols q (asks q m spans) (symbol_set spans)
    ∙ turns-once q (asks q m spans) spans
    ∙ absent
  where
    absent : (if any (eq_text q) (symbol_set spans) then asks q m spans else 0) ≡ asks q m spans
    absent = ground (arith, asks-absent q m spans)

-- A request is not empty, is about one symbol, and reaches over fewer days than `days`.
abbrev pub Sized : ℕ → Text → List Span → Type 0
Sized days symbol [] = ⊥
Sized days symbol (first ∷ spans) =
    All (λ s. (s.symbol ≡ symbol) × (date_of s.end < date_of first.start + days)) (first ∷ spans)

abbrev SizedOrNone : ℕ → Text → List Span → Type 0
SizedOrNone days symbol [] = Unit
SizedOrNone days symbol (first ∷ spans) = Sized days symbol (first ∷ spans)

abbrev pub IsSized : ℕ → Request → Type 0
IsSized days r = Sized days r.symbol r.spans

Fits : ℕ → Text → Span → Type 0
Fits days symbol s = (s.symbol ≡ symbol) × FitsIn days s

group_parts-IsSized :
    (symbol : Text) (days : ℕ) (current parts : List Span)
    → SizedOrNone days symbol current
    → All (Fits days symbol) parts
    → All (IsSized days) (group_parts symbol days current parts)
unfolding group_parts close_request is_full Fits
group_parts-IsSized symbol days [] [] c h = tt
group_parts-IsSized symbol days (first ∷ current) [] c h = (c, tt)
group_parts-IsSized symbol days [] (part ∷ parts) c h =
    group_parts-IsSized symbol days (part ∷ []) parts ((h.0.0, h.0.1), tt) h.1
group_parts-IsSized symbol days (first ∷ current) (part ∷ parts) c h =
    elim (Bool-cases (leb (date_of first.start + days) (date_of part.end))) [
      | inl e ↦ rw e (c, group_parts-IsSized symbol days (part ∷ []) parts ((h.0.0, h.0.1), tt) h.1)
      | inr e ↦ rw e (
          group_parts-IsSized symbol days (first ∷ current ++ part ∷ []) parts
            (All-append _ (first ∷ current) (part ∷ []) c ((h.0.0, leb→gt _ _ e), tt)) h.1)
    ]

all_parts-Fits :
    (symbol : Text) (days : ℕ) (spans : List Span)
    → 0 < days
    → OfSymbol symbol spans
    → All IsAligned spans
    → All (Fits days symbol) (all_parts spans days)
unfolding all_parts Fits
all_parts-Fits symbol days [] h o w = tt
all_parts-Fits symbol days (s ∷ spans) h o w =
    All-append _ (split_by_days s days) (all_parts spans days)
      (All-both _ _ (split_by_days s days)
        (subst (λ t. OfSymbol t (split_by_days s days)) o.0 (split_by_days-OfSymbol s days))
        (split_by_days-Splits s days h w.0).1)
      (all_parts-Fits symbol days spans h o.1 w.1)

of_symbol-OfSymbol : (symbol : Text) (spans : List Span) → OfSymbol symbol (of_symbol symbol spans)
unfolding of_symbol
of_symbol-OfSymbol symbol [] = tt
of_symbol-OfSymbol symbol (s ∷ spans) = elim (Bool-cases (eq_text s.symbol symbol)) [
  | inl e ↦ rw e (eq_text→eq s.symbol symbol e, of_symbol-OfSymbol symbol spans)
  | inr e ↦ rw e (of_symbol-OfSymbol symbol spans)
]

plan_symbols-IsSized :
    (days : ℕ) (spans : List Span) (symbols : List Text)
    → 0 < days
    → All IsAligned spans
    → All (IsSized days) (plan_symbols symbols spans days)
unfolding plan_symbols
plan_symbols-IsSized days spans [] h w = tt
plan_symbols-IsSized days spans (t ∷ symbols) h w =
    let own = by_start (of_symbol t spans) in
    All-append _ (group_parts t days [] (all_parts own days)) (plan_symbols symbols spans days)
      (group_parts-IsSized t days [] (all_parts own days) tt (
        all_parts-Fits t days own h
          (by_start-All _ (of_symbol t spans) (of_symbol-OfSymbol t spans))
          (by_start-All IsAligned (of_symbol t spans) (of_symbol-All IsAligned t spans w))))
      (plan_symbols-IsSized days spans symbols h w)

-- Where the spans are of whole minutes and a request may cover `days` days, at least one, no
-- request of `plan_requests` is empty, mixes symbols, or reaches over more calendar days than that.
pub plan_requests-IsSized :
    (spans : List Span) (days : ℕ)
    → 0 < days
    → All IsAligned spans
    → All (IsSized days) (plan_requests spans days)
unfolding plan_requests
plan_requests-IsSized spans days h w =
    plan_symbols-IsSized days spans (sorted_symbols (symbol_set spans)) h w
