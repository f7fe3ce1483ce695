-- ===== src/Intervals/Rollup.antt =====
-- `fold` of intervals.py: each candle is the summary of its bucket's bars.
use live_forex_volatility_tr.Base.{
  ℕ, ◌+◌, ◌<◌, ◌≤◌, ◌≡◌, ◌∙◌, refl, sym, ap, Bool, true, false, ◌&&◌, Option, none, some, List, [],
  ◌∷◌, arith, ◌==◌, ==→eq, if◌then◌else◌, Bool-cases, inl, inr, All,
}
use live_forex_volatility_tr.Base.Float.{Float, fmax, fmin}
use live_forex_volatility_tr.Base.Text.{Text, eq_text, codes}
use live_forex_volatility_tr.Base.Dict.{text_key}
use live_forex_volatility_tr.Intervals.{
  BaseBar, Candle, count_of, source_of, opened, absorb, folded,
}

mixed_anyway : (c : Bool) (s : Text) → (if c then s else s) ≡ s
mixed_anyway true s = refl
mixed_anyway false s = refl

module _ {F : Type 0} ⦃f : Float F⦄ where
  -- What a bucket's bars add up to, oldest first.
  abbrev pub highest : F → List (BaseBar F) → F
  highest h [] = h
  highest h (bar ∷ bars) = highest (fmax h bar.h) bars

  abbrev pub lowest : F → List (BaseBar F) → F
  lowest l [] = l
  lowest l (bar ∷ bars) = lowest (fmin l bar.l) bars

  abbrev pub last_close : F → List (BaseBar F) → F
  last_close c [] = c
  last_close c (bar ∷ bars) = last_close bar.c bars

  abbrev pub total : ℕ → List (BaseBar F) → ℕ
  total n [] = n
  total n (bar ∷ bars) = total (n + count_of bar) bars

  abbrev pub all_from : Text → List (BaseBar F) → Bool
  all_from src [] = true
  all_from src (bar ∷ bars) = eq_text src (source_of bar) && all_from src bars

  abbrev pub extended : Candle F → List (BaseBar F) → Candle F
  extended cur bars = record {
    t = cur.t;
    o = cur.o;
    h = highest cur.h bars;
    l = lowest cur.l bars;
    c = last_close cur.c bars;
    n = total cur.n bars;
    src = if all_from cur.src bars then cur.src else codes "mixed";
  }

  -- The bars of a bucket, and its candle.
  abbrev pub within : (ℕ → ℕ) → ℕ → List (BaseBar F) → List (BaseBar F)
  within start t [] = []
  within start t (bar ∷ bars) =
      let rest = within start t bars in if start bar.t == t then bar ∷ rest else rest

  unfoldable pub summary : ℕ → List (BaseBar F) → Option (Candle F)
  summary t [] = none
  summary t (bar ∷ bars) = some (record {
    t = t;
    o = bar.o;
    h = highest bar.h bars;
    l = lowest bar.l bars;
    c = last_close bar.c bars;
    n = total (count_of bar) bars;
    src = if all_from (source_of bar) bars then source_of bar else codes "mixed";
  })

  abbrev pub candle_at : ℕ → List (Candle F) → Option (Candle F)
  candle_at t [] = none
  candle_at t (c ∷ cs) = let rest = candle_at t cs in if c.t == t then some c else rest

  -- Bars whose buckets do not go back.
  abbrev pub Forward : (ℕ → ℕ) → List (BaseBar F) → Type 0
  Forward start [] = Unit
  Forward start (bar ∷ bars) = All (λ next. start bar.t ≤ start next.t) bars × Forward start bars

  absorbed_source :
      (src : Text) (bar : BaseBar F) (bars : List (BaseBar F))
      → (let now = if eq_text src (source_of bar) then src else codes "mixed" in
          if all_from now bars then now else codes "mixed")
        ≡ (if eq_text src (source_of bar) && all_from src bars then src else codes "mixed")
  absorbed_source src bar bars = elim (Bool-cases (eq_text src (source_of bar))) [
    | inl c ↦ rw c refl
    | inr c ↦ rw c (mixed_anyway (all_from (codes "mixed") bars) (codes "mixed"))
  ]

  absorb-extended :
      (cur : Candle F) (bar : BaseBar F) (bars : List (BaseBar F))
      → extended (absorb cur bar) bars ≡ extended cur (bar ∷ bars)
  unfolding absorb
  absorb-extended cur bar bars =
      ap
        (λ src.
          let c : Candle F = record {
            t = cur.t;
            o = cur.o;
            h = highest cur.h (bar ∷ bars);
            l = lowest cur.l (bar ∷ bars);
            c = last_close cur.c (bar ∷ bars);
            n = total cur.n (bar ∷ bars);
            src = src;
          } in
          c)
        (absorbed_source cur.src bar bars)

  opened-extended :
      (start : ℕ → ℕ) (bar : BaseBar F) (bars : List (BaseBar F))
      → some (extended (opened start bar) bars) ≡ summary (start bar.t) (bar ∷ bars)
  unfolding opened summary
  opened-extended start bar bars = refl

  -- A new candle, by the bars of its bucket.
  pub opened_within :
      (start : ℕ → ℕ) (bar : BaseBar F) (bars : List (BaseBar F)) (t : ℕ)
      → (let own = within start t bars in
          if start bar.t == t then some (extended (opened start bar) own) else summary t own)
        ≡ summary t (within start t (bar ∷ bars))
  unfolding opened
  opened_within start bar bars t = elim (Bool-cases (start bar.t == t)) [
    | inl c ↦ rw c (
        opened-extended start bar (within start t bars)
        ∙ ap (λ s. summary s (bar ∷ within start t bars)) (==→eq (start bar.t) t c))
    | inr c ↦ rw c refl
  ]

  -- No bar is in a bucket before the first one's.
  within-empty :
      (start : ℕ → ℕ) (t from : ℕ) (bars : List (BaseBar F))
      → t < from
      → All (λ bar. from ≤ start bar.t) bars
      → within start t bars ≡ []
  within-empty start t from [] h later = refl
  within-empty start t from (bar ∷ bars) h later =
      let off : start bar.t == t ≡ false = ground (arith, later.0) in
      rw off (within-empty start t from bars h later.1)

  -- Of the candles from the current one on, the one of a bucket.
  module _ (start : ℕ → ℕ) where
    pub folded_at :
        (cur : Candle F) (bars : List (BaseBar F)) (t : ℕ)
        → All (λ bar. cur.t ≤ start bar.t) bars
        → Forward start bars
        → candle_at t (folded start cur bars) ≡ (
            let own = within start t bars in
            if cur.t == t then some (extended cur own) else summary t own)
    unfolding folded summary absorb opened
    folded_at cur [] t later h = refl
    folded_at cur (bar ∷ bars) t later h = elim (Bool-cases (cur.t == start bar.t)) [
      | inl c ↦
          let same : cur.t ≡ start bar.t = ==→eq cur.t (start bar.t) c in
          let rest = folded_at (absorb cur bar) bars t later.1 h.1 in
          rw c (
            rest ∙ elim (Bool-cases (cur.t == t)) [
              | inl d ↦
                  let own : start bar.t == t ≡ true = ap (λ s. s == t) (sym same) ∙ d in
                  rw (d, own) (ap some (absorb-extended cur bar (within start t bars)))
              | inr d ↦
                  let other : start bar.t == t ≡ false = ap (λ s. s == t) (sym same) ∙ d in
                  rw (d, other) refl
            ])
      | inr c ↦
          let rest = folded_at (opened start bar) bars t h.0 h.1 in
          rw c (elim (Bool-cases (cur.t == t)) [
            | inl d ↦
                let before_bar : t < start bar.t = ground (arith, later.0) in
                let none_in : within start t (bar ∷ bars) ≡ [] =
                  within-empty start t (start bar.t) (bar ∷ bars) before_bar (omega arith, h.0) in
                rw (d, none_in) refl
            | inr d ↦ rw d (rest ∙ opened_within start bar bars t)
          ])
    ]
