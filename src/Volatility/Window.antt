-- ===== src/Volatility/Window.antt =====
-- `RollingWindow` of packages/core/fx_core/volatility/buckets.py.
use live_forex_volatility_tr.Base.{
  ℕ, ◌+◌, ◌*◌, ◌≤◌, ◌≡◌, refl, Bool, Option, none, some, List, [], ◌∷◌, ◌++◌, arith, ltb,
  if◌then◌else◌, le→leb, All,
}
use live_forex_volatility_tr.Base.Clock.{Instant}
use live_forex_volatility_tr.Base.Float.{Float}
use live_forex_volatility_tr.Base.Text.{Text, eq_text_refl}
use live_forex_volatility_tr.Base.Result.{Result, ok, ◌>>=◌, Returns, Returns-bind, Returns-weaken}
use live_forex_volatility_tr.Volatility.Bars.{Bar, merge}

pub record RollingWindow (F : Type 0) : Type 0 where
  pub window_seconds : ℕ
  pub bars : List (Bar F)

module _ {F : Type 0} where
  -- `bar.bucket < now - window_seconds`
  abbrev pub expired : Instant → ℕ → Bar F → Bool
  expired now seconds b = ltb (b.bucket + seconds * 1_000_000) now

  -- The loop of `evict`, which stops at the first bar that is young enough.
  pub drop_expired : Instant → ℕ → List (Bar F) → List (Bar F)
  drop_expired now seconds [] = []
  drop_expired now seconds (b ∷ bars) =
      let rest = drop_expired now seconds bars in if expired now seconds b then rest else b ∷ bars

  unfoldable pub evict : RollingWindow F → Instant → RollingWindow F
  unfolding drop_expired
  evict w now = record w { bars = drop_expired now w.window_seconds w.bars }

  unfoldable pub push : RollingWindow F → Bar F → RollingWindow F
  unfolding evict
  push w bar = evict (record w { bars = w.bars ++ bar ∷ [] }) bar.bucket

  -- `sum(b.tick_count for b in bars)`
  unfoldable pub tick_count : List (Bar F) → ℕ
  tick_count [] = 0
  tick_count (b ∷ bars) = b.tick_count + tick_count bars

  -- Buckets in ascending order, the first at or after `lo` and the last at or before `hi`.
  abbrev pub Ascending : Instant → Instant → List (Bar F) → Type 0
  Ascending lo hi [] = lo ≤ hi
  Ascending lo hi (b ∷ bars) = (lo ≤ b.bucket) × Ascending b.bucket hi bars

  -- The bars that the window should hold, whatever their order.
  abbrev pub keep_young : Instant → ℕ → List (Bar F) → List (Bar F)
  keep_young now seconds [] = []
  keep_young now seconds (b ∷ bars) =
      let rest = keep_young now seconds bars in if expired now seconds b then rest else b ∷ rest

  keep_all :
      (now : Instant) (seconds : ℕ) (lo hi : Instant) (bars : List (Bar F))
      → Ascending lo hi bars
      → now ≤ lo + seconds * 1_000_000
      → keep_young now seconds bars ≡ bars
  keep_all now seconds lo hi [] a h = refl
  keep_all now seconds lo hi (b ∷ bars) a h =
      ground (arith, keep_all now seconds b.bucket hi bars a.1)

  drop-keep :
      (now : Instant) (seconds : ℕ) (lo hi : Instant) (bars : List (Bar F))
      → Ascending lo hi bars
      → drop_expired now seconds bars ≡ keep_young now seconds bars
  unfolding drop_expired
  drop-keep now seconds lo hi [] a = refl
  drop-keep now seconds lo hi (b ∷ bars) a =
      ground (
        arith,
        drop-keep now seconds b.bucket hi bars a.1,
        keep_all now seconds b.bucket hi bars a.1,
      )

  Ascending-snoc :
      (lo hi : Instant) (bars : List (Bar F)) (bar : Bar F)
      → Ascending lo hi bars
      → hi ≤ bar.bucket
      → Ascending lo bar.bucket (bars ++ bar ∷ [])
  Ascending-snoc lo hi [] bar a h = (omega arith, omega arith)
  Ascending-snoc lo hi (b ∷ bars) bar a h = (a.0, Ascending-snoc b.bucket hi bars bar a.1 h)

  -- Pushing a bar that is not older than the window's bars, which ascend, leaves exactly the bars
  -- within `window_seconds` of the new one, the new one among them: stopping at the first young
  -- bar loses and keeps nothing else.
  pub push-keeps :
      (w : RollingWindow F) (bar : Bar F) (lo hi : Instant)
      → Ascending lo hi w.bars
      → hi ≤ bar.bucket
      → (push w bar).bars ≡ keep_young bar.bucket w.window_seconds (w.bars ++ bar ∷ [])
  unfolding push
  push-keeps w bar lo hi a h =
      drop-keep bar.bucket w.window_seconds lo bar.bucket (w.bars ++ bar ∷ [])
        (Ascending-snoc lo hi w.bars bar a h)

module _ {F : Type 0} ⦃f : Float F⦄ where
  merge_all : Bar F → List (Bar F) → Result (Bar F)
  merge_all out [] = ok out
  merge_all out (b ∷ bars) = do out' ← merge out b; merge_all out' bars

  unfoldable pub collapse : RollingWindow F → Result (Option (Bar F))
  unfolding merge_all
  collapse w = elim w.bars [ [] ↦ ok none | b ∷ bars ↦ do out ← merge_all b bars; ok (some out) ]

  -- The bars are of one symbol.
  abbrev pub OfSymbol : Text → List (Bar F) → Type 0
  OfSymbol s = All (λ b. b.symbol ≡ s)

  -- The close of the last of the bars, or the one given.
  abbrev pub last_close : F → List (Bar F) → F
  last_close x [] = x
  last_close x (b ∷ bars) = last_close b.close bars

  -- What one wide bar keeps of the bars that it stands for.
  pub record Spans (first : Bar F) (bars : List (Bar F)) (out : Bar F) : Type 0 where
    pub symbol : out.symbol ≡ first.symbol
    pub bucket : out.bucket ≡ first.bucket
    pub open_price : out.open_price ≡ first.open_price
    pub close : out.close ≡ last_close first.close bars
    pub count : out.tick_count ≡ first.tick_count + tick_count bars

  merge-next :
      (out b : Bar F)
      → b.symbol ≡ out.symbol
      → out.bucket ≤ b.bucket
      → Returns
          (λ m.
            (m.symbol ≡ out.symbol)
            × (m.bucket ≡ out.bucket)
            × (m.open_price ≡ out.open_price)
            × (m.close ≡ b.close)
            × (m.tick_count ≡ out.tick_count + b.tick_count))
          (merge out b)
  unfolding merge
  merge-next out b same h = ground (arith, eq_text_refl out.symbol, le→leb out.bucket b.bucket h)

  merge_all-Spans :
      (out : Bar F) (lo hi : Instant) (bars : List (Bar F))
      → OfSymbol out.symbol bars
      → Ascending lo hi bars
      → out.bucket ≤ lo
      → Returns (Spans out bars) (merge_all out bars)
  unfolding merge_all tick_count
  merge_all-Spans out lo hi [] same a h = ground arith
  merge_all-Spans out lo hi (b ∷ bars) same a h =
      Returns-bind _ (Spans out (b ∷ bars)) (merge out b) _ (merge-next out b same.0 (omega arith))
        (λ m k.
          Returns-weaken (Spans m bars) (Spans out (b ∷ bars)) (merge_all m bars)
            (λ r s. ground arith)
            (merge_all-Spans m b.bucket hi bars (rw k.0 same.1) a.1 (omega arith)))

  -- A window of ascending bars of one symbol collapses, without an exception, into one bar: the
  -- first one's bucket and open, the last one's close, and the sum of the tick counts.
  pub collapse-Spans :
      (seconds : ℕ) (b : Bar F) (bars : List (Bar F)) (lo hi : Instant)
      → OfSymbol b.symbol bars
      → Ascending lo hi (b ∷ bars)
      → Returns
          (λ o. (out : Bar F) × (o ≡ some out) × Spans b bars out)
          (collapse (record { window_seconds = seconds; bars = b ∷ bars }))
  unfolding collapse
  collapse-Spans seconds b bars lo hi same a =
      Returns-bind (Spans b bars) _ (merge_all b bars) _
        (merge_all-Spans b b.bucket hi bars same a.1 (omega arith)) (λ out s. (out, refl, s))
