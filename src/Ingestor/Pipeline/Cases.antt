-- ===== src/Ingestor/Pipeline/Cases.antt =====
-- The three cases of a tick in pipeline.py: the first of its symbol, one in the minute under way, and
-- one that seals it.
use live_forex_volatility_tr.Base.{
  ℕ, ◌<◌, ◌≡◌, ◌∙◌, refl, sym, ap, false, Option, none, some, arith, ltb, ◌==◌, if◌then◌else◌,
  subst, lt→ltb,
}
use live_forex_volatility_tr.Base.Clock.{Instant, epoch_of, from_epoch}
use live_forex_volatility_tr.Base.Float.{Float}
use live_forex_volatility_tr.Base.Text.{Text}
use live_forex_volatility_tr.Base.Dict.{lookup, text_key, number_key, pair_key}
use live_forex_volatility_tr.Volatility.Bars.{Bar, stream, start, add_tick, seal}
use live_forex_volatility_tr.Volatility.Ticks.{Tick}
use live_forex_volatility_tr.Worker.Table.{EntryId}
use live_forex_volatility_tr.Worker.Persister.{Persister, kept_prices}
use live_forex_volatility_tr.Ingestor.Pipeline.{SymbolState, advance}
use live_forex_volatility_tr.Ingestor.Pipeline.{beyond_gap}
use live_forex_volatility_tr.Ingestor.Pipeline.Agreement.{
  logged, Untouched, Follows, OneFeed, after, own_acc, own_epoch, accumulated,
}
use live_forex_volatility_tr.Ingestor.Pipeline.Step.{
  no_gap, bucket, price, bucket-whole, after-Follows, price-Untouched, price_followed, step_first,
  step_same, step_later, step_price,
}

-- A bar that was sealed by a tick: the worker has it too, in an earlier minute of the symbol.
unfoldable pub SealedBefore : {F : Type 0} → Text → Instant → Persister F → Option (Bar F) → Type 0
SealedBefore q now w none = Unit
SealedBefore q now w (some bar) =
    (bar.symbol ≡ q)
    × (bar.bucket < now)
    × (bar.bucket ≡ from_epoch (epoch_of bar.bucket))
    × (lookup (q, epoch_of bar.bucket) w.accs ≡ some bar)

pub whole_eq :
    (a b : Instant)
    → a ≡ from_epoch (epoch_of a)
    → b ≡ from_epoch (epoch_of b)
    → a < b
    → epoch_of a < epoch_of b
whole_eq a b h k lt = omega arith

pub earlier_differs : (a e : ℕ) → a < e → (a == e) ≡ false
earlier_differs a e h = ground arith

module _ {F : Type 0} ⦃f : Float F⦄ (provider : Text) (seconds : ℕ) (id : EntryId) (t : Tick F)
    (w : Persister F) where
  abbrev w₁ : Persister F
  w₁ = after provider seconds id t w

  -- The worker after the tick follows the ingestor's new state, and has what that sealed.
  pub record Stepped (st : SymbolState F) : Type 0 where
    pub bar : Bar F
    pub follows : Follows t.symbol (advance w.bucket_seconds t st).0 bar w₁
    pub at_bucket : bar.bucket ≡ bucket provider seconds id t w
    pub sealed_before :
        SealedBefore t.symbol (bucket provider seconds id t w) w₁ (advance w.bucket_seconds t st).1

  pub first :
      (st : SymbolState F)
      → OneFeed provider seconds w
      → Untouched t.symbol w
      → st.bucket ≡ none
      → st.last_price ≡ none
      → Stepped st
  unfolding start add_tick SealedBefore
  first st h u none_yet no_price =
      let acc = accumulated provider seconds id t w in
      let (bucket_is, sealed_none) =
        step_first provider w.bucket_seconds id t w st refl none_yet no_price in
      let same : acc
          ≡ add_tick
              (start t.symbol t.ts_event (price provider seconds id t w) w.bucket_seconds stream)
              (price provider seconds id t w) none =
        rw
          (
            u.no_accs (own_epoch provider seconds id t w),
            price-Untouched provider seconds id t w h u,
          )
          refl in
      record {
        bar = acc;
        follows =
            after-Follows provider seconds id t w (advance w.bucket_seconds t st).0
              (bucket_is ∙ ap some (sym same)) (step_price provider w.bucket_seconds id t w st)
              (ap (λ a. a.bucket) same) (ap (λ a. a.symbol) same) (λ e lt. u.no_accs e);
        at_bucket = ap (λ a. a.bucket) same;
        sealed_before =
            subst (SealedBefore t.symbol (bucket provider seconds id t w) w₁) (sym sealed_none) tt;
      }

  pub same_minute :
      (st : SymbolState F) (bar : Bar F)
      → OneFeed provider seconds w
      → Follows t.symbol st bar w
      → bar.bucket ≡ bucket provider seconds id t w
      → Stepped st
  unfolding SealedBefore add_tick
  same_minute st bar h g e =
      let acc = accumulated provider seconds id t w in
      let now = bucket provider seconds id t w in
      let not_later : ltb bar.bucket now ≡ false = rw e (ground arith) in
      let (bucket_is, sealed_none) =
        step_same provider w.bucket_seconds id t w st bar g.bucket_is not_later in
      let held : lookup (t.symbol, own_epoch provider seconds id t w) w.accs ≡ some bar =
        subst (λ i. lookup (t.symbol, epoch_of i) w.accs ≡ some bar) e g.same_acc in
      let last : lookup t.symbol (kept_prices (logged provider t) w) ≡ st.last_price =
        price_followed provider seconds id t w st bar h g
        ∙ subst
            (λ i.
              (if beyond_gap now i w.bucket_seconds then none else st.last_price) ≡ st.last_price)
            (sym e) (rw (no_gap now w.bucket_seconds) refl) in
      let same : acc ≡ add_tick bar (price provider seconds id t w) st.last_price =
        rw (held, last) refl in
      record {
        bar = acc;
        follows =
            after-Follows provider seconds id t w (advance w.bucket_seconds t st).0
              (bucket_is ∙ ap some (sym same)) (step_price provider w.bucket_seconds id t w st)
              (ap (λ a. a.bucket) same ∙ e) (ap (λ a. a.symbol) same ∙ g.symbol_is)
              (λ q lt. g.later_free q (subst (λ i. epoch_of i < q) (sym e) lt));
        at_bucket = ap (λ a. a.bucket) same ∙ e;
        sealed_before = subst (SealedBefore t.symbol now w₁) (sym sealed_none) tt;
      }

  pub next_minute :
      (st : SymbolState F) (bar : Bar F)
      → OneFeed provider seconds w
      → Follows t.symbol st bar w
      → bar.bucket < bucket provider seconds id t w
      → Stepped st
  unfolding SealedBefore start add_tick seal
  next_minute st bar h g lt =
      let acc = accumulated provider seconds id t w in
      let now = bucket provider seconds id t w in
      let (bucket_is, sealed_bar) =
        step_later provider w.bucket_seconds id t w st bar g.bucket_is (lt→ltb bar.bucket now lt) in
      let epochs : epoch_of bar.bucket < epoch_of now =
        whole_eq bar.bucket now g.whole (bucket-whole provider seconds id t w) lt in
      let last = if beyond_gap now bar.bucket w.bucket_seconds then none else st.last_price in
      let same : acc
          ≡ add_tick
              (start t.symbol t.ts_event (price provider seconds id t w) w.bucket_seconds stream)
              (price provider seconds id t w) last =
        rw
          (
            g.later_free (own_epoch provider seconds id t w) epochs,
            price_followed provider seconds id t w st bar h g,
          )
          refl in
      record {
        bar = acc;
        follows =
            after-Follows provider seconds id t w (advance w.bucket_seconds t st).0
              (bucket_is ∙ ap some (sym same)) (step_price provider w.bucket_seconds id t w st)
              (ap (λ a. a.bucket) same) (ap (λ a. a.symbol) same)
              (λ e later. g.later_free e (omega (arith, epochs, later)));
        at_bucket = ap (λ a. a.bucket) same;
        sealed_before = subst (SealedBefore t.symbol now w₁) (sym sealed_bar) (
          g.symbol_is,
          lt,
          g.whole,
          own_acc provider seconds id t w (epoch_of bar.bucket)
              ∙ rw (earlier_differs (epoch_of bar.bucket) (epoch_of now) epochs) g.same_acc,
        );
      }
