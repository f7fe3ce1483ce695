-- ===== src/Ingestor/Pipeline/Step.antt =====
-- One tick in the ingestor and in the worker: the bar under way stays the worker's accumulator.
use live_forex_volatility_tr.Base.{
  ℕ, ◌<◌, ◌≡◌, ◌∙◌, refl, sym, ap, inl, inr, true, false, none, some, arith, ltb, ◌==◌,
  if◌then◌else◌, subst, Bool-cases,
}
use live_forex_volatility_tr.Base.Clock.{Instant, epoch_of, from_epoch}
use live_forex_volatility_tr.Base.Float.{Float}
use live_forex_volatility_tr.Base.Text.{Text}
use live_forex_volatility_tr.Base.Dict.{
  lookup, text_key, number_key, pair_key, lookup-erase_self, ==-refl,
}
use live_forex_volatility_tr.Volatility.Bars.{Bar, stream, floor_to_bucket, start, add_tick, seal}
use live_forex_volatility_tr.Volatility.Ticks.{Tick, mid}
use live_forex_volatility_tr.Worker.Table.{EntryId}
use live_forex_volatility_tr.Worker.Persister.{Persister, kept_prices, mid_price}
use live_forex_volatility_tr.Ingestor.Pipeline.{SymbolState, cross, fold_price, advance}
use live_forex_volatility_tr.Ingestor.Pipeline.{beyond_gap}
use live_forex_volatility_tr.Ingestor.Pipeline.Agreement.{
  logged, Untouched, Follows, OneFeed, after, kept_prices-feed, own_price, own_bucket, own_acc,
  accumulated,
}

pub no_gap : (bucket : Instant) (seconds : ℕ) → beyond_gap bucket bucket seconds ≡ false
no_gap bucket seconds = ground arith

later_differs : (a e : ℕ) → a < e → (e == a) ≡ false
later_differs a e h = ground arith

module _ {F : Type 0} ⦃f : Float F⦄ (provider : Text) (seconds : ℕ) (id : EntryId) (t : Tick F)
    (w : Persister F) where
  abbrev pub bucket : Instant
  bucket = floor_to_bucket t.ts_event w.bucket_seconds

  abbrev pub price : F
  price = mid_price (logged provider t)

  pub bucket-whole : bucket ≡ from_epoch (epoch_of bucket)
  unfolding floor_to_bucket
  bucket-whole = omega arith

  -- A state whose bar is the worker's new accumulator follows the worker.
  pub after-Follows :
      (st : SymbolState F)
      → st.bucket ≡ some (accumulated provider seconds id t w)
      → st.last_price ≡ some price
      → (accumulated provider seconds id t w).bucket ≡ bucket
      → (accumulated provider seconds id t w).symbol ≡ t.symbol
      → ((e : ℕ) → epoch_of bucket < e → lookup (t.symbol, e) w.accs ≡ none)
      → Follows t.symbol st (accumulated provider seconds id t w) (after provider seconds id t w)
  after-Follows st is_acc is_price stands symbol free =
      let acc = accumulated provider seconds id t w in
      let w₁ = after provider seconds id t w in
      record {
        bucket_is = is_acc;
        symbol_is = symbol;
        whole = subst (λ i. i ≡ from_epoch (epoch_of i)) (sym stands) bucket-whole;
        same_acc =
            subst (λ i. lookup (t.symbol, epoch_of i) w₁.accs ≡ some acc) (sym stands)
              (own_acc provider seconds id t w (epoch_of bucket)
                ∙ rw (==-refl (epoch_of bucket)) refl);
        same_price = own_price provider seconds id t w ∙ sym is_price;
        same_bucket = own_bucket provider seconds id t w ∙ ap some (sym stands);
        later_free = λ e lt.
            let later : epoch_of bucket < e = subst (λ i. epoch_of i < e) stands lt in
            own_acc provider seconds id t w e
            ∙ rw (later_differs (epoch_of bucket) e later) (free e later);
      }

  -- The price that the worker takes a return from.
  pub price-Untouched :
      OneFeed provider seconds w
      → Untouched t.symbol w
      → lookup t.symbol (kept_prices (logged provider t) w) ≡ none
  price-Untouched h u =
      rw (kept_prices-feed provider seconds id t w h, u.no_bucket, no_gap bucket w.bucket_seconds)
        u.no_price

  pub price_followed :
      (st : SymbolState F) (bar : Bar F)
      → OneFeed provider seconds w
      → Follows t.symbol st bar w
      → lookup t.symbol (kept_prices (logged provider t) w)
        ≡ (if beyond_gap bucket bar.bucket w.bucket_seconds then none else st.last_price)
  price_followed st bar h g = elim (Bool-cases (beyond_gap bucket bar.bucket w.bucket_seconds)) [
    | inl e ↦
        rw (kept_prices-feed provider seconds id t w h, g.same_bucket, e)
          (lookup-erase_self t.symbol w.last_price h.distinct)
    | inr e ↦ rw (kept_prices-feed provider seconds id t w h, g.same_bucket, e) g.same_price
  ]

  -- `handle` up to the writing, in the three cases of the bar under way.
  pub step_first :
      (st : SymbolState F)
      → w.bucket_seconds ≡ seconds
      → st.bucket ≡ none
      → st.last_price ≡ none
      → ((advance seconds t st).0.bucket
          ≡ some (add_tick (start t.symbol t.ts_event price seconds stream) price none))
        × ((advance seconds t st).1 ≡ none)
  unfolding advance cross fold_price mid
  step_first st e none_yet no_price = rw (none_yet, no_price) (refl, refl)

  pub step_same :
      (st : SymbolState F) (bar : Bar F)
      → st.bucket ≡ some bar
      → ltb bar.bucket (floor_to_bucket t.ts_event seconds) ≡ false
      → ((advance seconds t st).0.bucket ≡ some (add_tick bar price st.last_price))
        × ((advance seconds t st).1 ≡ none)
  unfolding advance cross fold_price mid
  step_same st bar e same = rw (e, same) (refl, refl)

  pub step_later :
      (st : SymbolState F) (bar : Bar F)
      → st.bucket ≡ some bar
      → ltb bar.bucket (floor_to_bucket t.ts_event seconds) ≡ true
      → ((advance seconds t st).0.bucket
          ≡ some (
              add_tick (start t.symbol t.ts_event price seconds stream) price (
                if beyond_gap (floor_to_bucket t.ts_event seconds) bar.bucket seconds
                then none
                else st.last_price)))
        × ((advance seconds t st).1 ≡ some (seal bar))
  unfolding advance cross fold_price mid
  step_later st bar e later = rw (e, later) (refl, refl)

  pub step_price : (st : SymbolState F) → (advance seconds t st).0.last_price ≡ some price
  unfolding advance fold_price mid
  step_price st = refl
