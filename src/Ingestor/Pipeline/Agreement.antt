-- ===== src/Ingestor/Pipeline/Agreement.antt =====
-- The bar that the ingestor has under way for a symbol (pipeline.py) and the accumulator that the
-- worker has for its minute (apps/worker/fx_worker/persister.py).
use live_forex_volatility_tr.Base.{
  ℕ, ◌<◌, ◌≡◌, ◌∙◌, refl, ap, inl, inr, Bool, true, false, none, some, ◌==◌, if◌then◌else◌,
  Bool-cases,
}
use live_forex_volatility_tr.Base.Clock.{epoch_of, from_epoch}
use live_forex_volatility_tr.Base.Float.{Float}
use live_forex_volatility_tr.Base.Text.{Text, eq_text, eq_text_refl}
use live_forex_volatility_tr.Base.Dict.{
  Dict, lookup, erase, get_or, text_key, number_key, pair_key, lookup-insert, lookup-erase_ne,
  Distinct, insert-Distinct, erase-Distinct,
}
use live_forex_volatility_tr.Volatility.Bars.{Bar, stream, floor_to_bucket, start, add_tick}
use live_forex_volatility_tr.Volatility.Ticks.{Tick}
use live_forex_volatility_tr.Worker.Table.{EntryId}
use live_forex_volatility_tr.Worker.Persister.{Persister, ingest_tick, kept_prices, mid_price}
use live_forex_volatility_tr.Worker.Persister as Worker
use live_forex_volatility_tr.Ingestor.Pipeline.{SymbolState}

-- The entry that the worker reads for a tick of a provider.
abbrev pub logged : {F : Type 0} → Text → Tick F → Worker.Tick F
logged provider t = record {
  symbol = t.symbol;
  bid = t.bid;
  ask = t.ask;
  ts = t.ts_event;
  provider = provider;
}

-- Before a symbol's first tick, and after it.
pub record Untouched {F : Type 0} (q : Text) (w : Persister F) : Type 0 where
  pub no_price : lookup q w.last_price ≡ none
  pub no_bucket : lookup q w.last_bucket ≡ none
  pub no_accs : (e : ℕ) → lookup (q, e) w.accs ≡ none

pub record Follows {F : Type 0} (q : Text) (st : SymbolState F) (bar : Bar F) (w : Persister F)
    : Type 0 where
  pub bucket_is : st.bucket ≡ some bar
  pub symbol_is : bar.symbol ≡ q
  pub whole : bar.bucket ≡ from_epoch (epoch_of bar.bucket)
  pub same_acc : lookup (q, epoch_of bar.bucket) w.accs ≡ some bar
  pub same_price : lookup q w.last_price ≡ st.last_price
  pub same_bucket : lookup q w.last_bucket ≡ some bar.bucket
  pub later_free : (e : ℕ) → epoch_of bar.bucket < e → lookup (q, e) w.accs ≡ none

-- The worker has one feed, and a price for a symbol at most once.
pub record OneFeed {F : Type 0} (provider : Text) (seconds : ℕ) (w : Persister F) : Type 0 where
  pub same_seconds : w.bucket_seconds ≡ seconds
  pub distinct : Distinct w.last_price
  pub fed : (q : Text) → get_or provider (lookup q w.provider) ≡ provider

module _ {V : Type 0} where
  if_Distinct :
      (c : Bool) (s : Text) (d : Dict Text V) → Distinct d → Distinct (if c then erase s d else d)
  if_Distinct true s d h = erase-Distinct s d h
  if_Distinct false s d h = h

  if_other :
      (c : Bool) (s q : Text) (d : Dict Text V)
      → eq_text q s ≡ false
      → lookup q (if c then erase s d else d) ≡ lookup q d
  if_other true s q d h = lookup-erase_ne s q d h
  if_other false s q d h = refl

module _ {F : Type 0} ⦃f : Float F⦄ (provider : Text) (seconds : ℕ) (id : EntryId) (t : Tick F)
    (w : Persister F) where
  abbrev pub after : Persister F
  after = ingest_tick id (logged provider t) w

  -- The prices that the worker takes a return from: its own, less the symbol's across a gap.
  pub kept_prices-feed :
      OneFeed provider seconds w
      → kept_prices (logged provider t) w ≡ (
          let bucket = floor_to_bucket t.ts_event w.bucket_seconds in
          if Worker.beyond_gap bucket
            (get_or bucket (lookup t.symbol w.last_bucket))
            w.bucket_seconds
          then erase t.symbol w.last_price
          else w.last_price)
  unfolding kept_prices
  kept_prices-feed h =
      let same : eq_text (get_or provider (lookup t.symbol w.provider)) provider ≡ true =
        ap (λ s. eq_text s provider) (h.fed t.symbol) ∙ eq_text_refl provider in
      rw (kept_prices, same) refl

  kept_prices-Distinct : OneFeed provider seconds w → Distinct (kept_prices (logged provider t) w)
  kept_prices-Distinct h =
      let bucket = floor_to_bucket t.ts_event w.bucket_seconds in
      rw (kept_prices-feed h) (
        if_Distinct
          (Worker.beyond_gap bucket (get_or bucket (lookup t.symbol w.last_bucket))
            w.bucket_seconds)
          t.symbol w.last_price h.distinct)

  pub ingest_tick-OneFeed : OneFeed provider seconds w → OneFeed provider seconds after
  unfolding ingest_tick
  ingest_tick-OneFeed h = record {
    same_seconds = h.same_seconds;
    distinct =
        insert-Distinct t.symbol (mid_price (logged provider t)) (kept_prices (logged provider t) w)
          (kept_prices-Distinct h);
    fed = λ q.
        rw (lookup-insert t.symbol q provider w.provider)
          (elim (Bool-cases (eq_text q t.symbol)) [ inl e ↦ rw e refl | inr e ↦ rw e (h.fed q) ]);
  }

  -- Another symbol's state in the worker does not change.
  module _ (q : Text) (other : eq_text q t.symbol ≡ false) where
    kept-other :
        OneFeed provider seconds w
        → lookup q (kept_prices (logged provider t) w) ≡ lookup q w.last_price
    kept-other h =
        let bucket = floor_to_bucket t.ts_event w.bucket_seconds in
        rw (kept_prices-feed h) (
          if_other
            (Worker.beyond_gap bucket (get_or bucket (lookup t.symbol w.last_bucket))
              w.bucket_seconds)
            t.symbol q w.last_price other)

    pub other_price : OneFeed provider seconds w → lookup q after.last_price ≡ lookup q w.last_price
    unfolding ingest_tick
    other_price h =
        lookup-insert t.symbol q (mid_price (logged provider t)) (kept_prices (logged provider t) w)
        ∙ rw other (kept-other h)

    pub other_bucket : lookup q after.last_bucket ≡ lookup q w.last_bucket
    unfolding ingest_tick
    other_bucket =
        lookup-insert t.symbol q (floor_to_bucket t.ts_event w.bucket_seconds) w.last_bucket
        ∙ rw other refl

    pub other_accs : (e : ℕ) → lookup (q, e) after.accs ≡ lookup (q, e) w.accs
    unfolding ingest_tick
    other_accs e = lookup-insert _ (q, e) _ w.accs ∙ rw other refl

  -- The symbol's own state.
  pub same_symbol : eq_text t.symbol t.symbol ≡ true
  same_symbol = eq_text_refl t.symbol

  abbrev pub own_epoch : ℕ
  own_epoch = epoch_of (floor_to_bucket t.ts_event w.bucket_seconds)

  pub own_price : lookup t.symbol after.last_price ≡ some (mid_price (logged provider t))
  unfolding ingest_tick
  own_price =
      lookup-insert t.symbol t.symbol (mid_price (logged provider t))
        (kept_prices (logged provider t) w)
      ∙ rw same_symbol refl

  pub own_bucket :
      lookup t.symbol after.last_bucket ≡ some (floor_to_bucket t.ts_event w.bucket_seconds)
  unfolding ingest_tick
  own_bucket =
      lookup-insert t.symbol t.symbol (floor_to_bucket t.ts_event w.bucket_seconds) w.last_bucket
      ∙ rw same_symbol refl

  -- The accumulator that the tick goes into.
  abbrev pub accumulated : Bar F
  accumulated =
      add_tick
        (get_or (start t.symbol t.ts_event (mid_price (logged provider t)) w.bucket_seconds stream)
          (lookup (t.symbol, own_epoch) w.accs))
        (mid_price (logged provider t)) (lookup t.symbol (kept_prices (logged provider t) w))

  pub own_acc :
      (e : ℕ)
      → lookup (t.symbol, e) after.accs
        ≡ (if e == own_epoch then some accumulated else lookup (t.symbol, e) w.accs)
  unfolding ingest_tick
  own_acc e =
      lookup-insert (t.symbol, own_epoch) (t.symbol, e) accumulated w.accs ∙ rw same_symbol refl
