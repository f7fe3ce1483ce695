-- ===== src/Ingestor/Pipeline/Whole.antt =====
-- A whole feed through pipeline.py and through the worker that reads its log.
use live_forex_volatility_tr.Base.{
  true, ℕ, ◌≡◌, ◌∙◌, refl, sym, inl, inr, Option, none, some, List, [], ◌∷◌, subst,
}
use live_forex_volatility_tr.Base.Clock.{epoch_of}
use live_forex_volatility_tr.Base.Float.{Float}
use live_forex_volatility_tr.Base.Text.{Text}
use live_forex_volatility_tr.Base.Dict.{lookup, text_key, number_key, pair_key}
use live_forex_volatility_tr.Base.Result.{◌>>=◌, Ends, Ends-bind}
use live_forex_volatility_tr.Volatility.Bars.{Bar, floor_to_bucket}
use live_forex_volatility_tr.Worker.Persister.{Persister, created, ingest_tick}
use live_forex_volatility_tr.Ingestor.Pipeline.{SymbolState, advance}
use live_forex_volatility_tr.Ingestor.Pipeline.{IngestPipeline, Command}
use live_forex_volatility_tr.Ingestor.Pipeline.Write.{
  take_tick, stored, handle, answered, write, state_for,
}
use live_forex_volatility_tr.Ingestor.Pipeline.Agreement.{logged, OneFeed, ingest_tick-OneFeed}
use live_forex_volatility_tr.Ingestor.Pipeline.Cases.{Stepped}
use live_forex_volatility_tr.Base.{All, All-map, All-append}
use live_forex_volatility_tr.Ingestor.Pipeline.Feed.{history_of, listed, Wrote, write-Wrote}
use live_forex_volatility_tr.Ingestor.Pipeline.Replay.{
  Fed, handle_all, ingest_all, Due, InOrder, Has, has_all, seconds_same,
}
use live_forex_volatility_tr.Base.Result.{Returns, Returns-bind, Returns-Ends}
use live_forex_volatility_tr.Ingestor.Pipeline.{begin}
use live_forex_volatility_tr.Ingestor.Pipeline.Begin.{Begun, begin-Begun, fresh-Begun, new_Tracks}
use live_forex_volatility_tr.Ingestor.Pipeline.Ready.{IsReady, answered-IsReady}
use live_forex_volatility_tr.Ingestor.Pipeline.Tracking.{
  Tracks, Handled, handle-free, state-Stepped, own_Tracks, listed-Has, states_after,
}

module _ {F : Type 0} ⦃f : Float F⦄ where
  -- What the worker has of the history that the ingestor wrote, and of the bars under way.
  pub record Agrees (w : Persister F) (out : IngestPipeline F × List (Bar F)) : Type 0 where
    pub sealed : All (Has w) out.1
    pub under_way :
        (q : Text) (st : SymbolState F) (bar : Bar F)
        → lookup q out.0.states ≡ some st
        → st.bucket ≡ some bar
        → Has w bar

  module _ (provider : Text) (e : Fed F) (feed : List (Fed F)) (w : Persister F) where
    take_tick-Handled :
        (p : IngestPipeline F)
        → p.held_until ≡ none
        → p.bucket_seconds ≡ w.bucket_seconds
        → OneFeed provider w.bucket_seconds w
        → ((q : Text) → Tracks q (lookup q p.states) w (e ∷ feed))
        → Due w.bucket_seconds e.tick.symbol (floor_to_bucket e.tick.ts_event w.bucket_seconds) feed
        → Ends (Handled provider e feed w p) (take_tick e.now e.tick p)
    unfolding take_tick stored
    take_tick-Handled p free same h t due =
        Ends-bind (Stepped provider w.bucket_seconds e.id e.tick w) (Handled provider e feed w p)
          (state_for e.tick.symbol p) _
          (state-Stepped provider e feed w (lookup e.tick.symbol p.states) p refl h
            (t e.tick.symbol))
          (λ st s.
            let adv = advance w.bucket_seconds e.tick st in
            subst
              (λ n.
                Ends (Handled provider e feed w p)
                  (write p e.now e.tick (advance n e.tick st) >>= stored p e.tick.symbol))
              (sym same)
              (Ends-bind (Wrote adv.0 (listed adv.1)) (Handled provider e feed w p)
                (write p e.now e.tick adv) (stored p e.tick.symbol)
                (write-Wrote p e.now e.tick adv.0 adv.1)
                (λ out wrote. record {
                  not_held = free;
                  same_seconds = refl;
                  tracks = λ q. states_after provider e feed w p st out.0 q h t (
                      own_Tracks provider e feed w st out.0 s wrote.same_bucket wrote.same_price
                        due);
                  sealed =
                      subst (All _) (sym wrote.sealed_is)
                        (listed-Has provider e feed w adv.1 s.sealed_before due);
                })))

    handle-Handled :
        (p : IngestPipeline F)
        → p.held_until ≡ none
        → p.bucket_seconds ≡ w.bucket_seconds
        → OneFeed provider w.bucket_seconds w
        → ((q : Text) → Tracks q (lookup q p.states) w (e ∷ feed))
        → Due w.bucket_seconds e.tick.symbol (floor_to_bucket e.tick.ts_event w.bucket_seconds) feed
        → Ends (Handled provider e feed w p) (answered (handle true e.now e.tick p))
    handle-Handled p free same h t due =
        subst (Ends (Handled provider e feed w p)) (sym (handle-free e p free))
          (take_tick-Handled p free same h t due)

  -- A bar that the tick sealed is there after the whole feed.
  sealed-Kept :
      (provider : Text) (e : Fed F) (feed : List (Fed F)) (w : Persister F) (p : IngestPipeline F)
      (out : IngestPipeline F × List (Command F))
      → Handled provider e feed w p out
      → All (Has (ingest_all provider (e ∷ feed) w)) (history_of out.1)
  unfolding ingest_all
  sealed-Kept provider e feed w p out h =
      All-map
        (λ bar s.
          has_all provider w.bucket_seconds feed (ingest_tick e.id (logged provider e.tick) w) bar
            (seconds_same provider e w) s.0 s.1 s.2)
        (history_of out.1) h.sealed

  -- The bar under way, at the end of the feed.
  under_way-Has :
      (w : Persister F) (q : Text) (o : Option (SymbolState F)) (st : SymbolState F) (bar : Bar F)
      → Tracks q o w []
      → o ≡ some st
      → st.bucket ≡ some bar
      → Has w bar
  unfolding Tracks
  under_way-Has w q none st bar t found is = cc
  under_way-Has w q (some known) st bar (inl (u, no_bucket, no_price)) found is = cc
  under_way-Has w q (some known) st bar (inr (own, follows, due)) found is =
      let bucket_is : known.bucket ≡ some own = follows.bucket_is in
      let same : own ≡ bar = cc in
      subst (Has w) same (
        subst (λ r. lookup (r, epoch_of own.bucket) w.accs ≡ some own) (sym follows.symbol_is)
          follows.same_acc)

  replayed :
      (provider : Text) (feed : List (Fed F)) (w : Persister F) (p : IngestPipeline F)
      → p.held_until ≡ none
      → p.bucket_seconds ≡ w.bucket_seconds
      → OneFeed provider w.bucket_seconds w
      → ((q : Text) → Tracks q (lookup q p.states) w feed)
      → InOrder w.bucket_seconds feed
      → Ends (Agrees (ingest_all provider feed w)) (handle_all feed p)
  unfolding handle_all ingest_all ingest_tick
  replayed provider [] w p free same h t order = record {
    sealed = tt;
    under_way = λ q st bar. under_way-Has w q (lookup q p.states) st bar (t q);
  }
  replayed provider (e ∷ feed) w p free same h t order =
      Ends-bind (Handled provider e feed w p) _ (answered (handle true e.now e.tick p)) _
        (handle-Handled provider e feed w p free same h t order.0)
        (λ out s.
          Ends-bind (Agrees (ingest_all provider (e ∷ feed) w))
            (Agrees (ingest_all provider (e ∷ feed) w)) (handle_all feed out.0) _
            (replayed provider feed (ingest_tick e.id (logged provider e.tick) w) out.0 s.not_held
              (s.same_seconds ∙ same)
              (ingest_tick-OneFeed provider w.bucket_seconds e.id e.tick w h) s.tracks order.1)
            (λ rest agrees. record {
              sealed =
                  All-append (Has (ingest_all provider (e ∷ feed) w)) (history_of out.1) rest.1
                    (sealed-Kept provider e feed w p out s) agrees.sealed;
              under_way = agrees.under_way;
            }))

  handle_all-IsReady :
      (feed : List (Fed F)) (p : IngestPipeline F)
      → IsReady p
      → Returns (λ out. IsReady out.0) (handle_all feed p)
  unfolding handle_all
  handle_all-IsReady [] p r = r
  handle_all-IsReady (e ∷ feed) p r =
      Returns-bind (λ out. IsReady out.0) (λ out. IsReady out.0)
        (answered (handle true e.now e.tick p)) _ (answered-IsReady e.now e.tick p r)
        (λ out ready.
          Returns-bind (λ rest. IsReady rest.0) (λ all. IsReady all.0) (handle_all feed out.0) _
            (handle_all-IsReady feed out.0 ready) (λ rest done. done))

  -- The two programs from their start: the ingestor with its symbols' states made, on a ready
  -- configuration that handles every tick, and each symbol's ticks in the order of their minutes. No
  -- call raises, and the worker that has read the entries of the ticks, and has not flushed, has
  -- each bar that the ingestor added to the history, and each symbol's bar under way, equal in
  -- every field.
  pub handle_all-Agrees :
      (symbols : List Text) (feed : List (Fed F)) (p : IngestPipeline F) (rows microseconds now : ℕ)
      → IsReady p
      → p.states ≡ []
      → p.held_until ≡ none
      → InOrder p.bucket_seconds feed
      → Returns
          (Agrees (ingest_all p.provider feed (created p.bucket_seconds rows microseconds now)))
          (begin symbols p >>= handle_all feed)
  handle_all-Agrees symbols feed p rows microseconds now r fresh free order =
      let w = created p.bucket_seconds rows microseconds now in
      Returns-bind (Begun p) (Agrees (ingest_all p.provider feed w)) (begin symbols p)
        (handle_all feed) (begin-Begun symbols p (fresh-Begun p r fresh))
        (λ q s.
          Returns-Ends (λ out. IsReady out.0) (Agrees (ingest_all p.provider feed w))
            (handle_all feed q) (handle_all-IsReady feed q s.ready)
            (replayed p.provider feed w q (s.held ∙ free) s.seconds
              (record { same_seconds = refl; distinct = tt; fed = λ r. refl })
              (λ symbol. new_Tracks p rows microseconds now symbol q s feed) order))
