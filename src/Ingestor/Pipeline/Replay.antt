-- ===== src/Ingestor/Pipeline/Replay.antt =====
-- A feed through pipeline.py and, by the log, through the persister of the worker: the bars that the
-- ingestor seals are the worker's.
use live_forex_volatility_tr.Base.{
  ℕ, ◌<◌, ◌≤◌, ◌≡◌, ◌∙◌, refl, sym, inl, inr, some, List, [], ◌∷◌, ◌++◌, subst, Bool-cases,
}
use live_forex_volatility_tr.Base.Clock.{Instant, epoch_of, from_epoch}
use live_forex_volatility_tr.Base.Float.{Float}
use live_forex_volatility_tr.Base.Text.{Text, eq_text, eq_text→eq}
use live_forex_volatility_tr.Base.Dict.{lookup, text_key, number_key, pair_key}
use live_forex_volatility_tr.Base.Result.{Result, ok, ◌>>=◌}
use live_forex_volatility_tr.Volatility.Bars.{Bar, floor_to_bucket}
use live_forex_volatility_tr.Volatility.Ticks.{Tick}
use live_forex_volatility_tr.Worker.Table.{EntryId}
use live_forex_volatility_tr.Worker.Persister.{Persister, ingest_tick}
use live_forex_volatility_tr.Ingestor.Pipeline.{IngestPipeline}
use live_forex_volatility_tr.Ingestor.Pipeline.Write.{handle, answered}
use live_forex_volatility_tr.Ingestor.Pipeline.Agreement.{logged, own_acc, other_accs}
use live_forex_volatility_tr.Ingestor.Pipeline.Step.{bucket-whole}
use live_forex_volatility_tr.Ingestor.Pipeline.Cases.{whole_eq, earlier_differs}
use live_forex_volatility_tr.Base.{All, true}
use live_forex_volatility_tr.Ingestor.Pipeline.Feed.{history_of}

-- A tick, the ingestor's clock, and the id of its entry in the log.
pub record Fed (F : Type 0) : Type 0 where
  pub now : Instant
  pub tick : Tick F
  pub id : EntryId

module _ {F : Type 0} ⦃f : Float F⦄ where
  -- The ticks of a feed, handled one after another while Redis answers, and the bars added to the
  -- history.
  unfoldable pub handle_all :
      List (Fed F) → IngestPipeline F → Result (IngestPipeline F × List (Bar F))
  unfolding handle history_of
  handle_all [] p = ok (p, [])
  handle_all (e ∷ feed) p =
      answered (handle true e.now e.tick p)
      >>= (λ out. handle_all feed out.0 >>= (λ rest. ok (rest.0, history_of out.1 ++ rest.1)))

  -- The worker's reading of their entries.
  unfoldable pub ingest_all : Text → List (Fed F) → Persister F → Persister F
  unfolding ingest_tick
  ingest_all provider [] w = w
  ingest_all provider (e ∷ feed) w =
      ingest_all provider feed (ingest_tick e.id (logged provider e.tick) w)

  -- The ticks of the symbol stand in this minute or later.
  abbrev pub Due : ℕ → Text → Instant → List (Fed F) → Type 0
  Due seconds q start_of =
      All (λ e. e.tick.symbol ≡ q → start_of ≤ floor_to_bucket e.tick.ts_event seconds)

  -- Each symbol's ticks come in the order of their minutes.
  abbrev pub InOrder : ℕ → List (Fed F) → Type 0
  InOrder seconds [] = Unit
  InOrder seconds (e ∷ feed) =
      Due seconds e.tick.symbol (floor_to_bucket e.tick.ts_event seconds) feed
      × InOrder seconds feed

  -- The worker has this bar.
  abbrev pub Has : Persister F → Bar F → Type 0
  Has w bar = lookup (bar.symbol, epoch_of bar.bucket) w.accs ≡ some bar

  -- A bar stays, where the symbol's ticks that follow stand in later minutes.
  unfoldable pub Passed : ℕ → Bar F → List (Fed F) → Type 0
  Passed seconds bar =
      All (λ e. e.tick.symbol ≡ bar.symbol → bar.bucket < floor_to_bucket e.tick.ts_event seconds)

  has_after :
      (provider : Text) (e : Fed F) (w : Persister F) (bar : Bar F)
      → bar.bucket ≡ from_epoch (epoch_of bar.bucket)
      → (e.tick.symbol ≡ bar.symbol → bar.bucket < floor_to_bucket e.tick.ts_event w.bucket_seconds)
      → Has w bar
      → Has (ingest_tick e.id (logged provider e.tick) w) bar
  has_after provider e w bar whole passed h = elim (Bool-cases (eq_text bar.symbol e.tick.symbol)) [
    | inr c ↦
        other_accs provider w.bucket_seconds e.id e.tick w bar.symbol c (epoch_of bar.bucket) ∙ h
    | inl c ↦
        let same = eq_text→eq bar.symbol e.tick.symbol c in
        let B = floor_to_bucket e.tick.ts_event w.bucket_seconds in
        let epochs : epoch_of bar.bucket < epoch_of B =
          whole_eq bar.bucket B whole (bucket-whole provider w.bucket_seconds e.id e.tick w)
            (passed (sym same)) in
        subst
          (λ q.
            lookup (q, epoch_of bar.bucket) (ingest_tick e.id (logged provider e.tick) w).accs
            ≡ some bar)
          (sym same)
          (own_acc provider w.bucket_seconds e.id e.tick w (epoch_of bar.bucket)
            ∙ rw (earlier_differs (epoch_of bar.bucket) (epoch_of B) epochs)
                (subst (λ q. lookup (q, epoch_of bar.bucket) w.accs ≡ some bar) same h))
  ]

  pub seconds_same :
      (provider : Text) (e : Fed F) (w : Persister F)
      → (ingest_tick e.id (logged provider e.tick) w).bucket_seconds ≡ w.bucket_seconds
  unfolding ingest_tick
  seconds_same provider e w = refl

  pub has_all :
      (provider : Text) (seconds : ℕ) (feed : List (Fed F)) (w : Persister F) (bar : Bar F)
      → w.bucket_seconds ≡ seconds
      → bar.bucket ≡ from_epoch (epoch_of bar.bucket)
      → Passed seconds bar feed
      → Has w bar
      → Has (ingest_all provider feed w) bar
  unfolding ingest_all Passed
  has_all provider seconds [] w bar e whole passed h = h
  has_all provider seconds (x ∷ feed) w bar e whole passed h =
      has_all provider seconds feed (ingest_tick x.id (logged provider x.tick) w) bar
        (seconds_same provider x w ∙ e) whole passed.1
        (has_after provider x w bar whole
          (subst (λ s. x.tick.symbol ≡ bar.symbol → bar.bucket < floor_to_bucket x.tick.ts_event s)
            (sym e) passed.0)
          h)
