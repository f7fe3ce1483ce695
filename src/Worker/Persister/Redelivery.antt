-- ===== src/Worker/Persister/Redelivery.antt =====
-- Redelivery to the `Persister` of apps/worker/fx_worker/persister.py: its accumulators stand
-- under their own rows' keys, each with a stream id, and the table's watermarks turn away
-- whatever was committed before.
use live_forex_volatility_tr.Base.{
  ℕ, ◌≡◌, refl, sym, ◌∙◌, subst, subst₂, true, Option, none, some, List, [], ◌∷◌, arith, inl, inr,
  All, All-map, Option-cases, Bool-cases,
}
use live_forex_volatility_tr.Base.Clock.{Instant, epoch_of, from_epoch}
use live_forex_volatility_tr.Base.Float.{Float}
use live_forex_volatility_tr.Base.Result.{
  or_raise, Result, ok, raise, Returns, Returns-bind, key_error,
}
use live_forex_volatility_tr.Base.Dict.{
  Dict, lookup, contains, get_or, text_key, number_key, pair_key, All-insert, All-lookup,
  contains-insert, contains_self,
}
use live_forex_volatility_tr.Volatility.Bars.{Bar, start, stream, add_tick, seal, floor_to_bucket}
use live_forex_volatility_tr.Worker.Table.{
  EntryId, newer, Row, RowKey, row_key, Table, WatermarkCovers, Covers, upsert_bars-covered,
}
use live_forex_volatility_tr.Worker.Persister.{
  Entry, AccKey, Tick, Parsers, Persister, Group, World, parse, acc_key, max_of, kept_prices,
  mid_price, ingest_tick, ingest_parsed, take_in, sealed, cleared,
}
use live_forex_volatility_tr.Worker.Persister.Loops.{commit, flush_rows, flush}

abbrev pub row_of : AccKey → RowKey
row_of (symbol, epoch) = (symbol, from_epoch epoch)

pub floor-whole :
    (ts : Instant) (seconds : ℕ)
    → from_epoch (epoch_of (floor_to_bucket ts seconds)) ≡ floor_to_bucket ts seconds
unfolding floor_to_bucket
floor-whole ts seconds = grind arith

max_of-meets :
    (C : EntryId → Type 0) (o : Option EntryId) (id : EntryId)
    → C id
    → ((prev : EntryId) → o ≡ some prev → C prev)
    → C (max_of o id)
unfolding max_of
max_of-meets C none id c h = c
max_of-meets C (some prev) id c h = elim (Bool-cases (newer id prev)) [
  | inl e ↦ rw e c
  | inr e ↦ rw e (h prev refl)
]

module _ {F : Type 0} where
  -- The accumulator is of its key's symbol and minute.
  abbrev pub OwnKey : AccKey → Bar F → Type 0
  OwnKey key acc = (acc.symbol ≡ key.0) × (acc.bucket ≡ from_epoch key.1)

  -- Every accumulator stands under its own key and has a stream id.
  pub record IsValid (p : Persister F) : Type 0 where
    pub keyed : All (λ e. OwnKey e.0 e.1) p.accs
    pub has_ids : All (λ e. contains e.0 p.max_id ≡ true) p.accs

  pub cleared-IsValid : (p : Persister F) → IsValid (cleared p)
  cleared-IsValid p = record { keyed = tt; has_ids = tt }

module _ {F : Type 0} ⦃f : Float F⦄ where
  OwnKey-next :
      (t : Tick F) (p : Persister F) (prev : Option F)
      → All (λ e. OwnKey e.0 e.1) p.accs
      → OwnKey (acc_key t p) (
          add_tick
            (get_or
              (start t.symbol t.ts (mid_price t) p.bucket_seconds stream)
              (lookup (acc_key t p) p.accs))
            (mid_price t)
            prev)
  unfolding add_tick start floor_to_bucket
  OwnKey-next t p prev h = elim (Option-cases (lookup (acc_key t p) p.accs)) [
    | inl e ↦ rw e (refl, grind arith)
    | inr (acc, e) ↦ rw e (All-lookup OwnKey (acc_key t p) p.accs h e)
  ]

  pub ingest_tick-IsValid :
      (id : EntryId) (t : Tick F) (p : Persister F) → IsValid p → IsValid (ingest_tick id t p)
  unfolding ingest_tick
  ingest_tick-IsValid id t p v = record {
    keyed =
        All-insert OwnKey (acc_key t p) _ p.accs
          (OwnKey-next t p (lookup t.symbol (kept_prices t p)) v.keyed) v.keyed;
    has_ids =
        All-insert (λ key acc. contains key (ingest_tick id t p).max_id ≡ true) (acc_key t p) _
          p.accs (contains_self (acc_key t p) _ p.max_id)
          (All-map (λ e. contains-insert (acc_key t p) e.0 _ p.max_id) p.accs v.has_ids);
  }

  -- The batch is made without a KeyError, and what holds of the stream ids holds of its rows.
  pub sealed-All :
      (C : RowKey → EntryId → Type 0) (accs : Dict AccKey (Bar F)) (max_id : Dict AccKey EntryId)
      → All (λ e. OwnKey e.0 e.1) accs
      → All (λ e. contains e.0 max_id ≡ true) accs
      → All (λ e. C (row_of e.0) e.1) max_id
      → Returns (All (λ r. C (row_key r) r.last_stream_id)) (sealed accs max_id)
  unfolding sealed seal
  sealed-All C [] max_id k h c = tt
  sealed-All C ((key, acc) ∷ accs) max_id k h c =
      Returns-bind (C (row_of key)) _ (or_raise key_error (lookup key max_id)) _
        (found (lookup key max_id) refl)
        (λ id i.
          Returns-bind (All (λ r. C (row_key r) r.last_stream_id)) _ (sealed accs max_id) _
            (sealed-All C accs max_id k.1 h.1 c)
            (λ rows a. (subst₂ (λ s b. C (s, b) id) (sym k.0.0) (sym k.0.1) i, a)))
    where
      found :
          (o : Option EntryId)
          → lookup key max_id ≡ o
          → Returns (C (row_of key)) (or_raise key_error o)
      found none e = absurd (ground (arith, e, h.0))
      found (some id) e = All-lookup (λ q. C (row_of q)) key max_id c e

module _ {F : Type 0} ⦃f : Float F⦄ ⦃parsers : Parsers F⦄ where
  -- What holds of the tick that an entry carries, if it carries one.
  abbrev pub OfTick : (Tick F → Type 0) → Result (Tick F) → Type 0
  OfTick P (raise e) = Unit
  OfTick P (ok t) = P t

  -- The table holds the entry's minute, at the entry's id or a later one; a malformed entry has
  -- nothing to hold.
  abbrev pub Committed : Table F → ℕ → Entry → Type 0
  Committed table seconds (id, fields) =
      OfTick (λ t. WatermarkCovers (lookup (t.symbol, floor_to_bucket t.ts seconds) table) id)
        (parse fields)

  pub parsed-IsValid :
      (id : EntryId) (r : Result (Tick F)) (p : Persister F)
      → IsValid p
      → IsValid (ingest_parsed id r p)
  parsed-IsValid id (raise e) p v = v
  parsed-IsValid id (ok t) p v = ingest_tick-IsValid id t p v

  pub take_in-IsValid :
      (entries : List Entry) (p : Persister F) → IsValid p → IsValid (take_in entries p)
  unfolding take_in
  take_in-IsValid [] p v = v
  take_in-IsValid ((id, fields) ∷ entries) p v =
      let u = parsed-IsValid id (parse fields) p v in
      take_in-IsValid entries _ (record { keyed = u.keyed; has_ids = u.has_ids })

  -- A stream id is covered by the table, under its row's key.
  abbrev CoveredAt : Table F → AccKey → EntryId → Type 0
  CoveredAt table key id = WatermarkCovers (lookup (row_of key) table) id

  parsed-Covered :
      (table : Table F) (id : EntryId) (r : Result (Tick F)) (p : Persister F)
      → OfTick
          (λ t. WatermarkCovers (lookup (t.symbol, floor_to_bucket t.ts p.bucket_seconds) table) id)
          r
      → All (λ e. CoveredAt table e.0 e.1) p.max_id
      → All (λ e. CoveredAt table e.0 e.1) (ingest_parsed id r p).max_id
  unfolding ingest_tick
  parsed-Covered table id (raise e) p c h = h
  parsed-Covered table id (ok t) p c h =
      All-insert (CoveredAt table) (acc_key t p) _ p.max_id
        (max_of-meets (CoveredAt table (acc_key t p)) (lookup (acc_key t p) p.max_id) id
          (rw (floor-whole t.ts p.bucket_seconds) c)
          (λ prev e. All-lookup (CoveredAt table) (acc_key t p) p.max_id h e))
        h

  pub parsed-seconds :
      (id : EntryId) (r : Result (Tick F)) (p : Persister F)
      → (ingest_parsed id r p).bucket_seconds ≡ p.bucket_seconds
  unfolding ingest_tick
  parsed-seconds id (raise e) p = refl
  parsed-seconds id (ok t) p = refl

  take_in-Covered :
      (table : Table F) (entries : List Entry) (p : Persister F) (seconds : ℕ)
      → p.bucket_seconds ≡ seconds
      → All (Committed table seconds) entries
      → All (λ e. CoveredAt table e.0 e.1) p.max_id
      → All (λ e. CoveredAt table e.0 e.1) (take_in entries p).max_id
  unfolding take_in
  take_in-Covered table [] p seconds s c h = h
  take_in-Covered table ((id, fields) ∷ entries) p seconds s c h =
      take_in-Covered table entries _ seconds (parsed-seconds id (parse fields) p ∙ s) c.1 (
        parsed-Covered table id (parse fields) p
          (subst
            (λ n.
              OfTick (λ t. WatermarkCovers (lookup (t.symbol, floor_to_bucket t.ts n) table) id)
                (parse fields))
            (sym s) c.0)
          h)

module _ {R F : Type 0} ⦃f : Float F⦄ ⦃parsers : Parsers F⦄ ⦃group : Group R⦄ where
  flush_rows-table :
      (now : ℕ) (accs : Dict AccKey (Bar F)) (r : Result (List (Row F))) (p : Persister F)
      (w : World R F)
      → Returns (All (Covers w.table)) r
      → (flush_rows now accs r p w).world.table ≡ w.table
  unfolding flush_rows commit
  flush_rows-table now [] r p w c = refl
  flush_rows-table now (_ ∷ _) (raise e) p w c = refl
  flush_rows-table now (_ ∷ _) (ok rows) p w c = ground (arith, upsert_bars-covered rows w.table c)

  flush-table :
      (now : ℕ) (p : Persister F) (w : World R F)
      → IsValid p
      → All (λ e. CoveredAt w.table e.0 e.1) p.max_id
      → (flush now p w).world.table ≡ w.table
  unfolding flush
  flush-table now p w v c = flush_rows-table now p.accs (sealed p.accs p.max_id) p w (
      sealed-All (λ key id. WatermarkCovers (lookup key w.table) id) p.accs p.max_id v.keyed
        v.has_ids c)

  -- Entries that the table has, in whatever batch and grouping they are delivered again, leave the
  -- table as it is when they are flushed.
  pub redelivered_unchanged :
      (now : ℕ) (entries : List Entry) (p : Persister F) (w : World R F)
      → All (Committed w.table p.bucket_seconds) entries
      → (flush now (take_in entries (cleared p)) w).world.table ≡ w.table
  redelivered_unchanged now entries p w c =
      flush-table now (take_in entries (cleared p)) w
        (take_in-IsValid entries (cleared p) (cleared-IsValid p))
        (take_in-Covered w.table entries (cleared p) p.bucket_seconds refl c tt)
