-- ===== src/Worker/Table.antt =====
-- The upsert of apps/worker/fx_worker/db.py into `bars_1m`, with its row-level watermark.
use live_forex_volatility_tr.Base.{
  ℕ, ◌+◌, ◌≡◌, refl, ◌∙◌, ap, Bool, true, false, ◌&&◌, ◌||◌, Option, none, some, List, [], ◌∷◌,
  arith, ltb, ◌==◌, if◌then◌else◌, Bool-cases, inl, inr, All, All-map, subst, Option-cases,
}
use live_forex_volatility_tr.Base.Clock.{Instant}
use live_forex_volatility_tr.Base.Float.{Float, fmax, fmin}
use live_forex_volatility_tr.Base.Text.{Text}
use live_forex_volatility_tr.Base.Dict.{
  Dict, lookup, insert, lookup-insert, text_key, number_key, pair_key, same_pair, same_pair→eq,
  same_pair_refl,
}
use live_forex_volatility_tr.Volatility.Bars.{Bar, BarSource, stream, backfill, synthetic}

-- A stream id `<ms>-<seq>`, which `_stream_order` reads as two numbers.
pub record EntryId : Type 0 where
  pub ms : ℕ
  pub seq : ℕ

-- `_stream_order(a) > _stream_order(b)`, which is also the WHERE clause of the upsert.
unfoldable pub newer : EntryId → EntryId → Bool
newer a b = ltb b.ms a.ms || ((a.ms == b.ms) && ltb b.seq a.seq)

pub newer_trans : (a b c : EntryId) → newer a b ≡ false → newer b c ≡ false → newer a c ≡ false
unfolding newer
newer_trans a b c h k = ground arith

pub newer-asym : (a b : EntryId) → newer a b ≡ true → newer b a ≡ false
unfolding newer
newer-asym a b h = ground arith

pub newer_irrefl : (a : EntryId) → newer a a ≡ false
unfolding newer
newer_irrefl a = ground arith

-- A row of `bars_1m`: the columns of a bar, and `last_stream_id`.
pub record Row (F : Type 0) : Type 0 where
  pub bar : Bar F
  pub last_stream_id : EntryId

abbrev pub RowKey : Type 0
RowKey = Text × Instant

-- The table, by its primary key (symbol, bucket).
abbrev pub Table : Type 0 → Type 0
Table F = Dict RowKey (Row F)

abbrev pub row_key : {F : Type 0} → Row F → RowKey
row_key r = (r.bar.symbol, r.bar.bucket)

abbrev pub is_stream : BarSource → Bool
is_stream stream = true
is_stream backfill = false
is_stream synthetic = false

module _ {F : Type 0} ⦃f : Float F⦄ where
  -- ON CONFLICT (symbol, bucket) DO UPDATE SET ...
  unfoldable pub merge_row : Row F → Row F → Row F
  merge_row stored excluded = record {
    bar = record stored.bar {
      high = fmax stored.bar.high excluded.bar.high;
      low = fmin stored.bar.low excluded.bar.low;
      close = excluded.bar.close;
      tick_count = stored.bar.tick_count + excluded.bar.tick_count;
      sum_ret = f.add stored.bar.sum_ret excluded.bar.sum_ret;
      sum_ret_sq = f.add stored.bar.sum_ret_sq excluded.bar.sum_ret_sq;
      source = if is_stream stored.bar.source then stored.bar.source else excluded.bar.source;
    };
    last_stream_id = excluded.last_stream_id;
  }

  -- The row that stands under the key afterwards.
  unfoldable pub upserted : Option (Row F) → Row F → Row F
  unfolding newer merge_row
  upserted none excluded = excluded
  upserted (some stored) excluded =
      if newer excluded.last_stream_id stored.last_stream_id
      then merge_row stored excluded
      else stored

  -- One row of the statement.
  unfoldable pub upsert : Row F → Table F → Table F
  unfolding upserted
  upsert r t = insert (row_key r) (upserted (lookup (row_key r) t) r) t

  -- `upsert_bars`: the rows of the arrays, in order.
  unfoldable pub upsert_bars : List (Row F) → Table F → Table F
  unfolding upsert
  upsert_bars [] t = t
  upsert_bars (r ∷ rows) t = upsert_bars rows (upsert r t)

  -- The table holds the row's key, at this id or a later one.
  abbrev pub WatermarkCovers : Option (Row F) → EntryId → Type 0
  WatermarkCovers none id = ⊥
  WatermarkCovers (some stored) id = newer id stored.last_stream_id ≡ false

  abbrev pub Covers : Table F → Row F → Type 0
  Covers t r = WatermarkCovers (lookup (row_key r) t) r.last_stream_id

  upserted-covers :
      (o : Option (Row F)) (r : Row F)
      → newer r.last_stream_id (upserted o r).last_stream_id ≡ false
  unfolding upserted merge_row
  upserted-covers none r = newer_irrefl r.last_stream_id
  upserted-covers (some s) r = ground (arith, newer_irrefl r.last_stream_id)

  upserted-grows :
      (s r : Row F) → newer s.last_stream_id (upserted (some s) r).last_stream_id ≡ false
  unfolding upserted merge_row
  upserted-grows s r =
      ground (arith, newer_irrefl s.last_stream_id, newer-asym r.last_stream_id s.last_stream_id)

  upserted-known :
      (s r : Row F) → newer r.last_stream_id s.last_stream_id ≡ false → upserted (some s) r ≡ s
  unfolding upserted
  upserted-known s r h = ground arith

  insert-same : (q : RowKey) (s : Row F) (t : Table F) → lookup q t ≡ some s → insert q s t ≡ t
  insert-same q s [] h = cc
  insert-same q s ((j, w) ∷ t) h = ground (arith, insert-same q s t)

  upserted_mono :
      (o : Option (Row F)) (r : Row F) (id : EntryId)
      → WatermarkCovers o id
      → WatermarkCovers (some (upserted o r)) id
  upserted_mono none r id h = absurd h
  upserted_mono (some s) r id h =
      newer_trans id s.last_stream_id (upserted (some s) r).last_stream_id h (upserted-grows s r)

  -- A row whose watermark the table covers is skipped.
  upsert-covered : (r : Row F) (t : Table F) → Covers t r → upsert r t ≡ t
  unfolding upsert
  upsert-covered r t h = elim (Option-cases (lookup (row_key r) t)) [
    | inl e ↦ absurd (subst (λ o. WatermarkCovers o r.last_stream_id) e h)
    | inr (s, e) ↦
        rw (e, upserted-known s r (subst (λ o. WatermarkCovers o r.last_stream_id) e h))
          (insert-same (row_key r) s t e)
  ]

  upsert-keeps :
      (r : Row F) (key : RowKey) (id : EntryId) (t : Table F)
      → WatermarkCovers (lookup key t) id
      → WatermarkCovers (lookup key (upsert r t)) id
  unfolding upsert
  upsert-keeps r key id t h =
      rw (lookup-insert (row_key r) key (upserted (lookup (row_key r) t) r) t)
        (elim (Bool-cases (same_pair key (row_key r))) [
          | inl e ↦ rw e (
              upserted_mono (lookup (row_key r) t) r id
                (subst (λ q. WatermarkCovers (lookup q t) id) (same_pair→eq key (row_key r) e) h))
          | inr e ↦ rw e h
        ])

  upsert-Covers_self : (r : Row F) (t : Table F) → Covers (upsert r t) r
  unfolding upsert
  upsert-Covers_self r t =
      rw
        (
          lookup-insert (row_key r) (row_key r) (upserted (lookup (row_key r) t) r) t,
          same_pair_refl (row_key r),
        )
        (upserted-covers (lookup (row_key r) t) r)

  -- What the table covers it covers after the statement too.
  pub upsert_bars-keeps :
      (rows : List (Row F)) (key : RowKey) (id : EntryId) (t : Table F)
      → WatermarkCovers (lookup key t) id
      → WatermarkCovers (lookup key (upsert_bars rows t)) id
  unfolding upsert_bars
  upsert_bars-keeps [] key id t h = h
  upsert_bars-keeps (r ∷ rows) key id t h =
      upsert_bars-keeps rows key id (upsert r t) (upsert-keeps r key id t h)

  -- After the statement, the table covers every row of it.
  pub upsert_bars-Covers :
      (rows : List (Row F)) (t : Table F) → All (Covers (upsert_bars rows t)) rows
  unfolding upsert_bars
  upsert_bars-Covers [] t = tt
  upsert_bars-Covers (r ∷ rows) t = (
    upsert_bars-keeps rows (row_key r) r.last_stream_id (upsert r t) (upsert-Covers_self r t),
    upsert_bars-Covers rows (upsert r t),
  )

  -- Rows whose watermarks the table covers, each of them, leave it as it is.
  pub upsert_bars-covered :
      (rows : List (Row F)) (t : Table F) → All (Covers t) rows → upsert_bars rows t ≡ t
  unfolding upsert_bars
  upsert_bars-covered [] t h = refl
  upsert_bars-covered (r ∷ rows) t h =
      ap (upsert_bars rows) (upsert-covered r t h.0) ∙ upsert_bars-covered rows t h.1

  -- Committing a batch a second time changes nothing, whatever was committed in between.
  pub upsert_bars-redelivered :
      (rows later : List (Row F)) (t : Table F)
      → upsert_bars rows (upsert_bars later (upsert_bars rows t))
        ≡ upsert_bars later (upsert_bars rows t)
  upsert_bars-redelivered rows later t = upsert_bars-covered rows _ (
      All-map (λ q. upsert_bars-keeps later (row_key q) q.last_stream_id (upsert_bars rows t)) rows
        (upsert_bars-Covers rows t))
