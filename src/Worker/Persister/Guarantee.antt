-- ===== src/Worker/Persister/Guarantee.antt =====
-- What an acknowledgement by the `Persister` of apps/worker/fx_worker/persister.py promises: the
-- entries of the batch are in the table.
use live_forex_volatility_tr.Base.{
  ℕ, ◌≡◌, ◌⊎◌, refl, sym, ◌∙◌, ap, subst, subst₂, true, false, Option, none, some, List, [], ◌∷◌,
  arith, inl, inr, All, All-map, Bool-cases,
}
use live_forex_volatility_tr.Base.Clock.{epoch_of, from_epoch}
use live_forex_volatility_tr.Base.Float.{Float}
use live_forex_volatility_tr.Base.Result.{
  or_raise, Result, ok, raise, Exception, >>=-eq-ok, key_error,
}
use live_forex_volatility_tr.Base.Dict.{
  Dict, lookup, contains, text_key, number_key, pair_key, lookup-insert, contains-insert,
  contains_self, same_pair, same_pair→eq, same_pair_refl,
}
use live_forex_volatility_tr.Volatility.Bars.{Bar, seal, floor_to_bucket}
use live_forex_volatility_tr.Worker.Table.{
  EntryId, newer, newer_irrefl, newer-asym, newer_trans, Row, Table, upsert_bars, WatermarkCovers,
  Covers, upsert_bars-Covers, upsert_bars-keeps,
}
use live_forex_volatility_tr.Worker.Persister.{
  Entry, AccKey, Tick, Parsers, Persister, Group, World, parse, acc_key, max_of, ingest_tick,
  ingest_parsed, take_in, sealed,
}
use live_forex_volatility_tr.Worker.Persister.Loops.{commit, flush_rows, flush}
use live_forex_volatility_tr.Worker.Persister.Redelivery.{
  row_of, OwnKey, IsValid, take_in-IsValid, parsed-seconds, OfTick, Committed, floor-whole,
}

-- The id kept is at or after this one.
abbrev AtOrAfter : EntryId → Option EntryId → Type 0
AtOrAfter id none = ⊥
AtOrAfter id (some kept) = newer id kept ≡ false

max_of-own : (o : Option EntryId) (id : EntryId) → newer id (max_of o id) ≡ false
unfolding max_of
max_of-own none id = newer_irrefl id
max_of-own (some prev) id = ground (arith, newer_irrefl id)

max_of-kept : (o : Option EntryId) (q id : EntryId) → AtOrAfter q o → newer q (max_of o id) ≡ false
unfolding max_of
max_of-kept none q id h = absurd h
max_of-kept (some prev) q id h = ground (arith, newer-asym id prev, newer_trans q prev id h)

or_raise-ok : {A : Type 0} (e : Exception) (o : Option A) {a : A} → or_raise e o ≡ ok a → o ≡ some a
or_raise-ok e none h = cc
or_raise-ok e (some b) h = cc

ok-inj : {A : Type 0} {a b : A} → ok a ≡ ok b → a ≡ b
ok-inj h = cc

module _ {F : Type 0} ⦃f : Float F⦄ where
  covers-earlier :
      (o : Option (Row F)) (id i : EntryId)
      → newer id i ≡ false
      → WatermarkCovers o i
      → WatermarkCovers o id
  covers-earlier none id i h c = c
  covers-earlier (some stored) id i h c = newer_trans id i stored.last_stream_id h c

  -- The key has an accumulator, and an id at or after this one.
  record Recorded (p : Persister F) (key : AccKey) (id : EntryId) : Type 0 where
    kept : AtOrAfter id (lookup key p.max_id)
    open_acc : contains key p.accs ≡ true

  ingest_tick-records :
      (id : EntryId) (t : Tick F) (p : Persister F) → Recorded (ingest_tick id t p) (acc_key t p) id
  unfolding ingest_tick
  ingest_tick-records id t p = record {
    kept =
        rw
          (
            lookup-insert (acc_key t p) (acc_key t p) (max_of (lookup (acc_key t p) p.max_id) id)
                p.max_id,
            same_pair_refl (acc_key t p),
          )
          (max_of-own (lookup (acc_key t p) p.max_id) id);
    open_acc = contains_self (acc_key t p) _ p.accs;
  }

  ingest_tick-Recorded :
      (id q : EntryId) (t : Tick F) (p : Persister F) (key : AccKey)
      → Recorded p key q
      → Recorded (ingest_tick id t p) key q
  unfolding ingest_tick
  ingest_tick-Recorded id q t p key h = record {
    kept =
        rw (lookup-insert (acc_key t p) key (max_of (lookup (acc_key t p) p.max_id) id) p.max_id)
          (elim (Bool-cases (same_pair key (acc_key t p))) [
            | inl e ↦ rw e (
                max_of-kept (lookup (acc_key t p) p.max_id) q id (
                  subst (λ k. AtOrAfter q (lookup k p.max_id)) (same_pair→eq key (acc_key t p) e)
                    h.kept))
            | inr e ↦ rw e h.kept
          ]);
    open_acc = contains-insert (acc_key t p) key _ p.accs h.open_acc;
  }

  -- Where the table covers the rows of a batch, it covers what the accumulators record.
  sealed-Covers :
      (table : Table F) (key : AccKey) (id : EntryId) (accs : Dict AccKey (Bar F))
      (max_id : Dict AccKey EntryId) (rows : List (Row F))
      → All (λ e. OwnKey e.0 e.1) accs
      → AtOrAfter id (lookup key max_id)
      → contains key accs ≡ true
      → sealed accs max_id ≡ ok rows
      → All (Covers table) rows
      → WatermarkCovers (lookup (row_of key) table) id
  unfolding sealed seal
  sealed-Covers table key id [] max_id rows k a h s c = cc
  sealed-Covers table key id ((j, acc) ∷ accs) max_id rows k a h s c =
      let (i, found, s') = >>=-eq-ok (or_raise key_error (lookup j max_id)) _ s in
      let (rest, made, s'') = >>=-eq-ok (sealed accs max_id) _ s' in
      let c' : All (Covers table) (record { bar = seal acc; last_stream_id = i } ∷ rest) =
        subst (All (Covers table)) (sym (ok-inj s'')) c in
      elim (Bool-cases (same_pair key j)) [
        | inl e ↦
            let same = same_pair→eq key j e in
            covers-earlier (lookup (row_of key) table) id i
              (subst (AtOrAfter id)
                (ap (λ q. lookup q max_id) same ∙ or_raise-ok key_error (lookup j max_id) found) a)
              (subst₂ (λ x y. WatermarkCovers (lookup (x, y) table) i)
                (k.0.0 ∙ ap (λ q. q.0) (sym same)) (k.0.1 ∙ ap (λ q. from_epoch q.1) (sym same))
                c'.0)
        | inr e ↦ sealed-Covers table key id accs max_id rest k.1 a (ground (arith, e)) made c'.1
      ]

module _ {F : Type 0} ⦃f : Float F⦄ ⦃parsers : Parsers F⦄ where
  -- What is asked of an entry that was taken in.
  abbrev Taken : Persister F → ℕ → Entry → Type 0
  Taken p seconds (id, fields) =
      OfTick (λ (t : Tick F). Recorded p (t.symbol, epoch_of (floor_to_bucket t.ts seconds)) id)
        (parse fields)

  OfTick-map :
      (P Q : Tick F → Type 0) (r : Result (Tick F))
      → ((t : Tick F) → P t → Q t)
      → OfTick P r
      → OfTick Q r
  OfTick-map P Q (raise e) k h = tt
  OfTick-map P Q (ok t) k h = k t h

  parsed-Recorded :
      (id q : EntryId) (r : Result (Tick F)) (p : Persister F) (key : AccKey)
      → Recorded p key q
      → Recorded (ingest_parsed id r p) key q
  parsed-Recorded id q (raise e) p key h = h
  parsed-Recorded id q (ok t) p key h = ingest_tick-Recorded id q t p key h

  parsed-records :
      (id : EntryId) (r : Result (Tick F)) (p : Persister F)
      → OfTick (λ t. Recorded (ingest_parsed id r p) (acc_key t p) id) r
  parsed-records id (raise e) p = tt
  parsed-records id (ok t) p = ingest_tick-records id t p

  take_in-Recorded :
      (entries : List Entry) (p : Persister F) (key : AccKey) (q : EntryId)
      → Recorded p key q
      → Recorded (take_in entries p) key q
  unfolding take_in
  take_in-Recorded [] p key q h = h
  take_in-Recorded ((id, fields) ∷ entries) p key q h =
      let g = parsed-Recorded id q (parse fields) p key h in
      take_in-Recorded entries _ key q (record { kept = g.kept; open_acc = g.open_acc })

  take_in-Taken :
      (entries : List Entry) (p : Persister F) (seconds : ℕ)
      → p.bucket_seconds ≡ seconds
      → All (Taken (take_in entries p) seconds) entries
  unfolding take_in
  take_in-Taken [] p seconds s = tt
  take_in-Taken ((id, fields) ∷ entries) p seconds s = (
    OfTick-map _ _ (parse fields)
        (λ t g. take_in-Recorded entries _ _ id (record { kept = g.kept; open_acc = g.open_acc }))
        (subst
          (λ n.
            OfTick
              (λ (t : Tick F).
                Recorded (ingest_parsed id (parse fields) p)
                  (t.symbol, epoch_of (floor_to_bucket t.ts n)) id)
              (parse fields))
          s (parsed-records id (parse fields) p)),
    take_in-Taken entries _ seconds (parsed-seconds id (parse fields) p ∙ s),
  )

  Taken-Committed :
      (table : Table F) (p : Persister F) (rows : List (Row F)) (seconds : ℕ) (entries : List Entry)
      → IsValid p
      → sealed p.accs p.max_id ≡ ok rows
      → All (Covers table) rows
      → All (Taken p seconds) entries
      → All (Committed table seconds) entries
  Taken-Committed table p rows seconds entries v s c =
      All-map
        (λ (id, fields). OfTick-map _ _ (parse fields) (λ t g.
          subst (λ b. WatermarkCovers (lookup (t.symbol, b) table) id) (floor-whole t.ts seconds)
            (sealed-Covers table _ id p.accs p.max_id rows v.keyed g.kept g.open_acc s c)))
        entries

  -- What the table holds it goes on to hold, whatever batch is committed next.
  pub commit-Committed :
      (rows : List (Row F)) (table : Table F) (seconds : ℕ) (entries : List Entry)
      → All (Committed table seconds) entries
      → All (Committed (upsert_bars rows table) seconds) entries
  commit-Committed rows table seconds entries =
      All-map
        (λ (id, fields).
          OfTick-map _ _ (parse fields)
            (λ t. upsert_bars-keeps rows (t.symbol, floor_to_bucket t.ts seconds) id table))
        entries

module _ {R F : Type 0} ⦃f : Float F⦄ ⦃parsers : Parsers F⦄ ⦃group : Group R⦄ where
  flush_rows-acks :
      (now : ℕ) (accs : Dict AccKey (Bar F)) (r : Result (List (Row F))) (p : Persister F)
      (w : World R F)
      → ((flush_rows now accs r p w).world.redis ≡ w.redis)
        ⊎ ((rows : List (Row F)) × (r ≡ ok rows)
            × ((flush_rows now accs r p w).world.table ≡ upsert_bars rows w.table))
  unfolding flush_rows commit
  flush_rows-acks now [] r p w = inl refl
  flush_rows-acks now (_ ∷ _) (raise e) p w = inl refl
  flush_rows-acks now (_ ∷ _) (ok rows) p w = elim (Bool-cases w.database_up) [
    | inl e ↦ inr (rows, refl, ground (arith, e))
    | inr e ↦ inl (ground (arith, e))
  ]

  -- A flush of what a valid persister has taken in acknowledges nothing, or else the table holds
  -- every well-formed entry of it afterwards: each one's row is there, at its stream id or a later one.
  pub flush-Committed :
      (now : ℕ) (entries : List Entry) (p : Persister F) (w : World R F)
      → IsValid p
      → ((flush now (take_in entries p) w).world.redis ≡ w.redis)
        ⊎ All (Committed (flush now (take_in entries p) w).world.table p.bucket_seconds) entries
  unfolding flush
  flush-Committed now entries p w v =
      let q = take_in entries p in
      elim (flush_rows-acks now q.accs (sealed q.accs q.max_id) q w) [
        | inl e ↦ inl e
        | inr (rows, s, e) ↦ inr (
            Taken-Committed _ q rows p.bucket_seconds entries (take_in-IsValid entries p v) s
              (subst (λ t. All (Covers t) rows) (sym e) (upsert_bars-Covers rows w.table))
              (take_in-Taken entries p p.bucket_seconds refl))
      ]
