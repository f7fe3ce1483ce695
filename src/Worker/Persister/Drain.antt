-- ===== src/Worker/Persister/Drain.antt =====
-- The loop of `drain_own_pending` of apps/worker/fx_worker/persister.py: when it ends, and when it
-- does not.
use live_forex_volatility_tr.Base.{
  ℕ, zero, suc, ◌+◌, ◌≡◌, refl, ◌∙◌, ap, none, some, List, [], ◌∷◌, arith, map, length, take, drop,
  All,
}
use live_forex_volatility_tr.Base.Float.{Float}
use live_forex_volatility_tr.Base.Result.{Result, Exception, ok, raise}
use live_forex_volatility_tr.Base.Dict.{Dict, text_key, number_key, pair_key}
use live_forex_volatility_tr.Volatility.Bars.{Bar}
use live_forex_volatility_tr.Worker.Table.{EntryId, Row}
use live_forex_volatility_tr.Worker.Persister.{
  Entry, AccKey, Tick, Parsers, Persister, Group, World, parse, ingest_tick, ingest_parsed, take_in,
  sealed, cleared,
}
use live_forex_volatility_tr.Worker.Persister.Loops.{
  flush_rows, flush, drain_loop, drain_own_pending,
}
use live_forex_volatility_tr.Worker.Persister.Counting.{well_formed}

module _ (F : Type 0) ⦃f : Float F⦄ ⦃parsers : Parsers F⦄ where
  -- The entry is one that `_ingest_entry` counts as malformed.
  abbrev pub Malformed : Entry → Type 0
  Malformed (id, fields) = (e : Exception) × (parse {F = F} fields ≡ raise e)

  -- It parses.
  abbrev pub WellFormed : Entry → Type 0
  WellFormed (id, fields) = (t : Tick F) × (parse {F = F} fields ≡ ok t)

module _ (F : Type 0) ⦃f : Float F⦄ ⦃parsers : Parsers F⦄ where
  pub well_formed-length :
      (entries : List Entry) → All (WellFormed F) entries → well_formed F entries ≡ length entries
  well_formed-length [] m = refl
  well_formed-length ((id, fields) ∷ entries) ((t, r), m) =
      ground (arith, r, well_formed-length entries m)

module _ {F : Type 0} ⦃f : Float F⦄ ⦃parsers : Parsers F⦄ where
  parsed-rows :
      (id : EntryId) (r : Result (Tick F)) (p : Persister F)
      → (ingest_parsed id r p).flush_max_rows ≡ p.flush_max_rows
  unfolding ingest_tick
  parsed-rows id (raise e) p = refl
  parsed-rows id (ok t) p = refl

  pub take_in-rows :
      (entries : List Entry) (p : Persister F)
      → (take_in entries p).flush_max_rows ≡ p.flush_max_rows
  unfolding take_in
  take_in-rows [] p = refl
  take_in-rows ((id, fields) ∷ entries) p = take_in-rows entries _ ∙ parsed-rows id (parse fields) p

  parsed-malformed :
      (id : EntryId) (r : Result (Tick F)) (p : Persister F) (e : Exception)
      → r ≡ raise e
      → (ingest_parsed id r p).accs ≡ p.accs
  parsed-malformed id (raise x) p e h = refl
  parsed-malformed id (ok t) p e h = cc

  take_in-Malformed :
      (entries : List Entry) (p : Persister F)
      → All (Malformed F) entries
      → (take_in entries p).accs ≡ p.accs
  unfolding take_in
  take_in-Malformed [] p m = refl
  take_in-Malformed ((id, fields) ∷ entries) p ((e, r), m) =
      take_in-Malformed entries _ m ∙ parsed-malformed id (parse fields) p e r

module _ (R : Type 0) ⦃group : Group R⦄ where
  -- Acknowledging the first of the pending entries, by their ids, leaves the others pending.
  abbrev pub AckRemoves : Type 0
  AckRemoves =
      (redis : R) (n : ℕ)
      → group.pending (group.ack (map (λ e. e.0) (take n (group.pending redis))) redis)
        ≡ drop n (group.pending redis)

module _ {R F : Type 0} ⦃f : Float F⦄ ⦃parsers : Parsers F⦄ ⦃group : Group R⦄ where
  flush_rows-empty :
      (now : ℕ) (accs : Dict AccKey (Bar F)) (r : Result (List (Row F))) (p : Persister F)
      (w : World R F)
      → accs ≡ []
      → flush_rows now accs r p w
        ≡ record { outcome = ok 0; persister = record p { last_flush = now }; world = w }
  unfolding flush_rows
  flush_rows-empty now [] r p w e = refl
  flush_rows-empty now (x ∷ accs) r p w e = cc

  -- A round of the loop that goes on.
  pub drain-next :
      (fuel now total n : ℕ) (p : Persister F) (w : World R F) (e : Entry) (es : List Entry)
      → take p.flush_max_rows (group.pending w.redis) ≡ e ∷ es
      → (flush now (take_in (e ∷ es) p) w).outcome ≡ ok n
      → drain_loop (suc fuel) now total p w
        ≡ drain_loop fuel now
            (total + length (e ∷ es))
            (flush now (take_in (e ∷ es) p) w).persister
            (flush now (take_in (e ∷ es) p) w).world
  unfolding drain_loop
  drain-next fuel now total n p w e es r h = ground (arith, r, h)

  pub drain-zero :
      (now total : ℕ) (p : Persister F) (w : World R F) → drain_loop zero now total p w ≡ none
  unfolding drain_loop
  drain-zero now total p w = refl

  drain_loop-stuck :
      (fuel now total : ℕ) (p : Persister F) (w : World R F) (e : Entry) (es : List Entry)
      → p.accs ≡ []
      → take p.flush_max_rows (group.pending w.redis) ≡ e ∷ es
      → All (Malformed F) (e ∷ es)
      → drain_loop fuel now total p w ≡ none
  unfolding flush
  drain_loop-stuck zero now total p w e es a r m = drain-zero now total p w
  drain_loop-stuck (suc fuel) now total p w e es a r m =
      let q = take_in (e ∷ es) p in
      let idle : flush now q w
          ≡ record { outcome = ok 0; persister = record q { last_flush = now }; world = w } =
        flush_rows-empty now q.accs (sealed q.accs q.max_id) q w
          (take_in-Malformed (e ∷ es) p m ∙ a) in
      drain-next fuel now total 0 p w e es r (ap (λ x. x.outcome) idle)
      ∙ drain_loop-stuck fuel now _ _ _ e es
          (ap (λ x. x.persister.accs) idle ∙ take_in-Malformed (e ∷ es) p m ∙ a)
          (ap (λ x. take x.persister.flush_max_rows (group.pending x.world.redis)) idle
            ∙ ap (λ n. take n (group.pending w.redis)) (take_in-rows (e ∷ es) p)
            ∙ r)
          m

  -- Where the first read of the pending entries finds malformed ones only, `drain_own_pending`
  -- never ends, however often it reads: it acknowledges none of them, and so it reads them again.
  pub drain_stuck :
      (fuel now : ℕ) (p : Persister F) (w : World R F) (e : Entry) (es : List Entry)
      → take p.flush_max_rows (group.pending w.redis) ≡ e ∷ es
      → All (Malformed F) (e ∷ es)
      → drain_own_pending fuel now p w ≡ none
  unfolding drain_own_pending
  drain_stuck fuel now p w e es r m =
      drain_loop-stuck fuel now 0 (record (cleared p) { last_price = [] }) w e es refl r m

  pub drain-stop :
      (fuel now total : ℕ) (p : Persister F) (w : World R F)
      → take p.flush_max_rows (group.pending w.redis) ≡ []
      → drain_loop (suc fuel) now total p w
        ≡ some (record { outcome = ok total; persister = p; world = w })
  unfolding drain_loop
  drain-stop fuel now total p w r = ground (arith, r)
