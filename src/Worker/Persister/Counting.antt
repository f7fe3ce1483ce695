-- ===== src/Worker/Persister/Counting.antt =====
-- What the `Persister` of apps/worker/fx_worker/persister.py takes in: every entry is kept for
-- the acknowledgement, and every well-formed one is counted.
use live_forex_volatility_tr.Base.{
  ℕ, suc, ◌+◌, ◌≡◌, refl, sym, ◌∙◌, ap, Option, none, some, List, [], ◌∷◌, ◌++◌, arith, map,
  append_assoc, append-nil,
}
use live_forex_volatility_tr.Base.Float.{Float}
use live_forex_volatility_tr.Base.Text.{Text}
use live_forex_volatility_tr.Base.Result.{Result, ok, raise}
use live_forex_volatility_tr.Base.Dict.{
  Dict, lookup, insert, get_or, text_key, number_key, pair_key,
}
use live_forex_volatility_tr.Volatility.Bars.{Bar, start, stream, add_tick}
use live_forex_volatility_tr.Worker.Table.{EntryId}
use live_forex_volatility_tr.Worker.Persister.{
  Entry, AccKey, Tick, Parsers, Persister, parse, acc_key, mid_price, kept_prices, ingest_tick,
  ingest_parsed, take_in,
}

module _ {F : Type 0} where
  abbrev ticks_of : Option (Bar F) → ℕ
  ticks_of none = 0
  ticks_of (some acc) = acc.tick_count

  -- The ticks of all accumulators.
  abbrev pub ticks : Dict AccKey (Bar F) → ℕ
  ticks [] = 0
  ticks ((key, acc) ∷ accs) = acc.tick_count + ticks accs

  ticks-insert :
      (key : AccKey) (acc : Bar F) (accs : Dict AccKey (Bar F))
      → ticks (insert key acc accs) + ticks_of (lookup key accs) ≡ ticks accs + acc.tick_count
  ticks-insert key acc [] = omega arith
  ticks-insert key acc ((j, b) ∷ accs) = ground (arith, ticks-insert key acc accs)

  abbrev one_if_ok : Result (Tick F) → ℕ
  one_if_ok (raise e) = 0
  one_if_ok (ok t) = 1

module _ {F : Type 0} ⦃f : Float F⦄ where
  acc-counts :
      (symbol : Text) (ts : ℕ) (mid : F) (seconds : ℕ) (prev : Option F) (o : Option (Bar F))
      → (add_tick (get_or (start symbol ts mid seconds stream) o) mid prev).tick_count
        ≡ suc (ticks_of o)
  unfolding add_tick start
  acc-counts symbol ts mid seconds prev none = refl
  acc-counts symbol ts mid seconds prev (some acc) = refl

  parsed-ticks :
      (id : EntryId) (r : Result (Tick F)) (p : Persister F)
      → ticks (ingest_parsed id r p).accs ≡ ticks p.accs + one_if_ok r
  unfolding ingest_tick
  parsed-ticks id (raise e) p = omega arith
  parsed-ticks id (ok t) p =
      let o = lookup (acc_key t p) p.accs in
      let acc =
        add_tick (get_or (start t.symbol t.ts (mid_price t) p.bucket_seconds stream) o)
          (mid_price t) (lookup t.symbol (kept_prices t p)) in
      omega (
        arith,
        ticks-insert (acc_key t p) acc p.accs,
        acc-counts t.symbol t.ts (mid_price t) p.bucket_seconds (lookup t.symbol (kept_prices t p))
            o,
      )

  pub parsed-unacked :
      (id : EntryId) (r : Result (Tick F)) (p : Persister F)
      → (ingest_parsed id r p).unacked ≡ p.unacked
  unfolding ingest_tick
  parsed-unacked id (raise e) p = refl
  parsed-unacked id (ok t) p = refl

module _ (F : Type 0) ⦃f : Float F⦄ ⦃parsers : Parsers F⦄ where
  -- How many entries parse.
  abbrev pub well_formed : List Entry → ℕ
  well_formed [] = 0
  well_formed ((id, fields) ∷ entries) = one_if_ok (parse {F = F} fields) + well_formed entries

module _ {F : Type 0} ⦃f : Float F⦄ ⦃parsers : Parsers F⦄ where
  -- Taking entries in adds exactly one tick to the accumulators for each entry that parses, and
  -- keeps the id of every entry, malformed ones too, to be acknowledged, in order.
  pub take_in-counts :
      (entries : List Entry) (p : Persister F)
      → (ticks (take_in entries p).accs ≡ ticks p.accs + well_formed F entries)
        × ((take_in entries p).unacked ≡ p.unacked ++ map (λ e. e.0) entries)
  unfolding take_in
  take_in-counts [] p = (omega arith, sym (append-nil p.unacked))
  take_in-counts ((id, fields) ∷ entries) p =
      let q = ingest_parsed id (parse fields) p in
      let (counts, kept) = take_in-counts entries (record q { unacked = q.unacked ++ id ∷ [] }) in
      (
        omega (arith, counts, parsed-ticks id (parse fields) p),
        kept
            ∙ append_assoc (q.unacked) (id ∷ []) _
            ∙ ap (λ u. u ++ id ∷ map (λ e. e.0) entries) (parsed-unacked id (parse fields) p),
      )
