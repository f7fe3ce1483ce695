-- ===== src/Worker/Persister/Drained.antt =====
-- The loop of `drain_own_pending` of apps/worker/fx_worker/persister.py, where the pending entries
-- parse: it ends, with all of them committed and acknowledged.
use live_forex_volatility_tr.Base.{
  ℕ, zero, suc, ◌+◌, ◌<◌, ◌≡◌, refl, sym, ◌∙◌, ap, subst, true, Option, none, some, List, [], ◌∷◌,
  ◌++◌, arith, map, inl, inr, subst₂, length, take, drop, All, length-drop, List-cases, take-empty,
  All-take, All-drop, All-trivial,
}
use live_forex_volatility_tr.Base.Float.{Float}
use live_forex_volatility_tr.Base.Result.{Result, ok, raise, Returns, Returns-weaken}
use live_forex_volatility_tr.Base.Dict.{Dict, contains, text_key, number_key, pair_key}
use live_forex_volatility_tr.Volatility.Bars.{Bar}
use live_forex_volatility_tr.Worker.Table.{Row, upsert_bars}
use live_forex_volatility_tr.Worker.Persister.{
  Entry, AccKey, Parsers, Persister, Group, World, take_in, sealed, cleared,
}
use live_forex_volatility_tr.Worker.Persister.Loops.{
  Ended, commit, flush_rows, flush, drain_loop, drain_own_pending, ack_all,
}
use live_forex_volatility_tr.Worker.Persister.Counting.{ticks, take_in-counts}
use live_forex_volatility_tr.Worker.Persister.Redelivery.{
  OwnKey, IsValid, take_in-IsValid, sealed-All,
}
use live_forex_volatility_tr.Worker.Persister.Drain.{
  WellFormed, well_formed-length, take_in-rows, drain-next, drain-stop, AckRemoves,
}

module _ {F : Type 0} where
  empty-IsValid : (p : Persister F) → p.accs ≡ [] → IsValid p
  empty-IsValid p e = record {
    keyed = subst (All (λ e. OwnKey e.0 e.1)) (sym e) tt;
    has_ids = subst (All (λ e. contains e.0 p.max_id ≡ true)) (sym e) tt;
  }

module _ {R F : Type 0} ⦃f : Float F⦄ ⦃parsers : Parsers F⦄ ⦃group : Group R⦄ where
  -- A flush of a valid persister with something accumulated, when Postgres answers.
  record Commits (now : ℕ) (q : Persister F) (w : World R F) (ended : Ended R F) : Type 0 where
    written : ℕ
    outcome : ended.outcome ≡ ok written
    persister : ended.persister ≡ record (cleared q) { last_flush = now }
    redis : ended.world.redis ≡ ack_all q.unacked w.redis
    database_up : ended.world.database_up ≡ true
    redis_up : ended.world.redis_up ≡ true

  flush_rows-up :
      (now : ℕ) (x : AccKey × Bar F) (accs : Dict AccKey (Bar F)) (rows : List (Row F))
      (q : Persister F) (w : World R F)
      → w.database_up ≡ true
      → w.redis_up ≡ true
      → flush_rows now (x ∷ accs) (ok rows) q w ≡ (record {
        outcome = ok (length rows);
        persister = record (cleared q) { last_flush = now };
        world = record w { redis = ack_all q.unacked w.redis; table = upsert_bars rows w.table };
      })
  unfolding flush_rows commit
  flush_rows-up now x accs rows q w up answers = ground (arith, up, answers)

  flush_rows-Commits :
      (now : ℕ) (accs : Dict AccKey (Bar F)) (r : Result (List (Row F))) (q : Persister F)
      (w : World R F)
      → 0 < ticks accs
      → Returns (λ rows. Unit {0}) r
      → w.database_up ≡ true
      → w.redis_up ≡ true
      → Commits now q w (flush_rows now accs r q w)
  unfolding flush_rows commit
  flush_rows-Commits now [] r q w n g up answers = absurd (omega arith)
  flush_rows-Commits now (x ∷ accs) (raise e) q w n g up answers = absurd g
  flush_rows-Commits now (x ∷ accs) (ok rows) q w n g up answers =
      subst (Commits now q w) (sym (flush_rows-up now x accs rows q w up answers)) (record {
        written = length rows;
        outcome = refl;
        persister = refl;
        redis = refl;
        database_up = up;
        redis_up = answers;
      })

  flush-Commits :
      (now : ℕ) (q : Persister F) (w : World R F)
      → IsValid q
      → 0 < ticks q.accs
      → w.database_up ≡ true
      → w.redis_up ≡ true
      → Commits now q w (flush now q w)
  unfolding flush
  flush-Commits now q w v n up answers =
      flush_rows-Commits now q.accs (sealed q.accs q.max_id) q w n
        (Returns-weaken _ (λ rows. Unit {0}) (sealed q.accs q.max_id) (λ rows g. tt)
          (sealed-All (λ key id. Unit {0}) q.accs q.max_id v.keyed v.has_ids
            (All-trivial q.max_id)))
        up answers

  -- `drain_own_pending` ends once every pending entry is committed and acknowledged.
  abbrev Drained : ℕ → Option (Ended R F) → Type 0
  Drained total none = ⊥
  Drained total (some ended) = (ended.outcome ≡ ok total) × (group.pending ended.world.redis ≡ [])

  -- One batch of the drain: committed, and no longer pending.
  batch-Commits :
      (now : ℕ) (p : Persister F) (w : World R F) (e : Entry) (es : List Entry)
      → AckRemoves R
      → w.database_up ≡ true
      → w.redis_up ≡ true
      → p.accs ≡ []
      → p.unacked ≡ []
      → take p.flush_max_rows (group.pending w.redis) ≡ e ∷ es
      → All (WellFormed F) (e ∷ es)
      → (c : Commits now (take_in (e ∷ es) p) w (flush now (take_in (e ∷ es) p) w)) × (group.pending
            (flush now (take_in (e ∷ es) p) w).world.redis
          ≡ drop p.flush_max_rows (group.pending w.redis))
  batch-Commits now p w e es acks up answers a u r m =
      let q = take_in (e ∷ es) p in
      let (counts, kept) = take_in-counts (e ∷ es) p in
      let some_ticks : 0 < ticks q.accs =
        subst (λ n. 0 < n) (sym counts) (omega (arith, well_formed-length F (e ∷ es) m)) in
      let c =
        flush-Commits now q w (take_in-IsValid (e ∷ es) p (empty-IsValid p a)) some_ticks up
          answers in
      let ids : q.unacked ≡ map (λ x. x.0) (e ∷ es) =
        kept ∙ ap (λ x. x ++ map (λ x. x.0) (e ∷ es)) u in
      (
        c,
        ap group.pending (c.redis ∙ ap (λ x. ack_all x w.redis) ids)
            ∙ ap (λ x. group.pending (group.ack (map (λ x. x.0) x) w.redis)) (sym r)
            ∙ acks w.redis p.flush_max_rows,
      )

  Drained-ends :
      (total : ℕ) (o : Option (Ended R F))
      → Drained total o
      → (ended : Ended R F) × (o ≡ some ended)
        × (ended.outcome ≡ ok total)
        × (group.pending ended.world.redis ≡ [])
  Drained-ends total none h = absurd h
  Drained-ends total (some ended) h = (ended, refl, h.0, h.1)

  drain_loop-Drained :
      (fuel now total : ℕ) (p : Persister F) (w : World R F)
      → AckRemoves R
      → w.database_up ≡ true
      → w.redis_up ≡ true
      → 0 < p.flush_max_rows
      → p.accs ≡ []
      → p.unacked ≡ []
      → All (WellFormed F) (group.pending w.redis)
      → length (group.pending w.redis) < fuel
      → Drained (total + length (group.pending w.redis)) (drain_loop fuel now total p w)
  drain_loop-Drained zero now total p w acks up answers rows a u wf enough = absurd (omega arith)
  drain_loop-Drained (suc fuel) now total p w acks up answers rows a u wf enough =
      elim (List-cases (take p.flush_max_rows (group.pending w.redis))) [
        | inl r ↦
            let none_left : group.pending w.redis ≡ [] =
              take-empty p.flush_max_rows (group.pending w.redis) rows r in
            subst₂ Drained (omega (arith, ap length none_left))
              (sym (drain-stop fuel now total p w r)) (refl, none_left)
        | inr (e, es, r) ↦
            let m =
              subst (All (WellFormed F)) r
                (All-take (WellFormed F) p.flush_max_rows (group.pending w.redis) wf) in
            let (c, left) = batch-Commits now p w e es acks up answers a u r m in
            let ended = flush now (take_in (e ∷ es) p) w in
            let same_rows : ended.persister.flush_max_rows ≡ p.flush_max_rows =
              ap (λ x. x.flush_max_rows) c.persister ∙ take_in-rows (e ∷ es) p in
            let split = length-drop p.flush_max_rows (group.pending w.redis) in
            subst₂ Drained (omega (arith, split, ap length left, ap length r))
              (sym (drain-next fuel now total c.written p w e es r c.outcome))
              (drain_loop-Drained fuel now (total + length (e ∷ es)) ended.persister ended.world
                acks c.database_up c.redis_up (subst (λ n. 0 < n) (sym same_rows) rows)
                (ap (λ x. x.accs) c.persister) (ap (λ x. x.unacked) c.persister)
                (subst (All (WellFormed F)) (sym left)
                  (All-drop (WellFormed F) p.flush_max_rows (group.pending w.redis) wf))
                (omega (arith, split, ap length left, ap length r)))
      ]

  -- Where every pending entry parses, Postgres and Redis answer, the batches are not empty and an
  -- acknowledgement removes its entries, `drain_own_pending` ends after at most one read for each
  -- pending entry and one more: it returns their number, and none of them is pending.
  pub drain_ends :
      (fuel now : ℕ) (p : Persister F) (w : World R F)
      → AckRemoves R
      → w.database_up ≡ true
      → w.redis_up ≡ true
      → 0 < p.flush_max_rows
      → All (WellFormed F) (group.pending w.redis)
      → length (group.pending w.redis) < fuel
      → (ended : Ended R F) × (drain_own_pending fuel now p w ≡ some ended)
        × (ended.outcome ≡ ok (length (group.pending w.redis)))
        × (group.pending ended.world.redis ≡ [])
  unfolding drain_own_pending
  drain_ends fuel now p w acks up answers rows wf enough = Drained-ends _ _ (
      subst (λ n. Drained n (drain_loop fuel now 0 (record (cleared p) { last_price = [] }) w))
        (omega arith)
        (drain_loop-Drained fuel now 0 (record (cleared p) { last_price = [] }) w acks up answers
          rows refl refl wf enough))
