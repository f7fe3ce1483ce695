-- ===== src/Worker/Persister/Loops.antt =====
-- `flush`, `drain_own_pending`, `claim_abandoned` and the rounds of `run` of
-- apps/worker/fx_worker/persister.py.
use live_forex_volatility_tr.Base.{
  ℕ, zero, suc, ◌+◌, ◌==◌, Bool, true, false, ◌&&◌, ◌||◌, not, Option, none, some, List, [], ◌∷◌,
  if◌then◌else◌, length, take,
}
use live_forex_volatility_tr.Base.Float.{Float}
use live_forex_volatility_tr.Base.Result.{Result, ok, raise, connection_error}
use live_forex_volatility_tr.Base.Dict.{Dict, text_key, number_key, pair_key}
use live_forex_volatility_tr.Volatility.Bars.{Bar}
use live_forex_volatility_tr.Worker.Table.{EntryId, Row, upsert_bars}
use live_forex_volatility_tr.Worker.Persister.{
  AccKey, Persister, Parsers, Group, World, sealed, cleared, take_in, should_flush,
}

-- How a call ends: what it returns or raises, and what it leaves.
pub record Ended (R F : Type 0) : Type 0 where
  pub outcome : Result ℕ
  pub persister : Persister F
  pub world : World R F

module _ {R : Type 0} ⦃group : Group R⦄ where
  -- `if self._unacked: await xack(...)`
  abbrev pub ack_all : List EntryId → R → R
  ack_all [] redis = redis
  ack_all (id ∷ ids) redis = group.ack (id ∷ ids) redis

abbrev is_nil : {A : Type 0} → List A → Bool
is_nil [] = true
is_nil (x ∷ xs) = false

-- `cursor in ("0-0", 0, "0")`
abbrev pub is_start : EntryId → Bool
is_start id = (id.ms == 0) && (id.seq == 0)

module _ {R F : Type 0} ⦃f : Float F⦄ ⦃group : Group R⦄ where
  -- After the commit: the acknowledgement, and the accumulators cleared. Where Redis does not answer,
  -- the table has the batch and the persister keeps it.
  unfoldable pub acknowledge : ℕ → ℕ → Persister F → World R F → Ended R F
  acknowledge now written p w =
      if not (is_nil p.unacked || w.redis_up)
      then record { outcome = raise connection_error; persister = p; world = w }
      else record {
        outcome = ok written;
        persister = record (cleared p) { last_flush = now };
        world = record w { redis = ack_all p.unacked w.redis };
      }

  -- The commit, and after it the acknowledgement.
  unfoldable pub commit : ℕ → List (Row F) → Persister F → World R F → Ended R F
  unfolding acknowledge
  commit now rows p w =
      if not w.database_up
      then record { outcome = raise connection_error; persister = p; world = w }
      else acknowledge now (length rows) p (record w { table = upsert_bars rows w.table })

  -- `flush` on its accumulators, with the batch made of them.
  unfoldable pub flush_rows :
      ℕ → Dict AccKey (Bar F) → Result (List (Row F)) → Persister F → World R F → Ended R F
  unfolding commit
  flush_rows now [] rows p w = record {
    outcome = ok 0;
    persister = record p { last_flush = now };
    world = w;
  }
  flush_rows now (_ ∷ _) (raise e) p w = record { outcome = raise e; persister = p; world = w }
  flush_rows now (_ ∷ _) (ok rows) p w = commit now rows p w

  -- `flush`, at the monotonic time `now`.
  unfoldable pub flush : ℕ → Persister F → World R F → Ended R F
  unfolding sealed flush_rows
  flush now p w = flush_rows now p.accs (sealed p.accs p.max_id) p w

module _ {R F : Type 0} ⦃f : Float F⦄ ⦃parsers : Parsers F⦄ ⦃group : Group R⦄ where
  -- The loop of `drain_own_pending`, on fuel; `none` where the fuel runs out.
  unfoldable pub drain_loop : ℕ → ℕ → ℕ → Persister F → World R F → Option (Ended R F)
  unfolding take_in flush
  drain_loop zero now total p w = none
  drain_loop (suc fuel) now total p w = elim (take p.flush_max_rows (group.pending w.redis)) [
    | [] ↦ some (record { outcome = ok total; persister = p; world = w })
    | e ∷ es ↦
        let r = flush now (take_in (e ∷ es) p) w in
        elim r.outcome [
          | raise x ↦ some r
          | ok written ↦ drain_loop fuel now (total + length (e ∷ es)) r.persister r.world
        ]
  ]

  -- `drain_own_pending`
  unfoldable pub drain_own_pending : ℕ → ℕ → Persister F → World R F → Option (Ended R F)
  unfolding drain_loop
  drain_own_pending fuel now p w = drain_loop fuel now 0 (record (cleared p) { last_price = [] }) w

  -- The loop of `claim_abandoned`, from a cursor, on fuel.
  unfoldable pub claim_loop : ℕ → ℕ → EntryId → ℕ → Persister F → World R F → Option (Ended R F)
  unfolding take_in flush
  claim_loop zero now cursor total p w = none
  claim_loop (suc fuel) now cursor total p w =
      let (next, (entries, redis)) = group.autoclaim cursor p.flush_max_rows w.redis in
      let w' = record w { redis = redis } in
      elim entries [
        | [] ↦ some (record { outcome = ok total; persister = p; world = w' })
        | e ∷ es ↦
            let r = flush now (take_in (e ∷ es) p) w' in
            elim r.outcome [
              | raise x ↦ some r
              | ok written ↦
                  let count = total + length (e ∷ es) in
                  let rest = claim_loop fuel now next count r.persister r.world in
                  if is_start next then some (record r { outcome = ok count }) else rest
            ]
      ]

  -- `claim_abandoned`
  unfoldable pub claim_abandoned : ℕ → ℕ → Persister F → World R F → Option (Ended R F)
  unfolding claim_loop
  claim_abandoned fuel now p w = claim_loop fuel now (record { ms = 0; seq = 0 }) 0 p w

  -- A round of `run` in steady state: read new entries, fold them in, flush when it is time.
  unfoldable pub steady_round : ℕ → Persister F → World R F → Ended R F
  unfolding take_in flush should_flush
  steady_round now p w =
      let (entries, redis) = group.read_new p.flush_max_rows w.redis in
      let q = take_in entries p in
      let w' = record w { redis = redis } in
      if should_flush now q
      then flush now q w'
      else record { outcome = ok 0; persister = q; world = w' }
