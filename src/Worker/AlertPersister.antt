-- ===== src/Worker/AlertPersister.antt =====
-- `AlertPersister` of apps/worker/fx_worker/alerts.py and `insert_alerts` of
-- apps/worker/fx_worker/db.py: transitions from the alert stream into `alert_events`.
pub mod Accounting
pub mod Settling
mod Tests
use live_forex_volatility_tr.Base.{
  ℕ, suc, ◌≡◌, refl, ap, Bool, true, false, ◌&&◌, ◌||◌, not, Option, none, some, List, [], ◌∷◌,
  arith, ◌==◌, if◌then◌else◌, is_some, any, length, map,
}
use live_forex_volatility_tr.Base.Int.{ℤ}
use live_forex_volatility_tr.Base.Clock.{Instant}
use live_forex_volatility_tr.Base.Float.{Float}
use live_forex_volatility_tr.Base.Text.{Text, codes, eq_text}
use live_forex_volatility_tr.Base.Result.{
  or_raise, Result, ok, raise, raise_if, key_error, value_error, connection_error, ◌>>=◌, ◌>>◌,
}
use live_forex_volatility_tr.Base.Dict.{
  Dict, Key, lookup, contains, insert_new, get_or, text_key, int_key, pair_key,
}
use live_forex_volatility_tr.Worker.Table.{EntryId}
use live_forex_volatility_tr.Worker.Persister.{Fields, Entry, Parsers, Group}
use live_forex_volatility_tr.Worker.Persister.Loops.{ack_all}

pub record AlertRow (F : Type 0) : Type 0 where
  pub symbol : Text
  pub seq : ℤ
  pub ts : Instant
  pub old_regime : Text
  pub new_regime : Text
  pub trigger_value : Option F
  pub threshold_value : F
  pub sigma : Option F
  pub cause : Text
  pub reason : Text

-- The primary key of `alert_events`.
abbrev pub AlertKey : Type 0
AlertKey = Text × ℤ

abbrev pub key_of : {F : Type 0} → AlertRow F → AlertKey
key_of r = (r.symbol, r.seq)

abbrev pub AlertTable : Type 0 → Type 0
AlertTable F = Dict AlertKey (AlertRow F)

-- `_VALID_REGIMES` and `_VALID_CAUSES`
abbrev pub valid_regime : Text → Bool
valid_regime s = eq_text s (codes "normal") || eq_text s (codes "stressed")

abbrev pub valid_cause : Text → Bool
valid_cause s =
    eq_text s (codes "threshold")
    || (eq_text s (codes "baseline_thaw") || eq_text s (codes "observation_lost"))

module _ {F : Type 0} ⦃f : Float F⦄ ⦃parsers : Parsers F⦄ where
  abbrev pub finite_only : F → Option F
  finite_only x = if f.is_finite x then some x else none

  -- `_optional_float`
  abbrev pub optional_float : Text → Result (Option F)
  optional_float [] = ok none
  optional_float (c ∷ raw) = do
    x ← or_raise value_error (parsers.parse_float (c ∷ raw))
    ok (finite_only x)

  -- `_parse`, which answers None where this raises.
  unfoldable pub parse : Fields → Result (AlertRow F)
  parse fields = do
    old_regime ← or_raise key_error (lookup (codes "old_regime") fields)
    new_regime ← or_raise key_error (lookup (codes "new_regime") fields)
    cause ← or_raise key_error (lookup (codes "cause") fields)
    raise_if (not (valid_regime old_regime) || not (valid_regime new_regime)) value_error
    raise_if (eq_text old_regime new_regime) value_error
    raise_if (not (valid_cause cause)) value_error
    raw_ts ← or_raise key_error (lookup (codes "ts") fields)
    ts ← or_raise value_error (parsers.from_iso raw_ts)
    symbol ← or_raise key_error (lookup (codes "s") fields)
    raw_seq ← or_raise key_error (lookup (codes "seq") fields)
    seq ← or_raise value_error (parsers.parse_int raw_seq)
    trigger_value ← optional_float (get_or [] (lookup (codes "trigger_value") fields))
    raw_threshold ← or_raise key_error (lookup (codes "threshold_value") fields)
    threshold_value ← or_raise value_error (parsers.parse_float raw_threshold)
    sigma ← optional_float (get_or [] (lookup (codes "sigma") fields))
    ok (record {
      symbol = symbol;
      seq = seq;
      ts = ts;
      old_regime = old_regime;
      new_regime = new_regime;
      trigger_value = trigger_value;
      threshold_value = threshold_value;
      sigma = sigma;
      cause = cause;
      reason = get_or [] (lookup (codes "reason") fields);
    })

abbrev pub landed_in : AlertKey → List AlertKey → Bool
landed_in key landed = any (pair_key.same key) landed

module _ {F : Type 0} where
  -- ON CONFLICT (symbol, seq) DO NOTHING
  unfoldable pub insert_row : AlertRow F → AlertTable F → AlertTable F
  insert_row r t = insert_new (key_of r) r t

  -- The statement on the rows of the arrays, in order: the keys RETURNING, and the table.
  unfoldable pub insert_rows : List (AlertRow F) → AlertTable F → List AlertKey × AlertTable F
  unfolding insert_row
  insert_rows [] t = ([], t)
  insert_rows (r ∷ rows) t =
      let (landed, t') = insert_rows rows (insert_row r t) in
      (if contains (key_of r) t then landed else key_of r ∷ landed, t')

  -- `[key for row in rows if key not in landed]`
  unfoldable pub conflicts : List AlertKey → List (AlertRow F) → List AlertKey
  conflicts landed [] = []
  conflicts landed (r ∷ rows) =
      let rest = conflicts landed rows in
      if landed_in (key_of r) landed then rest else key_of r ∷ rest

  -- `by_key[key]`: the last row of the key.
  unfoldable pub by_key : AlertKey → List (AlertRow F) → Option (AlertRow F)
  by_key key [] = none
  by_key key (r ∷ rows) = elim (by_key key rows) [
    | none ↦ if pair_key.same key (key_of r) then some r else none
    | some later ↦ some later
  ]

-- What `_classify_conflicts` counts a conflict as.
pub data Conflict : Type 0 where
  redelivered seq_collision : Conflict

module _ {F : Type 0} where
  abbrev pub classify_ts : Option (AlertRow F) → Option (AlertRow F) → Conflict
  classify_ts (some stored) (some incoming) =
      if stored.ts == incoming.ts then redelivered else seq_collision
  classify_ts (some stored) none = seq_collision
  classify_ts none incoming = seq_collision

  unfoldable pub classify : AlertTable F → List (AlertRow F) → AlertKey → Conflict
  unfolding by_key
  classify t rows key = classify_ts (lookup key t) (by_key key rows)

-- What the worker finds outside: Redis and the table, and whether the insert, the reads of stored
-- times after it, and the acknowledgement are answered.
pub record AlertWorld (R F : Type 0) : Type 0 where
  pub redis : R
  pub alerts : AlertTable F
  pub database_up : Bool
  pub reads_up : Bool
  pub redis_up : Bool

module _ {F : Type 0} ⦃f : Float F⦄ ⦃parsers : Parsers F⦄ where
  abbrev pub keep_parsed : Result (AlertRow F) → List (AlertRow F) → List (AlertRow F)
  keep_parsed (raise e) rows = rows
  keep_parsed (ok r) rows = r ∷ rows

  -- The rows of `_consume`; a malformed entry has none.
  unfoldable pub parsed_rows : List Entry → List (AlertRow F)
  unfolding parse
  parsed_rows [] = []
  parsed_rows ((id, fields) ∷ entries) = keep_parsed (parse fields) (parsed_rows entries)

-- What a batch was answered, and what it left.
pub record Consumed (R F : Type 0) : Type 0 where
  pub outcome : Result (List Conflict)
  pub world : AlertWorld R F

module _ {R F : Type 0} ⦃group : Group R⦄ where
  -- `if entry_ids: await xack(...)`, after what came before it.
  unfoldable pub acknowledge : List EntryId → List Conflict → AlertWorld R F → Consumed R F
  acknowledge [] found w = record { outcome = ok found; world = w }
  acknowledge (id ∷ ids) found w =
      if not w.redis_up
      then record { outcome = raise connection_error; world = w }
      else record { outcome = ok found; world = record w { redis = group.ack (id ∷ ids) w.redis } }

  -- `_classify_conflicts`: one read for each conflict.
  unfoldable pub classified :
      List (AlertRow F) → List AlertKey → AlertWorld R F → Result (List Conflict)
  unfolding classify
  classified rows [] w = ok []
  classified rows (key ∷ keys) w =
      if not w.reads_up
      then raise connection_error
      else ok (map (classify w.alerts rows) (key ∷ keys))

  -- `_flush` after its insert.
  unfoldable pub after_insert :
      List EntryId → Result (List Conflict) → AlertWorld R F → Consumed R F
  unfolding acknowledge
  after_insert ids (raise e) w = record { outcome = raise e; world = w }
  after_insert ids (ok found) w = acknowledge ids found w

  -- `_flush`
  unfoldable pub flush : List (AlertRow F) → List EntryId → AlertWorld R F → Consumed R F
  unfolding insert_rows conflicts classified after_insert acknowledge
  flush [] ids w = acknowledge ids [] w
  flush (r ∷ rows) ids w =
      if not w.database_up
      then record { outcome = raise connection_error; world = w }
      else let (landed, t) = insert_rows (r ∷ rows) w.alerts in
        let w' = record w { alerts = t } in
        after_insert ids (classified (r ∷ rows) (conflicts landed (r ∷ rows)) w') w'

module _ {R F : Type 0} ⦃f : Float F⦄ ⦃parsers : Parsers F⦄ ⦃group : Group R⦄ where
  -- `_consume`
  unfoldable pub consume : List Entry → AlertWorld R F → Consumed R F
  unfolding flush parsed_rows
  consume entries w = flush (parsed_rows entries) (map (λ e. e.0) entries) w
