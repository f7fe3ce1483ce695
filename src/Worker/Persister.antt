-- ===== src/Worker/Persister.antt =====
-- `Persister` of apps/worker/fx_worker/persister.py: entries of the tick log are folded into one
-- accumulator per symbol and minute, committed, and only then acknowledged.
pub mod Loops
pub mod Counting
pub mod Redelivery
pub mod Guarantee
pub mod Drain
pub mod Drained
mod Tests
use live_forex_volatility_tr.Base.{
  ℕ, zero, suc, ◌+◌, ◌*◌, ◌≡◌, ◌==◌, refl, Bool, true, false, ◌&&◌, ◌||◌, not, Option, none, some,
  List, [], ◌∷◌, ◌++◌, arith, ltb, leb, if◌then◌else◌, length, any, take,
}
use live_forex_volatility_tr.Base.Int.{ℤ}
use live_forex_volatility_tr.Base.Clock.{Instant, epoch_of}
use live_forex_volatility_tr.Base.Float.{Float}
use live_forex_volatility_tr.Base.Text.{Text, codes, eq_text}
use live_forex_volatility_tr.Base.Result.{
  or_raise, Result, ok, raise, Exception, key_error, value_error, connection_error, ◌>>=◌,
}
use live_forex_volatility_tr.Base.Dict.{
  Dict, Key, lookup, insert, erase, get_or, text_key, number_key, pair_key,
}
use live_forex_volatility_tr.Volatility.Bars.{Bar, stream, floor_to_bucket, start, add_tick, seal}
use live_forex_volatility_tr.Worker.Table.{EntryId, newer, Row, Table, upsert_bars}

-- The fields of an entry, by name.
abbrev pub Fields : Type 0
Fields = Dict Text Text

abbrev pub Entry : Type 0
Entry = EntryId × Fields

abbrev pub AccKey : Type 0
AccKey = Text × ℕ

-- What `_ingest_entry` reads from a well-formed entry.
pub record Tick (F : Type 0) : Type 0 where
  pub symbol : Text
  pub bid : F
  pub ask : F
  pub ts : Instant
  pub provider : Text

-- Python's readers `float(text)`, `int(text)` and `datetime.fromisoformat(text)`, in UTC where
-- the text names no zone; `none` for a ValueError.
pub record Parsers (F : Type 0) : Type 0 where
  pub parse_float : Text → Option F
  pub parse_int : Text → Option ℤ
  pub from_iso : Text → Option Instant

pub record Persister (F : Type 0) : Type 0 where
  pub bucket_seconds : ℕ
  pub flush_max_rows : ℕ
  pub flush_max_microseconds : ℕ
  pub accs : Dict AccKey (Bar F)
  pub last_price : Dict Text F
  pub last_bucket : Dict Text Instant
  pub provider : Dict Text Text
  pub max_id : Dict AccKey EntryId
  pub unacked : List EntryId
  pub last_flush : ℕ

-- `Persister.__init__`, at a monotonic time.
abbrev pub created : {F : Type 0} → (seconds rows microseconds now : ℕ) → Persister F
created seconds rows microseconds now = record {
  bucket_seconds = seconds;
  flush_max_rows = rows;
  flush_max_microseconds = microseconds;
  accs = [];
  last_price = [];
  last_bucket = [];
  provider = [];
  max_id = [];
  unacked = [];
  last_flush = now;
}

-- The consumer group that Redis keeps: the entries delivered to this consumer and not yet
-- acknowledged, XACK, XREADGROUP of up to `count` new entries, and XAUTOCLAIM from a cursor,
-- which answers the next cursor and the entries taken over.
pub record Group (R : Type 0) : Type 0 where
  pub pending : R → List Entry
  pub ack : List EntryId → R → R
  pub read_new : ℕ → R → List Entry × R
  pub autoclaim : EntryId → ℕ → R → EntryId × (List Entry × R)

-- What a call finds outside: Redis, the table, whether Postgres answers, and whether Redis answers
-- an acknowledgement.
pub record World (R F : Type 0) : Type 0 where
  pub redis : R
  pub table : Table F
  pub database_up : Bool
  pub redis_up : Bool

module _ {F : Type 0} ⦃f : Float F⦄ ⦃parsers : Parsers F⦄ where
  -- The `try` of `_ingest_entry`.
  unfoldable pub parse : Fields → Result (Tick F)
  parse fields = do
    symbol ← or_raise key_error (lookup (codes "s") fields)
    b ← or_raise key_error (lookup (codes "b") fields)
    bid ← or_raise value_error (parsers.parse_float b)
    a ← or_raise key_error (lookup (codes "a") fields)
    ask ← or_raise value_error (parsers.parse_float a)
    t ← or_raise key_error (lookup (codes "t") fields)
    ts ← or_raise value_error (parsers.from_iso t)
    ok (record {
      symbol = symbol;
      bid = bid;
      ask = ask;
      ts = ts;
      provider = get_or (codes "") (lookup (codes "p") fields);
    })

-- `(bucket - last_bucket).total_seconds() > bucket_seconds * GAP_BAR_MULTIPLE`
abbrev pub beyond_gap : Instant → Instant → ℕ → Bool
beyond_gap bucket last seconds = ltb (last + seconds * 3 * 1_000_000) bucket

-- The later of the two ids.
unfoldable pub max_of : Option EntryId → EntryId → EntryId
max_of none id = id
max_of (some prev) id = if newer id prev then id else prev

module _ {F : Type 0} where
  abbrev pub acc_key : Tick F → Persister F → AccKey
  acc_key t p = (t.symbol, epoch_of (floor_to_bucket t.ts p.bucket_seconds))

  -- `_should_flush`
  unfoldable pub should_flush : ℕ → Persister F → Bool
  should_flush now p =
      leb p.flush_max_rows (length p.unacked) || leb (p.last_flush + p.flush_max_microseconds) now

  -- `_accs.clear()`, `_max_id.clear()`, `_unacked.clear()`
  abbrev pub cleared : Persister F → Persister F
  cleared p = record p { accs = []; max_id = []; unacked = [] }

module _ {F : Type 0} ⦃f : Float F⦄ where
  -- The prices to take a return from: a symbol's is dropped where its feed changes, and across
  -- a gap.
  unfoldable pub kept_prices : Tick F → Persister F → Dict Text F
  kept_prices t p =
      let provider_changed =
        not (eq_text (get_or t.provider (lookup t.symbol p.provider)) t.provider) in
      let prices = if provider_changed then erase t.symbol p.last_price else p.last_price in
      let bucket = floor_to_bucket t.ts p.bucket_seconds in
      if beyond_gap bucket (get_or bucket (lookup t.symbol p.last_bucket)) p.bucket_seconds
      then erase t.symbol prices
      else prices

  abbrev pub mid_price : Tick F → F
  mid_price t = f.div (f.add t.bid t.ask) (f.of_ℕ 2)

  -- `_ingest_entry` after the `try`.
  unfoldable pub ingest_tick : EntryId → Tick F → Persister F → Persister F
  ingest_tick id t p =
      let prices = kept_prices t p in
      let key = acc_key t p in
      let mid = mid_price t in
      let acc = get_or (start t.symbol t.ts mid p.bucket_seconds stream) (lookup key p.accs) in
      record p {
        accs = insert key (add_tick acc mid (lookup t.symbol prices)) p.accs;
        last_price = insert t.symbol mid prices;
        last_bucket = insert t.symbol (floor_to_bucket t.ts p.bucket_seconds) p.last_bucket;
        provider = insert t.symbol t.provider p.provider;
        max_id = insert key (max_of (lookup key p.max_id) id) p.max_id;
      }

  abbrev pub ingest_parsed : EntryId → Result (Tick F) → Persister F → Persister F
  ingest_parsed id (raise e) p = p
  ingest_parsed id (ok t) p = ingest_tick id t p

  -- The batch of `flush`: `self._max_id[key]` raises where the key is missing.
  pub sealed : Dict AccKey (Bar F) → Dict AccKey EntryId → Result (List (Row F))
  sealed [] max_id = ok []
  sealed ((key, acc) ∷ accs) max_id = do
    id ← or_raise key_error (lookup key max_id)
    rows ← sealed accs max_id
    ok (record { bar = seal acc; last_stream_id = id } ∷ rows)

module _ {F : Type 0} ⦃f : Float F⦄ ⦃parsers : Parsers F⦄ where
  unfoldable pub ingest_entry : EntryId → Fields → Persister F → Persister F
  ingest_entry id fields p = ingest_parsed id (parse fields) p

  -- The loop over the entries of one read.
  unfoldable pub take_in : List Entry → Persister F → Persister F
  unfolding ingest_entry
  take_in [] p = p
  take_in ((id, fields) ∷ entries) p =
      let q = ingest_entry id fields p in
      take_in entries (record q { unacked = q.unacked ++ id ∷ [] })
