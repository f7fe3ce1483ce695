-- ===== src/Worker/Persister/Tests.antt =====
-- Runs of the persister at concrete entries.
use live_forex_volatility_tr.Base.{
  ℕ, zero, suc, ◌+◌, ◌≡◌, ◌⊎◌, refl, true, none, some, List, [], ◌∷◌, All, arith,
}
use live_forex_volatility_tr.Base.Text.{Text, codes}
use live_forex_volatility_tr.Base.Result.{ok, key_error}
use live_forex_volatility_tr.Volatility.Bars.{stream, floor_to_bucket}
use live_forex_volatility_tr.Worker.Table.{EntryId, newer, Row, Table}
use live_forex_volatility_tr.Worker.Persister.{
  Entry, Tick, Persister, World, parse, take_in, cleared,
}
use live_forex_volatility_tr.Worker.Persister.Loops.{Ended, flush, drain_own_pending}
use live_forex_volatility_tr.Worker.Persister.Counting.{ticks, well_formed, take_in-counts}
use live_forex_volatility_tr.Worker.Persister.Redelivery.{Committed, redelivered_unchanged}
use live_forex_volatility_tr.Worker.Persister.Guarantee.{flush-Committed}
use live_forex_volatility_tr.Worker.Persister.Drain.{AckRemoves, drain_stuck}
use live_forex_volatility_tr.Worker.Persister.Drained.{drain_ends}
use live_forex_volatility_tr.Fixtures.{hundredths, first_code, pending_list}

abbrev id : ℕ → EntryId
id n = record { ms = 61_000; seq = n }

abbrev eurusd : Text
eurusd = codes "EURUSD"

-- A tick at the 61st second.
abbrev tick : ℕ → Entry
tick n = (
  id n,
  (codes "s", eurusd) ∷ (codes "b", 1 ∷ []) ∷ (codes "a", 3 ∷ []) ∷ (codes "t", 61 ∷ []) ∷ [],
)

abbrev parsed : Tick ℕ
parsed = record { symbol = eurusd; bid = 100; ask = 300; ts = 61_000_000; provider = [] }

-- An entry without a price.
abbrev poison : Entry
poison = (id 7, (codes "s", eurusd) ∷ [])

abbrev idle : Persister ℕ
idle = record {
  bucket_seconds = 60;
  flush_max_rows = 2;
  flush_max_microseconds = 2_000_000;
  accs = [];
  last_price = [];
  last_bucket = [];
  provider = [];
  max_id = [];
  unacked = [];
  last_flush = 0;
}

abbrev minute : ℕ → Row ℕ
minute seq = record {
  bar = record {
    symbol = eurusd;
    bucket = 60_000_000;
    open_price = 200;
    high = 200;
    low = 200;
    close = 200;
    tick_count = 2;
    sum_ret = 0;
    sum_ret_sq = 0;
    source = stream;
  };
  last_stream_id = id seq;
}

abbrev world : List Entry → Table ℕ → World (List Entry) ℕ
world pending table = record { redis = pending; table = table; database_up = true; redis_up = true }

abbrev stored : Table ℕ
stored = ((eurusd, 60_000_000), minute 5) ∷ []

take_in-counts_example :
    (ticks (take_in (tick 4 ∷ poison ∷ tick 5 ∷ []) idle).accs
      ≡ 0 + well_formed ℕ (tick 4 ∷ poison ∷ tick 5 ∷ []))
    × ((take_in (tick 4 ∷ poison ∷ tick 5 ∷ []) idle).unacked ≡ id 4 ∷ id 7 ∷ id 5 ∷ [])
take_in-counts_example = take_in-counts (tick 4 ∷ poison ∷ tick 5 ∷ []) idle

redelivered_unchanged_example :
    (flush 9
      (take_in (tick 4 ∷ tick 5 ∷ []) (cleared idle))
      (world (tick 4 ∷ tick 5 ∷ []) stored)).world.table
    ≡ stored
unfolding parse newer floor_to_bucket
redelivered_unchanged_example =
    redelivered_unchanged 9 (tick 4 ∷ tick 5 ∷ []) idle (world (tick 4 ∷ tick 5 ∷ []) stored)
      (refl, (refl, tt))

flush-Committed_example :
    ((flush 9 (take_in (tick 6 ∷ []) idle) (world (tick 6 ∷ []) stored)).world.redis ≡ tick 6 ∷ [])
    ⊎ All
        (Committed
          (flush 9 (take_in (tick 6 ∷ []) idle) (world (tick 6 ∷ []) stored)).world.table
          60)
        (tick 6 ∷ [])
flush-Committed_example =
    flush-Committed 9 (tick 6 ∷ []) idle (world (tick 6 ∷ []) stored)
      (record { keyed = tt; has_ids = tt })

drain_stuck_example : drain_own_pending 1000 9 idle (world (poison ∷ []) stored) ≡ none
unfolding parse
drain_stuck_example =
    drain_stuck 1000 9 idle (world (poison ∷ []) stored) poison [] refl ((key_error, refl), tt)

pending_list-AckRemoves : AckRemoves (List Entry)
pending_list-AckRemoves [] zero = refl
pending_list-AckRemoves [] (suc n) = refl
pending_list-AckRemoves (e ∷ es) zero = refl
pending_list-AckRemoves (e ∷ es) (suc n) = pending_list-AckRemoves es n

drain_ends_example :
    (ended : Ended (List Entry) ℕ) × (drain_own_pending 4 9 idle
        (world (tick 4 ∷ tick 5 ∷ tick 6 ∷ []) stored)
      ≡ some ended)
    × (ended.outcome ≡ ok 3)
    × (ended.world.redis ≡ [])
unfolding parse
drain_ends_example =
    drain_ends 4 9 idle (world (tick 4 ∷ tick 5 ∷ tick 6 ∷ []) stored) pending_list-AckRemoves refl
      refl (omega arith) ((parsed, refl), ((parsed, refl), ((parsed, refl), tt))) (omega arith)
