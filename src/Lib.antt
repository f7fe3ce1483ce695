-- ===== src/Lib.antt =====
-- Verification of the live forex volatility tracker: the regime alerts, the bars and the rolling
-- window they are computed from, the timeframes they are rolled up into, the way of a tick from the log into the database, the queue of a
-- browser client, the supervision of the provider's connection and of its quota, the recovery of
-- missed minutes from the provider's history, and the leader's lease.
--
-- The ingestor folds ticks into minute bars and a rolling window, feeds the sealed bars to one
-- regime detector per symbol, and writes every tick to a Redis stream. The worker reads the
-- stream, builds the bars again and upserts them into PostgreSQL before it acknowledges. The API
-- offers updates to one queue per client. A lease in Redis elects one leader among replicas.
--
-- Which file models what:
-- - Alerts/Regime, Alerts/Trigger: packages/core/fx_core/alerts/hysteresis.py. `SchmittTrigger`
--   is a record of the class's fields; a method returns the new state with its result, or raises.
--   `_accumulate` is `count_sample` and `confirm`; the evaluated branch of `update` is
--   `take_sample` and `evaluate`. The children of Alerts/Trigger prove.
-- - Alerts/Baseline, Alerts/Seasonality: alerts/baseline.py and alerts/seasonality.py beside it.
-- - Alerts/Detector: alerts/detector.py. `_gate` is `see_session`, which moves the session clock,
--   and `gate`, which names the first reason that applies; the body of `update` behind the gates
--   is `evaluate`, whose last part is `learn`. The children of Alerts/Detector prove.
-- - Volatility/Bars, Volatility/Window: `Bar` of packages/core/fx_core/models.py, and
--   packages/core/fx_core/volatility/buckets.py. Volatility/Ticks: `Tick` and `VolSnapshot` of
--   models.py. Volatility/Welford, Volatility/Ewma: welford.py and ewma.py beside buckets.py, and
--   the Welford view of a window.
-- - Intervals: packages/core/fx_core/intervals.py, with the months of the calendar, which
--   are the standard library's, in Intervals/Months. The loop of `fold` is `folded`, which keeps the
--   last candle of its list at hand. Intervals/Edges, Rollup and Charts prove.
-- - Worker/Table: the upsert of apps/worker/fx_worker/db.py, as a function on the table's rows.
-- - Worker/Persister, Worker/Persister/Loops: apps/worker/fx_worker/persister.py. `_ingest_entry`
--   is `parse` and `ingest_tick`; `flush` is `sealed`, `commit` and `flush_rows`. The other
--   children of Worker/Persister prove.
-- - Worker/AlertPersister: apps/worker/fx_worker/alerts.py and `insert_alerts` of db.py. `_flush` is
--   `flush`, which is `insert_rows`, `classified`, `after_insert` and `acknowledge`; Accounting and
--   Settling beside it prove.
-- - Api/Conflator: apps/api/fx_api/ws/conflator.py; Api/Conflator/Queue proves.
-- - Ingestor/Supervisor: apps/ingestor/fx_ingestor/supervisor.py; its children prove.
-- - Ingestor/Quota: apps/ingestor/fx_ingestor/quota.py, its script as `enter`; Ingestor/Quota/Reserve
--   proves.
-- - Ingestor/Pipeline, Ingestor/Pipeline/Write: `IngestPipeline` of
--   apps/ingestor/fx_ingestor/pipeline.py. `__init__` makes its states by `begin`; `handle` is
--   `advance`, the change of a symbol's state, and `write`, the list of the transaction's
--   commands, which `executed` hands to Redis.
--   The other children prove: Agreement, Step and Cases on the worker beside one symbol, Feed on
--   the commands, Replay, Tracking, Begin and Whole on a feed, Ready on what can raise.
-- - Ingestor/Provider: `adopt_provider` of pipeline.py, its script as `adopt_script`, and the names
--   of packages/core/fx_core/keys.py that it moves; Ingestor/Provider/Moves and Back prove.
-- - Ingestor/Recovery: the planning functions of apps/ingestor/fx_ingestor/recovery.py. Its children
--   Requests, Cache, Report, Store, Fetch, Run, Steps and Once model the rest of that file: a
--   method of `RecoveryStore` or `HistoryRecovery` is a function on the record `World` of tables,
--   caches and requests made. `_fetch` is `fetch`, `_request_all` is `request_all`, a round of its
--   loop is `round`, `_locked` is `locked` with `decided` and `apply_run`. The other children prove:
--   Missing, Days, Aligned, Asking, Planned and Eligible on what is asked for, Cache/Script, Later
--   and Batch on the cache, Rule, Balanced, Received, Accounting, Kept, Safe, Follows, Obedience
--   and Dry on a run.
-- - Platform/Lease: packages/platform/fx_platform/leader.py; Platform/Lease/Exclusion proves.
-- - Base: Boolean tests, lists, signed integers, exceptions, clock types, dictionaries; Fixtures
--   and the modules called Tests: concrete values and runs.
--
-- How values are modelled. An instant is its number of microseconds since 1970 (milliseconds in
-- the lease), a duration is a signed number of them, and an ISO text in a snapshot is its instant.
-- A Python float is an element of a type with the operations of the interface `Float`, of which
-- no law is assumed, so rounding and NaN are covered by whatever the interface does. Its operations
-- are total: an OverflowError of `math.exp` is left out. A dictionary is an association list in
-- insertion order. The text of a transition's reason is kept as the values that it is formatted from. Metrics and logging are left out.
--
-- Parameters. The market's calendar is a test on instants. `Parsers` stands for Python's readers of
-- numbers and dates. `Group` stands for the consumer group that Redis keeps; the one law used of
-- it, that an acknowledgement removes the entries from the pending ones, is the hypothesis
-- `AckRemoves`. Whether Redis and PostgreSQL answer is a truth value of the call or a field of the
-- world, one for each call of a flush that can fail: the statement, the reads for its conflicts, the
-- acknowledgement.
--
-- The detector's constructor in the pipeline is a function of the symbol into a detector or an
-- exception. Where the detector or the reading raises in a tick's handling, the model keeps nothing
-- of the tick; where Redis does not execute the transaction, the pipeline has the tick and the call
-- raises.
--
-- What a recovery run finds around it is the record `Surroundings`: the clock, the lock, the
-- calendar, what the provider answers at each turn, and what the query over the Timescale views
-- finds stale.
--
-- Fuel. The loops over minutes run a round for each minute from the first to the last and one
-- more; `_split_by_days` has a part for each day of its span and one more. The walk to the month
-- of a day has as many rounds as days, and one more.
-- The loops of `drain_own_pending` and `claim_abandoned` read until nothing is left, so they
-- run on fuel and return `none` without it. A read that commits its batch acknowledges at least
-- one entry, so one read for each pending entry and one more is enough for the first loop.
--
-- Not modelled: the web client, the HTTP routers and entry points, the providers' protocols, the
-- command line of the recovery, the fetches of history and the start from stored
-- snapshots in the pipeline, the range estimators, and the SQL schema.
pub mod Base
pub mod Alerts
pub mod Volatility
pub mod Worker
pub mod Fixtures
pub mod Api
pub mod Ingestor
pub mod Platform
pub mod Intervals
