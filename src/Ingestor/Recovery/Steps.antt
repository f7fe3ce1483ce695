-- ===== src/Ingestor/Recovery/Steps.antt =====
-- What `HistoryRecovery` of recovery.py does around the requests of a run: it reads what is missing,
-- refreshes the roll-ups and reads back what it recovered.
use live_forex_volatility_tr.Base.{
  ℕ, ◌-◌, Bool, true, false, ◌&&◌, not, Option, none, some, List, [], ◌∷◌, ◌++◌, leb, if◌then◌else◌,
  max, min,
}
use live_forex_volatility_tr.Base.Clock.{Instant}
use live_forex_volatility_tr.Base.Float.{Float}
use live_forex_volatility_tr.Base.Text.{Text, eq_text}
use live_forex_volatility_tr.Base.Dict.{Dict, lookup, text_key, number_key, pair_key, get_or}
use live_forex_volatility_tr.Volatility.Bars.{Bar, backfill}
use live_forex_volatility_tr.Worker.Table.{Table, RowKey}
use live_forex_volatility_tr.Ingestor.Recovery.{settle, Window, open_minutes, Span, missing_spans}
use live_forex_volatility_tr.Ingestor.Recovery.Requests.{Request, refresh_range}
use live_forex_volatility_tr.Ingestor.Recovery.Report.{
  RunId, View, bars_5m, bars_1h, Rollup, rollups, Refresh, World,
}
use live_forex_volatility_tr.Ingestor.Recovery.Store.{present, settled, asked_since}
use live_forex_volatility_tr.Ingestor.Recovery.Run.{RecoveryConfig, Turn, BackOff, Progress}

-- What a run finds around it: its clock, the identifier it draws, whether the migration is applied
-- and the advisory lock free, the calendar, the turns of its requests, and the first and last
-- bucket that `_STALE_ROLLUP` finds in a range of a view, where it finds any.
pub record Surroundings (F : Type 0) : Type 0 where
  pub now : Instant
  pub new_id : RunId
  pub schema_ready : Bool
  pub lock_free : Bool
  pub is_open : Instant → Bool
  pub turns : ℕ → Turn F
  pub stale_buckets : Table F → View → Instant × Instant → Option (Instant × Instant)

-- `_missing`, for each symbol: the missing spans, and those not asked for within SETTLE.
unfoldable pub missing_of :
    {F : Type 0}
    → RecoveryConfig
    → Surroundings F
    → Window
    → World F
    → List Text
    → List Span × List Span
unfolding missing_spans settled asked_since present open_minutes
missing_of cfg env window world [] = ([], [])
missing_of cfg env window world (symbol ∷ symbols) =
    let rest = missing_of cfg env window world symbols in
    let reads = env.schema_ready && not cfg.include_settled in
    let expected = open_minutes window env.is_open in
    let stored = present symbol window world.bars in
    let answered = if reads then settled symbol window world.spans else [] in
    let asked = if reads then asked_since symbol window (env.now - settle) world.spans else [] in
    (
      missing_spans symbol expected stored answered ++ rest.0,
      missing_spans symbol expected stored (answered ++ asked) ++ rest.1,
    )

-- The requests of symbols that are not blocked: `now >= symbol_blocked_until.get(symbol, now)`.
unfoldable pub unblocked : Instant → BackOff → List Request → List Request
unblocked now b [] = []
unblocked now b (r ∷ requests) =
    let rest = unblocked now b requests in
    if leb (get_or now (lookup r.symbol b.symbol_blocked_until)) now then r ∷ rest else rest

-- `stale_rollups`
unfoldable pub stale_from :
    {F : Type 0} → Surroundings F → Window → Table F → List Rollup → List Refresh
unfolding refresh_range
stale_from env window bars [] = []
stale_from env window bars (r ∷ views) =
    let rest = stale_from env window bars views in
    elim (refresh_range window.start window.end r.width r.offset env.now) [
      | none ↦ rest
      | some bounds ↦ elim (env.stale_buckets bars r.view bounds) [
        | none ↦ rest
        | some found ↦ elim (refresh_range found.0 found.1 r.width r.offset env.now) [
          | none ↦ rest
          | some range ↦ (r.view, range) ∷ rest
        ]
      ]
    ]

abbrev pub earliest : Instant → List Instant → Instant
earliest m [] = m
earliest m (n ∷ minutes) = earliest (min m n) minutes

abbrev pub latest : Instant → List Instant → Instant
latest m [] = m
latest m (n ∷ minutes) = latest (max m n) minutes

-- The targets of `_refresh_rollups` over what changed.
unfoldable pub changed_targets : Instant → List Instant → List Rollup → List Refresh
unfolding refresh_range
changed_targets now [] views = []
changed_targets now (m ∷ minutes) [] = []
changed_targets now (m ∷ minutes) (r ∷ views) =
    let rest = changed_targets now (m ∷ minutes) views in
    elim (refresh_range (earliest m minutes) (latest m minutes) r.width r.offset now) [
      | none ↦ rest
      | some range ↦ (r.view, range) ∷ rest
    ]

abbrev pub same_view : View → View → Bool
same_view bars_5m bars_5m = true
same_view bars_5m bars_1h = false
same_view bars_1h bars_5m = false
same_view bars_1h bars_1h = true

-- The ranges of a view's targets, joined.
unfoldable pub joined : View → List Refresh → Option (Instant × Instant)
joined view [] = none
joined view ((v, range) ∷ targets) =
    let rest = joined view targets in
    if same_view v view
    then elim rest [
      | none ↦ some range
      | some other ↦ some (min range.0 other.0, max range.1 other.1)
    ]
    else rest

-- The views that have a target, each once. A Python set has no order; here it is that of ROLLUPS.
unfoldable pub refreshes : List Refresh → List Rollup → List Refresh
unfolding joined
refreshes targets [] = []
refreshes targets (r ∷ views) =
    let rest = refreshes targets views in
    elim (joined r.view targets) [ none ↦ rest | some range ↦ (r.view, range) ∷ rest ]

-- `_refresh_rollups`
unfoldable pub refresh_rollups :
    {F : Type 0} → List Instant → List Refresh → Instant → Progress F → Progress F
unfolding changed_targets refreshes
refresh_rollups changed stale now p =
    let done = refreshes (stale ++ changed_targets now changed rollups) rollups in
    record p {
      report = record p.report { rollups_refreshed = p.report.rollups_refreshed ++ done };
      world = record p.world { refreshed = p.world.refreshed ++ done };
    }

-- `recovered_since`: the rows of a symbol that a run inserted, by their minute.
unfoldable pub add_by_bucket :
    {F : Type 0} → Bar F × RunId → List (Bar F × RunId) → List (Bar F × RunId)
add_by_bucket b [] = b ∷ []
add_by_bucket b (c ∷ ordered) =
    let rest = add_by_bucket b ordered in
    if leb b.0.bucket c.0.bucket then b ∷ c ∷ ordered else c ∷ rest

unfoldable pub recovered_since :
    {F : Type 0} ⦃f : Float F⦄ → Text → Instant → Table F → Dict RowKey RunId → List (Bar F × RunId)
unfolding add_by_bucket
recovered_since symbol since [] ids = []
recovered_since ⦃f⦄ symbol since ((key, row) ∷ table) ids =
    let rest = recovered_since symbol since table ids in
    if eq_text key.0 symbol && leb since key.1
    then elim (lookup key ids) [
      | none ↦ rest
      | some id ↦
          add_by_bucket
            (
              record row.bar {
                symbol = symbol;
                bucket = key.1;
                tick_count = 0;
                sum_ret = f.of_ℕ 0;
                sum_ret_sq = f.of_ℕ 0;
                source = backfill;
              },
              id,
            )
            rest
    ]
    else rest
