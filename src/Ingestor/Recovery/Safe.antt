-- ===== src/Ingestor/Recovery/Safe.antt =====
-- What a run of recovery.py does to `bars_1m` and to the hot cache.
use live_forex_volatility_tr.Base.{
  ℕ, Bool, true, false, ◌&&◌, not, Option, none, some, List, [], ◌∷◌, arith, inl, inr, Bool-cases,
  Option-cases, All, take,
}
use live_forex_volatility_tr.Base.Clock.{Instant}
use live_forex_volatility_tr.Base.Float.{Float}
use live_forex_volatility_tr.Base.Text.{Text}
use live_forex_volatility_tr.Base.Dict.{
  lookup, number_key, text_key, pair_key, All-insert, All-lookup,
}
use live_forex_volatility_tr.Volatility.Bars.{Bar}
use live_forex_volatility_tr.Worker.Table.{Table}
use live_forex_volatility_tr.Ingestor.Recovery.{hot_cache_bars, Window, Span}
use live_forex_volatility_tr.Ingestor.Recovery.Requests.{Request}
use live_forex_volatility_tr.Ingestor.Recovery.Cache.{cache_horizon}
use live_forex_volatility_tr.Ingestor.Recovery.Cache.Script.{IsBounded}
use live_forex_volatility_tr.Ingestor.Recovery.Cache.Batch.{cache_add_script-IsBounded}
use live_forex_volatility_tr.Ingestor.Recovery.Report.{running, RunId, RunReport, World, Refresh}
use live_forex_volatility_tr.Ingestor.Recovery.Store.{
  Tables, insert_bars, cache_add, cache_entries, cached,
}
use live_forex_volatility_tr.Ingestor.Recovery.Fetch.{
  Reply, bars, refusal, fetch, fetch_stored, fetch_failed, received_bars, wanted, in_order,
  recent_bars,
}
use live_forex_volatility_tr.Ingestor.Recovery.Run.{RecoveryConfig, Turn, BackOff, request_all}
use live_forex_volatility_tr.Ingestor.Recovery.Rule.{loop-Holds}
use live_forex_volatility_tr.Ingestor.Recovery.Steps.{Surroundings, refresh_rollups}
use live_forex_volatility_tr.Ingestor.Recovery.Once.{
  begun_row, cache_repairs, is_empty, is_blocked, repair_rows, repair_cache, apply_run, decided,
  locked, skip, in_window, run_once,
}
use live_forex_volatility_tr.Ingestor.Recovery.Kept.{
  Extends, Extends-refl, Extends-trans, insert_bars-Extends,
}

module _ {F : Type 0} ⦃f : Float F⦄ where
  -- Every symbol's cache is ascending and within its bound.
  abbrev pub Bounded : World F → Type 0
  Bounded w = All (λ e. IsBounded hot_cache_bars e.1) w.cache

  cached-IsBounded :
      (symbol : Text) (w : World F) → Bounded w → IsBounded hot_cache_bars (cached symbol w)
  cached-IsBounded symbol w h = elim (Option-cases (lookup symbol w.cache)) [
    | inl e ↦ rw e (record { ascends = tt; within = omega arith })
    | inr (set, e) ↦ rw e (All-lookup (λ s set. IsBounded hot_cache_bars set) symbol w.cache h e)
  ]

  -- The table as it was before, extended, and bounded caches.
  pub record IsSafe (before : Table F) (w : World F) : Type 0 where
    pub extends : Extends before w.bars
    pub bounded : Bounded w

  cache_add-IsSafe :
      (before : Table F) (symbol : Text) (given : List (Bar F)) (id : RunId) (w : World F)
      → IsSafe before w
      → IsSafe before (cache_add symbol given id w).1
  unfolding cache_add
  cache_add-IsSafe before symbol [] id w h = h
  cache_add-IsSafe before symbol (bar ∷ given) id w h = record {
    extends = h.extends;
    bounded =
        All-insert (λ s set. IsBounded hot_cache_bars set) symbol _ w.cache
          (cache_add_script-IsBounded hot_cache_bars (cache_entries (bar ∷ given) id)
            (cached symbol w) (cached-IsBounded symbol w h.bounded))
          h.bounded;
  }

  repair_rows-IsSafe :
      (before : Table F) (rows : List (Bar F × RunId)) (w : World F)
      → IsSafe before w
      → IsSafe before (repair_rows rows w).1
  unfolding repair_rows
  repair_rows-IsSafe before [] w h = h
  repair_rows-IsSafe before ((bar, id) ∷ rows) w h =
      repair_rows-IsSafe before rows _ (cache_add-IsSafe before bar.symbol (bar ∷ []) id w h)

  fetch-IsSafe :
      (before : Table F) (request : Request) (reply : Reply F) (id : RunId) (now : Instant)
      (r : RunReport) (w : World F)
      → IsSafe before w
      → IsSafe before (fetch request reply id now r w).world
  unfolding fetch fetch_stored fetch_failed
  fetch-IsSafe before request (refusal error) id now r w h = record {
    extends = h.extends;
    bounded = h.bounded;
  }
  fetch-IsSafe before request (bars answer) id now r w h =
      let received = received_bars request.symbol (wanted request.spans) answer [] in
      let tables : Tables F = (w.bars, w.run_ids) in
      let stored = insert_bars request.symbol (in_order received) id tables in
      let made = record w {
        bars = stored.1.0;
        run_ids = stored.1.1;
        asked = (request, none) ∷ w.asked;
      } in
      let inserted : IsSafe before made = record {
        extends =
            Extends-trans h.extends
              (insert_bars-Extends request.symbol (in_order received) id tables);
        bounded = h.bounded;
      } in
      let cached =
        cache_add-IsSafe before request.symbol (recent_bars (cache_horizon now) received stored.0)
          id made inserted in
      record { extends = cached.extends; bounded = cached.bounded }

  request_all-IsSafe :
      (before : Table F) (cfg : RecoveryConfig) (id : RunId) (now : Instant)
      (requests : List Request) (turns : ℕ → Turn F) (report : RunReport) (back_off : BackOff)
      (w : World F)
      → IsSafe before w
      → IsSafe before (request_all cfg id now requests turns report back_off w).world
  unfolding request_all
  request_all-IsSafe before cfg id now requests turns report back_off w h =
      loop-Holds id now (λ r v. IsSafe before v)
        (record {
          by_status = λ s r v k. k;
          by_fetch = λ request reply r v k. fetch-IsSafe before request reply id now r v k;
        })
        (take cfg.max_requests requests) turns 0 _ h

  apply_run-IsSafe :
      (before : Table F) (cfg : RecoveryConfig) (env : Surroundings F) (symbols : List Text)
      (window : Window) (requests : List Request) (stale : List Refresh) (report : RunReport)
      (back_off : BackOff) (w : World F)
      → IsSafe before w
      → IsSafe before (apply_run cfg env symbols window requests stale report back_off w).world
  unfolding apply_run refresh_rollups repair_cache
  apply_run-IsSafe before cfg env symbols window requests stale report back_off w h =
      let begun = record w { runs = begun_row env.new_id window report.minutes_missing ∷ w.runs } in
      let started = record report { run_id = some env.new_id; status = running } in
      let asked = request_all cfg env.new_id env.now requests env.turns started back_off begun in
      let asked_safe =
        request_all-IsSafe before cfg env.new_id env.now requests env.turns started back_off begun
          (record { extends = h.extends; bounded = h.bounded }) in
      let rolled = (refresh_rollups asked.changed stale env.now asked).world in
      let repaired_safe =
        repair_rows-IsSafe before (cache_repairs env.now symbols rolled) rolled
          (record { extends = asked_safe.extends; bounded = asked_safe.bounded }) in
      record { extends = repaired_safe.extends; bounded = repaired_safe.bounded }

  decided-IsSafe :
      (cfg : RecoveryConfig) (env : Surroundings F) (symbols : List Text) (apply : Bool)
      (window : Window) (spans : List Span × List Span) (requests : List Request)
      (stale : List Refresh) (repairs : List (Bar F × RunId)) (report : RunReport)
      (back_off : BackOff) (before : Table F) (w : World F)
      → IsSafe before w
      → IsSafe before
          (decided cfg env symbols apply window spans requests stale repairs report back_off
            w).world
  unfolding decided
  decided-IsSafe cfg env symbols false window spans requests stale repairs report back_off before w
        h =
      h
  decided-IsSafe cfg env symbols true window spans requests stale repairs report back_off before w
        h =
      elim (Bool-cases (is_empty spans.0 && (is_empty stale && is_empty repairs))) [
        | inl e ↦ rw e h
        | inr e ↦ elim (Bool-cases (is_empty spans.1 && (is_empty stale && is_empty repairs))) [
          | inl c ↦ rw (e, c) h
          | inr c ↦
              rw (e, c)
                (apply_run-IsSafe before cfg env symbols window requests stale report back_off w h)
        ]
      ]

  locked-IsSafe :
      (cfg : RecoveryConfig) (env : Surroundings F) (symbols : List Text) (apply : Bool)
      (window : Window) (back_off : BackOff) (before : Table F) (w : World F)
      → IsSafe before w
      → IsSafe before (locked cfg env symbols apply window back_off w).world
  unfolding locked
  locked-IsSafe cfg env symbols apply window back_off before w h =
      decided-IsSafe cfg env symbols apply window _ _ _ _ _ back_off before _
        (record { extends = h.extends; bounded = h.bounded })

  in_window-IsSafe :
      (cfg : RecoveryConfig) (env : Surroundings F) (symbols : List Text) (apply : Bool)
      (window : Option Window) (back_off : BackOff) (w : World F)
      → IsSafe w.bars w
      → IsSafe w.bars (in_window cfg env symbols apply window back_off w).world
  unfolding in_window skip
  in_window-IsSafe cfg env symbols apply none back_off w h = h
  in_window-IsSafe cfg env symbols apply (some window) back_off w h =
      elim (Bool-cases (apply && not env.schema_ready)) [
        | inl e ↦ rw e h
        | inr e ↦ elim (Bool-cases env.lock_free) [
          | inr c ↦ rw (e, c) h
          | inl c ↦ rw (e, c) (locked-IsSafe cfg env symbols apply window back_off w.bars w h)
        ]
      ]

-- A run of recovery that starts with hot caches that ascend and are within their bound, whatever
-- it finds and the provider answers, changes no stored bar; each bar it adds is marked as
-- recovered, with no tick and no stream entry; and the caches still ascend within their bound.
pub run_once-IsSafe :
    {F : Type 0} ⦃f : Float F⦄ (cfg : RecoveryConfig) (env : Surroundings F) (symbols : List Text)
    (apply : Bool) (window : Option Window) (back_off : BackOff) (w : World F)
    → Bounded w
    → IsSafe w.bars (run_once cfg env symbols apply window back_off w).world
unfolding run_once skip
run_once-IsSafe cfg env symbols apply window back_off w h =
    let start : IsSafe w.bars w = record { extends = Extends-refl w.bars; bounded = h } in
    elim (Option-cases (is_blocked env.now back_off)) [
      | inl e ↦ rw (run_once, e) (in_window-IsSafe cfg env symbols apply _ back_off w start)
      | inr (until, e) ↦ rw (run_once, e) start
    ]
