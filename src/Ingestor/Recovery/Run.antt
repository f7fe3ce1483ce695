-- ===== src/Ingestor/Recovery/Run.antt =====
-- `HistoryRecovery` of recovery.py: a run, from the missing minutes to its record.
use live_forex_volatility_tr.Base.{
  ℕ, suc, ◌+◌, Bool, true, not, Option, none, some, List, [], ◌∷◌, ◌++◌, ltb, if◌then◌else◌, length,
  any, max, take,
}
use live_forex_volatility_tr.Base.Clock.{Instant}
use live_forex_volatility_tr.Base.Float.{Float}
use live_forex_volatility_tr.Base.Text.{Text, eq_text}
use live_forex_volatility_tr.Base.Dict.{Dict, insert, text_key, number_key, pair_key, get_or}
use live_forex_volatility_tr.Ingestor.Recovery.{auth_backoff, rate_limit_backoff}
use live_forex_volatility_tr.Ingestor.Recovery.Requests.{Request}
use live_forex_volatility_tr.Ingestor.Recovery.Report.{
  RunId, failed, aborted, ProviderError, auth_error, rate_limit_error, entitlement_error,
  other_error, Reason, run_ended, postponed, provider_said, RunReport, World,
}
use live_forex_volatility_tr.Ingestor.Recovery.Fetch.{Reply, Fetched, fetch}

pub record RecoveryConfig : Type 0 where
  pub lookback : ℕ
  pub horizon : ℕ
  pub max_requests : ℕ
  pub days_per_request : ℕ
  pub include_settled : Bool

-- What the run finds at each round of its loop: whether it is to stop, whether the ledger grants
-- a request, and what the provider would answer. A run without an event or a ledger has `false`
-- and `true` there.
pub record Turn (F : Type 0) : Type 0 where
  pub stopped : Bool
  pub granted : Bool
  pub reply : Reply F

-- The attributes of `HistoryRecovery` that change.
pub record BackOff : Type 0 where
  pub blocked_until : Option Instant
  pub symbol_blocked_until : Dict Text Instant

pub record Progress (F : Type 0) : Type 0 where
  pub report : RunReport
  pub changed : List Instant
  pub incomplete : Bool
  pub error : Option Reason
  pub refused : List Text
  pub back_off : BackOff
  pub world : World F

-- A round goes on to the next request, or returns.
pub data Round (F : Type 0) : Type 0 where
  go_on : Progress F → Round F
  return : Progress F → Round F

module _ {F : Type 0} ⦃f : Float F⦄ where
  -- The branches on the type of the outcome.
  unfoldable pub after_error : Request → Instant → ProviderError → Progress F → Round F
  after_error request now auth_error p = return (record p {
    report = record p.report { status = failed };
    incomplete = true;
    error = some (provider_said auth_error);
    back_off = record p.back_off { blocked_until = some (now + auth_backoff) };
  })
  after_error request now (rate_limit_error retry_after) p = return (record p {
    incomplete = true;
    error = some (provider_said (rate_limit_error retry_after));
    back_off = record p.back_off {
      blocked_until = some (now + max (get_or 0 retry_after) rate_limit_backoff);
    };
  })
  after_error request now entitlement_error p = go_on (record p {
    incomplete = true;
    error = some (provider_said entitlement_error);
    refused = request.symbol ∷ p.refused;
    back_off = record p.back_off {
      symbol_blocked_until =
          insert request.symbol (now + auth_backoff) p.back_off.symbol_blocked_until;
    };
  })
  after_error request now other_error p =
      go_on (record p { incomplete = true; error = some (provider_said other_error) })

  unfoldable pub after_fetch : Request → Instant → Fetched F → Progress F → Round F
  unfolding after_error
  after_fetch request now fetched p =
      let q = record p { report = fetched.report; world = fetched.world } in
      elim fetched.error [
        | none ↦ go_on (record q { changed = p.changed ++ fetched.inserted })
        | some error ↦ after_error request now error q
      ]

  -- One round of the loop of `_request_all`. The pause between requests is not modelled.
  unfoldable pub round : RunId → Instant → Request → Turn F → Progress F → Round F
  unfolding fetch after_fetch
  round id now request turn p =
      if turn.stopped
      then return (record p {
        report = record p.report { status = aborted };
        incomplete = true;
        error = some run_ended;
      })
      else if any (eq_text request.symbol) p.refused
      then go_on p
      else if not turn.granted
      then return (record p { incomplete = true; error = some postponed })
      else after_fetch request now (fetch request turn.reply id now p.report p.world) p

  unfoldable pub loop : RunId → Instant → List Request → (ℕ → Turn F) → ℕ → Progress F → Progress F
  unfolding round
  loop id now [] turns i p = p
  loop id now (request ∷ requests) turns i p = elim (round id now request (turns i) p) [
    | return q ↦ q
    | go_on q ↦ loop id now requests turns (suc i) q
  ]

  -- `_request_all`
  unfoldable pub request_all :
      RecoveryConfig
      → RunId
      → Instant
      → List Request
      → (ℕ → Turn F)
      → RunReport
      → BackOff
      → World F
      → Progress F
  unfolding loop
  request_all cfg id now requests turns report back_off world =
      loop id now (take cfg.max_requests requests) turns 0 (record {
        report = report;
        changed = [];
        incomplete = ltb cfg.max_requests (length requests);
        error = none;
        refused = [];
        back_off = back_off;
        world = world;
      })
