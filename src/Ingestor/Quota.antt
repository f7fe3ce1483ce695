-- ===== src/Ingestor/Quota.antt =====
-- `RequestQuota` of apps/ingestor/fx_ingestor/quota.py: the ledger of requests to the provider, as
-- the list of their times in milliseconds. A script of Redis runs as one step.
pub mod Reserve
mod Tests
use live_forex_volatility_tr.Base.{
  ℕ, suc, ◌+◌, Bool, true, false, ◌||◌, List, [], ◌∷◌, ltb, leb, if◌then◌else◌, length,
}
use live_forex_volatility_tr.Base.Int.{ℤ, pos, sub_ℕ, leb_ℤ}

pub record QuotaLimits : Type 0 where
  pub per_hour : ℕ
  pub per_day : ℕ
  pub reserve_per_hour : ℕ
  pub reserve_per_day : ℕ

-- `_UNCAPPED`
abbrev pub uncapped : ℤ
uncapped = pos 1_000_000_000_000

abbrev pub hour_ms : ℕ
hour_ms = 3_600_000

abbrev pub day_ms : ℕ
day_ms = 86_400_000

-- ZREMRANGEBYSCORE from -inf to `now - 86400000`.
unfoldable pub forget : ℕ → List ℕ → List ℕ
forget now [] = []
forget now (at ∷ ledger) =
    let rest = forget now ledger in if leb (at + day_ms) now then rest else at ∷ rest

-- ZCOUNT from `now - span` to +inf.
unfoldable pub count_since : ℕ → ℕ → List ℕ → ℕ
count_since now span [] = 0
count_since now span (at ∷ ledger) =
    let rest = count_since now span ledger in if leb now (at + span) then suc rest else rest

-- What the script answers, and the ledger it leaves.
pub record Reply : Type 0 where
  pub granted : Bool
  pub hour : ℕ
  pub day : ℕ
  pub ledger : List ℕ

-- `_TAKE_LUA`
unfoldable pub enter : ℕ → ℤ → ℤ → List ℕ → Reply
unfolding forget count_since
enter now hour_cap day_cap ledger =
    let kept = forget now ledger in
    let hour = count_since now hour_ms kept in
    let day = length kept in
    if leb_ℤ hour_cap (pos hour) || leb_ℤ day_cap (pos day)
    then record { granted = false; hour = hour; day = day; ledger = kept }
    else record { granted = true; hour = suc hour; day = suc day; ledger = now ∷ kept }

-- `take`: background work may not touch the reserve. Where Redis is down nothing is granted.
unfoldable pub take : QuotaLimits → ℕ → Bool → List ℕ → Bool × List ℕ
unfolding enter
take limits now false ledger = (false, ledger)
take limits now true ledger =
    let r =
      enter now (sub_ℕ limits.per_hour limits.reserve_per_hour)
        (sub_ℕ limits.per_day limits.reserve_per_day) ledger in
    (r.granted, r.ledger)

-- `record`: the live feed's request is counted, unless Redis is down, and never refused.
unfoldable pub record_request : ℕ → Bool → List ℕ → List ℕ
unfolding enter
record_request now false ledger = ledger
record_request now true ledger = (enter now uncapped uncapped ledger).ledger

-- `used`
unfoldable pub used : ℕ → List ℕ → ℕ × ℕ
used now ledger = (count_since now hour_ms ledger, count_since now day_ms ledger)
