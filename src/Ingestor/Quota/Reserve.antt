-- ===== src/Ingestor/Quota/Reserve.antt =====
-- The reserve of apps/ingestor/fx_ingestor/quota.py, against the requests of which no time is ever
-- forgotten.
use live_forex_volatility_tr.Base.{
  ℕ, suc, ◌+◌, ◌≤◌, ◌≡◌, refl, true, List, [], ◌∷◌, leb, if◌then◌else◌, length, arith,
}
use live_forex_volatility_tr.Base.Int.{ℤ, pos, sub_ℕ, ◌≤ℤ◌}
use live_forex_volatility_tr.Ingestor.Quota.{
  QuotaLimits, hour_ms, day_ms, forget, count_since, enter, take,
}

-- Requests strictly less than a day old.
abbrev pub count_day : ℕ → List ℕ → ℕ
count_day now [] = 0
count_day now (at ∷ log) =
    let rest = count_day now log in if leb (at + day_ms) now then rest else suc rest

-- Entered requests, newest first, each at the caps that its caller has.
pub record Request : Type 0 where
  pub now : ℕ
  pub hour_cap : ℤ
  pub day_cap : ℤ

-- The ledger after requests, and beside it the times of all that were granted.
unfoldable pub entered : List Request → List ℕ × List ℕ
entered [] = ([], [])
entered (q ∷ older) =
    let (ledger, log) = entered older in
    let r = enter q.now q.hour_cap q.day_cap ledger in
    (r.ledger, if r.granted then q.now ∷ log else log)

-- Newest first: no clock reading is after the one that follows it.
abbrev pub InOrder : ℕ → List Request → Type 0
InOrder now [] = Unit
InOrder now (q ∷ older) = (q.now ≤ now) × InOrder q.now older

forget-hour :
    (now later : ℕ) (ledger : List ℕ)
    → now ≤ later
    → count_since later hour_ms (forget now ledger) ≡ count_since later hour_ms ledger
unfolding forget count_since
forget-hour now later [] h = refl
forget-hour now later (at ∷ ledger) h = ground (arith, forget-hour now later ledger h)

forget-day :
    (now later : ℕ) (ledger : List ℕ)
    → now ≤ later
    → count_day later (forget now ledger) ≡ count_day later ledger
unfolding forget
forget-day now later [] h = refl
forget-day now later (at ∷ ledger) h = ground (arith, forget-day now later ledger h)

length-forget : (now : ℕ) (ledger : List ℕ) → length (forget now ledger) ≡ count_day now ledger
unfolding forget
length-forget now [] = refl
length-forget now (at ∷ ledger) = ground (arith, length-forget now ledger)

-- From an instant on, both lists count the same.
record Agree (now : ℕ) (p : List ℕ × List ℕ) : Type 0 where
  hour : (later : ℕ) → now ≤ later → count_since later hour_ms p.0 ≡ count_since later hour_ms p.1
  day : (later : ℕ) → now ≤ later → count_day later p.0 ≡ count_day later p.1

entered-Agree : (now : ℕ) (qs : List Request) → InOrder now qs → Agree now (entered qs)
unfolding entered enter count_since
entered-Agree now [] o = record { hour = λ later h. refl; day = λ later h. refl }
entered-Agree now (q ∷ older) o =
    let g = entered-Agree q.now older o.1 in
    record {
      hour = λ later h. ground (
        arith,
        g.hour later (omega (arith, h, o.0)),
        forget-hour q.now later (entered older).0 (omega (arith, h, o.0)),
      );
      day = λ later h. ground (
        arith,
        g.day later (omega (arith, h, o.0)),
        forget-day q.now later (entered older).0 (omega (arith, h, o.0)),
      );
    }

-- Where the clock does not run back, a request of background work that is granted leaves the
-- reserve alone: with it, the requests granted in the hour before it, and those in the day, whoever
-- made them, are at most the limit less the reserve.
pub take-leaves_reserve :
    (limits : QuotaLimits) (now : ℕ) (qs : List Request)
    → InOrder now qs
    → (take limits now true (entered qs).0).0 ≡ true
    → (pos (suc (count_since now hour_ms (entered qs).1))
        ≤ℤ sub_ℕ limits.per_hour limits.reserve_per_hour)
      × (pos (suc (count_day now (entered qs).1)) ≤ℤ sub_ℕ limits.per_day limits.reserve_per_day)
unfolding take enter
take-leaves_reserve limits now qs o granted =
    let g = entered-Agree now qs o in
    let ledger = (entered qs).0 in
    ground (
      arith,
      granted,
      g.hour now (omega arith),
      g.day now (omega arith),
      forget-hour now now ledger (omega arith),
      length-forget now ledger,
    )
