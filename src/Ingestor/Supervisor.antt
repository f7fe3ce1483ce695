-- ===== src/Ingestor/Supervisor.antt =====
-- `CircuitBreaker` and `StalenessWatchdog` of
-- apps/ingestor/fx_ingestor/supervisor.py. Instants are readings of the monotonic clock, in
-- microseconds.
pub mod Breaker
pub mod Watchdog
mod Tests
use live_forex_volatility_tr.Base.{
  ℕ, suc, ◌+◌, ◌*◌, ◌^◌, Bool, true, false, ◌&&◌, not, ltb, leb, if◌then◌else◌,
}

pub data BreakerState : Type 0 where
  closed open_ half_open : BreakerState

abbrev pub is_closed : BreakerState → Bool
is_closed closed = true
is_closed open_ = false
is_closed half_open = false

abbrev pub is_open : BreakerState → Bool
is_open closed = false
is_open open_ = true
is_open half_open = false

pub record CircuitBreaker : Type 0 where
  pub fail_threshold : ℕ
  pub reset_after : ℕ
  pub state : BreakerState
  pub failures : ℕ
  pub opened_at : ℕ

unfoldable pub record_success : CircuitBreaker → CircuitBreaker
record_success b = record b { state = closed; failures = 0 }

unfoldable pub record_failure : ℕ → CircuitBreaker → CircuitBreaker
record_failure now b =
    if leb b.fail_threshold (suc b.failures) && not (is_open b.state)
    then record b { failures = suc b.failures; state = open_; opened_at = now }
    else record b { failures = suc b.failures }

-- `allows_attempt`, which moves an open breaker whose pause is over to half open.
unfoldable pub allows_attempt : ℕ → CircuitBreaker → Bool × CircuitBreaker
allows_attempt now b =
    if is_closed b.state
    then (true, b)
    else if is_open b.state
    then (if leb (b.opened_at + b.reset_after) now
        then (true, record b { state = half_open })
        else (false, b))
    else (true, b)

unfoldable pub is_degraded : CircuitBreaker → Bool
is_degraded b = not (is_closed b.state)

-- `StalenessWatchdog`: what its loop reads and writes.
pub record StalenessWatchdog : Type 0 where
  pub timeout : ℕ
  pub last_data : ℕ
  pub trips : ℕ

unfoldable pub pet : ℕ → StalenessWatchdog → StalenessWatchdog
pet now w = record w { last_data = now }

-- One round of `_loop` after its sleep: whether it calls `on_stale`, and what it leaves.
unfoldable pub check : ℕ → Bool → StalenessWatchdog → Bool × StalenessWatchdog
unfolding pet
check now market_is_open w =
    if not market_is_open
    then (false, pet now w)
    else if ltb (w.last_data + w.timeout) now
    then (true, pet now (record w { trips = suc w.trips }))
    else (false, w)
