-- ===== src/Ingestor/Supervisor/Breaker.antt =====
-- The circuit breaker of apps/ingestor/fx_ingestor/supervisor.py over any sequence of calls.
use live_forex_volatility_tr.Base.{
  false, arith, true, ◌+◌, ◌≤◌, leb, ℕ, suc, ◌<◌, ◌≡◌, refl, Bool, ◌&&◌, not, List, [], ◌∷◌,
}
use live_forex_volatility_tr.Ingestor.Supervisor.{
  open_, closed, half_open, is_closed, CircuitBreaker, record_success, record_failure,
  allows_attempt,
}

pub data Call : Type 0 where
  success : Call
  failure : ℕ → Call
  attempt : ℕ → Call

abbrev pub call : Call → CircuitBreaker → CircuitBreaker
call success b = record_success b
call (failure now) b = record_failure now b
call (attempt now) b = (allows_attempt now b).1

-- The breaker after calls, newest first.
unfoldable pub calls : List Call → CircuitBreaker → CircuitBreaker
calls [] b = b
calls (c ∷ older) b = call c (calls older b)

-- The failures since the last success.
abbrev pub failures_in_a_row : List Call → ℕ
failures_in_a_row [] = 0
failures_in_a_row (success ∷ older) = 0
failures_in_a_row (failure now ∷ older) = suc (failures_in_a_row older)
failures_in_a_row (attempt now ∷ older) = failures_in_a_row older

abbrev pub new_breaker : ℕ → ℕ → CircuitBreaker
new_breaker threshold reset = record {
  fail_threshold = threshold;
  reset_after = reset;
  state = closed;
  failures = 0;
  opened_at = 0;
}

-- What the breaker remembers of its calls.
pub record Counts (threshold reset n : ℕ) (b : CircuitBreaker) : Type 0 where
  pub fail_threshold : b.fail_threshold ≡ threshold
  pub reset_after : b.reset_after ≡ reset
  pub failures : b.failures ≡ n
  pub degraded : is_closed b.state ≡ not (leb threshold n)

call-Counts :
    (threshold reset : ℕ) (c : Call) (older : List Call) (b : CircuitBreaker)
    → 0 < threshold
    → Counts threshold reset (failures_in_a_row older) b
    → Counts threshold reset (failures_in_a_row (c ∷ older)) (call c b)
unfolding record_success record_failure allows_attempt
call-Counts threshold reset success older b h k = ground arith
call-Counts threshold reset (failure now) older b h k = ground arith
call-Counts threshold reset (attempt now) older b h k = ground arith

-- After any calls on a new breaker whose threshold is positive, it is closed exactly when fewer
-- failures than the threshold have come since the last success.
pub calls-Counts :
    (threshold reset : ℕ) (cs : List Call)
    → 0 < threshold
    → Counts threshold reset (failures_in_a_row cs) (calls cs (new_breaker threshold reset))
unfolding calls
calls-Counts threshold reset [] h = ground arith
calls-Counts threshold reset (c ∷ older) h =
    call-Counts threshold reset c older _ h (calls-Counts threshold reset older h)

-- An open breaker refuses an attempt exactly while `reset_after` since it opened is not over, and
-- stays open by it; a failure of the probe opens it again, from that instant on; a success closes it.
open_cycle :
    (b : CircuitBreaker) (now later : ℕ)
    → b.state ≡ open_
    → b.fail_threshold ≤ b.failures
    → ((allows_attempt now b).0 ≡ leb (b.opened_at + b.reset_after) now)
      × ((allows_attempt now b).0 ≡ false → (allows_attempt now b).1 ≡ b)
      × ((allows_attempt now b).0 ≡ true
          → ((record_failure later (allows_attempt now b).1).state ≡ open_)
            × ((record_failure later (allows_attempt now b).1).opened_at ≡ later))
      × ((record_success (allows_attempt now b).1).state ≡ closed)
unfolding record_success record_failure allows_attempt
open_cycle b now later o n = ground arith

-- Attempts at any instants.
abbrev pub all_allowed : List ℕ → CircuitBreaker → Bool
all_allowed [] b = true
all_allowed (now ∷ nows) b = (allows_attempt now b).0 && all_allowed nows (allows_attempt now b).1

-- A half-open breaker allows every attempt, however many, until a result of one is recorded.
pub half_open_allows :
    (nows : List ℕ) (b : CircuitBreaker) → b.state ≡ half_open → all_allowed nows b ≡ true
unfolding allows_attempt
half_open_allows [] b h = refl
half_open_allows (now ∷ nows) b h = ground (arith, half_open_allows nows (allows_attempt now b).1)
