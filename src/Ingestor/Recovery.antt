-- ===== src/Ingestor/Recovery.antt =====
-- The planning functions of apps/ingestor/fx_ingestor/recovery.py: which minutes a run may look
-- at, and the runs of consecutive minutes that have no bar. Instants before 1970 are not
-- represented, so a difference that would reach them stops at 0.

pub mod Requests
pub mod Missing
pub mod Days
pub mod Aligned
pub mod Eligible
pub mod Cache
pub mod Report
pub mod Store
pub mod Fetch
pub mod Run
pub mod Steps
pub mod Once
pub mod Rule
pub mod Balanced
pub mod Received
pub mod Accounting
pub mod Kept
pub mod Safe
pub mod Follows
pub mod Obedience
pub mod Dry
mod Tests
pub mod Asking
pub mod Planned
use live_forex_volatility_tr.Base.{
  ℕ, zero, suc, ◌+◌, ◌-◌, ◌*◌, ◌/◌, ◌%◌, Bool, true, false, ◌&&◌, ◌||◌, not, Option, none, some,
  List, [], ◌∷◌, ◌++◌, leb, ltb, ◌==◌, if◌then◌else◌, any, min,
}
use live_forex_volatility_tr.Base.Clock.{Instant, epoch_of, from_epoch}
use live_forex_volatility_tr.Base.Text.{Text}

-- `MINUTE`, and the other durations, in microseconds.
abbrev pub minute : ℕ
minute = 60_000_000

-- `HOT_CACHE_BARS`
abbrev pub hot_cache_bars : ℕ
hot_cache_bars = 1_440

-- `SETTLE`
abbrev pub settle : ℕ
settle = 60 * minute

-- `AUTH_BACKOFF`
abbrev pub auth_backoff : ℕ
auth_backoff = 360 * minute

-- `RATE_LIMIT_BACKOFF`
abbrev pub rate_limit_backoff : ℕ
rate_limit_backoff = 15 * minute

unfoldable pub floor_minute : Instant → Instant
floor_minute ts = ts - ts % minute

unfoldable pub floor_bucket : Instant → ℕ → Instant
floor_bucket ts width =
    let seconds = width / 1_000_000 in from_epoch (epoch_of ts / seconds * seconds)

-- The minutes that start from `start` to `end`, both included.
pub record Window : Type 0 where
  pub start : Instant
  pub end : Instant

unfoldable pub recovery_window : Instant → ℕ → ℕ → Option Window
unfolding floor_minute
recovery_window now lookback horizon =
    let end = floor_minute (now - horizon) - minute in
    let start = floor_minute (now - lookback) in
    if leb start end then some (record { start = start; end = end }) else none

-- The rounds of a loop from `m` to `end` by minutes, and one more.
unfoldable pub rounds : Instant → Instant → ℕ
rounds m end = suc ((end - m) / minute)

unfoldable pub open_from : ℕ → (Instant → Bool) → Instant → Instant → List Instant
open_from zero is_open m end = []
open_from (suc fuel) is_open m end =
    let rest = open_from fuel is_open (m + minute) end in
    if leb m end then if is_open m then m ∷ rest else rest else []

unfoldable pub open_minutes : Window → (Instant → Bool) → List Instant
unfolding open_from rounds
open_minutes window is_open =
    open_from (rounds window.start window.end) is_open window.start window.end

-- Consecutive missing minutes of one symbol.
pub record Span : Type 0 where
  pub symbol : Text
  pub start : Instant
  pub end : Instant

-- `Span.minutes`
unfoldable pub span_minutes : Span → ℕ
span_minutes s = (s.end - s.start) / minute + 1

unfoldable pub minutes_from : ℕ → Instant → Instant → List Instant
minutes_from zero m end = []
minutes_from (suc fuel) m end =
    let rest = minutes_from fuel (m + minute) end in if leb m end then m ∷ rest else []

-- `Span.each_minute`
unfoldable pub each_minute : Span → List Instant
unfolding minutes_from rounds
each_minute s = minutes_from (rounds s.start s.end) s.start s.end

-- `any(a <= m <= b for a, b in settled)`
abbrev pub within : Instant → Instant × Instant → Bool
within m (a, b) = leb a m && leb m b

unfoldable pub is_missing : List Instant → List (Instant × Instant) → Instant → Bool
is_missing present settled m = not (any (λ p. m == p) present) && not (any (within m) settled)

-- The span under way: `start` and `prev`, which are None together.
abbrev pub Open : Type 0
Open = Option (Instant × Instant)

-- `spans.append(Span(symbol, start, prev))`, where a span is under way.
unfoldable pub close_span : Text → Open → List Span → List Span
close_span symbol none rest = rest
close_span symbol (some (start, prev)) rest =
    record { symbol = symbol; start = start; end = prev } ∷ rest

-- `missing and start is not None and m == prev + MINUTE`
abbrev pub continues : Open → Instant → Bool
continues none m = false
continues (some (start, prev)) m = m == prev + minute

-- `start` and `prev` after a minute: the span goes on, another begins, or none is under way.
unfoldable pub next_open : Bool → Open → Instant → Open
next_open false under_way m = none
next_open true none m = some (m, m)
next_open true (some (start, prev)) m = if m == prev + minute then some (start, m) else some (m, m)

-- The loop of `missing_spans`, and the span that is under way after it.
unfoldable pub spans_from : Text → (Instant → Bool) → Open → List Instant → List Span
unfolding close_span next_open
spans_from symbol missing under_way [] = close_span symbol under_way []
spans_from symbol missing under_way (m ∷ expected) =
    let rest = spans_from symbol missing (next_open (missing m) under_way m) expected in
    if missing m && continues under_way m then rest else close_span symbol under_way rest

unfoldable pub missing_spans :
    Text → List Instant → List Instant → List (Instant × Instant) → List Span
unfolding spans_from is_missing
missing_spans symbol expected present settled =
    spans_from symbol (is_missing present settled) none expected
