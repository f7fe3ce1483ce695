-- ===== src/Ingestor/Recovery/Requests.antt =====
-- The requests of recovery.py: `_split_by_days`, `plan_requests` and `refresh_range`.
use live_forex_volatility_tr.Base.{
  ℕ, zero, suc, ◌+◌, ◌-◌, ◌*◌, ◌/◌, Bool, true, false, ◌&&◌, ◌||◌, Option, none, some, List, [],
  ◌∷◌, ◌++◌, leb, ltb, ◌==◌, if◌then◌else◌, min, any,
}
use live_forex_volatility_tr.Base.Clock.{Instant}
use live_forex_volatility_tr.Base.Text.{Text, eq_text}
use live_forex_volatility_tr.Ingestor.Recovery.{minute, floor_bucket, Span}

-- A day, in microseconds.
abbrev pub day : ℕ
day = 86_400_000_000

-- `ts.date()`, as a number of days.
abbrev pub date_of : Instant → ℕ
date_of ts = ts / day

-- The last minute of the part that begins at `start`.
unfoldable pub part_end : Span → ℕ → Instant → Instant
part_end span days start = min span.end ((date_of start + days) * day - minute)

-- The loop of `_split_by_days`.
unfoldable pub split_from : ℕ → Span → ℕ → Instant → List Span
unfolding part_end
split_from zero span days start = []
split_from (suc fuel) span days start =
    let end = part_end span days start in
    let rest = split_from fuel span days (end + minute) in
    if leb start span.end then record span { start = start; end = end } ∷ rest else []

-- A part for each day of the span is enough.
unfoldable pub split_by_days : Span → ℕ → List Span
unfolding split_from
split_by_days span days =
    split_from (suc (date_of span.end - date_of span.start)) span days span.start

pub record Request : Type 0 where
  pub symbol : Text
  pub spans : List Span

-- `str.__le__`, by code points.
unfoldable pub leb_text : Text → Text → Bool
leb_text [] t = true
leb_text (a ∷ s) [] = false
leb_text (a ∷ s) (b ∷ t) = ltb a b || ((a == b) && leb_text s t)

-- `{s.symbol for s in spans}`
unfoldable pub symbol_set : List Span → List Text
symbol_set [] = []
symbol_set (s ∷ spans) =
    let rest = symbol_set spans in if any (eq_text s.symbol) rest then rest else s.symbol ∷ rest

unfoldable pub add_symbol : Text → List Text → List Text
unfolding leb_text
add_symbol s [] = s ∷ []
add_symbol s (t ∷ symbols) =
    let rest = add_symbol s symbols in if leb_text s t then s ∷ t ∷ symbols else t ∷ rest

-- `sorted` of them.
unfoldable pub sorted_symbols : List Text → List Text
unfolding add_symbol
sorted_symbols [] = []
sorted_symbols (s ∷ symbols) = add_symbol s (sorted_symbols symbols)

-- `s for s in spans if s.symbol == symbol`
unfoldable pub of_symbol : Text → List Span → List Span
of_symbol symbol [] = []
of_symbol symbol (s ∷ spans) =
    let rest = of_symbol symbol spans in if eq_text s.symbol symbol then s ∷ rest else rest

-- `sorted(..., key=lambda s: s.start)`: a span goes in before the first that starts later or with it.
unfoldable pub add_span : Span → List Span → List Span
add_span s [] = s ∷ []
add_span s (t ∷ spans) =
    let rest = add_span s spans in if leb s.start t.start then s ∷ t ∷ spans else t ∷ rest

unfoldable pub by_start : List Span → List Span
unfolding add_span
by_start [] = []
by_start (s ∷ spans) = add_span s (by_start spans)

-- The parts of the spans, in the order of the two inner loops.
unfoldable pub all_parts : List Span → ℕ → List Span
unfolding split_by_days
all_parts [] days = []
all_parts (whole ∷ spans) days = split_by_days whole days ++ all_parts spans days

-- `current and (part.end.date() - current[0].start.date()).days >= days_per_request`
unfoldable pub is_full : List Span → ℕ → Span → Bool
is_full [] days part = false
is_full (first ∷ current) days part = leb (date_of first.start + days) (date_of part.end)

-- `if current: requests.append(Request(symbol, tuple(current)))`
unfoldable pub close_request : Text → List Span → List Request
close_request symbol [] = []
close_request symbol (first ∷ current) = record { symbol = symbol; spans = first ∷ current } ∷ []

unfoldable pub group_parts : Text → ℕ → List Span → List Span → List Request
unfolding is_full close_request
group_parts symbol days current [] = close_request symbol current
group_parts symbol days current (part ∷ parts) =
    let full = is_full current days part in
    let rest = group_parts symbol days (if full then part ∷ [] else current ++ part ∷ []) parts in
    if full then record { symbol = symbol; spans = current } ∷ rest else rest

unfoldable pub plan_symbols : List Text → List Span → ℕ → List Request
unfolding of_symbol by_start all_parts group_parts
plan_symbols [] spans days = []
plan_symbols (symbol ∷ symbols) spans days =
    group_parts symbol days [] (all_parts (by_start (of_symbol symbol spans)) days)
    ++ plan_symbols symbols spans days

unfoldable pub plan_requests : List Span → ℕ → List Request
unfolding symbol_set sorted_symbols plan_symbols
plan_requests spans days = plan_symbols (sorted_symbols (symbol_set spans)) spans days

unfoldable pub refresh_range : Instant → Instant → ℕ → ℕ → Instant → Option (Instant × Instant)
unfolding floor_bucket
refresh_range first last width end_offset now =
    let start = floor_bucket first width in
    let end = min (floor_bucket last width + width) (floor_bucket (now - end_offset) width) in
    if ltb start end then some (start, end) else none
