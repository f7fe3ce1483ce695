-- ===== src/Ingestor/Supervisor/Watchdog.antt =====
-- The staleness watchdog of apps/ingestor/fx_ingestor/supervisor.py over any sequence of frames
-- and checks.
use live_forex_volatility_tr.Base.{
  ℕ, suc, ◌+◌, ◌≡◌, refl, ap, sym, subst, Bool, true, false, not, List, [], ◌∷◌, ltb, if◌then◌else◌,
  arith, ◌≤◌, ◌<◌, ◌||◌, ◌↔◌, All, All-map, Bool-cases, inl, inr, ltb→lt, ltb→ge,
}
use live_forex_volatility_tr.Ingestor.Supervisor.{StalenessWatchdog, pet, check}

pub data Event : Type 0 where
  frame : ℕ → Event
  checked : ℕ → Bool → Event

abbrev pub happen : Event → StalenessWatchdog → StalenessWatchdog
happen (frame now) w = pet now w
happen (checked now market_is_open) w = (check now market_is_open w).1

-- Newest first.
unfoldable pub after : List Event → StalenessWatchdog → StalenessWatchdog
after [] w = w
after (e ∷ older) w = happen e (after older w)

abbrev pub time_of : Event → ℕ
time_of (frame now) = now
time_of (checked now market_is_open) = now

-- The events come in the order of their times, from the start on.
abbrev pub InOrder : ℕ → List Event → Type 0
InOrder start [] = Unit
InOrder start (e ∷ older) =
    (start ≤ time_of e) × All (λ d. time_of d ≤ time_of e) older × InOrder start older

abbrev pub started : ℕ → ℕ → StalenessWatchdog
started start timeout = record { timeout = timeout; last_data = start; trips = 0 }

-- Whether the newest event is a check that calls `on_stale`.
unfoldable pub reports : ℕ → ℕ → Event → List Event → Bool
unfolding after check
reports start timeout (frame now) older = false
reports start timeout (checked now market_is_open) older =
    (check now market_is_open (after older (started start timeout))).0

-- Newest first, the times of what ends a silence: the start, each frame, each check of a closed
-- market, and each report.
unfoldable pub heard : ℕ → ℕ → List Event → List ℕ
unfolding reports
heard start timeout [] = start ∷ []
heard start timeout (frame now ∷ older) = now ∷ heard start timeout older
heard start timeout (checked now market_is_open ∷ older) =
    let rest = heard start timeout older in
    if not market_is_open || reports start timeout (checked now market_is_open) older
    then now ∷ rest
    else rest

-- How many checks called `on_stale`.
unfoldable pub count_reports : ℕ → ℕ → List Event → ℕ
unfolding reports
count_reports start timeout [] = 0
count_reports start timeout (e ∷ older) =
    let rest = count_reports start timeout older in
    if reports start timeout e older then suc rest else rest

-- The newest of the times, and none of the others is later.
Newest : List ℕ → ℕ → Type 0
Newest [] m = ⊥
Newest (t ∷ times) m = (t ≡ m) × All (λ u. u ≤ m) times

record Follows (limit count : ℕ) (times : List ℕ) (w : StalenessWatchdog) : Type 0 where
  timeout : w.timeout ≡ limit
  trips : w.trips ≡ count
  clock : Newest times w.last_data

check-late :
    (now : ℕ) (w : StalenessWatchdog)
    → ltb (w.last_data + w.timeout) now ≡ true
    → check now true w ≡ (true, pet now (record w { trips = suc w.trips }))
unfolding check
check-late now w h = rw h refl

check-early :
    (now : ℕ) (w : StalenessWatchdog)
    → ltb (w.last_data + w.timeout) now ≡ false
    → check now true w ≡ (false, w)
unfolding check
check-early now w h = rw h refl

heard-within :
    (start limit bound : ℕ) (events : List Event)
    → start ≤ bound
    → All (λ e. time_of e ≤ bound) events
    → All (λ t. t ≤ bound) (heard start limit events)
unfolding heard
heard-within start limit bound [] h a = (h, tt)
heard-within start limit bound (frame now ∷ older) h a =
    (a.0, heard-within start limit bound older h a.1)
heard-within start limit bound (checked now market_is_open ∷ older) h a =
    let rest = heard-within start limit bound older h a.1 in
    elim (Bool-cases
      (not market_is_open || reports start limit (checked now market_is_open) older)) [
        | inl c ↦ rw c (a.0, rest)
        | inr c ↦ rw c rest
      ]

after-Follows :
    (start limit : ℕ) (events : List Event)
    → InOrder start events
    → Follows limit
        (count_reports start limit events)
        (heard start limit events)
        (after events (started start limit))
unfolding after heard count_reports Newest pet reports check
after-Follows start limit [] order = record { timeout = refl; trips = refl; clock = (refl, tt) }
after-Follows start limit (frame now ∷ older) order =
    let k = after-Follows start limit older order.2 in
    record {
      timeout = k.timeout;
      trips = k.trips;
      clock = (refl, heard-within start limit now older order.0 order.1);
    }
after-Follows start limit (checked now false ∷ older) order =
    let k = after-Follows start limit older order.2 in
    record {
      timeout = k.timeout;
      trips = k.trips;
      clock = (refl, heard-within start limit now older order.0 order.1);
    }
after-Follows start limit (checked now true ∷ older) order =
    let k = after-Follows start limit older order.2 in
    let w = after older (started start limit) in
    let count = count_reports start limit older in
    let times = heard start limit older in
    let By : Bool × StalenessWatchdog → Type 0 = λ u.
      Follows limit (if u.0 then suc count else count) (if u.0 then now ∷ times else times) u.1 in
    elim (Bool-cases (ltb (w.last_data + w.timeout) now)) [
      | inl c ↦ subst By (sym (check-late now w c)) (record {
        timeout = k.timeout;
        trips = ap suc k.trips;
        clock = (refl, heard-within start limit now older order.0 order.1);
      })
      | inr c ↦ subst By (sym (check-early now w c)) k
    ]

-- Everything heard is more than the timeout ago when the newest of it is.
Newest-silent :
    (times : List ℕ) (last limit now : ℕ)
    → Newest times last
    → (last + limit < now) ↔ All (λ t. t + limit < now) times
unfolding Newest
Newest-silent [] last limit now h = absurd h
Newest-silent (t ∷ times) last limit now h = (
  λ silent. (omega (arith, h.0), All-map (λ u le. omega arith) times h.1),
  λ all. omega (arith, h.0, all.0),
)

-- Over any frames and checks in the order of their times, the watchdog has tripped as often as its
-- checks called `on_stale`; and a check calls it exactly when the market is open and more than the
-- timeout has passed since each frame, each check of a closed market, each earlier call and the
-- start.
pub check-reports :
    (start limit now : ℕ) (market_is_open : Bool) (older : List Event)
    → InOrder start (checked now market_is_open ∷ older)
    → ((after (checked now market_is_open ∷ older) (started start limit)).trips
        ≡ count_reports start limit (checked now market_is_open ∷ older))
      × ((reports start limit (checked now market_is_open) older ≡ true)
          ↔ ((market_is_open ≡ true) × All (λ t. t + limit < now) (heard start limit older)))
unfolding reports check
check-reports start limit now false older order =
    ((after-Follows start limit (checked now false ∷ older) order).trips, (λ e. cc, λ h. cc (h.0)))
check-reports start limit now true older order =
    let k = after-Follows start limit older order.2 in
    let w = after older (started start limit) in
    let silent = Newest-silent (heard start limit older) w.last_data limit now k.clock in
    (
      (after-Follows start limit (checked now true ∷ older) order).trips,
      elim (Bool-cases (ltb (w.last_data + w.timeout) now)) [
        | inl c ↦ (
          λ e. (refl, silent.0 (omega (arith, k.timeout, ltb→lt _ _ c))),
          λ h. ap (λ u. u.0) (check-late now w c),
        )
        | inr c ↦
            let quiet : (check now true w).0 ≡ false = ap (λ u. u.0) (check-early now w c) in
            (
              λ e. absurd (cc (e, quiet)),
              λ h. absurd (omega (arith, k.timeout, ltb→ge _ _ c, silent.1 h.1)),
            )
      ],
    )
