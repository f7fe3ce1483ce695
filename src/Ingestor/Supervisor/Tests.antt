-- ===== src/Ingestor/Supervisor/Tests.antt =====
-- Runs of the breaker and the watchdog.
use live_forex_volatility_tr.Base.{◌≡◌, refl, ◌+◌, ◌<◌, ◌↔◌, All, true, false, List, [], ◌∷◌, arith}
use live_forex_volatility_tr.Ingestor.Supervisor.Breaker.{
  Call, success, failure, attempt, calls, new_breaker, Counts, calls-Counts,
}
use live_forex_volatility_tr.Ingestor.Supervisor as Supervisor
use live_forex_volatility_tr.Ingestor.Supervisor.Watchdog.{
  Event, frame, checked, after, started, reports, heard, count_reports, check-reports,
}

abbrev two_failures : List Call
two_failures = failure 20 ∷ attempt 15 ∷ failure 10 ∷ success ∷ []

calls-Counts_example : Counts 2 30 2 (calls two_failures (new_breaker 2 30))
calls-Counts_example = calls-Counts 2 30 two_failures (omega arith)

abbrev quiet : List Event
quiet = checked 100 true ∷ checked 50 false ∷ frame 10 ∷ []

check-reports_example :
    ((after (checked 160 true ∷ quiet) (started 0 30)).trips
      ≡ count_reports 0 30 (checked 160 true ∷ quiet))
    × ((reports 0 30 (checked 160 true) quiet ≡ true)
        ↔ ((true ≡ true) × All (λ t. t + 30 < 160) (heard 0 30 quiet)))
check-reports_example = check-reports 0 30 160 true quiet (
  omega arith,
  (omega arith, (omega arith, (omega arith, tt))),
  (
    omega arith,
    (omega arith, (omega arith, tt)),
    (omega arith, (omega arith, tt), (omega arith, tt, tt)),
  ),
)

-- A report, and none while its own silence is short.
two_reports : heard 0 30 quiet ≡ 100 ∷ 50 ∷ 10 ∷ 0 ∷ []
unfolding heard reports after Supervisor.check
two_reports = refl
