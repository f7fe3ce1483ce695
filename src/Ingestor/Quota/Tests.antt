-- ===== src/Ingestor/Quota/Tests.antt =====
-- A background request beside the live feed's.
use live_forex_volatility_tr.Base.{ℕ, suc, refl, [], ◌∷◌, arith}
use live_forex_volatility_tr.Base.Int.{pos, ◌≤ℤ◌}
use live_forex_volatility_tr.Ingestor.Quota.{
  QuotaLimits, uncapped, hour_ms, count_since, enter, take, forget,
}
use live_forex_volatility_tr.Ingestor.Quota.Reserve.{
  Request, entered, count_day, take-leaves_reserve,
}

abbrev limits : QuotaLimits
limits = record { per_hour = 5; per_day = 9; reserve_per_hour = 2; reserve_per_day = 3 }

abbrev live : ℕ → Request
live at = record { now = at; hour_cap = uncapped; day_cap = uncapped }

take-leaves_reserve_example :
    (pos (suc (count_since 300 hour_ms (entered (live 200 ∷ live 100 ∷ [])).1)) ≤ℤ pos 3)
    × (pos (suc (count_day 300 (entered (live 200 ∷ live 100 ∷ [])).1)) ≤ℤ pos 6)
unfolding take enter entered forget count_since
take-leaves_reserve_example =
    take-leaves_reserve limits 300 (live 200 ∷ live 100 ∷ []) (omega arith, (omega arith, tt)) refl
