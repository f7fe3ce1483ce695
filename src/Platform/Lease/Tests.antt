-- ===== src/Platform/Lease/Tests.antt =====
-- A failover of the lease.
use live_forex_volatility_tr.Base.{ℕ, ◌≡◌, ◌&&◌, refl, true, false, none, List, [], ◌∷◌, arith}
use live_forex_volatility_tr.Platform.Lease.Exclusion.{
  Replica, Pair, Round, hold_step, rounds, leads, rounds_exclusive,
}

abbrev replica : ℕ → Replica
replica id = record {
  lease = record {
    ttl_ms = 10_000;
    renew_ms = 3_000;
    instance_id = id ∷ [];
    is_leader = false;
    lost = false;
  };
  valid_until = 0;
}

abbrev standbys : Pair
standbys = record { first = replica 1; second = replica 2; key = none }

-- The first replica holds the lease and stalls; the second takes it once it has expired.
abbrev failover : List Round
failover =
    record { now = 12_000; by_first = false; step = hold_step }
    ∷ record { now = 5_000; by_first = false; step = hold_step }
    ∷ record { now = 1_000; by_first = true; step = hold_step }
    ∷ []

rounds_exclusive_example :
    (leads 13_000 (rounds failover standbys).first
      && leads 13_000 (rounds failover standbys).second)
    ≡ false
rounds_exclusive_example =
    rounds_exclusive 13_000 failover standbys (λ e. cc) refl refl
      (omega arith, (omega arith, (omega arith, tt)))
