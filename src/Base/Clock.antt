-- ===== src/Base/Clock.antt =====
-- Python's `datetime` and `timedelta`. An instant is its number of microseconds since 1970 and
-- a duration is a signed number of microseconds, so `now - since` may be negative.
use live_forex_volatility_tr.Base.Names.{ℕ, ◌+◌, ◌*◌, ◌/◌, ◌%◌, ◌≡◌, Bool, arith}
use live_forex_volatility_tr.Base.Tests.{ltb, leb}
use live_forex_volatility_tr.Base.Int.{ℤ, pos, pos_part, neg_part, sub_ℕ, ltb_ℤ, leb_ℤ}

abbrev pub Instant : Type 0
Instant = ℕ

abbrev pub Duration : Type 0
Duration = ℤ

abbrev pub minutes : ℕ → Duration
minutes n = pos (n * 60_000_000)

abbrev pub hours : ℕ → Duration
hours n = pos (n * 3_600_000_000)

-- `now - since < d`, with the difference moved to both sides.
abbrev pub elapsed_lt : Instant → Instant → Duration → Bool
elapsed_lt now since d = ltb (now + neg_part d) (since + pos_part d)

-- `now - since >= d`.
abbrev pub elapsed_ge : Instant → Instant → Duration → Bool
elapsed_ge now since d = leb (since + pos_part d) (now + neg_part d)

-- `now - since > d`.
abbrev pub elapsed_gt : Instant → Instant → Duration → Bool
elapsed_gt now since d = ltb (since + pos_part d) (now + neg_part d)

-- They are the comparisons of the signed difference.
pub elapsed_lt-sub :
    (now since : Instant) (d : Duration) → elapsed_lt now since d ≡ ltb_ℤ (sub_ℕ now since) d
elapsed_lt-sub now since d = ground arith

pub elapsed_ge-sub :
    (now since : Instant) (d : Duration) → elapsed_ge now since d ≡ leb_ℤ d (sub_ℕ now since)
elapsed_ge-sub now since d = ground arith

-- `ts.hour`, in UTC.
abbrev pub hour_of : Instant → ℕ
hour_of ts = ts / 3_600_000_000 % 24

-- `int(ts.timestamp())`
abbrev pub epoch_of : Instant → ℕ
epoch_of ts = ts / 1_000_000

-- `datetime.fromtimestamp(epoch, tz=UTC)`
abbrev pub from_epoch : ℕ → Instant
from_epoch e = e * 1_000_000
