-- ===== src/Platform/Lease.antt =====
-- `LeaderLease` of packages/platform/fx_platform/leader.py: one key of Redis, with the instance
-- that holds it and the instant, in milliseconds, at which it expires. The two Lua scripts run
-- atomically.
pub mod Exclusion
mod Tests
use live_forex_volatility_tr.Base.{
  ℕ, ◌+◌, ◌*◌, Bool, true, false, ◌&&◌, not, Option, none, some, ltb, leb, ◌==◌, if◌then◌else◌,
}
use live_forex_volatility_tr.Base.Text.{Text, eq_text}
use live_forex_volatility_tr.Base.Result.{Result, ok, raise, value_error, raise_if, ◌>>=◌, ◌>>◌}

-- The value of the lease's key, and when it expires.
pub record Held : Type 0 where
  pub owner : Text
  pub expires : ℕ

-- `GET`: a key that has expired is not there.
abbrev pub owner_at : ℕ → Option Held → Option Text
owner_at now none = none
owner_at now (some h) = if ltb now h.expires then some h.owner else none

abbrev pub same_owner : Option Text → Text → Bool
same_owner none id = false
same_owner (some owner) id = eq_text owner id

-- One replica's lease object.
pub record LeaderLease : Type 0 where
  pub ttl_ms : ℕ
  pub renew_ms : ℕ
  pub instance_id : Text
  pub is_leader : Bool
  pub lost : Bool

-- The constructor: `renew_ms >= ttl_ms / 2` is refused.
unfoldable pub new : Text → ℕ → ℕ → Result LeaderLease
new id ttl_ms renew_ms = do
  raise_if (leb ttl_ms (2 * renew_ms)) value_error
  ok (record {
    ttl_ms = ttl_ms;
    renew_ms = renew_ms;
    instance_id = id;
    is_leader = false;
    lost = false;
  })

-- `_acquire`: SET NX PX.
unfoldable pub acquire : ℕ → LeaderLease → Option Held → Bool × Option Held
acquire now l key = elim (owner_at now key) [
  | none ↦ (true, some (record { owner = l.instance_id; expires = now + l.ttl_ms }))
  | some owner ↦ (false, key)
]

-- `_renew`: the script extends the lease only for its owner.
unfoldable pub renew : ℕ → LeaderLease → Option Held → Bool × Option Held
renew now l key =
    if same_owner (owner_at now key) l.instance_id
    then (true, some (record { owner = l.instance_id; expires = now + l.ttl_ms }))
    else (false, key)

-- `_release`: the script deletes the lease only for its owner.
unfoldable pub release : ℕ → LeaderLease → Option Held → Option Held
release now l key = if same_owner (owner_at now key) l.instance_id then none else key

-- A round of `hold` until the lease is there: `is_leader` is set, and the loss forgotten.
unfoldable pub try_hold : ℕ → LeaderLease → Option Held → LeaderLease × Option Held
unfolding acquire
try_hold now l key =
    let (won, key') = acquire now l key in
    if won then (record l { is_leader = true; lost = false }, key') else (l, key')

-- A round of `_renew_loop`, where Redis answers or not: without a renewal the lease is lost.
unfoldable pub renew_round : ℕ → Bool → LeaderLease → Option Held → LeaderLease × Option Held
unfolding renew
renew_round now redis_up l key =
    let (renewed, key') = renew now l key in
    if redis_up
    then (if renewed then (l, key') else (record l { is_leader = false; lost = true }, key'))
    else (record l { is_leader = false; lost = true }, key)

-- The end of `hold`.
unfoldable pub leave : ℕ → Bool → LeaderLease → Option Held → LeaderLease × Option Held
unfolding release
leave now redis_up l key =
    (record l { is_leader = false }, if redis_up then release now l key else key)
