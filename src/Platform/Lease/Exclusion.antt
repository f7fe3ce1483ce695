-- ===== src/Platform/Lease/Exclusion.antt =====
-- Mutual exclusion by the lease of packages/platform/fx_platform/leader.py, over any sequence of
-- rounds of two replicas: as long as the leader's last renewal is younger than its time to live.
use live_forex_volatility_tr.Base.{
  ℕ, ◌+◌, ◌≤◌, ◌<◌, ◌≡◌, ◌≢◌, ◌∙◌, sym, refl, inl, inr, Bool-cases, Bool, true, false, ◌&&◌, Option,
  none, some, List, [], ◌∷◌, ltb, if◌then◌else◌, arith,
}
use live_forex_volatility_tr.Base.Text.{Text, eq_text→eq}
use live_forex_volatility_tr.Platform.Lease.{
  Held, LeaderLease, acquire, renew, release, try_hold, renew_round, leave,
}

-- What a replica does to the shared key.
pub data Step : Type 0 where
  hold_step : Step
  renew_step : Bool → Step
  leave_step : Bool → Step

-- A replica, and until when its last acquisition or renewal lasts.
pub record Replica : Type 0 where
  pub lease : LeaderLease
  pub valid_until : ℕ

abbrev pub extended : ℕ → Replica → LeaderLease → Replica
extended now r l = record {
  lease = l;
  valid_until = if l.is_leader then now + l.ttl_ms else r.valid_until;
}

-- A standby tries to hold, a leader renews, and either may leave.
unfoldable pub step : ℕ → Step → Replica → Option Held → Replica × Option Held
step now hold_step r key =
    if r.lease.is_leader
    then (r, key)
    else (let (l, key') = try_hold now r.lease key in (extended now r l, key'))
step now (renew_step up) r key =
    if r.lease.is_leader
    then (let (l, key') = renew_round now up r.lease key in (extended now r l, key'))
    else (r, key)
step now (leave_step up) r key =
    let (l, key') = leave now up r.lease key in (extended now r l, key')

abbrev pub HeldBy : Option Held → Text → ℕ → Type 0
HeldBy none id until = ⊥
HeldBy (some h) id until = (h.owner ≡ id) × (h.expires ≡ until)

-- A replica that believes to lead, and renewed within the time to live, owns the key until then.
abbrev pub Owns : ℕ → Replica → Option Held → Type 0
Owns now r key =
    r.lease.is_leader ≡ true → now < r.valid_until → HeldBy key r.lease.instance_id r.valid_until

step-Owns :
    (now later : ℕ) (s : Step) (r : Replica) (key : Option Held)
    → now ≤ later
    → Owns now r key
    → Owns later (step now s r key).0 (step now s r key).1
unfolding step try_hold renew_round leave acquire renew release
step-Owns now later hold_step r none le o = ground (arith, o)
step-Owns now later hold_step r (some h) le o = ground (arith, o)
step-Owns now later (renew_step up) r none le o = ground (arith, o)
step-Owns now later (renew_step up) r (some h) le o = ground (arith, o)
step-Owns now later (leave_step up) r key le o = ground (arith, o)

step-Owns_other :
    (now later : ℕ) (s : Step) (r other : Replica) (key : Option Held)
    → now ≤ later
    → r.lease.instance_id ≢ other.lease.instance_id
    → Owns now other key
    → Owns later other (step now s r key).1
unfolding step try_hold renew_round leave acquire renew release
step-Owns_other now later hold_step r other none le n o = ground (arith, o)
step-Owns_other now later hold_step r other (some h) le n o = ground (arith, o)
step-Owns_other now later (renew_step up) r other none le n o = ground (arith, o)
step-Owns_other now later (renew_step up) r other (some h) le n o =
    ground (arith, o, eq_text→eq h.owner r.lease.instance_id)
step-Owns_other now later (leave_step up) r other none le n o = ground (arith, o)
step-Owns_other now later (leave_step up) r other (some h) le n o =
    ground (arith, o, eq_text→eq h.owner r.lease.instance_id)

-- The replica's state and the other's, and the key.
pub record Pair : Type 0 where
  pub first : Replica
  pub second : Replica
  pub key : Option Held

-- A step of one replica: the first where `true`.
pub record Round : Type 0 where
  pub now : ℕ
  pub by_first : Bool
  pub step : Step

abbrev pub round : Round → Pair → Pair
round e p =
    if e.by_first
    then (let (r, key) = step e.now e.step p.first p.key in record p { first = r; key = key })
    else (let (r, key) = step e.now e.step p.second p.key in record p { second = r; key = key })

-- Rounds, newest first.
unfoldable pub rounds : List Round → Pair → Pair
rounds [] p = p
rounds (e ∷ older) p = round e (rounds older p)

-- Newest first: no clock reading is after the one that follows it.
abbrev pub InOrder : ℕ → List Round → Type 0
InOrder now [] = Unit
InOrder now (e ∷ older) = (e.now ≤ now) × InOrder e.now older

abbrev pub leads : ℕ → Replica → Bool
leads now r = r.lease.is_leader && ltb now r.valid_until

record Excludes (now : ℕ) (a b : Text) (p : Pair) : Type 0 where
  first_id : p.first.lease.instance_id ≡ a
  second_id : p.second.lease.instance_id ≡ b
  first : Owns now p.first p.key
  second : Owns now p.second p.key

step-id :
    (now : ℕ) (s : Step) (r : Replica) (key : Option Held)
    → (step now s r key).0.lease.instance_id ≡ r.lease.instance_id
unfolding step try_hold renew_round leave
step-id now hold_step r key = ground arith
step-id now (renew_step up) r key = ground arith
step-id now (leave_step up) r key = ground arith

round-Excludes :
    (later : ℕ) (e : Round) (a b : Text) (p : Pair)
    → a ≢ b
    → e.now ≤ later
    → Excludes e.now a b p
    → Excludes later a b (round e p)
round-Excludes later e a b p n le h = elim (Bool-cases e.by_first) [
  | inl f ↦ rw f (record {
    first_id = step-id e.now e.step p.first p.key ∙ h.first_id;
    second_id = h.second_id;
    first = step-Owns e.now later e.step p.first p.key le h.first;
    second =
        step-Owns_other e.now later e.step p.first p.second p.key le
          (λ x. n (sym h.first_id ∙ x ∙ h.second_id)) h.second;
  })
  | inr f ↦ rw f (record {
    first_id = h.first_id;
    second_id = step-id e.now e.step p.second p.key ∙ h.second_id;
    first =
        step-Owns_other e.now later e.step p.second p.first p.key le
          (λ x. n (sym h.first_id ∙ sym x ∙ h.second_id)) h.first;
    second = step-Owns e.now later e.step p.second p.key le h.second;
  })
]

rounds-Excludes :
    (now : ℕ) (es : List Round) (p : Pair)
    → p.first.lease.instance_id ≢ p.second.lease.instance_id
    → p.first.lease.is_leader ≡ false
    → p.second.lease.is_leader ≡ false
    → InOrder now es
    → Excludes now p.first.lease.instance_id p.second.lease.instance_id (rounds es p)
unfolding rounds
rounds-Excludes now [] p n f s o = record {
  first_id = refl;
  second_id = refl;
  first = λ e. cc;
  second = λ e. cc;
}
rounds-Excludes now (e ∷ es) p n f s o =
    round-Excludes now e _ _ (rounds es p) n o.0 (rounds-Excludes e.now es p n f s o.1)

never-both :
    (now : ℕ) (r q : Replica) (key : Option Held)
    → r.lease.instance_id ≢ q.lease.instance_id
    → Owns now r key
    → Owns now q key
    → (leads now r && leads now q) ≡ false
never-both now r q none n o u = ground (arith, o, u)
never-both now r q (some h) n o u = ground (arith, o, u)

-- Two replicas with different ids start as standbys of the same lease, and hold, renew and leave in
-- any order, Redis answering or not. At no instant do both lead within the time to live of their
-- last acquisition or renewal.
pub rounds_exclusive :
    (now : ℕ) (es : List Round) (p : Pair)
    → p.first.lease.instance_id ≢ p.second.lease.instance_id
    → p.first.lease.is_leader ≡ false
    → p.second.lease.is_leader ≡ false
    → InOrder now es
    → (leads now (rounds es p).first && leads now (rounds es p).second) ≡ false
rounds_exclusive now es p n f s o =
    let h = rounds-Excludes now es p n f s o in
    never-both now (rounds es p).first (rounds es p).second (rounds es p).key
      (λ x. n (sym h.first_id ∙ x ∙ h.second_id)) h.first h.second
