-- ===== src/Ingestor/Recovery/Cache/Later.antt =====
-- What the script of the hot cache in recovery.py wants of a minute after it added an earlier one.
use live_forex_volatility_tr.Base.{
  ℕ, suc, ◌<◌, ◌≤◌, ◌≡◌, refl, ◌∙◌, Bool, true, ◌&&◌, not, none, some, [], ◌∷◌, arith, leb,
  if◌then◌else◌, inl, inr, Bool-cases, length, leb→le,
}
use live_forex_volatility_tr.Ingestor.Recovery.Cache.{
  SortedSet, has_score, zadd, trim, oldest_kept, is_above, add_entry,
}
use live_forex_volatility_tr.Ingestor.Recovery.Cache.Script.{
  IsBounded, trim-short, trim-over, oldest_kept-first, has_score-first, zadd-higher,
  oldest_kept-none, length-zadd,
}

module _ {M : Type 0} where
  -- The test of the script.
  unfoldable pub wants : ℕ → SortedSet M → ℕ → Bool
  wants cap set t = not (has_score t set) && is_above (oldest_kept cap set) t

  pub add_entry-wants :
      (cap t : ℕ) (m : M) (set : SortedSet M)
      → (add_entry cap t m set).0 ≡ (if wants cap set t then 1 else 0)
  unfolding add_entry wants
  add_entry-wants cap t m set = ground arith

  has_score-zadd :
      (u t : ℕ) (m : M) (set : SortedSet M) → t < u → has_score u (zadd t m set) ≡ has_score u set
  unfolding has_score zadd
  has_score-zadd u t m [] h = ground arith
  has_score-zadd u t m (e ∷ set) h = ground (arith, has_score-zadd u t m set h)

  -- After a lower entry went in, a higher one is above what is kept.
  above_later :
      (cap t u : ℕ) (m : M) (set : SortedSet M)
      → t < u
      → suc (length set) ≤ cap
      → is_above (oldest_kept cap (zadd t m set)) u ≡ true
  unfolding zadd
  above_later cap t u m [] h l = rw (oldest_kept-first cap (t, m) [] l) (ground arith)
  above_later cap t u m (e ∷ set) h l = elim (Bool-cases (leb e.0 t)) [
    | inl c ↦ rw c (
        rw (oldest_kept-first cap e (zadd t m set) (omega (arith, length-zadd t m set)))
          (ground (arith, leb→le e.0 t c)))
    | inr c ↦ rw c (rw (oldest_kept-first cap (t, m) (e ∷ set) l) (ground arith))
  ]

  wants_short :
      (cap t u : ℕ) (m : M) (set : SortedSet M)
      → t < u
      → suc (length set) ≤ cap
      → wants cap (zadd t m set) u ≡ wants cap set u
  unfolding wants
  wants_short cap t u m set lt l =
      rw
        (
          has_score-zadd u t m set lt,
          above_later cap t u m set lt l,
          oldest_kept-none cap set (omega arith),
        )
        refl

  wants_full :
      (cap t u : ℕ) (m : M) (e : ℕ × M) (set : SortedSet M)
      → e.0 < t
      → t < u
      → suc (length set) ≡ cap
      → wants cap (zadd t m set) u ≡ wants cap (e ∷ set) u
  unfolding wants
  wants_full cap t u m e set low lt full =
      let first = oldest_kept-first cap e set (omega arith) in
      let kept : is_above (oldest_kept cap (e ∷ set)) u ≡ true = rw first (ground arith) in
      let held : has_score u (e ∷ set) ≡ has_score u set = has_score-first u e set ∙ ground arith in
      rw (has_score-zadd u t m set lt, above_later cap t u m set lt (omega arith), kept, held) refl

  wants_added :
      (cap t u : ℕ) (m : M) (set : SortedSet M)
      → 0 < cap
      → t < u
      → IsBounded cap set
      → is_above (oldest_kept cap set) t ≡ true
      → wants cap (trim cap (zadd t m set)) u ≡ wants cap set u
  wants_added cap t u m [] h lt b d =
      rw (trim-short cap (zadd t m []) (omega (arith, length-zadd t m [])))
        (wants_short cap t u m [] lt h)
  wants_added cap t u m (e ∷ set) h lt b d = elim (Bool-cases (leb cap (suc (length set)))) [
    | inr short ↦
        rw (trim-short cap (zadd t m (e ∷ set)) (ground (arith, length-zadd t m (e ∷ set))))
          (wants_short cap t u m (e ∷ set) lt (ground arith))
    | inl full ↦
        let first : is_above (if leb cap (suc (length set)) then some e.0 else none) t ≡ true =
          rw (oldest_kept-first cap e set b.within) at d in
        let low : e.0 < t = ground arith in
        let same : suc (length set) ≡ cap = ground (arith, b.within) in
        rw (zadd-higher t m e set low, trim-over cap e (zadd t m set) (length-zadd t m set ∙ same))
          (wants_full cap t u m e set low lt same)
  ]

  -- What the script wants of later minutes does not change as it adds an earlier one.
  pub wants_later :
      (cap t u : ℕ) (m : M) (set : SortedSet M)
      → 0 < cap
      → t < u
      → IsBounded cap set
      → wants cap (add_entry cap t m set).1 u ≡ wants cap set u
  unfolding add_entry wants
  wants_later cap t u m set h lt b = elim (Bool-cases (has_score t set)) [
    | inl c ↦ rw c refl
    | inr c ↦ elim (Bool-cases (is_above (oldest_kept cap set) t)) [
      | inr d ↦ rw (c, d) refl
      | inl d ↦ rw (c, d) (wants_added cap t u m set h lt b d)
    ]
  ]
