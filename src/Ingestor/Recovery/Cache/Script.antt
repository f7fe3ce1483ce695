-- ===== src/Ingestor/Recovery/Cache/Script.antt =====
-- The script of recovery.py that adds to the hot cache, against a plain union.
use live_forex_volatility_tr.Base.{
  ℕ, zero, suc, ◌-◌, ◌<◌, ◌≤◌, ◌≡◌, refl, sym, ap, ◌∙◌, Bool, true, List, false, ◌||◌, none, some,
  [], ◌∷◌, arith, leb, ◌==◌, if◌then◌else◌, inl, inr, Bool-cases, All, All-map, length, drop,
  leb→le,
}
use live_forex_volatility_tr.Ingestor.Recovery.Cache.{
  SortedSet, has_score, zadd, trim, oldest_kept, is_above, add_entry, add_entries, cache_add_script,
}

module _ {M : Type 0} where
  abbrev pub is_nil : SortedSet M → Bool
  is_nil [] = true
  is_nil (e ∷ set) = false

  -- Ascending scores.
  abbrev pub Ascends : SortedSet M → Type 0
  Ascends [] = Unit
  Ascends (e ∷ set) = All (λ d. e.0 ≤ d.0) set × Ascends set

  zadd-All :
      (P : ℕ × M → Type 0) (score : ℕ) (member : M) (set : SortedSet M)
      → P (score, member)
      → All P set
      → All P (zadd score member set)
  unfolding zadd
  zadd-All P score member [] p h = (p, tt)
  zadd-All P score member (e ∷ set) p h = elim (Bool-cases (leb e.0 score)) [
    | inl c ↦ rw c (h.0, zadd-All P score member set p h.1)
    | inr c ↦ rw c (p, h)
  ]

  zadd-Ascends :
      (score : ℕ) (member : M) (set : SortedSet M) → Ascends set → Ascends (zadd score member set)
  unfolding zadd
  zadd-Ascends score member [] h = (tt, tt)
  zadd-Ascends score member (e ∷ set) h = elim (Bool-cases (leb e.0 score)) [
    | inl c ↦
        rw c (zadd-All _ score member set (leb→le _ _ c) h.0, zadd-Ascends score member set h.1)
    | inr c ↦ rw c ((ground arith, All-map (λ d le. ground arith) set h.0), h)
  ]

  pub length-zadd :
      (score : ℕ) (member : M) (set : SortedSet M)
      → length (zadd score member set) ≡ suc (length set)
  unfolding zadd
  length-zadd score member [] = refl
  length-zadd score member (e ∷ set) = ground (arith, length-zadd score member set)

  -- What a bounded set is: no more than `cap` entries, from the lowest score on.
  pub record IsBounded (cap : ℕ) (set : SortedSet M) : Type 0 where
    pub ascends : Ascends set
    pub within : length set ≤ cap

  pub trim-short : (cap : ℕ) (set : SortedSet M) → length set ≤ cap → trim cap set ≡ set
  unfolding trim
  trim-short cap set h = let none_over : length set - cap ≡ 0 = omega arith in rw none_over refl

  -- One entry too many: the lowest goes.
  pub trim-over :
      (cap : ℕ) (e : ℕ × M) (set : SortedSet M) → length set ≡ cap → trim cap (e ∷ set) ≡ set
  unfolding trim
  trim-over cap e set h =
      let one_over : suc (length set) - cap ≡ 1 = omega arith in rw one_over refl

  pub oldest_kept-first :
      (cap : ℕ) (e : ℕ × M) (set : SortedSet M)
      → suc (length set) ≤ cap
      → oldest_kept cap (e ∷ set) ≡ (if leb cap (suc (length set)) then some e.0 else none)
  unfolding oldest_kept
  oldest_kept-first cap e set h =
      let none_over : suc (length set) - cap ≡ 0 = omega arith in rw none_over refl

  -- What the script is for: the newest `cap` entries, with the new one among them where its
  -- minute has no bar.
  pub newest_with : ℕ → ℕ → M → SortedSet M → SortedSet M
  newest_with cap score member set =
      if has_score score set then set else trim cap (zadd score member set)

  pub has_score-first :
      (t : ℕ) (e : ℕ × M) (set : SortedSet M)
      → has_score t (e ∷ set) ≡ ((t == e.0) || has_score t set)
  unfolding has_score
  has_score-first t e set = refl

  zadd-lower :
      (t : ℕ) (m : M) (e : ℕ × M) (set : SortedSet M)
      → t < e.0
      → zadd t m (e ∷ set) ≡ (t, m) ∷ e ∷ set
  unfolding zadd
  zadd-lower t m e set h = ground arith

  pub zadd-higher :
      (t : ℕ) (m : M) (e : ℕ × M) (set : SortedSet M)
      → e.0 < t
      → zadd t m (e ∷ set) ≡ e ∷ zadd t m set
  unfolding zadd
  zadd-higher t m e set h = ground arith

  pub oldest_kept-none :
      (cap : ℕ) (set : SortedSet M) → length set < cap → oldest_kept cap set ≡ none
  unfolding oldest_kept
  oldest_kept-none cap set h = ground arith

  -- An entry that the script leaves out would be the lowest of too many.
  left_out :
      (cap score : ℕ) (member : M) (set : SortedSet M)
      → 0 < cap
      → IsBounded cap set
      → has_score score set ≡ false
      → is_above (oldest_kept cap set) score ≡ false
      → trim cap (zadd score member set) ≡ set
  left_out cap score member [] h b absent low =
      let none_kept : is_above none score ≡ false = rw (oldest_kept-none cap [] h) at low in cc
  left_out cap score member (e ∷ set) h b absent low =
      let first = rw (oldest_kept-first cap e set b.within) at low in
      let differs = rw (has_score-first score e set) at absent in
      let below : score < e.0 = ground arith in
      let full : suc (length set) ≡ cap = ground (arith, b.within) in
      rw (zadd-lower score member e set below) (trim-over cap (score, member) (e ∷ set) full)

  -- One round of the script's loop leaves the newest entries, as many as the bound allows.
  add_entry-newest :
      (cap score : ℕ) (member : M) (set : SortedSet M)
      → 0 < cap
      → IsBounded cap set
      → (add_entry cap score member set).1 ≡ newest_with cap score member set
  unfolding add_entry newest_with
  add_entry-newest cap score member set h b = elim (Bool-cases (has_score score set)) [
    | inl c ↦ rw c refl
    | inr c ↦ elim (Bool-cases (is_above (oldest_kept cap set) score)) [
      | inl d ↦ rw (c, d) refl
      | inr d ↦ rw (c, d) (sym (left_out cap score member set h b c d))
    ]
  ]

  drop-Ascends : (n : ℕ) (set : SortedSet M) → Ascends set → Ascends (drop n set)
  drop-Ascends zero set h = h
  drop-Ascends (suc n) [] h = h
  drop-Ascends (suc n) (e ∷ set) h = drop-Ascends n set h.1

  length-trim : (n : ℕ) (set : SortedSet M) → length (drop n set) ≡ length set - n
  length-trim zero set = omega arith
  length-trim (suc n) [] = omega arith
  length-trim (suc n) (e ∷ set) = omega (arith, length-trim n set)

  trim-IsBounded :
      (cap : ℕ) (set : SortedSet M)
      → Ascends set
      → length set ≤ suc cap
      → IsBounded cap (trim cap set)
  unfolding trim
  trim-IsBounded cap set h l = record {
    ascends = drop-Ascends (length set - cap) set h;
    within = omega (arith, length-trim (length set - cap) set);
  }

  -- One round keeps the set ascending and within the bound.
  pub add_entry-IsBounded :
      (cap score : ℕ) (member : M) (set : SortedSet M)
      → IsBounded cap set
      → IsBounded cap (add_entry cap score member set).1
  unfolding add_entry
  add_entry-IsBounded cap score member set b = elim (Bool-cases (has_score score set)) [
    | inl c ↦ rw c b
    | inr c ↦ elim (Bool-cases (is_above (oldest_kept cap set) score)) [
      | inl d ↦
          rw (c, d)
            (trim-IsBounded cap (zadd score member set) (zadd-Ascends score member set b.ascends)
              (omega (arith, length-zadd score member set, b.within)))
      | inr d ↦ rw (c, d) b
    ]
  ]

  -- The entries taken into the set one after another.
  unfoldable pub newest_with_all : ℕ → List (ℕ × M) → SortedSet M → SortedSet M
  unfolding newest_with
  newest_with_all cap [] set = set
  newest_with_all cap ((score, member) ∷ entries) set =
      newest_with_all cap entries (newest_with cap score member set)

  add_entries-newest :
      (cap : ℕ) (entries : List (ℕ × M)) (set : SortedSet M)
      → 0 < cap
      → IsBounded cap set
      → (add_entries cap entries set).1 ≡ newest_with_all cap entries set
  unfolding add_entries newest_with_all
  add_entries-newest cap [] set h b = refl
  add_entries-newest cap ((score, member) ∷ entries) set h b =
      add_entries-newest cap entries (add_entry cap score member set).1 h
        (add_entry-IsBounded cap score member set b)
      ∙ ap (newest_with_all cap entries) (add_entry-newest cap score member set h b)

  -- The script on a cache whose scores ascend and that has no more entries than its positive bound.
  -- An absent cache stays absent. A present one is left as if each entry in turn were taken unless
  -- its score is there already, and then only the highest scores kept, as many as the bound.
  pub cache_add_script-newest :
      (cap : ℕ) (entries : List (ℕ × M)) (set : SortedSet M)
      → 0 < cap
      → IsBounded cap set
      → (cache_add_script cap entries set).1
        ≡ (if is_nil set then [] else newest_with_all cap entries set)
  unfolding cache_add_script
  cache_add_script-newest cap entries [] h b = refl
  cache_add_script-newest cap entries (e ∷ set) h b = add_entries-newest cap entries (e ∷ set) h b
