-- ===== src/Ingestor/Recovery/Cache/Batch.antt =====
-- A batch for the hot cache of recovery.py: what `cache_would_take` foretells of `cache_add`.
use live_forex_volatility_tr.Base.{
  ℕ, ◌+◌, ◌<◌, ◌≤◌, ◌≡◌, refl, sym, ◌∙◌, Bool, List, [], ◌∷◌, arith, ◌==◌, if◌then◌else◌, All,
  All-map, All-both, length, any, min, max,
}
use live_forex_volatility_tr.Ingestor.Recovery.Cache.{
  SortedSet, has_score, oldest_kept, add_entry, add_entries, cache_add_script, scores_between,
  untaken, least, greatest, cache_would_take,
}
use live_forex_volatility_tr.Ingestor.Recovery.Cache.Script.{IsBounded, add_entry-IsBounded}
use live_forex_volatility_tr.Ingestor.Recovery.Cache.Later.{wants, wants_later, add_entry-wants}

-- The times of the entries rise.
abbrev pub Rises : {M : Type 0} → List (ℕ × M) → Type 0
Rises [] = Unit
Rises (e ∷ entries) = All (λ d. e.0 < d.0) entries × Rises entries

-- The number of minutes that pass a test.
count : (ℕ → Bool) → List ℕ → ℕ
count test [] = 0
count test (t ∷ times) = (if test t then 1 else 0) + count test times

abbrev pub times_of : {M : Type 0} → List (ℕ × M) → List ℕ
times_of [] = []
times_of (e ∷ entries) = e.0 ∷ times_of entries

count-same :
    {M : Type 0} (p q : ℕ → Bool) (entries : List (ℕ × M))
    → All (λ d. p d.0 ≡ q d.0) entries
    → count p (times_of entries) ≡ count q (times_of entries)
unfolding count
count-same p q [] h = refl
count-same p q (e ∷ entries) h = rw h.0 (omega (arith, count-same p q entries h.1))

module _ {M : Type 0} where
  add_entries-count :
      (cap : ℕ) (entries : List (ℕ × M)) (set : SortedSet M)
      → 0 < cap
      → Rises entries
      → IsBounded cap set
      → (add_entries cap entries set).0 ≡ count (wants cap set) (times_of entries)
  unfolding add_entries count
  add_entries-count cap [] set h r b = refl
  add_entries-count cap (e ∷ entries) set h r b =
      let next = (add_entry cap e.0 e.1 set).1 in
      omega (
        arith,
        add_entry-wants cap e.0 e.1 set,
        add_entries-count cap entries next h r.1 (add_entry-IsBounded cap e.0 e.1 set b),
        count-same (wants cap next) (wants cap set) entries
            (All-map (λ d lt. wants_later cap e.0 d.0 e.1 set h lt b) entries r.0),
      )

  add_entries-IsBounded :
      (cap : ℕ) (entries : List (ℕ × M)) (set : SortedSet M)
      → IsBounded cap set
      → IsBounded cap (add_entries cap entries set).1
  unfolding add_entries
  add_entries-IsBounded cap [] set b = b
  add_entries-IsBounded cap (e ∷ entries) set b =
      add_entries-IsBounded cap entries _ (add_entry-IsBounded cap e.0 e.1 set b)

  -- The read finds the scores it is asked for.
  scores_between-has_score :
      (low high t : ℕ) (set : SortedSet M)
      → low ≤ t
      → t ≤ high
      → any (λ s. t == s) (scores_between low high set) ≡ has_score t set
  unfolding scores_between has_score
  scores_between-has_score low high t [] l h = refl
  scores_between-has_score low high t (e ∷ set) l h =
      ground (arith, scores_between-has_score low high t set l h)

  untaken-count :
      (cap low high : ℕ) (entries : List (ℕ × M)) (set : SortedSet M)
      → All (λ d. (low ≤ d.0) × (d.0 ≤ high)) entries
      → length (untaken (scores_between low high set) (oldest_kept cap set) (times_of entries))
        ≡ count (wants cap set) (times_of entries)
  unfolding untaken count wants
  untaken-count cap low high [] set h = refl
  untaken-count cap low high (e ∷ entries) set h =
      rw (scores_between-has_score low high e.0 set h.0.0 h.0.1)
        (ground (arith, untaken-count cap low high entries set h.1))

  least-le :
      (t : ℕ) (entries : List (ℕ × M))
      → (least t (times_of entries) ≤ t) × All (λ d. least t (times_of entries) ≤ d.0) entries
  least-le t [] = (omega arith, tt)
  least-le t (e ∷ entries) =
      let (below, rest) = least-le (min t e.0) entries in (omega arith, (omega arith, rest))

  greatest-ge :
      (t : ℕ) (entries : List (ℕ × M))
      → (t ≤ greatest t (times_of entries)) × All (λ d. d.0 ≤ greatest t (times_of entries)) entries
  greatest-ge t [] = (omega arith, tt)
  greatest-ge t (e ∷ entries) =
      let (above, rest) = greatest-ge (max t e.0) entries in (omega arith, (omega arith, rest))

  -- Where the cache is within its bound and the entries' minutes rise, the script adds as many as
  -- `cache_would_take` lists, whether or not the cache is there.
  pub cache_would_take-add :
      (cap : ℕ) (entries : List (ℕ × M)) (set : SortedSet M)
      → 0 < cap
      → Rises entries
      → IsBounded cap set
      → (cache_add_script cap entries set).0 ≡ length (cache_would_take cap (times_of entries) set)
  unfolding cache_add_script cache_would_take add_entries
  cache_would_take-add cap [] [] h r b = refl
  cache_would_take-add cap (e ∷ entries) [] h r b = refl
  cache_would_take-add cap [] (d ∷ set) h r b = refl
  cache_would_take-add cap (e ∷ entries) (d ∷ set) h r b =
      let (below, low) = least-le e.0 entries in
      let (above, high) = greatest-ge e.0 entries in
      add_entries-count cap (e ∷ entries) (d ∷ set) h r b
      ∙ sym (
          untaken-count cap (least e.0 (times_of entries)) (greatest e.0 (times_of entries))
            (e ∷ entries) (d ∷ set) ((below, above), All-both _ _ entries low high))

  -- The script keeps the cache ascending and within its bound, and creates none.
  pub cache_add_script-IsBounded :
      (cap : ℕ) (entries : List (ℕ × M)) (set : SortedSet M)
      → IsBounded cap set
      → IsBounded cap (cache_add_script cap entries set).1
  unfolding cache_add_script
  cache_add_script-IsBounded cap entries [] b = b
  cache_add_script-IsBounded cap entries (d ∷ set) b = add_entries-IsBounded cap entries (d ∷ set) b
