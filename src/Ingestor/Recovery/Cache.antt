-- ===== src/Ingestor/Recovery/Cache.antt =====
-- The hot cache of recovery.py: one minute bars in a sorted set of Redis, as the list of its
-- (score, member) pairs from the lowest score on; an empty list is a key that does not exist. Two
-- members of one score keep the order they came in. A member names its minute, which is its score,
-- so one that is added where its score is absent is new.
pub mod Script
pub mod Later
pub mod Batch
use live_forex_volatility_tr.Base.{
  ℕ, zero, suc, ◌+◌, ◌-◌, ◌*◌, ◌||◌, Bool, true, false, ◌&&◌, not, Option, none, some, List, [],
  ◌∷◌, leb, ltb, ◌==◌, if◌then◌else◌, any, length, drop, get_elem?, min, max, map,
}
use live_forex_volatility_tr.Base.Clock.{Instant, epoch_of}
use live_forex_volatility_tr.Volatility.Bars.{Bar, BarSource, backfill}
use live_forex_volatility_tr.Ingestor.Recovery.{floor_minute, hot_cache_bars, minute}

abbrev pub SortedSet : Type 0 → Type 0
SortedSet M = List (ℕ × M)

-- `cache_horizon`
unfoldable pub cache_horizon : Instant → Instant
cache_horizon now = floor_minute now - hot_cache_bars * minute

-- `cache_member`, before it is written as JSON.
pub record CacheMember (F : Type 0) (R : Type 0) : Type 0 where
  pub t : ℕ
  pub o : F
  pub h : F
  pub l : F
  pub c : F
  pub n : ℕ
  pub src : BarSource
  pub run : R

unfoldable pub cache_member : {F R : Type 0} → Bar F → R → CacheMember F R
cache_member bar run_id = record {
  t = epoch_of bar.bucket;
  o = bar.open_price;
  h = bar.high;
  l = bar.low;
  c = bar.close;
  n = 0;
  src = backfill;
  run = run_id;
}

abbrev pub is_above : Option ℕ → ℕ → Bool
is_above none score = true
is_above (some floor) score = ltb floor score

unfoldable pub untaken : List ℕ → Option ℕ → List ℕ → List ℕ
untaken taken floor [] = []
untaken taken floor (t ∷ times) =
    let rest = untaken taken floor times in
    if not (any (λ s. t == s) taken) && is_above floor t then t ∷ rest else rest

abbrev pub least : ℕ → List ℕ → ℕ
least t [] = t
least t (u ∷ times) = least (min t u) times

abbrev pub greatest : ℕ → List ℕ → ℕ
greatest t [] = t
greatest t (u ∷ times) = greatest (max t u) times

module _ {M : Type 0} where
  -- A test on the scores, as `ZRANGEBYSCORE key score score` has one.
  unfoldable pub has_score : ℕ → SortedSet M → Bool
  has_score score [] = false
  has_score score ((s, member) ∷ set) = (score == s) || has_score score set

  -- ZADD of a new member, behind those of its score.
  unfoldable pub zadd : ℕ → M → SortedSet M → SortedSet M
  zadd score member [] = (score, member) ∷ []
  zadd score member ((s, other) ∷ set) =
      let rest = zadd score member set in
      if leb s score then (s, other) ∷ rest else (score, member) ∷ (s, other) ∷ set

  -- ZREMRANGEBYRANK from 0 to -(cap + 1).
  unfoldable pub trim : ℕ → SortedSet M → SortedSet M
  trim cap set = drop (length set - cap) set

  -- `ZRANGE key -cap -cap`, where the set has that many.
  unfoldable pub oldest_kept : ℕ → SortedSet M → Option ℕ
  oldest_kept cap set =
      if leb cap (length set)
      then elim (get_elem? set (length set - cap)) [ none ↦ none | some (s, member) ↦ some s ]
      else none

  -- One round of the script's loop: how many it added, and the set it leaves.
  unfoldable pub add_entry : ℕ → ℕ → M → SortedSet M → ℕ × SortedSet M
  unfolding has_score oldest_kept zadd trim
  add_entry cap score member set =
      if has_score score set
      then (0, set)
      else if is_above (oldest_kept cap set) score
      then (1, trim cap (zadd score member set))
      else (0, set)

  unfoldable pub add_entries : ℕ → List (ℕ × M) → SortedSet M → ℕ × SortedSet M
  unfolding add_entry
  add_entries cap [] set = (0, set)
  add_entries cap ((score, member) ∷ entries) set =
      let first = add_entry cap score member set in
      let rest = add_entries cap entries first.1 in (first.0 + rest.0, rest.1)

  -- `_CACHE_ADD_LUA`: an absent cache is left absent.
  unfoldable pub cache_add_script : ℕ → List (ℕ × M) → SortedSet M → ℕ × SortedSet M
  unfolding add_entries
  cache_add_script cap entries [] = (0, [])
  cache_add_script cap entries (e ∷ set) = add_entries cap entries (e ∷ set)

  -- The scores of `ZRANGEBYSCORE key low high`.
  unfoldable pub scores_between : ℕ → ℕ → SortedSet M → List ℕ
  scores_between low high [] = []
  scores_between low high ((s, member) ∷ set) =
      let rest = scores_between low high set in if leb low s && leb s high then s ∷ rest else rest

  -- `cache_would_take`, by the epochs of the minutes.
  unfoldable pub cache_would_take : ℕ → List ℕ → SortedSet M → List ℕ
  unfolding scores_between oldest_kept untaken
  cache_would_take cap [] set = []
  cache_would_take cap (t ∷ times) [] = []
  cache_would_take cap (t ∷ times) (e ∷ set) =
      untaken (scores_between (least t times) (greatest t times) (e ∷ set))
        (oldest_kept cap (e ∷ set)) (t ∷ times)
