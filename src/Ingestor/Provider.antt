-- ===== src/Ingestor/Provider.antt =====
-- `adopt_provider` of apps/ingestor/fx_ingestor/pipeline.py, with its script, and the names of
-- packages/core/fx_core/keys.py that it moves.
pub mod Moves
pub mod Back
mod Tests
use live_forex_volatility_tr.Base.{
  ℕ, zero, suc, ◌+◌, ◌*◌, Bool, true, false, not, ◌&&◌, Option, none, some, List, [], ◌∷◌, ◌++◌,
  map, any, if◌then◌else◌,
}
use live_forex_volatility_tr.Base.Clock.{Instant}
use live_forex_volatility_tr.Base.Float.{Float}
use live_forex_volatility_tr.Base.Text.{Text, eq_text, codes}
use live_forex_volatility_tr.Base.Result.{Result, ok, raise, response_error, raise_if, ◌>>◌, ◌>>=◌}
use live_forex_volatility_tr.Base.Dict.{Dict, lookup, insert, erase, contains, get_or, text_key}
use live_forex_volatility_tr.Volatility.Bars.{floor_to_bucket}
use live_forex_volatility_tr.Ingestor.Pipeline.{SymbolState, IngestPipeline}

-- keys.py
abbrev pub archive : Text → Text → Text
archive provider key = codes "archive:" ++ provider ++ codes ":" ++ key

abbrev pub quote : Text → Text
quote symbol = codes "q:" ++ symbol

abbrev pub vol_state : Text → Text → Text
vol_state symbol window = codes "vol:" ++ symbol ++ codes ":" ++ window

abbrev pub history : Text → Text → Text
history symbol interval = codes "hist:" ++ symbol ++ codes ":" ++ interval

abbrev pub zhist : Text → Text
zhist symbol = codes "zhist:" ++ symbol

abbrev pub regime_state : Text → Text
regime_state symbol = codes "regime:" ++ symbol

-- What Redis stores: the provider marker, and the values of the other keys.
pub record Stored (V : Type 0) : Type 0 where
  pub marker : Option Text
  pub values : Dict Text V

pub record Move : Type 0 where
  pub live : Text
  pub parked : Text
  pub restored : Text

-- EXISTS and RENAME.
unfoldable pub rename : {V : Type 0} → Text → Text → Dict Text V → Dict Text V
rename source target d = elim (lookup source d) [
  | none ↦ d
  | some v ↦ insert target v (erase source d)
]

abbrev pub is_taken : {V : Type 0} → Dict Text V → Move → Bool
is_taken d m = contains m.live d && contains m.parked d

unfoldable pub move_one : {V : Type 0} → Move → Dict Text V → Dict Text V
unfolding rename
move_one m d = rename m.restored m.live (rename m.live m.parked d)

unfoldable pub move_all : {V : Type 0} → List Move → Dict Text V → Dict Text V
unfolding move_one
move_all [] d = d
move_all (m ∷ moves) d = move_all moves (move_one m d)

-- How many live keys are parked.
abbrev pub count_parked : {V : Type 0} → List Move → Dict Text V → ℕ
count_parked [] d = 0
count_parked (m ∷ moves) d =
    (if contains m.live d then 1 else 0) + count_parked moves (move_one m d)

abbrev pub delete_all : {V : Type 0} → List Text → Dict Text V → Dict Text V
delete_all [] d = d
delete_all (key ∷ keys) d = delete_all keys (erase key d)

-- `_ADOPT_PROVIDER_LUA`
unfoldable pub adopt_script :
    {V : Type 0}
    → (expected provider : Text) → List Move
    → List Text
    → Stored V
    → Result (ℕ × Stored V)
unfolding move_all
adopt_script expected provider moves caches s =
    raise_if (not (eq_text (get_or [] s.marker) expected)) response_error
    >> raise_if (any (is_taken s.values) moves) response_error
    >> ok (
      count_parked moves s.values,
      record { marker = some provider; values = delete_all caches (move_all moves s.values) },
    )

-- The keys of a symbol's state, and those of its caches.
abbrev pub state_keys : List Text → List Text
state_keys [] = []
state_keys (symbol ∷ symbols) =
    history symbol (codes "1m")
    ∷ history symbol (codes "1d")
    ∷ zhist symbol
    ∷ regime_state symbol
    ∷ state_keys symbols

abbrev pub cache_keys : List Text → List Text
cache_keys [] = []
cache_keys (symbol ∷ symbols) = quote symbol ∷ vol_state symbol (codes "1h") ∷ cache_keys symbols

abbrev pub moves_of : (label provider : Text) → List Text → List Move
moves_of label provider [] = []
moves_of label provider (key ∷ keys) =
    record { live = key; parked = archive label key; restored = archive provider key }
    ∷ moves_of label provider keys

-- `str(previous or "unverified")`
abbrev pub label_of : Option Text → Text
label_of none = codes "unverified"
label_of (some []) = codes "unverified"
label_of (some (c ∷ text)) = c ∷ text

-- `previous == provider`
abbrev pub is_same : Option Text → Text → Bool
is_same none provider = false
is_same (some previous) provider = eq_text previous provider

abbrev pub held_from : ℕ → Option Instant → Option Instant → Option Instant
held_from seconds none held = held
held_from seconds (some newest) held = some (floor_to_bucket newest seconds + seconds * 1_000_000)

module _ {F V : Type 0} where
  -- `adopt_provider`, where the newest entry of the tick stream has this time. A change answers the
  -- label of the previous provider's archive, and the number of parked keys.
  unfoldable pub adopt_provider :
      Text
      → Option Instant
      → IngestPipeline F
      → Stored V
      → Result (IngestPipeline F × Stored V × Option (Text × ℕ))
  unfolding adopt_script
  adopt_provider provider newest p s =
      let named = record p { provider = provider } in
      let label = label_of s.marker in
      let symbols = map (λ e. e.0) p.states in
      let moves = moves_of label provider (state_keys symbols) in
      if is_same s.marker provider
      then ok (named, s, none)
      else (adopt_script (get_or [] s.marker) provider moves (cache_keys symbols) s >>= (λ done.
          ok (
            record named { held_until = held_from p.bucket_seconds newest p.held_until },
            done.1,
            some (label, done.0),
          )))
