-- ===== src/Api/Conflator.antt =====
-- `ClientSession` of apps/api/fx_api/ws/conflator.py: one queue per client, with the latest update
-- of each key only. Instants are readings of the monotonic clock, in microseconds.
pub mod Queue
mod Tests
use live_forex_volatility_tr.Base.{
  ℕ, suc, ◌+◌, ◌-◌, Bool, true, false, ◌&&◌, not, Option, none, some, List, [], ◌∷◌, ◌++◌, map, leb,
  ltb, if◌then◌else◌, length, any,
}
use live_forex_volatility_tr.Base.Text.{Text, codes, eq_text}
use live_forex_volatility_tr.Base.Dict.{Dict, Key, contains, insert, erase, text_key}

pub record ClientSession (P : Type 0) : Type 0 where
  pub client_id : Text
  pub symbols : List Text
  pub pending : Dict Text P
  pub wakeup : Bool
  pub conflated : ℕ
  pub sent : ℕ
  pub closed : Bool
  pub waiting_since : Option ℕ

-- `s.upper()`, on the ASCII letters that symbols are made of.
abbrev upper_code : ℕ → ℕ
upper_code c = if leb 97 c && leb c 122 then c - 32 else c

unfoldable pub upper : Text → Text
upper s = map upper_code s

-- A set of texts, as a list without repetitions.
unfoldable pub add_symbol : Text → List Text → List Text
add_symbol s symbols = if any (eq_text s) symbols then symbols else symbols ++ s ∷ []

unfoldable pub discard : Text → List Text → List Text
discard s [] = []
discard s (t ∷ symbols) = let rest = discard s symbols in if eq_text s t then rest else t ∷ rest

-- `time.monotonic() - _waiting_since > deadline`
abbrev pub waited_beyond : ℕ → ℕ → Option ℕ → Bool
waited_beyond now deadline none = false
waited_beyond now deadline (some since) = ltb (since + deadline) now

module _ {P : Type 0} where
  abbrev pub is_empty : Dict Text P → Bool
  is_empty [] = true
  is_empty (x ∷ d) = false

  -- The values of a dictionary, in its order.
  abbrev pub values : Dict Text P → List P
  values [] = []
  values ((key, v) ∷ d) = v ∷ values d

  unfoldable pub offer : ℕ → Text → P → ClientSession P → ClientSession P
  offer now key payload s = if s.closed then s else record s {
    waiting_since = if is_empty s.pending then some now else s.waiting_since;
    conflated = if contains key s.pending then suc s.conflated else s.conflated;
    pending = insert key payload s.pending;
    wakeup = true;
  }

  unfoldable pub drain : ClientSession P → List P × ClientSession P
  drain s =
      if is_empty s.pending
      then ([], s)
      else let batch = values s.pending in
        (
          batch,
          record s {
            pending = [];
            waiting_since = none;
            wakeup = false;
            sent = s.sent + length batch;
          },
        )

  unfoldable pub note_saturation : ℕ → ℕ → ClientSession P → Bool
  note_saturation now deadline s =
      if is_empty s.pending then false else waited_beyond now deadline s.waiting_since

  unfoldable pub subscribe : List Text → ClientSession P → ClientSession P
  unfolding add_symbol upper
  subscribe [] s = s
  subscribe (symbol ∷ symbols) s =
      subscribe symbols (record s { symbols = add_symbol (upper symbol) s.symbols })

  unfoldable pub unsubscribe : List Text → ClientSession P → ClientSession P
  unfolding discard upper
  unsubscribe [] s = s
  unsubscribe (symbol ∷ symbols) s =
      let up = upper symbol in
      unsubscribe symbols (record s {
        symbols = discard up s.symbols;
        pending = erase (codes "vol:" ++ up) (erase (codes "tick:" ++ up) s.pending);
      })

  unfoldable pub wants : Text → ClientSession P → Bool
  unfolding upper
  wants symbol s = any (eq_text (upper symbol)) s.symbols

  -- `ClientSession(client_id=...)`
  abbrev pub connected : Text → ClientSession P
  connected client_id = record {
    client_id = client_id;
    symbols = [];
    pending = [];
    wakeup = false;
    conflated = 0;
    sent = 0;
    closed = false;
    waiting_since = none;
  }
