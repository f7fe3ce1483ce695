-- ===== src/Fixtures.antt =====
-- Concrete values for the tests: numbers of hundredths in place of floats, parsers that read the
-- first code point of a text, and a consumer group that is its list of pending entries.
use live_forex_volatility_tr.Base.{
  ℕ, ◌+◌, ◌-◌, ◌*◌, ◌/◌, ◌^◌, true, none, some, List, [], ◌∷◌, ltb, leb,
}
use live_forex_volatility_tr.Base.Int.{pos}
use live_forex_volatility_tr.Base.Float.{Float}
use live_forex_volatility_tr.Worker.Persister.{Parsers, Group, Entry}

instance abbrev pub hundredths : Float ℕ
hundredths = record {
  of_ℕ = λ n. n * 100;
  literal = λ m k. m * 100 / 10 ^ k;
  le = leb;
  lt = ltb;
  add = ◌+◌;
  sub = ◌-◌;
  mul = λ a b. a * b / 100;
  div = λ a b. a * 100 / b;
  log = λ x. x;
  exp = λ x. x;
  sqrt = λ x. x;
  is_finite = λ x. true;
  nan = 0;
}

instance abbrev pub first_code : Parsers ℕ
first_code = record {
  parse_float = λ text. elim text [ [] ↦ none | c ∷ rest ↦ some (c * 100) ];
  parse_int = λ text. elim text [ [] ↦ none | c ∷ rest ↦ some (pos c) ];
  from_iso = λ text. elim text [ [] ↦ none | c ∷ rest ↦ some (c * 1_000_000) ];
}

-- The entries whose id is not among the first ones acknowledged.
abbrev pub drop_acked : {A B : Type 0} → List A → List B → List B
drop_acked [] entries = entries
drop_acked (id ∷ ids) [] = []
drop_acked (id ∷ ids) (entry ∷ entries) = drop_acked ids entries

instance abbrev pub pending_list : Group (List Entry)
pending_list = record {
  pending = λ entries. entries;
  ack = λ ids entries. drop_acked ids entries;
  read_new = λ count entries. ([], entries);
  autoclaim = λ cursor count entries. (cursor, ([], entries));
}
