-- ===== src/Worker/AlertPersister/Tests.antt =====
-- Runs of the alert persister at concrete rows.
use live_forex_volatility_tr.Base.{map, length, ℕ, ◌≡◌, refl, true, none, some, List, [], ◌∷◌, All}
use live_forex_volatility_tr.Base.Int.{pos}
use live_forex_volatility_tr.Base.Dict.{lookup, text_key, int_key, pair_key}
use live_forex_volatility_tr.Base.Text.{codes}
use live_forex_volatility_tr.Worker.AlertPersister.{
  AlertRow, AlertTable, AlertWorld, parse, key_of, insert_rows, conflicts, consume, parsed_rows,
}
use live_forex_volatility_tr.Worker.AlertPersister.Accounting.{
  Accounted, insert_rows-Accounted, collision_silent,
}
use live_forex_volatility_tr.Worker.AlertPersister.Settling.{Keeps, Settled, consume-Settled}
use live_forex_volatility_tr.Worker.Persister.{Entry}
use live_forex_volatility_tr.Fixtures.{hundredths, first_code, pending_list}

abbrev alert : ℕ → ℕ → AlertRow ℕ
alert seq ts = record {
  symbol = codes "EURUSD";
  seq = pos seq;
  ts = ts;
  old_regime = codes "normal";
  new_regime = codes "stressed";
  trigger_value = some 350;
  threshold_value = 300;
  sigma = none;
  cause = codes "threshold";
  reason = [];
}

-- A table that has the first of two rows' keys.
abbrev stored : AlertTable ℕ
stored = (key_of (alert 1 5), alert 1 5) ∷ []

abbrev two : List (AlertRow ℕ)
two = alert 1 10 ∷ alert 2 20 ∷ []

insert_rows-Accounted_example :
    All (Accounted stored (insert_rows two stored).1 (conflicts (insert_rows two stored).0 two)) two
insert_rows-Accounted_example = insert_rows-Accounted two stored (refl, (refl, tt))

collision_silent_example :
    (lookup (key_of (alert 1 99)) (insert_rows (alert 1 10 ∷ alert 1 99 ∷ []) []).1
      ≡ some (alert 1 10))
    × (conflicts (insert_rows (alert 1 10 ∷ alert 1 99 ∷ []) []).0 (alert 1 10 ∷ alert 1 99 ∷ [])
        ≡ [])
collision_silent_example = collision_silent (alert 1 10) (alert 1 99) [] refl refl

-- A well-formed entry and a malformed one.
abbrev escalation : Entry
escalation = (
  record { ms = 4; seq = 0 },
  (codes "s", codes "EURUSD")
      ∷ (codes "seq", codes "7")
      ∷ (codes "ts", codes "9")
      ∷ (codes "old_regime", codes "normal")
      ∷ (codes "new_regime", codes "stressed")
      ∷ (codes "threshold_value", codes "3")
      ∷ (codes "cause", codes "threshold")
      ∷ [],
)

abbrev garbled : Entry
garbled = (record { ms = 5; seq = 0 }, [])

abbrev batch : List Entry
batch = escalation ∷ garbled ∷ []

abbrev stream : AlertWorld (List Entry) ℕ
stream = record {
  redis = batch;
  alerts = stored;
  database_up = true;
  reads_up = true;
  redis_up = true;
}

consume-Settled_example :
    Keeps stream (consume batch stream).world
    × Settled (map (λ e. e.0) batch) (parsed_rows batch) stream (consume batch stream)
consume-Settled_example = consume-Settled batch stream

one_row : length (parsed_rows {F = ℕ} batch) ≡ 1
unfolding parsed_rows parse
one_row = refl
