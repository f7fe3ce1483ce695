-- ===== src/Ingestor/Recovery/Kept.antt =====
-- What the inserts of recovery.py do to `bars_1m`.
use live_forex_volatility_tr.Base.{
  ◌≡◌, ◌⊎◌, refl, sym, Bool, true, false, some, List, [], ◌∷◌, if◌then◌else◌, inl, inr, Bool-cases,
  subst,
}
use live_forex_volatility_tr.Base.Float.{Float}
use live_forex_volatility_tr.Base.Text.{Text}
use live_forex_volatility_tr.Base.Dict.{
  lookup, contains, insert-absent, insert-found, insert, number_key, text_key, pair_key,
}
use live_forex_volatility_tr.Volatility.Bars.{Bar, backfill}
use live_forex_volatility_tr.Worker.Table.{Table, Row, RowKey}
use live_forex_volatility_tr.Ingestor.Recovery.Report.{RunId}
use live_forex_volatility_tr.Ingestor.Recovery.Store.{Tables, backfill_row, insert_bar, insert_bars}

-- A row that tells it was recovered: no tick was counted in it, and no stream entry.
pub record IsMarked {F : Type 0} (r : Row F) : Type 0 where
  pub source_is : r.bar.source ≡ backfill
  pub no_ticks : r.bar.tick_count ≡ 0
  pub no_entry : (r.last_stream_id.ms ≡ 0) × (r.last_stream_id.seq ≡ 0)

-- Each row goes on as it is, and each row that was not there is marked.
pub record Extends {F : Type 0} (before after : Table F) : Type 0 where
  pub kept : (key : RowKey) (r : Row F) → lookup key before ≡ some r → lookup key after ≡ some r
  pub marked :
      (key : RowKey) (r : Row F)
      → lookup key after ≡ some r
      → (lookup key before ≡ some r) ⊎ IsMarked r

if-snd :
    {A B : Type 0} (c : Bool) (a : A) (rest : A × B) (b : A)
    → (if c then rest else (b, rest.1)).1 ≡ rest.1
if-snd true a rest b = refl
if-snd false a rest b = refl

module _ {F : Type 0} ⦃f : Float F⦄ where
  pub Extends-refl : (t : Table F) → Extends t t
  Extends-refl t = record { kept = λ key r h. h; marked = λ key r h. inl h }

  pub Extends-trans : {s t u : Table F} → Extends s t → Extends t u → Extends s u
  Extends-trans h k = record {
    kept = λ key r e. k.kept key r (h.kept key r e);
    marked =
        λ key r e. elim (k.marked key r e) [ inl old ↦ h.marked key r old | inr new ↦ inr new ];
  }

  backfill_row-IsMarked : (symbol : Text) (bar : Bar F) → IsMarked (backfill_row symbol bar)
  unfolding backfill_row
  backfill_row-IsMarked symbol bar = record {
    source_is = refl;
    no_ticks = refl;
    no_entry = (refl, refl);
  }

  -- An assignment under a key that was not there.
  insert-Extends :
      (key : RowKey) (r : Row F) (t : Table F)
      → contains key t ≡ false
      → IsMarked r
      → Extends t (insert key r t)
  insert-Extends key r t h mark = record {
    kept = λ q s e. insert-absent key q r t h e;
    marked = λ q s e. elim (insert-found key q r t e) [
      | inl old ↦ inl old
      | inr same ↦ inr (subst IsMarked (sym same) mark)
    ];
  }

  insert_bar-Extends :
      (symbol : Text) (bar : Bar F) (id : RunId) (tables : Tables F)
      → Extends tables.0 (insert_bar symbol bar id tables).0
  unfolding insert_bar
  insert_bar-Extends symbol bar id (table, ids) =
      elim (Bool-cases (contains (symbol, bar.bucket) table)) [
        | inl e ↦ rw e (Extends-refl table)
        | inr e ↦
            rw e (insert-Extends (symbol, bar.bucket) _ table e (backfill_row-IsMarked symbol bar))
      ]

  pub insert_bars-Extends :
      (symbol : Text) (given : List (Bar F)) (id : RunId) (tables : Tables F)
      → Extends tables.0 (insert_bars symbol given id tables).1.0
  unfolding insert_bars
  insert_bars-Extends symbol [] id tables = Extends-refl tables.0
  insert_bars-Extends symbol (bar ∷ given) id tables =
      let rest = insert_bars symbol given id (insert_bar symbol bar id tables) in
      rw (if-snd (contains (symbol, bar.bucket) tables.0) rest.0 rest (bar.bucket ∷ rest.0)) (
        Extends-trans (insert_bar-Extends symbol bar id tables)
          (insert_bars-Extends symbol given id (insert_bar symbol bar id tables)))
