-- ===== src/Worker/AlertPersister/Settling.antt =====
-- How a batch of apps/worker/fx_worker/alerts.py ends: acknowledged, or not.
use live_forex_volatility_tr.Base.{
  ◌≡◌, ◌⊎◌, refl, sym, ◌∙◌, ap, subst, inl, inr, Bool, true, false, ◌&&◌, not, some, List, [], ◌∷◌,
  map, arith, if◌then◌else◌, All, Bool-cases, List-cases,
}
use live_forex_volatility_tr.Base.Float.{Float}
use live_forex_volatility_tr.Base.Dict.{lookup, text_key, int_key, pair_key}
use live_forex_volatility_tr.Worker.Persister.{Entry, Parsers, Group}
use live_forex_volatility_tr.Worker.Table.{EntryId}
use live_forex_volatility_tr.Worker.Persister.Loops.{ack_all}
use live_forex_volatility_tr.Base.Result.{Result, raise, ok, connection_error}
use live_forex_volatility_tr.Worker.AlertPersister.{
  Conflict, Consumed, acknowledge, after_insert, classified, classify, AlertRow, AlertKey,
  insert_rows, conflicts, parsed_rows, AlertWorld, flush, consume,
}
use live_forex_volatility_tr.Worker.AlertPersister.Accounting.{
  Contained, insert_rows-keeps, insert_rows-Contained,
}

module _ {R F : Type 0} where
  -- Every call outside is answered.
  abbrev pub all_up : AlertWorld R F → Bool
  all_up w = w.database_up && w.reads_up && w.redis_up

  -- No stored row is lost.
  abbrev pub Keeps : AlertWorld R F → AlertWorld R F → Type 0
  Keeps w w' =
      (q : AlertKey) (x : AlertRow F) → lookup q w.alerts ≡ some x → lookup q w'.alerts ≡ some x

module _ {R F : Type 0} ⦃group : Group R⦄ where
  -- How a batch ends: with an exception, because a call was not answered, and nothing acknowledged;
  -- or it returns, every id is acknowledged, and the table has a row for the key of each row.
  abbrev pub Settled : List EntryId → List (AlertRow F) → AlertWorld R F → Consumed R F → Type 0
  Settled ids rows w d =
      ((d.outcome ≡ raise connection_error) × (d.world.redis ≡ w.redis) × (all_up w ≡ false))
      ⊎ ((found : List Conflict) × (d.outcome ≡ ok found)
          × (d.world.redis ≡ ack_all ids w.redis)
          × All (Contained d.world.alerts) rows)

  acknowledge-Settled :
      (ids : List EntryId) (rows : List (AlertRow F)) (found : List Conflict) (w : AlertWorld R F)
      → All (Contained w.alerts) rows
      → Settled ids rows w (acknowledge ids found w)
  unfolding acknowledge
  acknowledge-Settled [] rows found w h = inr (found, refl, refl, h)
  acknowledge-Settled (id ∷ ids) rows found w h = elim (Bool-cases w.redis_up) [
    | inl up ↦ rw up (inr (found, refl, refl, h))
    | inr down ↦ rw down (inl (refl, refl, ground arith))
  ]

  classified-up :
      (rows : List (AlertRow F)) (keys : List AlertKey) (w : AlertWorld R F)
      → w.reads_up ≡ true
      → classified rows keys w ≡ ok (map (classify w.alerts rows) keys)
  unfolding classified
  classified-up rows [] w h = refl
  classified-up rows (key ∷ keys) w h =
      ap
        (λ b.
          if not b then raise connection_error else ok (map (classify w.alerts rows) (key ∷ keys)))
        h

  classified-down :
      (rows : List (AlertRow F)) (key : AlertKey) (keys : List AlertKey) (w : AlertWorld R F)
      → w.reads_up ≡ false
      → classified rows (key ∷ keys) w ≡ raise connection_error
  unfolding classified
  classified-down rows key keys w h =
      ap
        (λ b.
          if not b then raise connection_error else ok (map (classify w.alerts rows) (key ∷ keys)))
        h

  after_insert-Settled :
      (ids : List EntryId) (rows : List (AlertRow F)) (keys : List AlertKey) (w : AlertWorld R F)
      → All (Contained w.alerts) rows
      → Settled ids rows w (after_insert ids (classified rows keys w) w)
  unfolding after_insert classified
  after_insert-Settled ids rows keys w h = elim (Bool-cases w.reads_up) [
    | inl up ↦
        subst (λ o. Settled ids rows w (after_insert ids o w)) (sym (classified-up rows keys w up))
          (acknowledge-Settled ids rows (map (classify w.alerts rows) keys) w h)
    | inr down ↦ elim (List-cases keys) [
      | inl e ↦
          subst (λ ks. Settled ids rows w (after_insert ids (classified rows ks w) w)) (sym e)
            (acknowledge-Settled ids rows [] w h)
      | inr (key, more, e) ↦
          let raised : classified rows keys w ≡ raise connection_error =
            ap (λ ks. classified rows ks w) e ∙ classified-down rows key more w down in
          subst (λ o. Settled ids rows w (after_insert ids o w)) (sym raised)
            (inl (refl, refl, ground arith))
    ]
  ]

  -- `_flush` behind its insert, and its two answers.
  abbrev inserted : List EntryId → List (AlertRow F) → AlertWorld R F → Consumed R F
  inserted ids rows w =
      let done = insert_rows rows w.alerts in
      let w' = record w { alerts = done.1 } in
      after_insert ids (classified rows (conflicts done.0 rows) w') w'

  abbrev refused : AlertWorld R F → Consumed R F
  refused w = record { outcome = raise connection_error; world = w }

  flush-answer :
      (r : AlertRow F) (rows : List (AlertRow F)) (ids : List EntryId) (w : AlertWorld R F)
      (b : Bool)
      → w.database_up ≡ b
      → flush (r ∷ rows) ids w ≡ (if not b then refused w else inserted ids (r ∷ rows) w)
  unfolding flush
  flush-answer r rows ids w b h = ap (λ b. if not b then refused w else inserted ids (r ∷ rows) w) h

  flush-Settled :
      (rows : List (AlertRow F)) (ids : List EntryId) (w : AlertWorld R F)
      → Settled ids rows w (flush rows ids w)
  unfolding flush
  flush-Settled [] ids w = acknowledge-Settled ids [] [] w tt
  flush-Settled (r ∷ rows) ids w = elim (Bool-cases w.database_up) [
    | inl up ↦ subst (Settled ids (r ∷ rows) w) (sym (flush-answer r rows ids w true up)) (
        after_insert-Settled ids (r ∷ rows) _
          (record w { alerts = (insert_rows (r ∷ rows) w.alerts).1 })
          (insert_rows-Contained (r ∷ rows) w.alerts))
    | inr down ↦
        subst (Settled ids (r ∷ rows) w) (sym (flush-answer r rows ids w false down))
          (inl (refl, refl, ground arith))
  ]

  -- The table of a batch's end.
  acknowledge-alerts :
      (ids : List EntryId) (found : List Conflict) (w : AlertWorld R F)
      → (acknowledge ids found w).world.alerts ≡ w.alerts
  unfolding acknowledge
  acknowledge-alerts [] found w = refl
  acknowledge-alerts (id ∷ ids) found w = ground arith

  after_insert-alerts :
      (ids : List EntryId) (o : Result (List Conflict)) (w : AlertWorld R F)
      → (after_insert ids o w).world.alerts ≡ w.alerts
  unfolding after_insert
  after_insert-alerts ids (raise e) w = refl
  after_insert-alerts ids (ok found) w = acknowledge-alerts ids found w

  flush-Keeps :
      (rows : List (AlertRow F)) (ids : List EntryId) (w : AlertWorld R F)
      → Keeps w (flush rows ids w).world
  unfolding flush
  flush-Keeps [] ids w q x h = ap (lookup q) (acknowledge-alerts ids [] w) ∙ h
  flush-Keeps (r ∷ rows) ids w q x h = elim (Bool-cases w.database_up) [
    | inl up ↦
        ap (λ d. lookup q d.world.alerts) (flush-answer r rows ids w true up)
        ∙ ap (lookup q) (after_insert-alerts ids _ _)
        ∙ insert_rows-keeps (r ∷ rows) q w.alerts h
    | inr down ↦ ap (λ d. lookup q d.world.alerts) (flush-answer r rows ids w false down) ∙ h
  ]

module _ {R F : Type 0} ⦃f : Float F⦄ ⦃parsers : Parsers F⦄ ⦃group : Group R⦄ where
  pub consume-Settled :
      (entries : List Entry) (w : AlertWorld R F)
      → Keeps w (consume entries w).world
        × Settled (map (λ e. e.0) entries) (parsed_rows entries) w (consume entries w)
  unfolding consume
  consume-Settled entries w =
      let ids = map (λ e. e.0) entries in
      (flush-Keeps (parsed_rows entries) ids w, flush-Settled (parsed_rows entries) ids w)
