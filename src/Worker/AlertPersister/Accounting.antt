-- ===== src/Worker/AlertPersister/Accounting.antt =====
-- What becomes of the transitions that apps/worker/fx_worker/alerts.py inserts: stored, or
-- reported as a conflict.
use live_forex_volatility_tr.Base.{
  ◌≡◌, ◌⊎◌, refl, sym, ◌∙◌, ap, subst, inl, inr, Bool, true, false, ◌||◌, ◌&&◌, not, some, List, [],
  ◌∷◌, arith, if◌then◌else◌, is_some, All, All-map, All-both, Option-cases,
}
use live_forex_volatility_tr.Base.Dict.{
  lookup, contains, text_key, int_key, pair_key, insert_new-keeps, insert_new-stores,
  contains-insert_new, contains-insert_any, same-false, same_pair_refl,
}
use live_forex_volatility_tr.Worker.AlertPersister.{
  AlertRow, AlertKey, AlertTable, key_of, landed_in, insert_row, insert_rows, conflicts,
}

or_false : {a b : Bool} → (a || b) ≡ false → (a ≡ false) × (b ≡ false)
or_false {a = true} h = cc
or_false {a = false} h = (refl, h)

or_true : (a b : Bool) → b ≡ true → (a || b) ≡ true
or_true true b h = refl
or_true false b h = h

not-not : (c : Bool) → (true && not (true && not c)) ≡ c
not-not true = refl
not-not false = refl

landed_or :
    (q key : AlertKey) (there : Bool) (landed : List AlertKey)
    → landed_in q (if there then landed else key ∷ landed)
      ≡ ((pair_key.same q key && not there) || landed_in q landed)
landed_or q key true landed = ground arith
landed_or q key false landed = ground arith

new_or :
    (same old known more : Bool)
    → (same ≡ true → old ≡ known)
    → ((same && not old) || (more && not (same || known))) ≡ ((same || more) && not known)
new_or true old known more h = rw (h refl) (ground arith)
new_or false old known more h = refl

missed_or :
    (same there landed more : Bool)
    → (same ≡ true → there ≡ landed)
    → ((same && not there) || (more && not landed)) ≡ ((same || more) && not landed)
missed_or true there landed more h = rw (h refl) (ground arith)
missed_or false there landed more h = refl

module _ {F : Type 0} where
  abbrev keys_of : List (AlertRow F) → List AlertKey
  keys_of [] = []
  keys_of (r ∷ rows) = key_of r ∷ keys_of rows

  -- No two rows have the same key.
  abbrev pub DistinctRows : List (AlertRow F) → Type 0
  DistinctRows [] = Unit
  DistinctRows (r ∷ rows) = (landed_in (key_of r) (keys_of rows) ≡ false) × DistinctRows rows

  insert_row-keeps :
      (r : AlertRow F) (q : AlertKey) (t : AlertTable F) {x : AlertRow F}
      → lookup q t ≡ some x
      → lookup q (insert_row r t) ≡ some x
  unfolding insert_row
  insert_row-keeps r q t h = insert_new-keeps (key_of r) q r t h

  pub insert_rows-keeps :
      (rows : List (AlertRow F)) (q : AlertKey) (t : AlertTable F) {x : AlertRow F}
      → lookup q t ≡ some x
      → lookup q (insert_rows rows t).1 ≡ some x
  unfolding insert_rows
  insert_rows-keeps [] q t h = h
  insert_rows-keeps (r ∷ rows) q t h =
      insert_rows-keeps rows q (insert_row r t) (insert_row-keeps r q t h)

  insert_row-stores :
      (r : AlertRow F) (t : AlertTable F)
      → contains (key_of r) t ≡ false
      → lookup (key_of r) (insert_row r t) ≡ some r
  unfolding insert_row
  insert_row-stores r t h = insert_new-stores (key_of r) r t h

  contains-more :
      (r : AlertRow F) (q : AlertKey) (t : AlertTable F)
      → contains q (insert_row r t) ≡ (pair_key.same q (key_of r) || contains q t)
  unfolding insert_row
  contains-more r q t = contains-insert_any (key_of r) q r t

  -- Of the rows' keys, those land that the table has not.
  landed-new :
      (rows : List (AlertRow F)) (q : AlertKey) (t : AlertTable F)
      → landed_in q (insert_rows rows t).0 ≡ (landed_in q (keys_of rows) && not (contains q t))
  unfolding insert_rows
  landed-new [] q t = refl
  landed-new (r ∷ rows) q t =
      let old = contains (key_of r) t in
      landed_or q (key_of r) old (insert_rows rows (insert_row r t)).0
      ∙ rw (landed-new rows q (insert_row r t), contains-more r q t)
          (new_or (pair_key.same q (key_of r)) old (contains q t) (landed_in q (keys_of rows))
            (λ c. sym (ap (λ key. contains key t) (pair_key.same→eq q (key_of r) c))))

  -- The conflicts are the keys of rows that did not land.
  conflicts-missed :
      (landed : List AlertKey) (rows : List (AlertRow F)) (q : AlertKey)
      → landed_in q (conflicts landed rows)
        ≡ (landed_in q (keys_of rows) && not (landed_in q landed))
  unfolding conflicts
  conflicts-missed landed [] q = refl
  conflicts-missed landed (r ∷ rows) q =
      let there = landed_in (key_of r) landed in
      landed_or q (key_of r) there (conflicts landed rows)
      ∙ rw (conflicts-missed landed rows q) (
          missed_or (pair_key.same q (key_of r)) there (landed_in q landed)
            (landed_in q (keys_of rows))
            (λ c. sym (ap (λ key. landed_in key landed) (pair_key.same→eq q (key_of r) c))))

  -- What becomes of a row, by the table before and after and the conflicts reported: a new key is
  -- stored and not reported, a known key keeps its row and is reported.
  abbrev pub Accounted : AlertTable F → AlertTable F → List AlertKey → AlertRow F → Type 0
  Accounted t after reported r =
      ((contains (key_of r) t ≡ false)
        × (lookup (key_of r) after ≡ some r)
        × (landed_in (key_of r) reported ≡ false))
      ⊎ ((contains (key_of r) t ≡ true)
          × (lookup (key_of r) after ≡ lookup (key_of r) t)
          × (landed_in (key_of r) reported ≡ true))

  among_keys :
      (rows : List (AlertRow F)) → All (λ r. landed_in (key_of r) (keys_of rows) ≡ true) rows
  among_keys [] = tt
  among_keys (r ∷ rows) = (
    rw (same_pair_refl (key_of r)) refl,
    All-map (λ s h. or_true (pair_key.same (key_of s) (key_of r)) _ h) rows (among_keys rows),
  )

  -- A row whose key is new is stored, where no other row of the batch has its key.
  StoredIn : AlertTable F → AlertTable F → AlertRow F → Type 0
  StoredIn t after r = contains (key_of r) t ≡ false → lookup (key_of r) after ≡ some r

  apart_from :
      (r : AlertRow F) (rows : List (AlertRow F))
      → landed_in (key_of r) (keys_of rows) ≡ false
      → All (λ s. pair_key.same (key_of s) (key_of r) ≡ false) rows
  apart_from r [] h = tt
  apart_from r (s ∷ rows) h =
      (same-false (key_of r) (key_of s) (or_false h).0, apart_from r rows (or_false h).1)

  insert_rows-StoredIn :
      (rows : List (AlertRow F)) (t : AlertTable F)
      → DistinctRows rows
      → All (StoredIn t (insert_rows rows t).1) rows
  unfolding insert_rows StoredIn
  insert_rows-StoredIn [] t d = tt
  insert_rows-StoredIn (r ∷ rows) t d = (
    λ c. insert_rows-keeps rows (key_of r) (insert_row r t) (insert_row-stores r t c),
    All-map (λ s h c. h.1 (contains-more r (key_of s) t ∙ rw (h.0, c) refl)) rows
        (All-both (λ s. pair_key.same (key_of s) (key_of r) ≡ false)
          (StoredIn (insert_row r t) (insert_rows rows (insert_row r t)).1) rows
          (apart_from r rows d.0) (insert_rows-StoredIn rows (insert_row r t) d.1)),
  )

  -- The conflicts of a row that is in the batch.
  reported_if :
      (rows : List (AlertRow F)) (t : AlertTable F) (q : AlertKey)
      → landed_in q (keys_of rows) ≡ true
      → landed_in q (conflicts (insert_rows rows t).0 rows) ≡ contains q t
  reported_if rows t q h =
      conflicts-missed (insert_rows rows t).0 rows q
      ∙ rw (landed-new rows q t, h) (not-not (contains q t))

  pub insert_rows-Accounted :
      (rows : List (AlertRow F)) (t : AlertTable F)
      → DistinctRows rows
      → All (Accounted t (insert_rows rows t).1 (conflicts (insert_rows rows t).0 rows)) rows
  unfolding StoredIn
  insert_rows-Accounted rows t d =
      All-map
        (λ r h. elim (Option-cases (lookup (key_of r) t)) [
          | inl c ↦
              let absent : contains (key_of r) t ≡ false = ap is_some c in
              inl (absent, h.1 absent, reported_if rows t (key_of r) h.0 ∙ absent)
          | inr (x, c) ↦
              let there : contains (key_of r) t ≡ true = ap is_some c in
              inr (
                there,
                insert_rows-keeps rows (key_of r) t c ∙ sym c,
                reported_if rows t (key_of r) h.0 ∙ there,
              )
        ])
        rows
        (All-both (λ r. landed_in (key_of r) (keys_of rows) ≡ true)
          (StoredIn t (insert_rows rows t).1) rows (among_keys rows)
          (insert_rows-StoredIn rows t d))

  abbrev pub Contained : AlertTable F → AlertRow F → Type 0
  Contained t r = contains (key_of r) t ≡ true

  insert_rows-contains :
      (rows : List (AlertRow F)) (q : AlertKey) (t : AlertTable F)
      → contains q t ≡ true
      → contains q (insert_rows rows t).1 ≡ true
  insert_rows-contains rows q t h = elim (Option-cases (lookup q t)) [
    | inl e ↦ absurd (ground (arith, e, h))
    | inr (x, e) ↦ rw (insert_rows-keeps rows q t e) refl
  ]

  pub insert_rows-Contained :
      (rows : List (AlertRow F)) (t : AlertTable F) → All (Contained (insert_rows rows t).1) rows
  unfolding insert_rows insert_row
  insert_rows-Contained [] t = tt
  insert_rows-Contained (r ∷ rows) t = (
    insert_rows-contains rows (key_of r) (insert_row r t) (contains-insert_new (key_of r) r t),
    insert_rows-Contained rows (insert_row r t),
  )

  insert_rows-known :
      (rows : List (AlertRow F)) (t : AlertTable F)
      → All (Contained t) rows
      → insert_rows rows t ≡ ([], t)
  unfolding insert_rows insert_row
  insert_rows-known [] t h = refl
  insert_rows-known (r ∷ rows) t h = rw h.0 (insert_rows-known rows t h.1)

  -- The statement made a second time stores nothing and returns no key, so that a redelivered
  -- batch is reported whole as conflicts.
  insert_rows-again :
      (rows : List (AlertRow F)) (t : AlertTable F)
      → insert_rows rows (insert_rows rows t).1 ≡ ([], (insert_rows rows t).1)
  insert_rows-again rows t = insert_rows-known rows _ (insert_rows-Contained rows t)

  -- Of two rows of one key in one batch, where the table has not the key, the second is dropped,
  -- whatever it says, and no conflict is reported.
  pub collision_silent :
      (r s : AlertRow F) (t : AlertTable F)
      → key_of s ≡ key_of r
      → contains (key_of r) t ≡ false
      → (lookup (key_of s) (insert_rows (r ∷ s ∷ []) t).1 ≡ some r)
        × (conflicts (insert_rows (r ∷ s ∷ []) t).0 (r ∷ s ∷ []) ≡ [])
  unfolding insert_rows conflicts
  collision_silent r s t e c =
      let stored : lookup (key_of s) (insert_row r t) ≡ some r =
        subst (λ q. lookup q (insert_row r t) ≡ some r) (sym e) (insert_row-stores r t c) in
      let known : contains (key_of s) (insert_row r t) ≡ true = ap is_some stored in
      let landed : (insert_rows (r ∷ s ∷ []) t).0 ≡ key_of r ∷ [] = rw (known, c) refl in
      let first : landed_in (key_of r) (key_of r ∷ []) ≡ true =
        rw (same_pair_refl (key_of r)) refl in
      let second : landed_in (key_of s) (key_of r ∷ []) ≡ true =
        subst (λ q. landed_in q (key_of r ∷ []) ≡ true) (sym e) first in
      let none_left : conflicts (key_of r ∷ []) (r ∷ s ∷ []) ≡ [] = rw (first, second) refl in
      (
        insert_row-keeps s (key_of s) (insert_row r t) stored,
        ap (λ l. conflicts l (r ∷ s ∷ [])) landed ∙ none_left,
      )
