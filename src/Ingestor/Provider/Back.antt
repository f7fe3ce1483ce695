-- ===== src/Ingestor/Provider/Back.antt =====
-- A change of the provider by the script of `adopt_provider`, and the change back.
use live_forex_volatility_tr.Base.{
  ◌≡◌, ◌∙◌, refl, sym, subst, false, some, List, [], ◌∷◌, any, All, All-map, All-both, arith,
}
use live_forex_volatility_tr.Base.Text.{Text, eq_text, eq_text_refl}
use live_forex_volatility_tr.Base.Result.{ok, Returns, ◌>>=◌}
use live_forex_volatility_tr.Base.Dict.{
  Dict, lookup, erase, text_key, lookup-erase_ne, Distinct, erase-Distinct,
}
use live_forex_volatility_tr.Ingestor.Provider.{
  Stored, Move, is_taken, move_all, delete_all, adopt_script, count_parked,
}
use live_forex_volatility_tr.Ingestor.Provider.Moves.{
  differ_sym, IsSeparate, Separate, Swapped, AllFree, move_all-Distinct, move_all-Swapped,
}

-- The moves of the change back.
abbrev pub back : Move → Move
back m = record { live = m.live; parked = m.restored; restored = m.parked }

abbrev pub back_all : List Move → List Move
back_all [] = []
back_all (m ∷ moves) = back m ∷ back_all moves

IsSeparate-back :
    (m : Move) (moves : List Move)
    → All (IsSeparate m) moves
    → All (IsSeparate (back m)) (back_all moves)
IsSeparate-back m [] a = tt
IsSeparate-back m (n ∷ moves) a = (
  (
    ((a.0).0.0, (a.0).0.2, (a.0).0.1),
    ((a.0).2.0, (a.0).2.2, (a.0).2.1),
    ((a.0).1.0, (a.0).1.2, (a.0).1.1),
    ((a.0).3.0, (a.0).3.2, (a.0).3.1),
    ((a.0).5.0, (a.0).5.2, (a.0).5.1),
    ((a.0).4.0, (a.0).4.2, (a.0).4.1),
  ),
  IsSeparate-back m moves a.1,
)

Separate-back : (moves : List Move) → Separate moves → Separate (back_all moves)
Separate-back [] a = tt
Separate-back (m ∷ moves) a = (
  record {
    parked_live = a.0.restored_live;
    restored_live = a.0.parked_live;
    restored_parked = differ_sym m.restored m.parked a.0.restored_parked;
  },
  IsSeparate-back m moves a.1,
  Separate-back moves a.2,
)

-- The caches are other keys than those of the moves.
abbrev pub Spares : List Text → Move → Type 0
Spares caches m =
    All (λ key. eq_text m.live key ≡ false) caches
    × All (λ key. eq_text m.parked key ≡ false) caches
    × All (λ key. eq_text m.restored key ≡ false) caches

Spares-back :
    (caches : List Text) (moves : List Move)
    → All (Spares caches) moves
    → All (Spares caches) (back_all moves)
Spares-back caches [] a = tt
Spares-back caches (m ∷ moves) a = ((a.0.0, a.0.2, a.0.1), Spares-back caches moves a.1)

module _ {V : Type 0} where
  -- The keys of a move have the values they had.
  pub record Unmoved (m : Move) (d e : Dict Text V) : Type 0 where
    pub same_live : lookup m.live e ≡ lookup m.live d
    pub same_parked : lookup m.parked e ≡ lookup m.parked d
    pub same_restored : lookup m.restored e ≡ lookup m.restored d

  back_free :
      (moves : List Move) (d e : Dict Text V)
      → All (λ m. Swapped m d e) moves
      → AllFree e (back_all moves)
  back_free [] d e s = tt
  back_free (m ∷ moves) d e s = (s.0.left_none, back_free moves d e s.1)

  there_and_back :
      (moves : List Move) (d e g : Dict Text V)
      → AllFree d moves
      → All (λ m. Swapped m d e) moves
      → All (λ m. Swapped m e g) (back_all moves)
      → All (λ m. Unmoved m d g) moves
  there_and_back [] d e g free s t = tt
  there_and_back (m ∷ moves) d e g free s t = (
    record {
      same_live = t.0.to_live ∙ s.0.to_parked;
      same_parked = t.0.left_none ∙ sym free.0;
      same_restored = t.0.to_parked ∙ s.0.to_live;
    },
    there_and_back moves d e g free.1 s.1 t.1,
  )

  not_taken :
      (moves : List Move) (d : Dict Text V) → AllFree d moves → any (is_taken d) moves ≡ false
  not_taken [] d free = refl
  not_taken (m ∷ moves) d free = ground (arith, free.0, not_taken moves d free.1)

  delete_all-other :
      (keys : List Text) (q : Text) (d : Dict Text V)
      → All (λ key. eq_text q key ≡ false) keys
      → lookup q (delete_all keys d) ≡ lookup q d
  delete_all-other [] q d a = refl
  delete_all-other (key ∷ keys) q d a =
      delete_all-other keys q (erase key d) a.1 ∙ lookup-erase_ne key q d a.0

  delete_all-Distinct :
      (keys : List Text) (d : Dict Text V) → Distinct d → Distinct (delete_all keys d)
  delete_all-Distinct [] d h = h
  delete_all-Distinct (key ∷ keys) d h =
      delete_all-Distinct keys (erase key d) (erase-Distinct key d h)

  Swapped-delete_all :
      (caches : List Text) (m : Move) (d e : Dict Text V)
      → Spares caches m
      → Swapped m d e
      → Swapped m d (delete_all caches e)
  Swapped-delete_all caches m d e a s = record {
    to_live = delete_all-other caches m.live e a.0 ∙ s.to_live;
    to_parked = delete_all-other caches m.parked e a.1 ∙ s.to_parked;
    left_none = delete_all-other caches m.restored e a.2 ∙ s.left_none;
  }

  -- The values after the script.
  abbrev moved : List Move → List Text → Dict Text V → Dict Text V
  moved moves caches d = delete_all caches (move_all moves d)

  moved-Swapped :
      (moves : List Move) (caches : List Text) (d : Dict Text V)
      → Distinct d
      → Separate moves
      → All (Spares caches) moves
      → AllFree d moves
      → All (λ m. Swapped m d (moved moves caches d)) moves
  moved-Swapped moves caches d h a spared free =
      All-map (λ m k. Swapped-delete_all caches m d (move_all moves d) k.0 k.1) moves
        (All-both (Spares caches) (λ m. Swapped m d (move_all moves d)) moves spared
          (move_all-Swapped moves d h a free))

  adopt_script-free :
      (a b : Text) (moves : List Move) (caches : List Text) (s : Stored V)
      → s.marker ≡ some a
      → AllFree s.values moves
      → adopt_script a b moves caches s
        ≡ ok (
          count_parked moves s.values,
          record { marker = some b; values = moved moves caches s.values },
        )
  unfolding adopt_script
  adopt_script-free a b moves caches s marked free =
      rw (adopt_script, marked, eq_text_refl a, not_taken moves s.values free) refl

  -- A change of the provider and the change back, by the script, where the keys differ and the first
  -- provider has nothing in its own archive: neither call is refused, the marker is the first
  -- provider's again, and each live key, and each key of the two archives, has the value it had
  -- or, as before, none.
  pub there_and_back_again :
      (a b : Text) (moves : List Move) (caches : List Text) (s : Stored V)
      → s.marker ≡ some a
      → Distinct s.values
      → Separate moves
      → All (Spares caches) moves
      → AllFree s.values moves
      → Returns
          (λ done. (done.1.marker ≡ some a) × All (λ m. Unmoved m s.values done.1.values) moves)
          (adopt_script a b moves caches s
            >>= (λ first. adopt_script b a (back_all moves) caches first.1))
  there_and_back_again a b moves caches s marked h apart spared free =
      let e = moved moves caches s.values in
      let there = moved-Swapped moves caches s.values h apart spared free in
      let free_then = back_free moves s.values e there in
      let between : Stored V = record { marker = some b; values = e } in
      let distinct_then : Distinct e =
        delete_all-Distinct caches (move_all moves s.values) (move_all-Distinct moves s.values h) in
      let again =
        moved-Swapped (back_all moves) caches e distinct_then (Separate-back moves apart)
          (Spares-back caches moves spared) free_then in
      rw (adopt_script-free a b moves caches s marked free) (
        subst
          (Returns
            (λ done. (done.1.marker ≡ some a) × All (λ m. Unmoved m s.values done.1.values) moves))
          (sym (adopt_script-free b a (back_all moves) caches between refl free_then))
          (refl, there_and_back moves s.values e _ free there again))
