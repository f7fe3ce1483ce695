-- ===== src/Ingestor/Provider/Moves.antt =====
-- The script of `adopt_provider`: a change of the provider, and the change back.
use live_forex_volatility_tr.Base.{
  ◌≡◌, ◌∙◌, refl, subst, false, Option, none, some, List, [], ◌∷◌, All, All-map, All-both,
  Bool-cases, Option-cases, inl, inr,
}
use live_forex_volatility_tr.Base.Text.{Text, eq_text, eq_text_refl, eq_text→eq}
use live_forex_volatility_tr.Base.Dict.{
  Dict, lookup, erase, text_key, lookup-insert, lookup-erase_ne, lookup-erase_self, Distinct,
  insert-Distinct, erase-Distinct,
}
use live_forex_volatility_tr.Ingestor.Provider.{Move, rename, move_one, move_all}

pub differ_sym : (a b : Text) → eq_text a b ≡ false → eq_text b a ≡ false
differ_sym a b h = elim (Bool-cases (eq_text b a)) [
  | inl c ↦
      let same : b ≡ a = eq_text→eq b a c in
      let self = eq_text_refl a in
      let other : eq_text a a ≡ false = subst (λ t. eq_text a t ≡ false) same h in cc
  | inr c ↦ c
]

-- The three keys of a move differ.
pub record IsApart (m : Move) : Type 0 where
  pub parked_live : eq_text m.parked m.live ≡ false
  pub restored_live : eq_text m.restored m.live ≡ false
  pub restored_parked : eq_text m.restored m.parked ≡ false

abbrev pub Avoids : Text → Move → Type 0
Avoids q m =
    (eq_text q m.live ≡ false) × (eq_text q m.parked ≡ false) × (eq_text q m.restored ≡ false)

-- The moves have keys of their own.
abbrev pub IsSeparate : Move → Move → Type 0
IsSeparate m n =
    Avoids m.live n
    × Avoids m.parked n
    × Avoids m.restored n
    × Avoids n.live m
    × Avoids n.parked m
    × Avoids n.restored m

abbrev pub Separate : List Move → Type 0
Separate [] = Unit
Separate (m ∷ moves) = IsApart m × All (IsSeparate m) moves × Separate moves

module _ {V : Type 0} where
  rename-Distinct :
      (source target : Text) (d : Dict Text V) → Distinct d → Distinct (rename source target d)
  unfolding rename
  rename-Distinct source target d h = elim (Option-cases (lookup source d)) [
    | inl c ↦ rw (Distinct, rename, c) h
    | inr (v, c) ↦
        rw (Distinct, rename, c)
          (insert-Distinct target v (erase source d) (erase-Distinct source d h))
  ]

  rename-target :
      (source target : Text) (d : Dict Text V) (o : Option V)
      → lookup source d ≡ o
      → lookup target (rename source target d) ≡ elim o [ none ↦ lookup target d | some v ↦ some v ]
  unfolding rename
  rename-target source target d none c = rw (rename, c) refl
  rename-target source target d (some v) c =
      rw (rename, c)
        (lookup-insert target target v (erase source d) ∙ rw (eq_text_refl target) refl)

  rename-source :
      (source target : Text) (d : Dict Text V)
      → Distinct d
      → eq_text source target ≡ false
      → lookup source (rename source target d) ≡ none
  unfolding rename
  rename-source source target d h apart = elim (Option-cases (lookup source d)) [
    | inl c ↦ rw (rename, c) c
    | inr (v, c) ↦
        rw (rename, c)
          (lookup-insert target source v (erase source d) ∙ rw apart (lookup-erase_self source d h))
  ]

  rename-other :
      (source target q : Text) (d : Dict Text V)
      → eq_text q source ≡ false
      → eq_text q target ≡ false
      → lookup q (rename source target d) ≡ lookup q d
  unfolding rename
  rename-other source target q d h k = elim (Option-cases (lookup source d)) [
    | inl c ↦ rw (rename, c) refl
    | inr (v, c) ↦
        rw (rename, c)
          (lookup-insert target q v (erase source d) ∙ rw k (lookup-erase_ne source q d h))
  ]

  move_one-Distinct : (m : Move) (d : Dict Text V) → Distinct d → Distinct (move_one m d)
  unfolding move_one
  move_one-Distinct m d h =
      rename-Distinct m.restored m.live _ (rename-Distinct m.live m.parked d h)

  move_one-other :
      (m : Move) (q : Text) (d : Dict Text V) → Avoids q m → lookup q (move_one m d) ≡ lookup q d
  unfolding move_one
  move_one-other m q d a =
      rename-other m.restored m.live q _ a.2 a.0 ∙ rename-other m.live m.parked q d a.0 a.1

  -- What a move does to its keys, where nothing is parked.
  pub record Swapped (m : Move) (d e : Dict Text V) : Type 0 where
    pub to_live : lookup m.live e ≡ lookup m.restored d
    pub to_parked : lookup m.parked e ≡ lookup m.live d
    pub left_none : lookup m.restored e ≡ none

  end_of : (base o : Option V) → base ≡ none → elim o [ none ↦ base | some v ↦ some v ] ≡ o
  end_of base none free = free
  end_of base (some v) free = refl

  move_one-Swapped :
      (m : Move) (d : Dict Text V)
      → Distinct d
      → IsApart m
      → lookup m.parked d ≡ none
      → Swapped m d (move_one m d)
  unfolding move_one
  move_one-Swapped m d h a free =
      let parked = rename m.live m.parked d in
      let live_gone : lookup m.live parked ≡ none =
        rename-source m.live m.parked d h (differ_sym m.parked m.live a.parked_live) in
      let kept : lookup m.restored parked ≡ lookup m.restored d =
        rename-other m.live m.parked m.restored d a.restored_live a.restored_parked in
      record {
        to_live =
            rename-target m.restored m.live parked (lookup m.restored parked) refl
            ∙ end_of (lookup m.live parked) (lookup m.restored parked) live_gone
            ∙ kept;
        to_parked =
            rename-other m.restored m.live m.parked parked
              (differ_sym m.restored m.parked a.restored_parked) a.parked_live
            ∙ rename-target m.live m.parked d (lookup m.live d) refl
            ∙ end_of (lookup m.parked d) (lookup m.live d) free;
        left_none =
            rename-source m.restored m.live parked (rename-Distinct m.live m.parked d h)
              a.restored_live;
      }

  pub move_all-Distinct :
      (moves : List Move) (d : Dict Text V) → Distinct d → Distinct (move_all moves d)
  unfolding move_all
  move_all-Distinct [] d h = h
  move_all-Distinct (m ∷ moves) d h =
      move_all-Distinct moves (move_one m d) (move_one-Distinct m d h)

  move_all-other :
      (moves : List Move) (q : Text) (d : Dict Text V)
      → All (Avoids q) moves
      → lookup q (move_all moves d) ≡ lookup q d
  unfolding move_all
  move_all-other [] q d a = refl
  move_all-other (m ∷ moves) q d a =
      move_all-other moves q (move_one m d) a.1 ∙ move_one-other m q d a.0

  -- A move before or after keeps what a move has done.
  Swapped-before :
      (n m : Move) (d e : Dict Text V) → IsSeparate n m → Swapped m (move_one n d) e → Swapped m d e
  Swapped-before n m d e a s = record {
    to_live = s.to_live ∙ move_one-other n m.restored d a.5;
    to_parked = s.to_parked ∙ move_one-other n m.live d a.3;
    left_none = s.left_none;
  }

  Swapped-after :
      (m : Move) (moves : List Move) (d e : Dict Text V)
      → All (IsSeparate m) moves
      → Swapped m d e
      → Swapped m d (move_all moves e)
  Swapped-after m moves d e a s = record {
    to_live = move_all-other moves m.live e (All-map (λ n k. k.0) moves a) ∙ s.to_live;
    to_parked = move_all-other moves m.parked e (All-map (λ n k. k.1) moves a) ∙ s.to_parked;
    left_none = move_all-other moves m.restored e (All-map (λ n k. k.2) moves a) ∙ s.left_none;
  }

  abbrev pub AllFree : Dict Text V → List Move → Type 0
  AllFree d = All (λ m. lookup m.parked d ≡ none)

  free_after :
      (m : Move) (moves : List Move) (d : Dict Text V)
      → All (IsSeparate m) moves
      → AllFree d moves
      → AllFree (move_one m d) moves
  free_after m [] d a free = tt
  free_after m (n ∷ moves) d a free =
      (move_one-other m n.parked d a.0.4 ∙ free.0, free_after m moves d a.1 free.1)

  pub move_all-Swapped :
      (moves : List Move) (d : Dict Text V)
      → Distinct d
      → Separate moves
      → AllFree d moves
      → All (λ m. Swapped m d (move_all moves d)) moves
  unfolding move_all
  move_all-Swapped [] d h a free = tt
  move_all-Swapped (m ∷ moves) d h a free = (
    Swapped-after m moves d (move_one m d) a.1 (move_one-Swapped m d h a.0 free.0),
    All-map (λ n k. Swapped-before m n d _ k.0 k.1) moves
        (All-both (IsSeparate m) (λ n. Swapped n (move_one m d) (move_all moves (move_one m d)))
          moves a.1
          (move_all-Swapped moves (move_one m d) (move_one-Distinct m d h) a.2
            (free_after m moves d a.1 free.1))),
  )
