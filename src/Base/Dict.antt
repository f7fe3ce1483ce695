-- ===== src/Base/Dict.antt =====
-- Python dictionaries: association lists in insertion order, over keys with an equality test.
use live_forex_volatility_tr.Base.Names.{
  ◌||◌, ℕ, suc, ◌≡◌, ap, refl, Bool, true, false, ◌&&◌, Option, none, some, List, [], ◌∷◌, inl, inr,
  ◌⊎◌, sym, subst, subst₂, arith,
}
use live_forex_volatility_tr.Base.Tests.{◌==◌, if◌then◌else◌, is_some, ==→eq, Bool-cases}
use live_forex_volatility_tr.Base.Lists.{length, All}
use live_forex_volatility_tr.Base.Int.{ℤ, pos, negsuc}
use live_forex_volatility_tr.Base.Text.{Text, eq_text, eq_text_refl, eq_text→eq}

pub record Key (K : Type 0) : Type 0 where
  pub same : K → K → Bool
  pub same→eq : (a b : K) → same a b ≡ true → a ≡ b
  pub same-refl : (a : K) → same a a ≡ true

pub ==-refl : (a : ℕ) → (a == a) ≡ true
==-refl a = ground arith

instance abbrev pub number_key : Key ℕ
number_key = record { same = ◌==◌; same→eq = ==→eq; same-refl = ==-refl }

instance abbrev pub text_key : Key Text
text_key = record { same = eq_text; same→eq = eq_text→eq; same-refl = eq_text_refl }

abbrev pub same_int : ℤ → ℤ → Bool
same_int (pos a) (pos b) = a == b
same_int (pos a) (negsuc b) = false
same_int (negsuc a) (pos b) = false
same_int (negsuc a) (negsuc b) = a == b

pub same_int→eq : (a b : ℤ) → same_int a b ≡ true → a ≡ b
same_int→eq (pos a) (pos b) h = ap pos (ground arith)
same_int→eq (pos a) (negsuc b) h = cc
same_int→eq (negsuc a) (pos b) h = cc
same_int→eq (negsuc a) (negsuc b) h = ap negsuc (ground arith)

pub same_int_refl : (a : ℤ) → same_int a a ≡ true
same_int_refl (pos a) = ==-refl a
same_int_refl (negsuc a) = ==-refl a

instance abbrev pub int_key : Key ℤ
int_key = record { same = same_int; same→eq = same_int→eq; same-refl = same_int_refl }

module _ {K L : Type 0} ⦃k : Key K⦄ ⦃l : Key L⦄ where
  abbrev pub same_pair : K × L → K × L → Bool
  same_pair (a, b) (c, d) = k.same a c && l.same b d

  pub same_pair→eq : (p q : K × L) → same_pair p q ≡ true → p ≡ q
  same_pair→eq (a, b) (c, d) h = ground (arith, k.same→eq a c, l.same→eq b d)

  pub same_pair_refl : (p : K × L) → same_pair p p ≡ true
  same_pair_refl (a, b) = ground (arith, k.same-refl a, l.same-refl b)

  instance abbrev pub pair_key : Key (K × L)
  pair_key = record { same = same_pair; same→eq = same_pair→eq; same-refl = same_pair_refl }

abbrev pub Dict : Type 0 → Type 0 → Type 0
Dict K V = List (K × V)

-- The default of `d.get(key, default)`.
abbrev pub get_or : {V : Type 0} → V → Option V → V
get_or default none = default
get_or default (some v) = v

module _ {K V : Type 0} ⦃k : Key K⦄ where
  abbrev pub lookup : K → Dict K V → Option V
  lookup key [] = none
  lookup key ((j, v) ∷ d) = if k.same key j then some v else lookup key d

  -- `key in d`
  abbrev pub contains : K → Dict K V → Bool
  contains key d = is_some (lookup key d)

  -- `d[key] = v`: a key that is there keeps its place.
  abbrev pub insert : K → V → Dict K V → Dict K V
  insert key v [] = (key, v) ∷ []
  insert key v ((j, w) ∷ d) = if k.same key j then (j, v) ∷ d else (j, w) ∷ insert key v d

  -- `d.pop(key, None)`
  abbrev pub erase : K → Dict K V → Dict K V
  erase key [] = []
  erase key ((j, w) ∷ d) = if k.same key j then d else (j, w) ∷ erase key d

  pub lookup-insert :
      (key q : K) (v : V) (d : Dict K V)
      → lookup q (insert key v d) ≡ (if k.same q key then some v else lookup q d)
  lookup-insert key q v [] = refl
  lookup-insert key q v ((j, w) ∷ d) = ground (
    arith,
    k.same→eq key j,
    k.same→eq q key,
    k.same→eq q j,
    k.same-refl q,
    lookup-insert key q v d,
  )

  -- No key stands twice.
  abbrev pub Distinct : Dict K V → Type 0
  Distinct [] = Unit
  Distinct ((j, w) ∷ d) = (lookup j d ≡ none) × Distinct d

  pub insert-Distinct : (key : K) (v : V) (d : Dict K V) → Distinct d → Distinct (insert key v d)
  insert-Distinct key v [] h = (refl, tt)
  insert-Distinct key v ((j, w) ∷ d) h =
      ground (
        arith,
        insert-Distinct key v d h.1,
        lookup-insert key j v d,
        k.same→eq j key,
        k.same-refl j,
      )

  pub length-insert :
      (key : K) (v : V) (d : Dict K V)
      → length (insert key v d) ≡ (if contains key d then length d else suc (length d))
  length-insert key v [] = refl
  length-insert key v ((j, w) ∷ d) = ground (arith, length-insert key v d)

  pub lookup-erase_ne :
      (key q : K) (d : Dict K V) → k.same q key ≡ false → lookup q (erase key d) ≡ lookup q d
  lookup-erase_ne key q [] h = refl
  lookup-erase_ne key q ((j, w) ∷ d) h =
      ground (arith, lookup-erase_ne key q d h, k.same→eq key j, k.same→eq q j, k.same-refl q)

  pub lookup-erase_self : (key : K) (d : Dict K V) → Distinct d → lookup key (erase key d) ≡ none
  lookup-erase_self key [] h = refl
  lookup-erase_self key ((j, w) ∷ d) h =
      ground (arith, lookup-erase_self key d h.1, k.same→eq key j)

  pub erase-Distinct : (key : K) (d : Dict K V) → Distinct d → Distinct (erase key d)
  erase-Distinct key [] h = tt
  erase-Distinct key ((j, w) ∷ d) h = elim (Bool-cases (k.same key j)) [
    | inl c ↦ rw c h.1
    | inr c ↦ rw c (
      ground (arith, lookup-erase_ne key j d, h.0, k.same→eq j key, k.same-refl j),
      erase-Distinct key d h.1,
    )
  ]

  -- What holds of every entry holds of those found, and goes on to hold after an assignment.
  pub All-lookup :
      (P : K → V → Type 0) (key : K) (d : Dict K V) {v : V}
      → All (λ e. P e.0 e.1) d
      → lookup key d ≡ some v
      → P key v
  All-lookup P key [] h e = cc
  All-lookup P key ((j, w) ∷ d) {v} h e = elim (Bool-cases (k.same key j)) [
    | inl c ↦ let found : w ≡ v = ground arith in subst₂ P (sym (k.same→eq key j c)) found h.0
    | inr c ↦ All-lookup P key d h.1 (ground arith)
  ]

  pub All-insert :
      (P : K → V → Type 0) (key : K) (v : V) (d : Dict K V)
      → P key v
      → All (λ e. P e.0 e.1) d
      → All (λ e. P e.0 e.1) (insert key v d)
  All-insert P key v [] p h = (p, tt)
  All-insert P key v ((j, w) ∷ d) p h = elim (Bool-cases (k.same key j)) [
    | inl e ↦ rw e (subst (λ i. P i v) (k.same→eq key j e) p, h.1)
    | inr e ↦ rw e (h.0, All-insert P key v d p h.1)
  ]

  pub contains-insert :
      (key q : K) (v : V) (d : Dict K V) → contains q d ≡ true → contains q (insert key v d) ≡ true
  contains-insert key q v d h = ground (arith, lookup-insert key q v d)

  pub contains_self : (key : K) (v : V) (d : Dict K V) → contains key (insert key v d) ≡ true
  contains_self key v d = ground (arith, lookup-insert key key v d, k.same-refl key)

  -- An assignment under a new key changes no entry, and what is found afterwards is old or new.
  pub insert-absent :
      (key q : K) (v : V) (d : Dict K V) {x : V}
      → contains key d ≡ false
      → lookup q d ≡ some x
      → lookup q (insert key v d) ≡ some x
  insert-absent key q v d h e = ground (arith, lookup-insert key q v d, k.same→eq q key)

  pub insert-found :
      (key q : K) (v : V) (d : Dict K V) {x : V}
      → lookup q (insert key v d) ≡ some x
      → (lookup q d ≡ some x) ⊎ (x ≡ v)
  insert-found key q v d {x} e = elim (Bool-cases (k.same q key)) [
    | inl c ↦ inr (ground (arith, lookup-insert key q v d))
    | inr c ↦ inl (ground (arith, lookup-insert key q v d))
  ]

  pub contains-first : (key : K) (v : V) (d : Dict K V) → contains key ((key, v) ∷ d) ≡ true
  contains-first key v d = ground (arith, k.same-refl key)

  pub contains-more :
      (key : K) (v : V) (q : K) (d : Dict K V)
      → contains q d ≡ true
      → contains q ((key, v) ∷ d) ≡ true
  contains-more key v q d h = ground arith

  -- `d.setdefault(key, v)`: an assignment, unless the key is there.
  abbrev pub insert_new : K → V → Dict K V → Dict K V
  insert_new key v d = if contains key d then d else insert key v d

  pub insert_new-keeps :
      (key q : K) (v : V) (d : Dict K V) {x : V}
      → lookup q d ≡ some x
      → lookup q (insert_new key v d) ≡ some x
  insert_new-keeps key q v d h = ground (arith, lookup-insert key q v d, k.same→eq q key)

  pub insert_new-stores :
      (key : K) (v : V) (d : Dict K V)
      → contains key d ≡ false
      → lookup key (insert_new key v d) ≡ some v
  insert_new-stores key v d h = ground (arith, lookup-insert key key v d, k.same-refl key)

  pub contains-insert_new :
      (key : K) (v : V) (d : Dict K V) → contains key (insert_new key v d) ≡ true
  contains-insert_new key v d = ground (arith, lookup-insert key key v d, k.same-refl key)

  pub contains-insert_any :
      (key q : K) (v : V) (d : Dict K V)
      → contains q (insert_new key v d) ≡ (k.same q key || contains q d)
  contains-insert_any key q v d = ground (arith, lookup-insert key q v d, k.same→eq q key)

module _ {K : Type 0} ⦃k : Key K⦄ where
  pub same-false : (a b : K) → k.same a b ≡ false → k.same b a ≡ false
  same-false a b h = ground (arith, k.same→eq b a, k.same-refl a)
