-- ===== src/Ingestor/Recovery/Received.antt =====
-- The bars that `_fetch` in recovery.py receives, in order, and those of them it inserts.
use live_forex_volatility_tr.Base.{
  suc, ◌≤◌, ◌≡◌, ◌⊎◌, refl, sym, ap, ◌∙◌, Bool, true, false, List, [], ◌∷◌, arith, leb, ◌==◌,
  if◌then◌else◌, inl, inr, Bool-cases, All, All-map, length, any, ==→eq, subst,
}
use live_forex_volatility_tr.Base.Clock.{Instant}
use live_forex_volatility_tr.Base.Float.{Float}
use live_forex_volatility_tr.Base.Text.{Text}
use live_forex_volatility_tr.Base.Dict.{
  Dict, contains, insert, number_key, text_key, pair_key, contains-first, contains-more, All-insert,
}
use live_forex_volatility_tr.Volatility.Bars.{Bar}
use live_forex_volatility_tr.Ingestor.Recovery.Report.{RunId}
use live_forex_volatility_tr.Ingestor.Recovery.Store.{Tables, insert_bar, insert_bars}
use live_forex_volatility_tr.Ingestor.Recovery.Fetch.{
  in_order, add_in_order, received_bars, is_asked_for,
}

module _ {F : Type 0} where
  -- Each received bar stands under its own minute.
  unfoldable pub Keyed : Dict Instant (Bar F) → Type 0
  Keyed = All (λ e. e.0 ≡ e.1.bucket)

  pub received_bars-Keyed :
      (symbol : Text) (minutes : List Instant) (answer : List (Bar F))
      (received : Dict Instant (Bar F))
      → Keyed received
      → Keyed (received_bars symbol minutes answer received)
  unfolding received_bars Keyed
  received_bars-Keyed symbol minutes [] received h = h
  received_bars-Keyed symbol minutes (b ∷ answer) received h =
      elim (Bool-cases (is_asked_for symbol minutes b)) [
        | inl e ↦ rw e (
            received_bars-Keyed symbol minutes answer (insert b.bucket b received)
              (All-insert (λ m c. m ≡ c.bucket) b.bucket b received refl h))
        | inr e ↦ rw e (received_bars-Keyed symbol minutes answer received h)
      ]

  length-add_in_order :
      (m : Instant) (b : Bar F) (ordered : List (Bar F))
      → length (add_in_order m b ordered) ≡ suc (length ordered)
  unfolding add_in_order
  length-add_in_order m b [] = refl
  length-add_in_order m b (c ∷ ordered) = ground (arith, length-add_in_order m b ordered)

  pub length-in_order :
      (received : Dict Instant (Bar F)) → length (in_order received) ≡ length received
  unfolding in_order
  length-in_order [] = refl
  length-in_order ((m, b) ∷ received) =
      length-add_in_order m b (in_order received) ∙ ap suc (length-in_order received)

  add_in_order-All :
      (P : Bar F → Type 0) (m : Instant) (b : Bar F) (ordered : List (Bar F))
      → P b
      → All P ordered
      → All P (add_in_order m b ordered)
  unfolding add_in_order
  add_in_order-All P m b [] p h = (p, tt)
  add_in_order-All P m b (c ∷ ordered) p h = elim (Bool-cases (leb m c.bucket)) [
    | inl e ↦ rw e (p, h)
    | inr e ↦ rw e (h.0, add_in_order-All P m b ordered p h.1)
  ]

  in_order-All :
      (P : Bar F → Type 0) (received : Dict Instant (Bar F))
      → All (λ e. P e.1) received
      → All P (in_order received)
  unfolding in_order
  in_order-All P [] h = tt
  in_order-All P ((m, b) ∷ received) h =
      add_in_order-All P m b (in_order received) h.0 (in_order-All P received h.1)

  -- Bars whose minutes were received.
  pub Within : Dict Instant (Bar F) → List (Bar F) → Type 0
  Within received = All (λ b. contains b.bucket received ≡ true)

  entries-within :
      (received : Dict Instant (Bar F))
      → Keyed received
      → All (λ e. contains e.1.bucket received ≡ true) received
  unfolding Keyed
  entries-within [] h = tt
  entries-within ((m, b) ∷ received) h = (
    subst (λ q. contains q ((m, b) ∷ received) ≡ true) h.0 (contains-first m b received),
    All-map (λ e held. contains-more m b e.1.bucket received held) received
        (entries-within received h.1),
  )

  pub in_order-Within :
      (received : Dict Instant (Bar F)) → Keyed received → Within received (in_order received)
  unfolding Within
  in_order-Within received h = in_order-All _ received (entries-within received h)

  module _ ⦃f : Float F⦄ where
    pub length-insert_bars :
        (symbol : Text) (given : List (Bar F)) (id : RunId) (tables : Tables F)
        → length (insert_bars symbol given id tables).0 ≤ length given
    unfolding insert_bars
    length-insert_bars symbol [] id tables = omega arith
    length-insert_bars symbol (b ∷ given) id tables =
        ground (arith, length-insert_bars symbol given id (insert_bar symbol b id tables))

    -- A minute that is returned is the first row's, where that was inserted, or a later one's.
    returned :
        (held : Bool) (first m : Instant) (rest : List Instant × Tables F)
        → any (λ i. m == i) (if held then rest else (first ∷ rest.0, rest.1)).0 ≡ true
        → (m ≡ first) ⊎ (any (λ i. m == i) rest.0 ≡ true)
    returned true first m rest h = inr h
    returned false first m rest h = elim (Bool-cases (m == first)) [
      | inl e ↦ inl (==→eq m first e)
      | inr e ↦ inr (rw e at h)
    ]

    pub insert_bars-Within :
        (symbol : Text) (received : Dict Instant (Bar F)) (given : List (Bar F)) (id : RunId)
        (tables : Tables F) (m : Instant)
        → Within received given
        → any (λ i. m == i) (insert_bars symbol given id tables).0 ≡ true
        → contains m received ≡ true
    unfolding insert_bars Within
    insert_bars-Within symbol received [] id tables m h k = cc
    insert_bars-Within symbol received (b ∷ given) id tables m h k =
        let rest = insert_bars symbol given id (insert_bar symbol b id tables) in
        elim (returned (contains (symbol, b.bucket) tables.0) b.bucket m rest k) [
          | inl e ↦ subst (λ q. contains q received ≡ true) (sym e) h.0
          | inr later ↦
              insert_bars-Within symbol received given id (insert_bar symbol b id tables) m h.1
                later
        ]
