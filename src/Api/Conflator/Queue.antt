-- ===== src/Api/Conflator/Queue.antt =====
-- What a client's queue of apps/api/fx_api/ws/conflator.py holds after any sequence of offers and
-- drains: conflation as last value wins, and where every update went.
use live_forex_volatility_tr.Base.{
  ℕ, suc, ◌+◌, ◌≡◌, refl, ap, true, false, not, is_some, Option, none, some, List, [], ◌∷◌,
  if◌then◌else◌, length, arith, map, ◌++◌, All, Bool-cases, inl, inr, ap₂, sym, ◌∙◌, subst,
  length-append,
}
use live_forex_volatility_tr.Base.Text.{Text, eq_text, eq_text_refl}
use live_forex_volatility_tr.Base.Dict.{
  Dict, lookup, contains, insert, text_key, lookup-insert, length-insert, Distinct, insert-Distinct,
  same-false,
}
use live_forex_volatility_tr.Api.Conflator.{
  note_saturation, waited_beyond, ClientSession, is_empty, offer, drain, values, connected,
}

-- What happens to an open session.
pub data Event (P : Type 0) : Type 0 where
  offered : ℕ → Text → P → Event P
  drained : Event P

abbrev or_now : Option ℕ → ℕ → Option ℕ
or_now none now = some now
or_now (some since) now = some since

map_same : {A B : Type 0} (g h : A → B) (xs : List A) → ((x : A) → g x ≡ h x) → map g xs ≡ map h xs
map_same g h [] e = refl
map_same g h (x ∷ xs) e = ap₂ ◌∷◌ (e x) (map_same g h xs e)

module _ {P : Type 0} where
  abbrev pub happen : Event P → ClientSession P → ClientSession P
  happen (offered now key payload) s = offer now key payload s
  happen drained s = (drain s).1

  -- Newest first.
  unfoldable pub history : List (Event P) → ClientSession P → ClientSession P
  history [] s = s
  history (e ∷ es) s = happen e (history es s)

  -- The last update of the key since the last drain.
  abbrev pub latest : Text → List (Event P) → Option P
  latest key [] = none
  latest key (offered now k payload ∷ es) =
      if text_key.same key k then some payload else latest key es
  latest key (drained ∷ es) = none

  -- The instant of the first update since the last drain.
  abbrev pub first_since : List (Event P) → Option ℕ
  first_since [] = none
  first_since (offered now key payload ∷ es) = or_now (first_since es) now
  first_since (drained ∷ es) = none

  abbrev pub offers : List (Event P) → ℕ
  offers [] = 0
  offers (offered now key payload ∷ es) = suc (offers es)
  offers (drained ∷ es) = offers es

  -- The keys offered since the last drain, in the order of their first offers.
  abbrev pub first_offered : List (Event P) → List Text
  first_offered [] = []
  first_offered (offered now key payload ∷ es) =
      let keys = first_offered es in if is_some (latest key es) then keys else keys ++ key ∷ []
  first_offered (drained ∷ es) = []

  -- What the client's writer has been given by all drains.
  unfoldable pub taken : Text → List (Event P) → List P
  unfolding history
  taken client_id [] = []
  taken client_id (offered now key payload ∷ es) = taken client_id es
  taken client_id (drained ∷ es) =
      taken client_id es ++ (drain (history es (connected client_id))).0

  abbrev keys_in : Dict Text P → List Text
  keys_in [] = []
  keys_in ((key, v) ∷ d) = key ∷ keys_in d

  keys_in-insert :
      (key : Text) (v : P) (d : Dict Text P)
      → keys_in (insert key v d)
        ≡ (if is_some (lookup key d) then keys_in d else keys_in d ++ key ∷ [])
  keys_in-insert key v [] = refl
  keys_in-insert key v ((k, w) ∷ d) = ground (arith, keys_in-insert key v d, text_key.same→eq key k)

  lookup-past :
      (key : Text) (v : P) (d : Dict Text P) (keys : List Text)
      → All (λ q. eq_text q key ≡ false) keys
      → map (λ q. lookup q ((key, v) ∷ d)) keys ≡ map (λ q. lookup q d) keys
  lookup-past key v d [] a = refl
  lookup-past key v d (q ∷ keys) a = ap₂ ◌∷◌ (rw a.0 refl) (lookup-past key v d keys a.1)

  differ_all :
      (key : Text) (d : Dict Text P)
      → lookup key d ≡ none
      → All (λ q. eq_text q key ≡ false) (keys_in d)
  differ_all key [] h = tt
  differ_all key ((k, w) ∷ d) h = elim (Bool-cases (eq_text key k)) [
    | inl c ↦ let found = rw c at h in cc
    | inr c ↦ let rest = rw c at h in (same-false key k c, differ_all key d rest)
  ]

  values-found :
      (d : Dict Text P) → Distinct d → map some (values d) ≡ map (λ q. lookup q d) (keys_in d)
  values-found [] h = refl
  values-found ((key, v) ∷ d) h =
      ap₂ ◌∷◌ (sym (rw (eq_text_refl key) refl))
        (values-found d h.1 ∙ sym (lookup-past key v d (keys_in d) (differ_all key d h.0)))

  length-values : (d : Dict Text P) → length (values d) ≡ length d
  length-values [] = refl
  length-values ((k, v) ∷ d) = ap suc (length-values d)

  is_empty-eq : (d : Dict Text P) → is_empty d ≡ true → d ≡ []
  is_empty-eq [] h = refl
  is_empty-eq (x ∷ d) h = cc

  insert-full :
      (key : Text) (payload : P) (d : Dict Text P) → is_empty (insert key payload d) ≡ false
  insert-full key payload [] = refl
  insert-full key payload ((k, p) ∷ d) = ground arith

  -- The queue against its history.
  pub record Reflects (client_id : Text) (es : List (Event P)) (s : ClientSession P) : Type 0 where
    pub still_open : s.closed ≡ false
    pub last_value : (key : Text) → lookup key s.pending ≡ latest key es
    pub once_each : Distinct s.pending
    pub order : keys_in s.pending ≡ first_offered es
    pub waiting : s.waiting_since ≡ first_since es
    pub idle : is_empty s.pending ≡ not (is_some (first_since es))
    pub next_batch : map some (drain s).0 ≡ map (λ key. latest key es) (first_offered es)
    pub all_sent : s.sent ≡ length (taken client_id es)
    pub balance : length (taken client_id es) + s.conflated + length s.pending ≡ offers es

  -- A drain returns the values of the queue.
  drain-batch : (s : ClientSession P) → (drain s).0 ≡ values s.pending
  unfolding drain
  drain-batch s = ground (arith, is_empty-eq s.pending)

  batch-latest :
      (es : List (Event P)) (s : ClientSession P)
      → Distinct s.pending
      → keys_in s.pending ≡ first_offered es
      → ((key : Text) → lookup key s.pending ≡ latest key es)
      → map some (drain s).0 ≡ map (λ key. latest key es) (first_offered es)
  batch-latest es s once order last =
      ap (map some) (drain-batch s)
      ∙ values-found s.pending once
      ∙ map_same (λ q. lookup q s.pending) (λ q. latest q es) (keys_in s.pending) last
      ∙ ap (map (λ q. latest q es)) order

  -- The queue after an offer to an open session.
  abbrev queued : ℕ → Text → P → ClientSession P → ClientSession P
  queued now key payload s = record s {
    waiting_since = if is_empty s.pending then some now else s.waiting_since;
    conflated = if contains key s.pending then suc s.conflated else s.conflated;
    pending = insert key payload s.pending;
    wakeup = true;
  }

  offer-open :
      (now : ℕ) (key : Text) (payload : P) (s : ClientSession P)
      → s.closed ≡ false
      → offer now key payload s ≡ queued now key payload s
  unfolding offer
  offer-open now key payload s h = rw h refl

  queued-last :
      (now : ℕ) (key : Text) (payload : P) (es : List (Event P)) (s : ClientSession P)
      → ((q : Text) → lookup q s.pending ≡ latest q es)
      → (q : Text)
      → lookup q (insert key payload s.pending) ≡ latest q (offered now key payload ∷ es)
  queued-last now key payload es s last q = rw (lookup-insert key q payload s.pending, last q) refl

  queued-order :
      (now : ℕ) (key : Text) (payload : P) (es : List (Event P)) (s : ClientSession P)
      → ((q : Text) → lookup q s.pending ≡ latest q es)
      → keys_in s.pending ≡ first_offered es
      → keys_in (insert key payload s.pending) ≡ first_offered (offered now key payload ∷ es)
  queued-order now key payload es s last order =
      keys_in-insert key payload s.pending ∙ rw (last key, order) refl

  offer-Reflects :
      (client_id : Text) (now : ℕ) (key : Text) (payload : P) (es : List (Event P))
      (s : ClientSession P)
      → Reflects client_id es s
      → Reflects client_id (offered now key payload ∷ es) (offer now key payload s)
  unfolding taken
  offer-Reflects client_id now key payload es s r =
      let last = queued-last now key payload es s r.last_value in
      let order = queued-order now key payload es s r.last_value r.order in
      let once = insert-Distinct key payload s.pending r.once_each in
      subst (Reflects client_id (offered now key payload ∷ es))
        (sym (offer-open now key payload s r.still_open))
        (record {
          still_open = r.still_open;
          last_value = last;
          once_each = once;
          order = order;
          waiting = ground (arith, r.idle, r.waiting);
          idle = ground (arith, insert-full key payload s.pending);
          next_batch =
              batch-latest (offered now key payload ∷ es) (queued now key payload s) once order
                last;
          all_sent = r.all_sent;
          balance = ground (arith, length-insert key payload s.pending, r.balance);
        })

  -- The session that a drain leaves.
  drain-leaves :
      (s : ClientSession P)
      → ((drain s).1.pending ≡ [])
        × ((drain s).1.closed ≡ s.closed)
        × ((drain s).1.conflated ≡ s.conflated)
        × ((drain s).1.sent ≡ s.sent + length (values s.pending))
  unfolding drain
  drain-leaves s = ground (arith, is_empty-eq s.pending)

  drain-waiting :
      (s : ClientSession P) (since : Option ℕ)
      → s.waiting_since ≡ since
      → is_empty s.pending ≡ not (is_some since)
      → (drain s).1.waiting_since ≡ none
  unfolding drain
  drain-waiting s none h k = ground (arith, h)
  drain-waiting s (some t) h k = ground arith

  drain-Reflects :
      (client_id : Text) (es : List (Event P))
      → let s = history es (connected client_id) in
        Reflects client_id es s → Reflects client_id (drained ∷ es) (drain s).1
  unfolding taken
  drain-Reflects client_id es r =
      let s = history es (connected client_id) in
      let (empty, same_closed, same_conflated, more_sent) = drain-leaves s in
      let last : (q : Text) → lookup q (drain s).1.pending ≡ none = λ q. rw empty refl in
      let once : Distinct (drain s).1.pending = subst Distinct (sym empty) tt in
      let order : keys_in (drain s).1.pending ≡ [] = ap keys_in empty in
      let given : length (taken client_id es ++ (drain s).0)
          ≡ length (taken client_id es) + length (values s.pending) =
        length-append (taken client_id es) (drain s).0
        ∙ ap (λ xs. length (taken client_id es) + length xs) (drain-batch s) in
      record {
        still_open = same_closed ∙ r.still_open;
        last_value = last;
        once_each = once;
        order = order;
        waiting = drain-waiting s (first_since es) r.waiting r.idle;
        idle = ap is_empty empty;
        next_batch = batch-latest (drained ∷ es) (drain s).1 once order last;
        all_sent = omega (arith, more_sent, given, r.all_sent);
        balance =
            let none_left : length (drain s).1.pending ≡ 0 = ap length empty in
            omega (arith, given, same_conflated, none_left, r.balance, length-values s.pending);
      }

  -- After any history of offers and drains on a new session. For each key the queue holds the last
  -- update offered since the last drain, and nothing else. What the next drain returns is those
  -- updates, each key's once, in the order in which the keys were first offered since then. The
  -- clock of the wait started at the first update since then. As many updates are counted as sent
  -- as all drains have returned, and the updates offered are those returned, those superseded and
  -- those still queued, in number.
  pub history-Reflects :
      (client_id : Text) (es : List (Event P))
      → Reflects client_id es (history es (connected client_id))
  unfolding history taken
  history-Reflects client_id [] = record {
    still_open = refl;
    last_value = λ q. refl;
    once_each = tt;
    order = refl;
    waiting = refl;
    idle = refl;
    next_batch = batch-latest [] (connected client_id) tt refl (λ q. refl);
    all_sent = refl;
    balance = refl;
  }
  history-Reflects client_id (offered now key payload ∷ es) =
      offer-Reflects client_id now key payload es (history es (connected client_id))
        (history-Reflects client_id es)
  history-Reflects client_id (drained ∷ es) =
      drain-Reflects client_id es (history-Reflects client_id es)

  -- A client counts as too slow exactly when an update has been offered since its last drain and
  -- the first such one is older than the deadline.
  history-saturation :
      (client_id : Text) (es : List (Event P)) (now deadline : ℕ)
      → note_saturation now deadline (history es (connected client_id))
        ≡ waited_beyond now deadline (first_since es)
  unfolding note_saturation
  history-saturation client_id es now deadline =
      let r = history-Reflects client_id es in ground (arith, r.idle, r.waiting)
