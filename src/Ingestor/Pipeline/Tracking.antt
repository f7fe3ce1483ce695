-- ===== src/Ingestor/Pipeline/Tracking.antt =====
-- What the worker has of each symbol, by the state that pipeline.py keeps of it, before and after a
-- tick.
use live_forex_volatility_tr.Base.{
  ℕ, ◌<◌, ◌≤◌, ◌≡◌, ◌∙◌, ◌⊎◌, refl, sym, ap, inl, inr, false, Option, none, some, List, [], ◌∷◌,
  arith, ltb, if◌then◌else◌, subst, Bool-cases,
}
use live_forex_volatility_tr.Base.Clock.{epoch_of, from_epoch}
use live_forex_volatility_tr.Base.Float.{Float}
use live_forex_volatility_tr.Base.Text.{Text, eq_text, eq_text→eq}
use live_forex_volatility_tr.Base.Dict.{
  lookup, insert, text_key, number_key, pair_key, lookup-insert,
}
use live_forex_volatility_tr.Base.Result.{Result, ok, raise, Ends, Ends-bind, Ends-any}
use live_forex_volatility_tr.Volatility.Bars.{Bar, floor_to_bucket}
use live_forex_volatility_tr.Worker.Persister.{Persister, ingest_tick}
use live_forex_volatility_tr.Ingestor.Pipeline.{SymbolState, advance}
use live_forex_volatility_tr.Ingestor.Pipeline.{IngestPipeline, Command, is_held, new_state}
use live_forex_volatility_tr.Ingestor.Pipeline.Write.{
  Handling, take_tick, handle, executed, answered, state_for,
}
use live_forex_volatility_tr.Ingestor.Pipeline.Agreement.{
  logged, Untouched, Follows, OneFeed, other_price, other_bucket, other_accs,
}
use live_forex_volatility_tr.Ingestor.Pipeline.Cases.{
  SealedBefore, Stepped, first, same_minute, next_minute,
}
use live_forex_volatility_tr.Base.{All, All-map, ltb→lt, true}
use live_forex_volatility_tr.Base.Result.{Ends-weaken}
use live_forex_volatility_tr.Volatility.Ewma as Ewma
use live_forex_volatility_tr.Ingestor.Pipeline.Feed.{history_of, listed}
use live_forex_volatility_tr.Ingestor.Pipeline.Replay.{Fed, Due, Has, Passed, seconds_same}

lt_of_le : (a b c : ℕ) → a < b → b ≤ c → a < c
lt_of_le a b c h k = omega arith

module _ {F : Type 0} ⦃f : Float F⦄ where
  -- What the worker has of a symbol, by the ingestor's state of it.
  unfoldable pub Tracks : Text → Option (SymbolState F) → Persister F → List (Fed F) → Type 0
  Tracks q none w feed = Untouched q w
  Tracks q (some st) w feed =
      (Untouched q w × (st.bucket ≡ none) × (st.last_price ≡ none))
      ⊎ ((bar : Bar F) × Follows q st bar w × Due w.bucket_seconds q bar.bucket feed)

  pub answered-executed :
      (p : IngestPipeline F) (m : Result (IngestPipeline F × List (Command F)))
      → answered (executed true p m) ≡ m
  unfolding executed
  answered-executed p (raise e) = refl
  answered-executed p (ok (q, commands)) = refl

  pub handle-free :
      (e : Fed F) (p : IngestPipeline F)
      → p.held_until ≡ none
      → answered (handle true e.now e.tick p) ≡ take_tick e.now e.tick p
  unfolding handle
  handle-free e p free =
      ap
        (λ o.
          let skipped : Handling F = record { outcome = ok []; pipeline = p } in
          answered (
            if is_held o e.tick.ts_event
            then skipped
            else executed true p (take_tick e.now e.tick p)))
        free
      ∙ answered-executed p (take_tick e.now e.tick p)

  -- A new symbol's state has no bar and no price.
  pub new_state-Ends :
      (q : Text) (p : IngestPipeline F)
      → Ends (λ st. (st.bucket ≡ none) × (st.last_price ≡ none)) (new_state q p)
  unfolding new_state
  new_state-Ends q p =
      Ends-bind (λ d. Unit) _ (p.make_detector q) _ (Ends-any _)
        (λ d any_detector.
          Ends-bind (λ v. Unit) _ (Ewma.new p.ewma_lambda) _ (Ends-any _)
            (λ v any_ewma. (refl, refl)))

  pub state_for-known :
      (q : Text) (p : IngestPipeline F) (st : SymbolState F)
      → lookup q p.states ≡ some st
      → state_for q p ≡ ok st
  unfolding state_for
  state_for-known q p st found = rw (state_for, found) refl

  pub state_for-new :
      (q : Text) (p : IngestPipeline F) → lookup q p.states ≡ none → state_for q p ≡ new_state q p
  unfolding state_for
  state_for-new q p found = rw (state_for, found) refl

  module _ (provider : Text) (e : Fed F) (feed : List (Fed F)) (w : Persister F) where
    pub state-Stepped :
        (o : Option (SymbolState F)) (p : IngestPipeline F)
        → lookup e.tick.symbol p.states ≡ o
        → OneFeed provider w.bucket_seconds w
        → Tracks e.tick.symbol o w (e ∷ feed)
        → Ends (Stepped provider w.bucket_seconds e.id e.tick w) (state_for e.tick.symbol p)
    unfolding Tracks
    state-Stepped none p found h u =
        subst (Ends (Stepped provider w.bucket_seconds e.id e.tick w))
          (sym (state_for-new e.tick.symbol p found))
          (Ends-weaken _ _ (new_state e.tick.symbol p)
            (λ st fresh. first provider w.bucket_seconds e.id e.tick w st h u fresh.0 fresh.1)
            (new_state-Ends e.tick.symbol p))
    state-Stepped (some st) p found h (inl (u, no_bucket, no_price)) =
        subst (Ends (Stepped provider w.bucket_seconds e.id e.tick w))
          (sym (state_for-known e.tick.symbol p st found))
          (first provider w.bucket_seconds e.id e.tick w st h u no_bucket no_price)
    state-Stepped (some st) p found h (inr (bar, follows, due)) =
        let B = floor_to_bucket e.tick.ts_event w.bucket_seconds in
        let at_most : bar.bucket ≤ B = due.0 refl in
        subst (Ends (Stepped provider w.bucket_seconds e.id e.tick w))
          (sym (state_for-known e.tick.symbol p st found))
          (elim (Bool-cases (ltb bar.bucket B)) [
            | inl lt ↦
                next_minute provider w.bucket_seconds e.id e.tick w st bar h follows
                  (ltb→lt bar.bucket B lt)
            | inr ge ↦
                same_minute provider w.bucket_seconds e.id e.tick w st bar h follows (ground arith)
          ])

    abbrev pub w₁ : Persister F
    w₁ = ingest_tick e.id (logged provider e.tick) w

    -- What the pipeline and its commands are after the tick.
    pub record Handled (p : IngestPipeline F) (out : IngestPipeline F × List (Command F))
        : Type 0 where
      pub not_held : out.0.held_until ≡ none
      pub same_seconds : out.0.bucket_seconds ≡ p.bucket_seconds
      pub tracks : (q : Text) → Tracks q (lookup q out.0.states) w₁ feed
      pub sealed :
          All
            (λ bar.
              (bar.bucket ≡ from_epoch (epoch_of bar.bucket))
              × Passed w.bucket_seconds bar feed
              × Has w₁ bar)
            (history_of out.1)

    -- The own symbol's state is the new one.
    pub own_Tracks :
        (st out : SymbolState F)
        → Stepped provider w.bucket_seconds e.id e.tick w st
        → out.bucket ≡ (advance w.bucket_seconds e.tick st).0.bucket
        → out.last_price ≡ (advance w.bucket_seconds e.tick st).0.last_price
        → Due w.bucket_seconds e.tick.symbol (floor_to_bucket e.tick.ts_event w.bucket_seconds) feed
        → Tracks e.tick.symbol (some out) w₁ feed
    unfolding Tracks
    own_Tracks st out s same_bucket same_price due = inr (
      s.bar,
      record {
        bucket_is = same_bucket ∙ s.follows.bucket_is;
        symbol_is = s.follows.symbol_is;
        whole = s.follows.whole;
        same_acc = s.follows.same_acc;
        same_price = s.follows.same_price ∙ sym same_price;
        same_bucket = s.follows.same_bucket;
        later_free = s.follows.later_free;
      },
      subst (λ i. Due w₁.bucket_seconds e.tick.symbol i feed) (sym s.at_bucket)
          (subst (λ n. Due n e.tick.symbol (floor_to_bucket e.tick.ts_event w.bucket_seconds) feed)
            (sym (seconds_same provider e w)) due),
    )

    other_Untouched :
        (q : Text)
        → eq_text q e.tick.symbol ≡ false
        → OneFeed provider w.bucket_seconds w
        → Untouched q w
        → Untouched q w₁
    other_Untouched q other h u = record {
      no_price = other_price provider w.bucket_seconds e.id e.tick w q other h ∙ u.no_price;
      no_bucket = other_bucket provider w.bucket_seconds e.id e.tick w q other ∙ u.no_bucket;
      no_accs = λ n. other_accs provider w.bucket_seconds e.id e.tick w q other n ∙ u.no_accs n;
    }

    -- Another symbol's is as it was.
    other_Tracks :
        (q : Text) (o : Option (SymbolState F))
        → eq_text q e.tick.symbol ≡ false
        → OneFeed provider w.bucket_seconds w
        → Tracks q o w (e ∷ feed)
        → Tracks q o w₁ feed
    unfolding Tracks
    other_Tracks q none other h u = other_Untouched q other h u
    other_Tracks q (some st) other h (inl (u, no_bucket, no_price)) =
        inl (other_Untouched q other h u, no_bucket, no_price)
    other_Tracks q (some st) other h (inr (bar, g, due)) = inr (
      bar,
      record {
        bucket_is = g.bucket_is;
        symbol_is = g.symbol_is;
        whole = g.whole;
        same_acc =
            other_accs provider w.bucket_seconds e.id e.tick w q other (epoch_of bar.bucket)
            ∙ g.same_acc;
        same_price = other_price provider w.bucket_seconds e.id e.tick w q other h ∙ g.same_price;
        same_bucket = other_bucket provider w.bucket_seconds e.id e.tick w q other ∙ g.same_bucket;
        later_free = λ n lt.
            other_accs provider w.bucket_seconds e.id e.tick w q other n ∙ g.later_free n lt;
      },
      subst (λ n. Due n q bar.bucket feed) (sym (seconds_same provider e w)) due.1,
    )

    -- The bars that the tick sealed: the worker has them, and no later tick is theirs.
    pub listed-Has :
        (o : Option (Bar F))
        → SealedBefore e.tick.symbol (floor_to_bucket e.tick.ts_event w.bucket_seconds) w₁ o
        → Due w.bucket_seconds e.tick.symbol (floor_to_bucket e.tick.ts_event w.bucket_seconds) feed
        → All
            (λ bar.
              (bar.bucket ≡ from_epoch (epoch_of bar.bucket))
              × Passed w.bucket_seconds bar feed
              × Has w₁ bar)
            (listed o)
    unfolding SealedBefore Passed
    listed-Has none s due = tt
    listed-Has (some bar) s due = (
      (
        s.2,
        All-map (λ x later same. lt_of_le bar.bucket _ _ s.1 (later (same ∙ s.0))) feed due,
        subst (λ q. lookup (q, epoch_of bar.bucket) w₁.accs ≡ some bar) (sym s.0) s.3,
      ),
      tt,
    )

    -- The table of states after the tick: the own symbol's, and the others'.
    pub states_after :
        (p : IngestPipeline F) (st out : SymbolState F) (q : Text)
        → OneFeed provider w.bucket_seconds w
        → ((r : Text) → Tracks r (lookup r p.states) w (e ∷ feed))
        → Tracks e.tick.symbol (some out) w₁ feed
        → Tracks q (lookup q (insert e.tick.symbol out p.states)) w₁ feed
    states_after p st out q h t own = elim (Bool-cases (eq_text q e.tick.symbol)) [
      | inl c ↦
          subst (λ o. Tracks q o w₁ feed)
            (sym (lookup-insert e.tick.symbol q out p.states ∙ rw c refl))
            (subst (λ r. Tracks r (some out) w₁ feed) (sym (eq_text→eq q e.tick.symbol c)) own)
      | inr c ↦
          subst (λ o. Tracks q o w₁ feed)
            (sym (lookup-insert e.tick.symbol q out p.states ∙ rw c refl))
            (other_Tracks q (lookup q p.states) c h (t q))
    ]
