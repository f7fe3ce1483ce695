-- ===== src/Ingestor/Pipeline/Begin.antt =====
-- The states that `__init__` of pipeline.py makes for its symbols.
use live_forex_volatility_tr.Base.{
  ℕ, ◌≡◌, ◌∙◌, refl, sym, ap, inl, inr, none, some, List, [], ◌∷◌, subst, Bool-cases, Option-cases,
}
use live_forex_volatility_tr.Base.Float.{Float}
use live_forex_volatility_tr.Base.Text.{Text, eq_text}
use live_forex_volatility_tr.Base.Dict.{
  lookup, insert, text_key, number_key, pair_key, lookup-insert,
}
use live_forex_volatility_tr.Ingestor.Pipeline.{SymbolState}
use live_forex_volatility_tr.Ingestor.Pipeline.{IngestPipeline, new_state}
use live_forex_volatility_tr.Ingestor.Pipeline.Agreement.{Untouched}
use live_forex_volatility_tr.Ingestor.Pipeline.Replay.{Fed}
use live_forex_volatility_tr.Base.Result.{Returns, Returns-bind, Returns-both}
use live_forex_volatility_tr.Alerts.Detector.Learning.{IsSound}
use live_forex_volatility_tr.Base.Result.{Returns-Ends}
use live_forex_volatility_tr.Worker.Persister.{created}
use live_forex_volatility_tr.Ingestor.Pipeline.{begin}
use live_forex_volatility_tr.Ingestor.Pipeline.Replay.{Fed}
use live_forex_volatility_tr.Ingestor.Pipeline.Tracking.{Tracks, new_state-Ends}
use live_forex_volatility_tr.Ingestor.Pipeline.Ready.{IsReady, new_state-IsSound, stored-IsReady}

module _ {F : Type 0} ⦃f : Float F⦄ where
  -- A state that has taken no tick.
  abbrev IsNew : SymbolState F → Type 0
  IsNew st = (st.bucket ≡ none) × (st.last_price ≡ none)

  pub record Begun (p q : IngestPipeline F) : Type 0 where
    pub ready : IsReady q
    pub held : q.held_until ≡ p.held_until
    pub seconds : q.bucket_seconds ≡ p.bucket_seconds
    pub all_new : (r : Text) (st : SymbolState F) → lookup r q.states ≡ some st → IsNew st

  pub fresh-Begun : (p : IngestPipeline F) → IsReady p → p.states ≡ [] → Begun p p
  fresh-Begun p r fresh = record {
    ready = r;
    held = refl;
    seconds = refl;
    all_new = λ q st found. let none_of : lookup q p.states ≡ none = ap (lookup q) fresh in cc;
  }

  stored-IsNew :
      (p : IngestPipeline F) (symbol : Text) (new : SymbolState F)
      → ((r : Text) (st : SymbolState F) → lookup r p.states ≡ some st → IsNew st)
      → IsNew new
      → (r : Text) (st : SymbolState F) → lookup r (insert symbol new p.states) ≡ some st
      → IsNew st
  stored-IsNew p symbol new all own r st found = elim (Bool-cases (eq_text r symbol)) [
    | inl c ↦
        let is : some new ≡ some st =
          sym (lookup-insert symbol r new p.states ∙ rw c refl) ∙ found in
        let same : new ≡ st = cc in subst IsNew same own
    | inr c ↦ all r st (sym (lookup-insert symbol r new p.states ∙ rw c refl) ∙ found)
  ]

  next_Begun :
      (p q : IngestPipeline F) (symbol : Text) (st : SymbolState F)
      → Begun p q
      → IsSound st.detector
      → IsNew st
      → Begun p (record q { states = insert symbol st q.states })
  next_Begun p q symbol st b sound new = record {
    ready = stored-IsReady q symbol st b.ready sound;
    held = b.held;
    seconds = b.seconds;
    all_new = stored-IsNew q symbol st b.all_new new;
  }

  begin_all-Begun :
      (symbols : List Text) (p q : IngestPipeline F)
      → Begun p q
      → Returns (Begun p) (begin symbols q)
  unfolding begin
  begin_all-Begun [] p q b = b
  begin_all-Begun (symbol ∷ symbols) p q b =
      Returns-bind (λ st. IsSound st.detector × IsNew st) (Begun p) (new_state symbol q) _
        (Returns-both (λ st. IsSound st.detector) IsNew (new_state symbol q)
          (new_state-IsSound symbol q b.ready)
          (Returns-Ends (λ st. IsSound st.detector) IsNew (new_state symbol q)
            (new_state-IsSound symbol q b.ready) (new_state-Ends symbol q)))
        (λ st h.
          begin_all-Begun symbols p (record q { states = insert symbol st q.states })
            (next_Begun p q symbol st b h.0 h.1))

  pub begin-Begun :
      (symbols : List Text) (p : IngestPipeline F) → Begun p p → Returns (Begun p) (begin symbols p)
  begin-Begun symbols p = begin_all-Begun symbols p p

  pub new_Tracks :
      (p : IngestPipeline F) (rows microseconds now : ℕ) (r : Text) (q : IngestPipeline F)
      → Begun p q
      → (feed : List (Fed F))
      → Tracks r (lookup r q.states) (created p.bucket_seconds rows microseconds now) feed
  unfolding Tracks
  new_Tracks p rows microseconds now r q b feed =
      let u : Untouched r (created {F = F} p.bucket_seconds rows microseconds now) = record {
        no_price = refl;
        no_bucket = refl;
        no_accs = λ n. refl;
      } in
      let w = created {F = F} p.bucket_seconds rows microseconds now in
      elim (Option-cases (lookup r q.states)) [
        | inl c ↦ subst (λ o. Tracks r o w feed) (sym c) u
        | inr (st, c) ↦
            subst (λ o. Tracks r o w feed) (sym c)
              (inl (u, (b.all_new r st c).0, (b.all_new r st c).1))
      ]
