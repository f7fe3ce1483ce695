-- ===== src/Ingestor/Recovery/Rule.antt =====
-- The rule for the loop of `_request_all` in recovery.py: what each request keeps, the loop keeps.
use live_forex_volatility_tr.Base.{ℕ, suc, List, [], ◌∷◌, inl, inr, Bool-cases, Option-cases, any}
use live_forex_volatility_tr.Base.Clock.{Instant}
use live_forex_volatility_tr.Base.Float.{Float}
use live_forex_volatility_tr.Base.Text.{eq_text}
use live_forex_volatility_tr.Ingestor.Recovery.Requests.{Request}
use live_forex_volatility_tr.Ingestor.Recovery.Report.{
  RunId, Status, ProviderError, auth_error, rate_limit_error, entitlement_error, other_error,
  RunReport, World,
}
use live_forex_volatility_tr.Ingestor.Recovery.Fetch.{Reply, Fetched, fetch}
use live_forex_volatility_tr.Ingestor.Recovery.Run.{
  Turn, Progress, Round, go_on, return, after_error, after_fetch, round, loop,
}

module _ {F : Type 0} ⦃f : Float F⦄ where
  abbrev pub OfRound : (Progress F → Type 0) → Round F → Type 0
  OfRound P (go_on p) = P p
  OfRound P (return p) = P p

  -- A predicate on the report and the world that a change of the status keeps, and each request.
  pub record IsKept (id : RunId) (now : Instant) (P : RunReport → World F → Type 0) : Type 0 where
    pub by_status :
        (s : Status) (r : RunReport) (w : World F) → P r w → P (record r { status = s }) w
    pub by_fetch :
        (request : Request) (reply : Reply F) (r : RunReport) (w : World F)
        → P r w
        → P (fetch request reply id now r w).report (fetch request reply id now r w).world

  module _ (id : RunId) (now : Instant) (P : RunReport → World F → Type 0)
      (k : IsKept id now P) where
    abbrev Holds : Progress F → Type 0
    Holds p = P p.report p.world

    after_error-Holds :
        (request : Request) (error : ProviderError) (p : Progress F)
        → Holds p
        → OfRound Holds (after_error request now error p)
    unfolding after_error
    after_error-Holds request auth_error p h = k.by_status _ p.report p.world h
    after_error-Holds request (rate_limit_error retry_after) p h = h
    after_error-Holds request entitlement_error p h = h
    after_error-Holds request other_error p h = h

    after_fetch-Holds :
        (request : Request) (fetched : Fetched F) (p : Progress F)
        → P fetched.report fetched.world
        → OfRound Holds (after_fetch request now fetched p)
    unfolding after_fetch
    after_fetch-Holds request fetched p h = elim (Option-cases fetched.error) [
      | inl e ↦ rw e h
      | inr (error, e) ↦ rw e (after_error-Holds request error _ h)
    ]

    round-Holds :
        (request : Request) (turn : Turn F) (p : Progress F)
        → Holds p
        → OfRound Holds (round id now request turn p)
    unfolding round
    round-Holds request turn p h = elim (Bool-cases turn.stopped) [
      | inl e ↦ rw e (k.by_status _ p.report p.world h)
      | inr e ↦ elim (Bool-cases (any (eq_text request.symbol) p.refused)) [
        | inl c ↦ rw (e, c) h
        | inr c ↦ elim (Bool-cases turn.granted) [
          | inr d ↦ rw (e, c, d) h
          | inl d ↦
              rw (e, c, d)
                (after_fetch-Holds request _ p (k.by_fetch request turn.reply p.report p.world h))
        ]
      ]
    ]

    pub loop-Holds :
        (requests : List Request) (turns : ℕ → Turn F) (i : ℕ) (p : Progress F)
        → P p.report p.world
        → P (loop id now requests turns i p).report (loop id now requests turns i p).world
    unfolding loop
    loop-Holds [] turns i p h = h
    loop-Holds (request ∷ requests) turns i p h =
        go (round id now request (turns i) p) (round-Holds request (turns i) p h)
          (λ q. loop-Holds requests turns (suc i) q)
      where
        go :
            (r : Round F)
            → OfRound Holds r
            → ((q : Progress F) → Holds q → Holds (loop id now requests turns (suc i) q))
            → Holds (elim r [ return q ↦ q | go_on q ↦ loop id now requests turns (suc i) q ])
        go (go_on q) h rest = rest q h
        go (return q) h rest = h
