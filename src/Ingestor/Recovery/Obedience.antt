-- ===== src/Ingestor/Recovery/Obedience.antt =====
-- What a run of recovery.py asks the provider: within its budget, and never against a refusal.
use live_forex_volatility_tr.Base.{
  ℕ, zero, suc, ◌+◌, ◌≤◌, ◌≡◌, refl, false, none, some, List, [], ◌∷◌, arith, inl, inr, Bool-cases,
  Option-cases, All, All-map, any, length, take,
}
use live_forex_volatility_tr.Base.Clock.{Instant}
use live_forex_volatility_tr.Base.Float.{Float}
use live_forex_volatility_tr.Base.Text.{Text, eq_text, eq_text_refl}
use live_forex_volatility_tr.Volatility.Bars.{Bar}
use live_forex_volatility_tr.Ingestor.Recovery.Requests.{Request}
use live_forex_volatility_tr.Ingestor.Recovery.Store.{cache_add}
use live_forex_volatility_tr.Ingestor.Recovery.Report.{
  RunId, ProviderError, auth_error, rate_limit_error, entitlement_error, other_error, RunReport,
  World,
}
use live_forex_volatility_tr.Ingestor.Recovery.Fetch.{
  Reply, bars, refusal, error_of, Fetched, fetch, fetch_stored, fetch_failed,
}
use live_forex_volatility_tr.Ingestor.Recovery.Run.{
  RecoveryConfig, Turn, BackOff, Progress, Round, go_on, return, after_error, after_fetch, round,
  loop, request_all,
}
use live_forex_volatility_tr.Ingestor.Recovery.Follows.{
  Asked, Obeys, Passed, Passed-MayFollow, Passed-more,
}

module _ {F : Type 0} ⦃f : Float F⦄ where
  cache_add-asked :
      (symbol : Text) (given : List (Bar F)) (id : RunId) (w : World F)
      → (cache_add symbol given id w).1.asked ≡ w.asked
  unfolding cache_add
  cache_add-asked symbol [] id w = refl
  cache_add-asked symbol (b ∷ given) id w = refl

  fetch-asked :
      (request : Request) (reply : Reply F) (id : RunId) (now : Instant) (r : RunReport)
      (w : World F)
      → ((fetch request reply id now r w).world.asked ≡ (request, error_of reply) ∷ w.asked)
        × ((fetch request reply id now r w).error ≡ error_of reply)
  unfolding fetch fetch_stored fetch_failed
  fetch-asked request (refusal error) id now r w = (refl, refl)
  fetch-asked request (bars answer) id now r w = (cache_add-asked request.symbol _ id _, refl)

  -- What holds while the loop goes on, with `n` requests at most asked before.
  record Good (n : ℕ) (p : Progress F) : Type 0 where
    few : length p.world.asked ≤ n
    obeys : Obeys p.world.asked
    passed : All (Passed p.refused) p.world.asked

  record Done (n : ℕ) (p : Progress F) : Type 0 where
    few_asked : length p.world.asked ≤ n
    all_obey : Obeys p.world.asked

  abbrev After : ℕ → Round F → Type 0
  After n (go_on p) = Good n p
  After n (return p) = Done n p

  -- The world has just one request more, and the branch on its error.
  after_error-After :
      (n : ℕ) (request : Request) (now : Instant) (error : ProviderError) (p : Progress F)
      (before : List Asked)
      → p.world.asked ≡ (request, some error) ∷ before
      → length before ≤ n
      → Obeys ((request, some error) ∷ before)
      → All (Passed p.refused) before
      → After (suc n) (after_error request now error p)
  unfolding after_error
  after_error-After n request now auth_error p before e l o h = record {
    few_asked = rw e (omega arith);
    all_obey = rw e o;
  }
  after_error-After n request now (rate_limit_error retry_after) p before e l o h = record {
    few_asked = rw e (omega arith);
    all_obey = rw e o;
  }
  after_error-After n request now other_error p before e l o h = record {
    few = rw e (omega arith);
    obeys = rw e o;
    passed = rw e (tt, h);
  }
  after_error-After n request now entitlement_error p before e l o h = record {
    few = rw e (omega arith);
    obeys = rw e o;
    passed = rw e (
      ground (arith, eq_text_refl request.symbol),
      All-map (λ a. Passed-more request.symbol p.refused a) before h,
    );
  }

  after_fetch-After :
      (n : ℕ) (request : Request) (now : Instant) (fetched : Fetched F) (p : Progress F)
      → fetched.world.asked ≡ (request, fetched.error) ∷ p.world.asked
      → any (eq_text request.symbol) p.refused ≡ false
      → Good n p
      → After (suc n) (after_fetch request now fetched p)
  unfolding after_fetch
  after_fetch-After n request now fetched p e fresh h =
      let follows =
        All-map (λ a. Passed-MayFollow request p.refused a fresh) p.world.asked h.passed in
      elim (Option-cases fetched.error) [
        | inl c ↦
            let asked : fetched.world.asked ≡ (request, none) ∷ p.world.asked = rw c at e in
            rw c (record {
              few = rw asked (omega (arith, h.few));
              obeys = rw asked (follows, h.obeys);
              passed = rw asked (tt, h.passed);
            })
        | inr (error, c) ↦
            let asked : fetched.world.asked ≡ (request, some error) ∷ p.world.asked = rw c at e in
            rw c (
              after_error-After n request now error _ p.world.asked asked h.few (follows, h.obeys)
                h.passed)
      ]

  round-After :
      (n : ℕ) (id : RunId) (now : Instant) (request : Request) (turn : Turn F) (p : Progress F)
      → Good n p
      → After (suc n) (round id now request turn p)
  unfolding round
  round-After n id now request turn p h = elim (Bool-cases turn.stopped) [
    | inl e ↦ rw e (record { few_asked = omega (arith, h.few); all_obey = h.obeys })
    | inr e ↦ elim (Bool-cases (any (eq_text request.symbol) p.refused)) [
      | inl c ↦
          rw (e, c) (record { few = omega (arith, h.few); obeys = h.obeys; passed = h.passed })
      | inr c ↦ elim (Bool-cases turn.granted) [
        | inr d ↦ rw (e, c, d) (record { few_asked = omega (arith, h.few); all_obey = h.obeys })
        | inl d ↦
            let (asked, error) = fetch-asked request turn.reply id now p.report p.world in
            rw (e, c, d)
              (after_fetch-After n request now (fetch request turn.reply id now p.report p.world) p
                (rw error asked) c h)
      ]
    ]
  ]

  finish : (n : ℕ) (p : Progress F) → Good n p → Done n p
  finish n p h = record { few_asked = h.few; all_obey = h.obeys }

  Done-later : (n m : ℕ) (p : Progress F) → n ≤ m → Done n p → Done m p
  Done-later n m p le h = record { few_asked = omega (arith, h.few_asked); all_obey = h.all_obey }

  -- `k` requests that are left add `k` at most.
  loop-Done :
      (n m : ℕ) (id : RunId) (now : Instant) (requests : List Request) (turns : ℕ → Turn F) (i : ℕ)
      (p : Progress F)
      → n + length requests ≤ m
      → Good n p
      → Done m (loop id now requests turns i p)
  unfolding loop
  loop-Done n m id now [] turns i p le h = Done-later n m p (omega arith) (finish n p h)
  loop-Done n m id now (request ∷ requests) turns i p le h =
      go (round id now request (turns i) p) (round-After n id now request (turns i) p h)
        (λ q. loop-Done (suc n) m id now requests turns (suc i) q (omega arith))
    where
      go :
          (r : Round F)
          → After (suc n) r
          → ((q : Progress F) → Good (suc n) q → Done m (loop id now requests turns (suc i) q))
          → Done m (elim r [ return q ↦ q | go_on q ↦ loop id now requests turns (suc i) q ])
      go (go_on q) h rest = rest q h
      go (return q) h rest = Done-later (suc n) m q (omega arith) h

length-take_le : {A : Type 0} (n : ℕ) (xs : List A) → length (take n xs) ≤ n
length-take_le zero xs = omega arith
length-take_le (suc n) [] = omega arith
length-take_le (suc n) (x ∷ xs) = omega (arith, length-take_le n xs)

-- From a world in which nothing was asked, a run asks the provider `max_requests` times at most,
-- whatever it answers. After an answer that the credentials are bad, or to slow down, it asks
-- nothing more, and after one that a pair may not be read, nothing more for that pair.
pub request_all-Obeys :
    {F : Type 0} ⦃f : Float F⦄ (cfg : RecoveryConfig) (id : RunId) (now : Instant)
    (requests : List Request) (turns : ℕ → Turn F) (report : RunReport) (back_off : BackOff)
    (world : World F)
    → world.asked ≡ []
    → (length (request_all cfg id now requests turns report back_off world).world.asked
        ≤ cfg.max_requests)
      × Obeys (request_all cfg id now requests turns report back_off world).world.asked
unfolding request_all
request_all-Obeys {F} cfg id now requests turns report back_off world e =
    let done =
      loop-Done 0 cfg.max_requests id now (take cfg.max_requests requests) turns 0 _
        (omega (arith, length-take_le cfg.max_requests requests))
        (record { few = rw e (omega arith); obeys = rw e tt; passed = rw e tt }) in
    (done.few_asked, done.all_obey)
