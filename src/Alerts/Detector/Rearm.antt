-- ===== src/Alerts/Detector/Rearm.antt =====
-- The gates against the history of bars: which bars are clean, and how many clean bars in a row
-- it takes before one is scored.
use live_forex_volatility_tr.Base.{
  ℕ, suc, ◌<◌, ◌≡◌, ◌≢◌, refl, ap, sym, subst, subst₂, ◌∙◌, Bool, true, false, ◌&&◌, not, Option,
  none, some, List, [], ◌∷◌, arith, inl, inr, leb, leb→gt, Bool-cases, if◌then◌else◌,
}
use live_forex_volatility_tr.Base.Clock.{Instant, elapsed_lt}
use live_forex_volatility_tr.Base.Float.{Float}
use live_forex_volatility_tr.Base.Text.{Text}
use live_forex_volatility_tr.Base.Result.{ok, >>=-eq-ok, Returns-ok}
use live_forex_volatility_tr.Alerts.Regime.{RegimeTransition, observation_lost}
use live_forex_volatility_tr.Alerts.Trigger.{SchmittTrigger, holds_since}
use live_forex_volatility_tr.Alerts.Trigger.Blackout.{OnlyLoses}
use live_forex_volatility_tr.Alerts.Detector.{
  DetectorConfig, RegimeDetector, SealedBar, is_false, see_session, gate, after_gate, update,
}
use live_forex_volatility_tr.Alerts.Detector.Gates.{drive}
use live_forex_volatility_tr.Alerts.Detector.Kept.{Kept, Quiet, suppress-Quiet, evaluate-Kept}

abbrev is_none : Option Text → Bool
is_none none = true
is_none (some reason) = false

module _ {F : Type 0} (c : DetectorConfig) (is_open : Instant → Bool) where
  -- Newest first: whether the market was open at the last bar.
  abbrev pub was_open_of : List (SealedBar F) → Option Bool
  was_open_of [] = none
  was_open_of (b ∷ h) = some (is_open b.ts)

  -- The first bar of the current session, if a closed market was seen before it.
  abbrev pub session_start : List (SealedBar F) → Option Instant
  session_start [] = none
  session_start (b ∷ h) =
      if is_false (was_open_of h) && is_open b.ts then some b.ts else session_start h

  -- A bar may be evaluated: the market is open and warmed up, and the bar is no artefact.
  abbrev pub clean : SealedBar F → List (SealedBar F) → Bool
  clean b h =
      is_open b.ts
      && (not (holds_since (session_start (b ∷ h)) (λ at. elapsed_lt b.ts at c.session_warmup))
          && (not b.is_gap_bar && (not b.is_backfill && not b.feed_is_stale)))

  -- How many clean bars in a row end the history.
  abbrev pub clean_run : List (SealedBar F) → ℕ
  clean_run [] = 0
  clean_run (b ∷ h) = if clean b h then suc (clean_run h) else 0

module _ {F : Type 0} ⦃f : Float F⦄ where
  -- The session clock and the count follow the history.
  record Tracks (d : RegimeDetector F) (h : List (SealedBar F)) : Type 0 where
    was_open : d.was_open ≡ was_open_of d.config d.market_is_open h
    opened : d.opened_at ≡ session_start d.config d.market_is_open h
    count : d.contiguous_ok ≡ clean_run d.config d.market_is_open h

  -- A score, and a transition that is not for want of observations, take a run of clean bars
  -- longer than `rearm_bars`.
  abbrev pub Earned :
      DetectorConfig
      → (Instant → Bool)
      → List (SealedBar F)
      → RegimeDetector F × Option (RegimeTransition F)
      → Type 0
  Earned c is_open h r =
      (r.0.last_zscore ≢ none → c.rearm_bars < clean_run c is_open h)
      × ((x : RegimeTransition F)
          → r.1 ≡ some x
          → x.cause ≢ observation_lost
          → c.rearm_bars < clean_run c is_open h)

  -- The state between the session clock and the gate.
  record Looks (d : RegimeDetector F) (bar : SealedBar F) (h : List (SealedBar F)) : Type 0 where
    was_open : d.was_open ≡ some (d.market_is_open bar.ts)
    opened : d.opened_at ≡ session_start d.config d.market_is_open (bar ∷ h)
    count : d.contiguous_ok ≡ clean_run d.config d.market_is_open h

  see-Looks :
      (d : RegimeDetector F) (bar : SealedBar F) (h : List (SealedBar F))
      → Tracks d h
      → Looks (see_session d bar.ts) bar h
  unfolding see_session
  see-Looks d bar h t = record {
    was_open = refl;
    opened = rw (t.was_open, t.opened);
    count = t.count;
  }

  gate-clean :
      (d : RegimeDetector F) (bar : SealedBar F) (h : List (SealedBar F))
      → Looks d bar h
      → is_none (gate d bar) ≡ clean d.config d.market_is_open bar h
  unfolding gate
  gate-clean d bar h s = rw (← s.opened) (ground arith)

  abbrev Follows :
      RegimeDetector F
      → List (SealedBar F)
      → RegimeDetector F × Option (RegimeTransition F)
      → Type 0
  Follows d h r =
      Tracks r.0 h
      × Earned d.config d.market_is_open h r
      × (r.0.config ≡ d.config)
      × (r.0.market_is_open ≡ d.market_is_open)

  Kept-Tracks :
      (d d' : RegimeDetector F) (n : ℕ) (bar : SealedBar F) (h : List (SealedBar F))
      → Looks d bar h
      → n ≡ clean_run d.config d.market_is_open (bar ∷ h)
      → Kept (record d { contiguous_ok = n }) d'
      → Tracks d' (bar ∷ h)
  Kept-Tracks d d' n bar h s e k = record {
    was_open = rw k.market (k.was_open ∙ s.was_open);
    opened =
        subst₂ (λ c m. d'.opened_at ≡ session_start c m (bar ∷ h)) (sym k.config) (sym k.market)
          (k.opened ∙ s.opened);
    count =
        subst₂ (λ c m. d'.contiguous_ok ≡ clean_run c m (bar ∷ h)) (sym k.config) (sym k.market)
          (k.count ∙ e);
  }

  loses-cause :
      (t t' : SchmittTrigger F) (o : Option (RegimeTransition F))
      → OnlyLoses t (t', o)
      → (x : RegimeTransition F) → o ≡ some x
      → x.cause ≡ observation_lost
  loses-cause t t' none h x e = cc
  loses-cause t t' (some y) h x e = ground arith

  Quiet-Earned :
      (d : RegimeDetector F) (c : DetectorConfig) (is_open : Instant → Bool)
      (h : List (SealedBar F)) (r : RegimeDetector F × Option (RegimeTransition F))
      → Quiet d r
      → Earned c is_open h r
  Quiet-Earned d c is_open h r (kept, unscored, loses) = (
    λ scored. absurd (scored unscored),
    λ x e n. absurd (n (loses-cause d.trigger r.0.trigger r.1 loses x e)),
  )

  after_gate-Follows :
      (d : RegimeDetector F) (bar : SealedBar F) (h : List (SealedBar F)) (g : Option Text)
      (r : RegimeDetector F × Option (RegimeTransition F))
      → Looks d bar h
      → is_none g ≡ clean d.config d.market_is_open bar h
      → after_gate d bar g ≡ ok r
      → Follows d (bar ∷ h) r
  unfolding after_gate
  after_gate-Follows d bar h (some reason) r s shut e =
      let quiet = suppress-Quiet (record d { contiguous_ok = 0 }) bar reason e in
      (
        Kept-Tracks d r.0 0 bar h s (rw (← shut)) quiet.0,
        Quiet-Earned _ d.config d.market_is_open (bar ∷ h) r quiet,
        quiet.0.config,
        quiet.0.market,
      )
  after_gate-Follows d bar h none r s passes e =
      let counted = record d { contiguous_ok = suc d.contiguous_ok } in
      let run : suc d.contiguous_ok ≡ clean_run d.config d.market_is_open (bar ∷ h) =
        rw (← passes) (ap suc s.count) in
      elim (Bool-cases (leb counted.contiguous_ok counted.config.rearm_bars)) [
        | inl few ↦
            let quiet : Quiet counted r = suppress-Quiet counted bar _ (rw few at e) in
            (
              Kept-Tracks d r.0 _ bar h s run quiet.0,
              Quiet-Earned counted d.config d.market_is_open (bar ∷ h) r quiet,
              quiet.0.config,
              quiet.0.market,
            )
        | inr enough ↦
            let long : d.config.rearm_bars < clean_run d.config d.market_is_open (bar ∷ h) =
              subst (λ n. d.config.rearm_bars < n) run (leb→gt _ _ enough) in
            let kept : Kept counted r.0 = evaluate-Kept counted bar r (rw enough at e) in
            (
              Kept-Tracks d r.0 _ bar h s run kept,
              (λ _. long, λ x _ _. long),
              kept.config,
              kept.market,
            )
      ]

  update-Follows :
      (d : RegimeDetector F) (bar : SealedBar F) (h : List (SealedBar F))
      (r : RegimeDetector F × Option (RegimeTransition F))
      → Tracks d h
      → update d bar ≡ ok r
      → Follows d (bar ∷ h) r
  unfolding update see_session
  update-Follows d bar h r t e =
      let seen = see_session d bar.ts in
      let looks : Looks seen bar h = see-Looks d bar h t in
      after_gate-Follows seen bar h (gate seen bar) r looks (gate-clean seen bar h looks) e

  drive-Tracks :
      (d : RegimeDetector F) (h : List (SealedBar F))
      (r : RegimeDetector F × Option (RegimeTransition F))
      → Tracks d []
      → drive h d ≡ ok r
      → Tracks r.0 h × (r.0.config ≡ d.config) × (r.0.market_is_open ≡ d.market_is_open)
  unfolding drive
  drive-Tracks d [] r t e =
      Returns-ok
        (λ (r : RegimeDetector F × Option (RegimeTransition F)).
          Tracks r.0 [] × (r.0.config ≡ d.config) × (r.0.market_is_open ≡ d.market_is_open))
        (ok (d, none)) (t, refl, refl) e
  drive-Tracks d (bar ∷ h) r t e =
      let (s, before, e) = >>=-eq-ok (drive h d) _ e in
      let (tracks, config, market) = drive-Tracks d h s t before in
      let (tracks', _, config', market') = update-Follows s.0 bar h r tracks e in
      (tracks', config' ∙ config, market' ∙ market)

  -- From a detector that has seen no bar: a bar is scored, and can cause a transition other than
  -- one for want of observations, only if it and the bars before it form a run of more than
  -- `rearm_bars` clean bars: market open, session warmed up, no gap, backfill or stale feed.
  pub drive-Earned :
      (d : RegimeDetector F) (bar : SealedBar F) (h : List (SealedBar F))
      (r : RegimeDetector F × Option (RegimeTransition F))
      → d.was_open ≡ none
      → d.opened_at ≡ none
      → d.contiguous_ok ≡ 0
      → drive (bar ∷ h) d ≡ ok r
      → Earned d.config d.market_is_open (bar ∷ h) r
  unfolding drive
  drive-Earned d bar h r unseen unopened none_yet e =
      let start : Tracks d [] = record { was_open = unseen; opened = unopened; count = none_yet } in
      let (s, before, e) = >>=-eq-ok (drive h d) _ e in
      let (tracks, config, market) = drive-Tracks d h s start before in
      let earned = (update-Follows s.0 bar h r tracks e).1 in
      subst₂ (λ c m. Earned c m (bar ∷ h) r) config market earned
