-- ===== src/Alerts/Detector/Gates.antt =====
-- `update` on a sound detector: what every bar keeps, and what a gated bar can do.
use live_forex_volatility_tr.Base.{
  ℕ, suc, ◌≡◌, true, false, Option, none, some, List, [], ◌∷◌, inl, inr, leb, Option-cases,
  Bool-cases,
}
use live_forex_volatility_tr.Base.Clock.{Instant}
use live_forex_volatility_tr.Base.Float.{Float}
use live_forex_volatility_tr.Base.Text.{Text, codes}
use live_forex_volatility_tr.Base.Result.{Result, ok, ◌>>=◌, Returns, Returns-weaken}
use live_forex_volatility_tr.Alerts.Regime.{RegimeTransition}
use live_forex_volatility_tr.Alerts.Trigger.Blackout.{OnlyLoses}
use live_forex_volatility_tr.Alerts.Detector.{
  RegimeDetector, SealedBar, see_session, gate, suppress, evaluate, after_gate, update,
}
use live_forex_volatility_tr.Alerts.Detector.Learning.{
  IsSound, After, Suppressed, suppress-After, evaluate-After,
}

module _ {F : Type 0} ⦃f : Float F⦄ where
  update-cases :
      (d : RegimeDetector F) (bar : SealedBar F)
      (P : RegimeDetector F × Option (RegimeTransition F) → Type 0)
      → let seen = see_session d bar.ts in
        let counted = record seen { contiguous_ok = suc seen.contiguous_ok } in
        ((reason : Text)
          → gate seen bar ≡ some reason
          → Returns P (suppress (record seen { contiguous_ok = 0 }) bar reason))
        → (gate seen bar ≡ none
            → leb counted.contiguous_ok counted.config.rearm_bars ≡ true
            → Returns P (suppress counted bar (codes "re-arming after gate")))
        → (gate seen bar ≡ none
            → leb counted.contiguous_ok counted.config.rearm_bars ≡ false
            → Returns P (evaluate counted bar))
        → Returns P (update d bar)
  unfolding update after_gate
  update-cases d bar P gated arming clear =
      let seen = see_session d bar.ts in
      elim (Option-cases (gate seen bar)) [
        | inl passes ↦ elim (Bool-cases (leb (suc seen.contiguous_ok) seen.config.rearm_bars)) [
          | inl few ↦ rw (passes, few) (arming passes few)
          | inr enough ↦ rw (passes, enough) (clear passes enough)
        ]
        | inr (reason, shut) ↦ rw shut (gated reason shut)
      ]

  seen-IsSound :
      (d : RegimeDetector F) (ts : Instant) (n : ℕ)
      → IsSound d
      → IsSound (record (see_session d ts) { contiguous_ok = n })
  unfolding see_session
  seen-IsSound d ts n s = record { trigger = s.trigger; whole = s.whole; frozen = s.frozen }

  -- One bar, on a sound detector: nothing is raised, the invariant is kept, and under stress
  -- nothing is learned unless the detector has accepted the stress as the new normal; that
  -- acceptance ends only with a change of regime.
  pub update-After :
      (d : RegimeDetector F) (bar : SealedBar F) → IsSound d → Returns (After d) (update d bar)
  unfolding see_session
  update-After d bar s =
      update-cases d bar (After d)
        (λ reason _.
          Returns-weaken (Suppressed _) (After d) (suppress _ bar reason) (λ r h. narrow _ r h.0)
            (suppress-After _ bar reason (seen-IsSound d bar.ts 0 s)))
        (λ _ _.
          Returns-weaken (Suppressed _) (After d) (suppress _ bar _) (λ r h. narrow _ r h.0)
            (suppress-After _ bar _ (seen-IsSound d bar.ts _ s)))
        (λ _ _.
          Returns-weaken (After _) (After d) (evaluate _ bar) (λ r h. narrow _ r h)
            (evaluate-After _ bar (seen-IsSound d bar.ts _ s)))
    where
      narrow :
          (n : ℕ) (r : RegimeDetector F × Option (RegimeTransition F))
          → After (record (see_session d bar.ts) { contiguous_ok = n }) r
          → After d r
      narrow n r (s, k) =
          (s, record { profile = k.profile; baseline = k.baseline; thawed = k.thawed })

  -- What a gated bar leaves.
  abbrev pub Shut : RegimeDetector F → RegimeDetector F × Option (RegimeTransition F) → Type 0
  Shut d r =
      (r.0.baseline ≡ d.baseline)
      × (r.0.profile ≡ d.profile)
      × (r.0.contiguous_ok ≡ 0)
      × (r.0.last_zscore ≡ none)
      × OnlyLoses d.trigger (r.0.trigger, r.1)

  -- On a sound detector, a bar that the gate stops teaches neither the baseline nor the profile,
  -- sets the count of clean bars back to none, leaves no z-score, and at most gives an unobserved
  -- stress up.
  pub gated-Shut :
      (d : RegimeDetector F) (bar : SealedBar F) (reason : Text)
      → IsSound d
      → gate (see_session d bar.ts) bar ≡ some reason
      → Returns (Shut d) (update d bar)
  unfolding update after_gate see_session
  gated-Shut d bar reason s shut = rw shut (
      Returns-weaken _ (Shut d) (suppress _ bar reason) (λ r h. (h.1, h.2, h.3, h.4, h.5))
        (suppress-After _ bar reason (seen-IsSound d bar.ts 0 s)))

  -- The detector after a history of bars, newest first, with what the newest one returned.
  unfoldable pub drive :
      List (SealedBar F)
      → RegimeDetector F
      → Result (RegimeDetector F × Option (RegimeTransition F))
  drive [] d = ok (d, none)
  drive (bar ∷ h) d = do (d', x) ← drive h d; update d' bar
