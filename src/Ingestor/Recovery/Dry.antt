-- ===== src/Ingestor/Recovery/Dry.antt =====
-- The runs of recovery.py that write nothing.
use live_forex_volatility_tr.Base.{
  ◌≡◌, ◌⊎◌, inl, inr, refl, Bool, true, false, ◌&&◌, not, Option, none, some, List, Bool-cases,
  Option-cases, is_some, subst, sym,
}
use live_forex_volatility_tr.Base.Float.{Float}
use live_forex_volatility_tr.Base.Text.{Text}
use live_forex_volatility_tr.Ingestor.Recovery.{Window}
use live_forex_volatility_tr.Ingestor.Recovery.Report.{World}
use live_forex_volatility_tr.Ingestor.Recovery.Run.{RecoveryConfig, BackOff}
use live_forex_volatility_tr.Ingestor.Recovery.Steps.{Surroundings}
use live_forex_volatility_tr.Ingestor.Recovery.Once.{
  Outcome, decided, locked, in_window, skip, is_blocked, run_once,
}

-- The outcome leaves the world and the attributes as they were.
pub record Leaves {F : Type 0} (b : BackOff) (w : World F) (o : Outcome F) : Type 0 where
  pub same_world : o.world ≡ w
  pub same_back_off : o.back_off ≡ b

module _ {F : Type 0} ⦃f : Float F⦄ (cfg : RecoveryConfig) (env : Surroundings F)
    (symbols : List Text) (b : BackOff) (w : World F) where
  locked-Leaves : (window : Window) → Leaves b w (locked cfg env symbols false window b w)
  unfolding locked decided
  locked-Leaves window = record { same_world = refl; same_back_off = refl }

  in_window-Leaves :
      (apply : Bool) (window : Option Window)
      → (apply ≡ false) ⊎ (env.lock_free ≡ false)
      → Leaves b w (in_window cfg env symbols apply window b w)
  unfolding in_window skip
  in_window-Leaves apply none h = record { same_world = refl; same_back_off = refl }
  in_window-Leaves apply (some window) h = elim (Bool-cases (apply && not env.schema_ready)) [
    | inl e ↦ rw e (record { same_world = refl; same_back_off = refl })
    | inr e ↦ elim (Bool-cases env.lock_free) [
      | inr c ↦ rw (e, c) (record { same_world = refl; same_back_off = refl })
      | inl c ↦ elim h [
        | inl dry ↦
            rw (e, c)
              (subst (λ a. Leaves b w (locked cfg env symbols a window b w)) (sym dry)
                (locked-Leaves window))
        | inr held ↦ cc
      ]
    ]
  ]

  -- A run without `apply`, one while another holds the advisory lock, and one before the provider's
  -- back-off has passed, write nothing to PostgreSQL or Redis, refresh no roll-up, ask the provider
  -- nothing and set no back-off.
  pub run_once-Leaves :
      (apply : Bool) (window : Option Window)
      → (apply ≡ false) ⊎ ((env.lock_free ≡ false) ⊎ (is_some (is_blocked env.now b) ≡ true))
      → Leaves b w (run_once cfg env symbols apply window b w)
  unfolding run_once skip
  run_once-Leaves apply window h = elim (Option-cases (is_blocked env.now b)) [
    | inr (until, e) ↦ rw (run_once, e) (record { same_world = refl; same_back_off = refl })
    | inl e ↦ elim h [
      | inl dry ↦ rw (run_once, e) (in_window-Leaves apply _ (inl dry))
      | inr other ↦ elim other [
        | inl held ↦ rw (run_once, e) (in_window-Leaves apply _ (inr held))
        | inr blocked ↦ let none_blocks : is_some (is_blocked env.now b) ≡ false = rw e refl in cc
      ]
    ]
  ]
