-- ===== src/Volatility/Tests.antt =====
-- Runs of the rolling window at concrete bars.
use live_forex_volatility_tr.Base.{ℕ, ◌*◌, ◌≡◌, refl, some, [], ◌∷◌, arith}
use live_forex_volatility_tr.Base.Text.{codes}
use live_forex_volatility_tr.Base.Result.{Returns}
use live_forex_volatility_tr.Volatility.Bars.{Bar, stream}
use live_forex_volatility_tr.Volatility.Window.{
  RollingWindow, push, keep_young, push-keeps, collapse, Spans, collapse-Spans,
}
use live_forex_volatility_tr.Fixtures.{hundredths}

abbrev minute_bar : ℕ → ℕ → Bar ℕ
minute_bar minute ticks = record {
  symbol = codes "EURUSD";
  bucket = minute * 60_000_000;
  open_price = 110;
  high = 112;
  low = 109;
  close = 111;
  tick_count = ticks;
  sum_ret = 1;
  sum_ret_sq = 1;
  source = stream;
}

abbrev window : RollingWindow ℕ
window = record { window_seconds = 120; bars = minute_bar 1 3 ∷ minute_bar 2 4 ∷ [] }

push-keeps_example :
    (push window (minute_bar 4 5)).bars
    ≡ keep_young 240_000_000 120 (minute_bar 1 3 ∷ minute_bar 2 4 ∷ minute_bar 4 5 ∷ [])
push-keeps_example =
    push-keeps window (minute_bar 4 5) 0 120_000_000 (omega arith, (omega arith, omega arith))
      (omega arith)

collapse-Spans_example :
    Returns
      (λ o. (out : Bar ℕ) × (o ≡ some out) × Spans (minute_bar 1 3) (minute_bar 2 4 ∷ []) out)
      (collapse window)
collapse-Spans_example =
    collapse-Spans 120 (minute_bar 1 3) (minute_bar 2 4 ∷ []) 0 120_000_000 (refl, tt)
      (omega arith, (omega arith, omega arith))
