-- ===== src/Api/Conflator/Tests.antt =====
-- Runs of a client's queue.
use live_forex_volatility_tr.Base.{ℕ, List, [], ◌∷◌}
use live_forex_volatility_tr.Base.Text.{codes}
use live_forex_volatility_tr.Api.Conflator.{connected}
use live_forex_volatility_tr.Api.Conflator.Queue.{
  Event, offered, drained, history, Reflects, history-Reflects,
}

-- Newest first: a price that supersedes another, after a drain.
abbrev busy : List (Event ℕ)
busy =
    offered 30 (codes "tick:EURUSD") 3
    ∷ offered 20 (codes "tick:EURUSD") 2
    ∷ drained
    ∷ offered 10 (codes "tick:EURUSD") 1
    ∷ []

history-Reflects_example : Reflects (codes "a") busy (history busy (connected (codes "a")))
history-Reflects_example = history-Reflects (codes "a") busy
