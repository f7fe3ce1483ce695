-- ===== src/Ingestor/Provider/Tests.antt =====
-- A change of the provider of one pair, and back.
use live_forex_volatility_tr.Base.{◌≡◌, refl, some, List, [], ◌∷◌, All}
use live_forex_volatility_tr.Base.Text.{Text, codes}
use live_forex_volatility_tr.Base.Result.{Returns, ◌>>=◌}
use live_forex_volatility_tr.Base.Dict.{Distinct, text_key}
use live_forex_volatility_tr.Ingestor.Provider.{Stored, Move, moves_of, cache_keys, adopt_script}
use live_forex_volatility_tr.Ingestor.Provider.Moves.{Separate}
use live_forex_volatility_tr.Ingestor.Provider.Back.{back_all, Unmoved, there_and_back_again}

abbrev provider_a : Text
provider_a = codes "a"

abbrev provider_b : Text
provider_b = codes "b"

-- The series of z-scores and the regime of one pair, with a series of the other provider parked.
abbrev stored : Stored Text
stored = record {
  marker = some provider_a;
  values =
      (codes "zhist:EURUSD", codes "scores of a")
      ∷ (codes "archive:b:zhist:EURUSD", codes "scores of b")
      ∷ (codes "regime:EURUSD", codes "regime of a")
      ∷ [];
}

abbrev moves : List Move
moves = moves_of provider_a provider_b (codes "zhist:EURUSD" ∷ codes "regime:EURUSD" ∷ [])

abbrev caches : List Text
caches = cache_keys (codes "EURUSD" ∷ [])

stored-Distinct : Distinct stored.values
stored-Distinct = (refl, (refl, (refl, tt)))

moves-Separate : Separate moves
moves-Separate = (
  record { parked_live = refl; restored_live = refl; restored_parked = refl },
  (
    (
      (refl, refl, refl),
      (refl, refl, refl),
      (refl, refl, refl),
      (refl, refl, refl),
      (refl, refl, refl),
      (refl, refl, refl),
    ),
    tt,
  ),
  (record { parked_live = refl; restored_live = refl; restored_parked = refl }, tt, tt),
)

there_and_back_again_example :
    Returns
      (λ done.
        (done.1.marker ≡ some provider_a) × All (λ m. Unmoved m stored.values done.1.values) moves)
      (adopt_script provider_a provider_b moves caches stored
        >>= (λ first. adopt_script provider_b provider_a (back_all moves) caches first.1))
there_and_back_again_example =
    there_and_back_again provider_a provider_b moves caches stored refl stored-Distinct
      moves-Separate
      (
        ((refl, (refl, tt)), (refl, (refl, tt)), (refl, (refl, tt))),
        (((refl, (refl, tt)), (refl, (refl, tt)), (refl, (refl, tt))), tt),
      )
      (refl, (refl, tt))
