-- ===== src/Delta/Runs.antt =====
-- The theorems at concrete inputs.
use egg.Base.{ℕ, ◌≡◌, List, [], ◌∷◌, arith}
use egg.Delta.{change_relavalue_32, change_relavalue_64, change_absovalue_32, change_absovalue_64}
use egg.Delta.RoundTrip.{change_absovalue-ascending}

abbrev rising : List ℕ
rising = 3 ∷ 3 ∷ 10 ∷ []

change_absovalue-ascending_example :
    (change_absovalue_32 1 (change_relavalue_32 1 rising) 1 ≡ rising)
    × (change_absovalue_64 1 (change_relavalue_64 1 rising) 1 ≡ rising)
change_absovalue-ascending_example =
    change_absovalue-ascending 1 rising rising (omega arith) (omega arith) (omega arith)
      (omega arith)
