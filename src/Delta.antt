-- ===== src/Delta.antt =====
-- egg3/src/uti/Utility.c: arrays of ascending or descending numbers as the differences of neighbours
-- (`Uti_change_relavalue_32`, `_64`) and back (`Uti_change_absovalue_32`, `_64`).
pub mod RoundTrip
mod Runs
use egg.Base.{ℕ, ◌+◌, ◌-◌, ◌*◌, ◌%◌, ◌^◌, List, [], ◌∷◌, ltb, if◌then◌else◌}

-- `iter` is the number before, as it was before the loop wrote over it.
pub change_relavalue_32 : ℕ → List ℕ → List ℕ
change_relavalue_32 iter [] = []
change_relavalue_32 iter (x ∷ xs) =
    (if ltb x iter then iter - x else x - iter) ∷ change_relavalue_32 x xs

pub change_relavalue_64 : ℕ → List ℕ → List ℕ
change_relavalue_64 iter [] = []
change_relavalue_64 iter (x ∷ xs) =
    (if ltb x iter then iter - x else x - iter) ∷ change_relavalue_64 x xs

-- `flag` is an `int`, 1 or -1, that is converted to the unsigned type of the numbers: 1 or the
-- greatest number of the type. `iter` is the number before, as the loop has written it.
pub change_absovalue_32 : ℕ → List ℕ → ℕ → List ℕ
change_absovalue_32 iter [] flag = []
change_absovalue_32 iter (x ∷ xs) flag =
    let x' = (iter + x * flag) % 2 ^ 32 in x' ∷ change_absovalue_32 x' xs flag

pub change_absovalue_64 : ℕ → List ℕ → ℕ → List ℕ
change_absovalue_64 iter [] flag = []
change_absovalue_64 iter (x ∷ xs) flag =
    let x' = (iter + x * flag) % 2 ^ 64 in x' ∷ change_absovalue_64 x' xs flag
