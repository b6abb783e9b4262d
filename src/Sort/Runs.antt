-- ===== src/Sort/Runs.antt =====
-- The theorem at a concrete array.
use egg.Base.{ℕ, ◌≡◌, List, [], ◌∷◌, some, ltb, arith}
use mathlib.Core.List.{Perm}
use egg.Compare.{three_way, three_way-IsOrder, ltb-StrictWeak}
use egg.Sort.{sedgesort}
use egg.Sort.Insertion.{IsSorted}
use egg.Sort.Quick.{sedgesort_sorts}

abbrev ten_numbers : List ℕ
ten_numbers = 5 ∷ 3 ∷ 9 ∷ 1 ∷ 3 ∷ 8 ∷ 0 ∷ 7 ∷ 7 ∷ 2 ∷ []

sedgesort_sorts_example :
    (b : List ℕ) × (sedgesort (three_way ltb) 4 ten_numbers ≡ some b)
    × IsSorted (three_way ltb) b
    × Perm b ten_numbers
sedgesort_sorts_example =
    sedgesort_sorts (three_way ltb) (three_way-IsOrder (λ x. x) ltb-StrictWeak) 4 ten_numbers
      (omega arith) (omega arith)
