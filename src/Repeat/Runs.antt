-- ===== src/Repeat/Runs.antt =====
-- The theorem on repeated units at a concrete array.
use egg.Base.{ℕ, ◌≡◌, some, List, [], ◌∷◌, take, ltb, arith, if◌then◌else◌}
use egg.Base.Int.{ℤ, pos, negsuc}
use egg.Repeat.{filter_repeat}
use egg.Repeat.Changes.{changes, filter_repeat_lem}

-- The sign of the difference of two numbers.
abbrev number_cmp : ℕ → ℕ → ℤ
number_cmp x y = if ltb x y then negsuc 0 else (if ltb y x then pos 1 else pos 0)

filter_repeat_lem_example :
    (r : List ℕ) × (n : ℕ) × (filter_repeat number_cmp 4 (4 ∷ 4 ∷ 6 ∷ 6 ∷ 6 ∷ 9 ∷ []) ≡ some (r, n))
    × (take n r ≡ 4 ∷ changes number_cmp 4 (4 ∷ 6 ∷ 6 ∷ 6 ∷ 9 ∷ []))
filter_repeat_lem_example =
    filter_repeat_lem number_cmp 4 4 (4 ∷ 6 ∷ 6 ∷ 6 ∷ 9 ∷ []) (omega arith) (omega arith)
