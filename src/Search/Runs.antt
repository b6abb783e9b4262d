-- ===== src/Search/Runs.antt =====
-- The theorems at concrete arrays.
use egg.Base.{ℕ, not, ltb, arith}
use egg.Base.Int.{ℤ, pos}
use egg.Compare.{is_pos, three_way}
use egg.Search.{binary_lookup, binary_searchleft}
use egg.Search.Lookup.{Falls, Answers, binary_lookup_lem}
use egg.Search.Bound.{IsBound, binary_searchleft_lem}

-- The cell of index `i` holds `i`; the value looked up is 2.
abbrev against : ℕ → ℤ
against i = three_way ltb 2 i

against-Falls : Falls against
against-Falls = record { before = λ i j le h. ground arith; after = λ i j le h. ground arith }

binary_lookup_lem_example : Answers against 4 (binary_lookup against (pos 3) (pos 9))
binary_lookup_lem_example = binary_lookup_lem against 3 (pos 9) against-Falls (omega arith)

binary_searchleft_lem_example :
    IsBound (λ i. not (is_pos (against i))) 4 (binary_searchleft against 4 8)
binary_searchleft_lem_example =
    binary_searchleft_lem against 4 8 (λ i j le room h. ground arith) (omega arith) (omega arith)
