-- ===== src/Vector/Runs.antt =====
-- The theorems at concrete arrays.
use egg.Base.{ℕ, ◌≡◌, refl, true, [], ◌∷◌, some, take, arith}
use egg.Base.Bytes.{zeros, zeros_size}
use egg.Vector.{Vector, vector_push, MemChunk}
use egg.Vector.Grow.{IsChunk}
use egg.Vector.Push.{IsVector, vector_push_lem}

abbrev two_units : Vector ℕ
two_units = record { a_count = 2; e_count = 2; cells = 7 ∷ 8 ∷ [] }

two_units-IsVector : IsVector two_units
two_units-IsVector = record { block = refl; used = omega arith }

vector_push_lem_example :
    (v : Vector ℕ) × (vector_push zeros 4 two_units (9 ∷ 10 ∷ []) ≡ some (true, v))
    × IsVector v
    × (take v.e_count v.cells ≡ 7 ∷ 8 ∷ 9 ∷ 10 ∷ [])
vector_push_lem_example =
    vector_push_lem zeros zeros_size 4 two_units 9 (10 ∷ []) two_units-IsVector (omega arith)
      (omega arith)

abbrev few_bytes : MemChunk
few_bytes = record { a_sz = 3; e_sz = 2; bytes = 1 ∷ 2 ∷ 0 ∷ [] }

few_bytes-IsChunk : IsChunk few_bytes
few_bytes-IsChunk = record { block = refl; used = omega arith; small = omega arith }
