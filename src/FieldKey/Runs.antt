-- ===== src/FieldKey/Runs.antt =====
-- The theorems at concrete lists.
use egg.Base.{ℕ, ◌+◌, ◌≡◌, ◌↔◌, refl, true, false, List, [], ◌∷◌, some, length, arith}
use mathlib.Core.List.{Mem}
use egg.Base.Bytes.{zeros, zeros_size}
use egg.FieldKey.{FieldKey, serialise, unserialise, equal}
use egg.FieldKey.Stream.{IsNode, size_of, unserialise-serialise}
use egg.FieldKey.Matching.{equal_lem}

-- The field "id" with a key of three bytes, and "t" with one of a byte.
abbrev id_key : FieldKey
id_key = record { field_name = 105 ∷ 100 ∷ []; key_sz = 3; key = 7 ∷ 0 ∷ 255 ∷ [] }

abbrev t_key : FieldKey
t_key = record { field_name = 116 ∷ []; key_sz = 1; key = 9 ∷ [] }

abbrev two_keys : List FieldKey
two_keys = id_key ∷ t_key ∷ []

abbrev swapped_keys : List FieldKey
swapped_keys = t_key ∷ id_key ∷ []

id_key-IsNode : IsNode id_key
id_key-IsNode = record {
  chars = ((λ e. omega (arith, e)), ((λ e. omega (arith, e)), tt));
  block = refl;
  small = omega arith;
}

t_key-IsNode : IsNode t_key
t_key-IsNode = record { chars = ((λ e. omega (arith, e)), tt); block = refl; small = omega arith }

-- `eggFieldKey_equal` is not symmetric on lists that repeat a node.
equal_repeats :
    (equal (id_key ∷ id_key ∷ []) two_keys ≡ true) × (equal two_keys (id_key ∷ id_key ∷ []) ≡ false)
unfolding equal
equal_repeats = (refl, refl)

unserialise-serialise_example :
    (buf : List ℕ) × (serialise zeros two_keys ≡ some (buf, size_of two_keys + 8))
    × (length buf ≡ size_of two_keys + 8)
    × (unserialise buf ≡ some two_keys)
unserialise-serialise_example =
    unserialise-serialise zeros zeros_size two_keys (id_key-IsNode, (t_key-IsNode, tt))
      (omega arith)

equal_lem_example : (equal two_keys swapped_keys ≡ true) ↔ (
    (length two_keys ≡ length swapped_keys)
    × ((p : FieldKey) → Mem p two_keys → Mem p swapped_keys))
equal_lem_example =
    equal_lem two_keys swapped_keys (id_key-IsNode, (t_key-IsNode, tt))
      (t_key-IsNode, (id_key-IsNode, tt))
