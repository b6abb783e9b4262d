-- ===== src/Field/Runs.antt =====
-- The theorems on fields at concrete values.
use egg.Base.{ℕ, ◌≡◌, refl, some, List, [], ◌∷◌, ◌++◌, length, arith}
use egg.Base.Bytes.{zeros, zeros_size}
use egg.Field.{
  Field, get_serializationsize, set_value, append_value, serialization, unserialization,
}
use egg.Field.Values.{IsField, Shows, value_lem}
use egg.Field.Stored.{a_dict, IsStorable}
use egg.Field.RoundTrip.{Restored, unserialization-serialization}

abbrev title : Field
title = record {
  type = 8330;
  mask = 0;
  name = 116 ∷ [];
  size = 2;
  buf = 104 ∷ 105 ∷ 0 ∷ [];
  analyzer_name = 73 ∷ [];
  dict_name = some (100 ∷ []);
}

title-IsField : IsField title
title-IsField = record { inside = omega arith; small = omega arith }

title-IsStorable : IsStorable title (some (100 ∷ []))
title-IsStorable = record {
  field = title-IsField;
  type_bits = omega arith;
  name_chars = (ground arith, tt);
  analyzer_chars = (ground arith, tt);
  dict_given = a_dict (100 ∷ []) refl refl (ground arith, tt);
  short = omega arith;
  whole = omega arith;
}

value_lem_example :
    Shows (set_value zeros title (66 ∷ 67 ∷ 68 ∷ []) 3) (66 ∷ 67 ∷ 68 ∷ [])
    × Shows (append_value zeros title (66 ∷ 67 ∷ 68 ∷ []) 3) (104 ∷ 105 ∷ 66 ∷ 67 ∷ 68 ∷ [])
value_lem_example =
    value_lem zeros zeros_size title (66 ∷ 67 ∷ 68 ∷ []) 3 title-IsField refl (omega arith)
      (omega arith)

unserialization-serialization_example :
    (node : List ℕ) × (serialization title ≡ some node)
    × (get_serializationsize title ≡ some (length node))
    × (g : Field) × (unserialization zeros (node ++ (9 ∷ 9 ∷ [])) ≡ some g)
    × Restored title (some (100 ∷ [])) g
unserialization-serialization_example =
    unserialization-serialization zeros zeros_size title (some (100 ∷ [])) (9 ∷ 9 ∷ [])
      title-IsStorable
