-- ===== src/Document/Runs.antt =====
-- The theorems on documents at a concrete document of two fields, of which one is stored.
use egg.Base.{ℕ, ◌≡◌, refl, true, false, none, some, List, [], ◌∷◌, ◌++◌, arith, take}
use egg.Base.Bytes.{zeros, zeros_size}
use egg.Field.{Field}
use egg.Field.Values.{IsField}
use egg.Field.Stored.{no_dict, IsStorable}
use egg.FieldKey.{bytes_eq}
use egg.Document.{Document, get_field, set_doc, remove_field_byname, serialization, unserialization}
use egg.Document.Lookup.{FirstNamed, named_lem}
use egg.Document.RoundTrip.{AllRestored, in_front, unserialization-serialization_doc}

abbrev body_field : Field
body_field = record {
  type = 138;
  mask = 0;
  name = 98 ∷ [];
  size = 1;
  buf = 104 ∷ 0 ∷ [];
  analyzer_name = [];
  dict_name = none;
}

abbrev note_field : Field
note_field = record {
  type = 266;
  mask = 0;
  name = 110 ∷ [];
  size = 0;
  buf = [];
  analyzer_name = [];
  dict_name = none;
}

abbrev two_fields : Document
two_fields = record { fields = note_field ∷ body_field ∷ []; count = 2; weight = 5 }

body_field-IsField : IsField body_field
body_field-IsField = record { inside = omega arith; small = omega arith }

body_field-IsStorable : IsStorable body_field none
body_field-IsStorable = record {
  field = body_field-IsField;
  type_bits = omega arith;
  name_chars = (ground arith, tt);
  analyzer_chars = tt;
  dict_given = no_dict refl;
  short = omega arith;
  whole = omega arith;
}

body-FirstNamed : FirstNamed (98 ∷ []) two_fields (note_field ∷ []) body_field []
unfolding bytes_eq
body-FirstNamed = record { document = refl; parts = refl; others = (refl, tt); is_named = refl }

named_lem_example :
    (get_field two_fields (some (98 ∷ [])) ≡ some (body_field ∷ []))
    × ((buf : List ℕ) × (set_doc zeros two_fields (some (98 ∷ [])) (66 ∷ 67 ∷ []) 2
          ≡ some (
            true,
            record {
              fields = note_field ∷ record body_field { buf = buf; size = 2 } ∷ [];
              count = 2;
              weight = 5;
            },
          ))
        × (take 2 buf ≡ 66 ∷ 67 ∷ []))
    × (remove_field_byname two_fields (some (98 ∷ []))
        ≡ some (some body_field, record { fields = note_field ∷ []; count = 1; weight = 5 }))
named_lem_example =
    named_lem zeros zeros_size two_fields (98 ∷ []) (note_field ∷ []) body_field [] (66 ∷ 67 ∷ []) 2
      body-FirstNamed body_field-IsField (omega arith) (omega arith)

unserialization-serialization_doc_example :
    (node : List ℕ) × (gs : List Field) × (serialization zeros false two_fields ≡ some node)
    × (unserialization zeros (node ++ [])
        ≡ some (record { fields = in_front gs []; count = 1; weight = 5 }))
    × AllRestored (body_field ∷ []) gs
unserialization-serialization_doc_example =
    unserialization-serialization_doc zeros zeros_size false two_fields [] refl
      (body_field-IsStorable, tt) (omega arith) (omega arith)
