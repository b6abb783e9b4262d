-- ===== src/Field/Stored.antt =====
-- The block that `eggField_serialization` fills.
use egg.Base.{
  ℕ, ◌+◌, ◌^◌, ◌<◌, ◌≡◌, ◌≢◌, refl, ap, ◌∙◌, true, false, Option, some, none, List, [], ◌∷◌, ◌++◌,
  ◌>>=◌, length, length-append, length-take, if◌then◌else◌, arith, All,
}
use egg.Base.Bytes.{le_bytes, read_bytes, zeros, length-le_bytes}
use egg.Field.{
  Field, get_value, has, other_dict, dict_bytes, get_serializationsize, put_last, put_bytes,
  node_header, serialization,
}
use egg.Field.Values.{IsField, read_bytes-inside}
use egg.Field.Node.{node_of, header_size, node_header-node}
use egg.Field.Writes.{put_all}

-- The dictionary's name that is stored with a field.
pub data HasDict (f : Field) : Option (List ℕ) → Type 0 where
  no_dict : has f.type other_dict ≡ false → HasDict f none
  a_dict :
      (dict : List ℕ)
      → has f.type other_dict ≡ true
      → f.dict_name ≡ some dict
      → All (λ c. c ≢ 0) dict
      → HasDict f (some dict)

abbrev pub tail_of : Option (List ℕ) → List ℕ
tail_of none = []
tail_of (some dict) = dict ++ (0 ∷ [])

dict_bytes-tail :
    (f : Field) {dict : Option (List ℕ)} → HasDict f dict → dict_bytes f ≡ some (tail_of dict)
dict_bytes-tail f (no_dict e) = rw e refl
dict_bytes-tail f (a_dict dict e given chars) = rw (e, given) refl

-- What the node of a field takes, and the strings of it.
abbrev pub strings_of : Field → Option (List ℕ) → List ℕ
strings_of f dict = ((f.name ++ (0 ∷ [])) ++ (f.analyzer_name ++ (0 ∷ []))) ++ tail_of dict

-- A field that can be stored: no 0 within its strings, and sizes within the words of the header.
pub record IsStorable (f : Field) (dict : Option (List ℕ)) : Type 0 where
  pub field : IsField f
  pub type_bits : f.type < 2 ^ 16
  pub name_chars : All (λ c. c ≢ 0) f.name
  pub analyzer_chars : All (λ c. c ≢ 0) f.analyzer_name
  pub dict_given : HasDict f dict
  pub short : 8 + length (strings_of f dict) < 2 ^ 16
  pub whole : 8 + length (strings_of f dict) + f.size < 2 ^ 32

abbrev pub node_size : Field → Option (List ℕ) → ℕ
node_size f dict = 8 + length (strings_of f dict) + f.size

-- The node in memory.
abbrev pub stored : Field → Option (List ℕ) → List ℕ
stored f dict =
    node_of (node_size f dict) f.type (8 + length (strings_of f dict))
      (strings_of f dict ++ get_value f)

pub strings_size :
    (f : Field) (dict : Option (List ℕ))
    → length (strings_of f dict)
      ≡ length f.name + 1 + (length f.analyzer_name + 1) + length (tail_of dict)
strings_size f dict = omega (
  arith,
  length-append ((f.name ++ (0 ∷ [])) ++ (f.analyzer_name ++ (0 ∷ []))) (tail_of dict),
  length-append (f.name ++ (0 ∷ [])) (f.analyzer_name ++ (0 ∷ [])),
  length-append f.name (0 ∷ []),
  length-append f.analyzer_name (0 ∷ []),
)

pub get_serializationsize_lem :
    (f : Field) (dict : Option (List ℕ))
    → IsStorable f dict
    → get_serializationsize f ≡ some (node_size f dict)
unfolding get_serializationsize
get_serializationsize_lem f dict h =
    rw (dict_bytes-tail f h.dict_given) (ap some (omega (arith, strings_size f dict, h.whole)))

pub value_size : (f : Field) → IsField f → length (get_value f) ≡ f.size
value_size f h = omega (arith, length-take f.size f.buf, h.inside)

pub length-stored :
    (f : Field) (dict : Option (List ℕ)) → IsField f → length (stored f dict) ≡ node_size f dict
length-stored f dict h =
    let off = 8 + length (strings_of f dict) in
    let words = le_bytes 4 (node_size f dict) ++ le_bytes 2 f.type in
    omega (
      arith,
      length-append words (le_bytes 2 off ++ (strings_of f dict ++ get_value f)),
      header_size (node_size f dict) f.type,
      length-append (le_bytes 2 off) (strings_of f dict ++ get_value f),
      length-le_bytes 2 off,
      length-append (strings_of f dict) (get_value f),
      value_size f h,
    )

has-tail :
    (f : Field) {dict : Option (List ℕ)}
    → HasDict f dict
    → has f.type other_dict ≡ false
    → tail_of dict ≡ []
has-tail f (no_dict e) e' = refl
has-tail f (a_dict dict e given chars) e' = absurd (ground arith)

serialization-writes :
    (f : Field) (size : ℕ) (node tail value : List ℕ)
    → get_serializationsize f ≡ some size
    → node_header size f.type ≡ some node
    → dict_bytes f ≡ some tail
    → read_bytes f.size f.buf ≡ some value
    → serialization f ≡ (do
      node' ← some node
      named ← put_bytes node' (f.name ++ (0 ∷ []))
      analyzed ← put_bytes named (f.analyzer_name ++ (0 ∷ []))
      ready ← (if has f.type other_dict then put_bytes analyzed tail else some analyzed)
      put_last ready value)
unfolding serialization
serialization-writes f size node tail value sized made dict read = rw (sized, made, dict, read) refl

-- `eggField_serialization` stays inside its block and fills it.
pub serialization_lem :
    (f : Field) (dict : Option (List ℕ))
    → IsStorable f dict
    → serialization f ≡ some (stored f dict)
serialization_lem f dict h =
    let name = f.name ++ (0 ∷ []) in
    let analyzer = f.analyzer_name ++ (0 ∷ []) in
    let tail = tail_of dict in
    let all = length name + length analyzer + length tail in
    let value = get_value f in
    let parts : length (strings_of f dict) ≡ all =
      omega (arith, length-append (name ++ analyzer) tail, length-append name analyzer) in
    let room : node_size f dict ≡ 8 + (all + length value) =
      omega (arith, parts, value_size f h.field) in
    let short : 8 + length name + length analyzer + length tail < 2 ^ 16 =
      omega (arith, parts, h.short) in
    serialization-writes f (node_size f dict)
      (node_of (node_size f dict) f.type 8 (zeros (all + length value))) tail value
      (get_serializationsize_lem f dict h)
      (node_header-node (node_size f dict) f.type (all + length value) room)
      (dict_bytes-tail f h.dict_given) (read_bytes-inside f.size f.buf h.field.inside)
    ∙ put_all (node_size f dict) f.type name analyzer tail value short (has f.type other_dict)
        (has-tail f h.dict_given)
    ∙ ap (λ o. some (node_of (node_size f dict) f.type o (strings_of f dict ++ value)))
        {x = 8 + length name + length analyzer + length tail} {y = 8 + length (strings_of f dict)}
        (omega (arith, parts))
