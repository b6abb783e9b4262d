-- ===== src/Field/RoundTrip.antt =====
-- What `eggField_serialization` stores, `eggField_unserialization` reads back.
use egg.Base.{
  ℕ, ◌+◌, ◌-◌, ◌%◌, ◌^◌, ◌≤◌, ◌<◌, ◌≡◌, refl, ap, sym, ◌∙◌, Option, some, none, List, [], ◌∷◌, ◌++◌,
  ◌>>=◌, length, take, drop, drop-drop, length-append, append_assoc, if◌then◌else◌, arith,
}
use egg.Base.Bytes.{
  le_value, le_bytes, read_bytes, read_u32, c_string, drop_past, length-le_bytes,
  le_value-le_bytes_2, read_bytes-append, read_u32-append, c_string-append,
}
use egg.Vector.{copy_at}
use egg.Vector.Grow.{copy_at_lem}
use egg.Field.{
  Field, get_value, has, other_dict, past_dict, get_serializationsize, serialization,
  unserialization,
}
use egg.Field.Values.{IsField}
use egg.Field.Node.{node_of}
use egg.Field.Stored.{
  node_size, HasDict, no_dict, a_dict, IsStorable, stored, strings_of, tail_of, value_size,
  strings_size, length-stored, get_serializationsize_lem, serialization_lem,
}

unserialization-reads :
    (alloc : ℕ → List ℕ) (node word name analyzer value buf : List ℕ) (dict : Option (List ℕ))
    (size left : ℕ)
    → let named = 8 + (length name + 1) in
      let analyzed = named + (length analyzer + 1) in
      read_u32 node ≡ some size
      → read_bytes 2 (drop 4 node) ≡ some word
      → c_string (drop 8 node) ≡ some name
      → c_string (drop named node) ≡ some analyzer
      → (if has (le_value word) other_dict
          then (do d ← c_string (drop analyzed node); some (some d))
          else some none)
        ≡ some dict
      → (size + 2 ^ 64 - past_dict analyzed dict) % 2 ^ 32 ≡ left
      → read_bytes left (drop (past_dict analyzed dict) node) ≡ some value
      → copy_at (alloc size) 0 value ≡ some buf
      → unserialization alloc node
        ≡ some (record {
          type = le_value word;
          mask = 0;
          name = name;
          size = left;
          buf = buf;
          analyzer_name = analyzer;
          dict_name = dict;
        })
unfolding unserialization
unserialization-reads alloc node word name analyzer value buf dict size left sized typed named
      analyzed given rest read copied =
    rw (sized, typed, named, analyzed, given, rest, read, copied) refl

-- The parts of a node, each in front of the rest.
node_shape :
    (size type off : ℕ) (body behind : List ℕ)
    → node_of size type off body ++ behind
      ≡ le_bytes 4 size ++ (le_bytes 2 type ++ (le_bytes 2 off ++ (body ++ behind)))
node_shape size type off body behind =
    let words = le_bytes 4 size ++ le_bytes 2 type in
    append_assoc words (le_bytes 2 off ++ body) behind
    ∙ ap (λ l. words ++ l) (append_assoc (le_bytes 2 off) body behind)
    ∙ append_assoc (le_bytes 4 size) (le_bytes 2 type) (le_bytes 2 off ++ (body ++ behind))

-- The first word of a node is its size.
pub read_u32-node :
    (size type off : ℕ) (body behind : List ℕ)
    → size < 2 ^ 32
    → read_u32 (node_of size type off body ++ behind) ≡ some size
read_u32-node size type off body behind small =
    ap read_u32 (node_shape size type off body behind)
    ∙ read_u32-append size (le_bytes 2 type ++ (le_bytes 2 off ++ (body ++ behind))) small

drop_words :
    (size type off : ℕ) (rest : List ℕ)
    → (drop 4 (le_bytes 4 size ++ (le_bytes 2 type ++ (le_bytes 2 off ++ rest)))
        ≡ le_bytes 2 type ++ (le_bytes 2 off ++ rest))
      × (drop 8 (le_bytes 4 size ++ (le_bytes 2 type ++ (le_bytes 2 off ++ rest))) ≡ rest)
unfolding le_bytes
drop_words size type off rest = (refl, refl)

string_shape : (chars rest : List ℕ) → (chars ++ (0 ∷ [])) ++ rest ≡ chars ++ (0 ∷ rest)
string_shape chars rest = append_assoc chars (0 ∷ []) rest

body_shape :
    (name analyzer tail value behind : List ℕ)
    → ((((name ++ (0 ∷ [])) ++ (analyzer ++ (0 ∷ []))) ++ tail) ++ value) ++ behind
      ≡ name ++ (0 ∷ (analyzer ++ (0 ∷ (tail ++ (value ++ behind)))))
body_shape name analyzer tail value behind =
    let last = value ++ behind in
    append_assoc (((name ++ (0 ∷ [])) ++ (analyzer ++ (0 ∷ []))) ++ tail) value behind
    ∙ append_assoc ((name ++ (0 ∷ [])) ++ (analyzer ++ (0 ∷ []))) tail last
    ∙ append_assoc (name ++ (0 ∷ [])) (analyzer ++ (0 ∷ [])) (tail ++ last)
    ∙ string_shape name ((analyzer ++ (0 ∷ [])) ++ (tail ++ last))
    ∙ ap (λ l. name ++ (0 ∷ l)) (string_shape analyzer (tail ++ last))

-- The end of a string is the start of what follows.
drop_on :
    (off : ℕ) (node chars rest : List ℕ)
    → drop off node ≡ chars ++ (0 ∷ rest)
    → drop (off + (length chars + 1)) node ≡ rest
drop_on off node chars rest e =
    sym (drop-drop off (length chars + 1) node)
    ∙ ap (drop (length chars + 1)) e
    ∙ drop_past chars 0 rest

read_dict :
    (f : Field) (word node rest : List ℕ) (off : ℕ) {dict : Option (List ℕ)}
    → HasDict f dict
    → le_value word ≡ f.type
    → drop off node ≡ tail_of dict ++ rest
    → ((if has (le_value word) other_dict
          then (do d ← c_string (drop off node); some (some d))
          else some none)
        ≡ some dict)
      × (drop (past_dict off dict) node ≡ rest)
read_dict f word node rest off (no_dict e) same at = (rw (same, e) refl, at)
read_dict f word node rest off (a_dict dict e given chars) same at =
    let at' = at ∙ string_shape dict rest in
    (rw (same, e, at', c_string-append dict rest chars) refl, drop_on off node dict rest at')

-- A field that has what was stored of another: all but the mask.
pub record Restored (f : Field) (dict : Option (List ℕ)) (g : Field) : Type 0 where
  pub type : g.type ≡ f.type
  pub name : g.name ≡ f.name
  pub analyzer_name : g.analyzer_name ≡ f.analyzer_name
  pub dict_name : g.dict_name ≡ dict
  pub value : get_value g ≡ get_value f
  pub mask : g.mask ≡ 0
  pub field : IsField g

past_dict_lem :
    (off : ℕ) (dict : Option (List ℕ)) → past_dict off dict ≡ off + length (tail_of dict)
past_dict_lem off none = omega arith
past_dict_lem off (some dict) = omega (arith, length-append dict (0 ∷ []))

value_left :
    (f : Field) (dict : Option (List ℕ))
    → IsStorable f dict
    → (node_size f dict
          + 2 ^ 64
          - past_dict (8 + (length f.name + 1) + (length f.analyzer_name + 1)) dict)
        % 2 ^ 32
      ≡ f.size
value_left f dict h = omega (
  arith,
  past_dict_lem (8 + (length f.name + 1) + (length f.analyzer_name + 1)) dict,
  strings_size f dict,
  h.whole,
)

module _ (alloc : ℕ → List ℕ) (alloc_size : (n : ℕ) → length (alloc n) ≡ n) where
  fresh_copy :
      (size : ℕ) (value : List ℕ)
      → length value ≤ size
      → (buf : List ℕ) × (copy_at (alloc size) 0 value ≡ some buf)
        × (take (length value) buf ≡ value)
        × (length buf ≡ size)
  fresh_copy size value room =
      let (buf, copied, long, front) =
        copy_at_lem (alloc size) 0 value (omega (arith, alloc_size size)) in
      (
        buf,
        copied,
        ap (λ n. take n buf) {x = length value} {y = 0 + length value} (omega arith) ∙ front,
        long ∙ alloc_size size,
      )

  pub read_stored :
      (f : Field) (dict : Option (List ℕ)) (behind : List ℕ)
      → IsStorable f dict
      → (g : Field) × (unserialization alloc (stored f dict ++ behind) ≡ some g) × Restored f dict g
  read_stored f dict behind h =
      let size = node_size f dict in
      let off = 8 + length (strings_of f dict) in
      let value = get_value f in
      let rest = value ++ behind in
      let node =
        le_bytes 4 size
        ++ (le_bytes 2 f.type ++ (le_bytes 2 off ++ ((strings_of f dict ++ value) ++ behind))) in
      let words = drop_words size f.type off ((strings_of f dict ++ value) ++ behind) in
      let strings = (words.1) ∙ body_shape f.name f.analyzer_name (tail_of dict) value behind in
      let after_name =
        drop_on 8 node f.name (f.analyzer_name ++ (0 ∷ (tail_of dict ++ rest))) strings in
      let named = 8 + (length f.name + 1) in
      let after_analyzer = drop_on named node f.analyzer_name (tail_of dict ++ rest) after_name in
      let analyzed = named + (length f.analyzer_name + 1) in
      let type_word = le_value-le_bytes_2 f.type h.type_bits in
      let (dict_read, after_dict) =
        read_dict f (le_bytes 2 f.type) node rest analyzed h.dict_given type_word after_analyzer in
      let long = value_size f h.field in
      let (buf, copied, shown, room) = fresh_copy size value (omega (arith, long)) in
      (
        record {
          type = le_value (le_bytes 2 f.type);
          mask = 0;
          name = f.name;
          size = f.size;
          buf = buf;
          analyzer_name = f.analyzer_name;
          dict_name = dict;
        },
        ap (unserialization alloc) (node_shape size f.type off (strings_of f dict ++ value) behind)
            ∙ unserialization-reads alloc node (le_bytes 2 f.type) f.name f.analyzer_name value buf
                dict size f.size
                (read_u32-append size
                  (le_bytes 2 f.type
                    ++ (le_bytes 2 off ++ ((strings_of f dict ++ value) ++ behind)))
                  h.whole)
                (ap (read_bytes 2) (words.0)
                  ∙ read_bytes-append 2 (le_bytes 2 f.type)
                      (le_bytes 2 off ++ ((strings_of f dict ++ value) ++ behind))
                      (sym (length-le_bytes 2 f.type)))
                (ap c_string strings
                  ∙ c_string-append f.name (f.analyzer_name ++ (0 ∷ (tail_of dict ++ rest)))
                      h.name_chars)
                (ap c_string after_name
                  ∙ c_string-append f.analyzer_name (tail_of dict ++ rest) h.analyzer_chars)
                dict_read (value_left f dict h)
                (ap (read_bytes f.size) after_dict
                  ∙ read_bytes-append f.size value behind (sym long))
                copied,
        record {
          type = type_word;
          name = refl;
          analyzer_name = refl;
          dict_name = refl;
          value = ap (λ n. take n buf) (sym long) ∙ shown;
          mask = refl;
          field = record { inside = omega (arith, room); small = h.field.small };
        },
      )

  -- For a field without a 0 in its strings, whose sizes fit the words of the header,
  -- `eggField_serialization` stays inside a block of the size that `eggField_get_serializationsize` tells,
  -- and `eggField_unserialization` of the block, whatever lies behind it, gives a field with the same type,
  -- name, analyzer, dictionary and value; the mask is not stored.
  pub unserialization-serialization :
      (f : Field) (dict : Option (List ℕ)) (behind : List ℕ)
      → IsStorable f dict
      → (node : List ℕ) × (serialization f ≡ some node)
        × (get_serializationsize f ≡ some (length node))
        × (g : Field) × (unserialization alloc (node ++ behind) ≡ some g)
        × Restored f dict g
  unserialization-serialization f dict behind h =
      let (g, read, same) = read_stored f dict behind h in
      let told =
        get_serializationsize_lem f dict h ∙ ap some (sym (length-stored f dict h.field)) in
      (stored f dict, serialization_lem f dict h, told, g, read, same)
