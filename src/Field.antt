-- ===== src/Field.antt =====
-- egg3/src/interface/eggField.c and egg3/src/storage/eggFieldNode.h: a field of a document, its value and
-- its stored form. A name is its characters without the 0 behind them; a block of memory is its bytes, and
-- NULL a block without bytes. A type is its 16 bits. `none` is an access outside a block.
pub mod Values
pub mod Node
pub mod Writes
pub mod Stored
pub mod RoundTrip
mod Runs
use egg.Base.{
  ℕ, ◌+◌, ◌-◌, ◌%◌, ◌^◌, Bool, true, false, not, ◌&&◌, ◌||◌, Option, none, some, List, [], ◌∷◌,
  ◌++◌, ◌>>=◌, length, take, drop, bit_and, bit_or, ltb, leb, ◌==◌, if◌then◌else◌,
}
use egg.Base.Bytes.{le_value, le_bytes, read_bytes, read_u32, c_string, zeros}
use egg.Vector.{copy_at}

-- `struct eggField`, less its link: `dict_name` is `none` where it is NULL.
pub record Field : Type 0 where
  pub type : ℕ
  pub mask : ℕ
  pub name : List ℕ
  pub size : ℕ
  pub buf : List ℕ
  pub analyzer_name : List ℕ
  pub dict_name : Option (List ℕ)

-- `type & flag`
abbrev pub has : ℕ → ℕ → Bool
has type flag = not (bit_and type flag == 0)

abbrev pub index_string : ℕ
index_string = 8

abbrev pub range_index : ℕ
range_index = 32768

abbrev pub not_analyzed : ℕ
not_analyzed = 4

abbrev pub storage : ℕ
storage = 128

abbrev pub other_analyzed : ℕ
other_analyzed = 4096

abbrev pub other_dict : ℕ
other_dict = 8192

-- The names of egg3/src/eggAnalyzer.h, in characters.
abbrev pub analyzer_cwslex : List ℕ
analyzer_cwslex =
    73 ∷ 109 ∷ 67 ∷ 119 ∷ 115 ∷ 76 ∷ 101 ∷ 120 ∷ 65 ∷ 110 ∷ 97 ∷ 108 ∷ 121 ∷ 122 ∷ 101 ∷ 114 ∷ []

abbrev pub analyzer_cylex : List ℕ
analyzer_cylex =
    73 ∷ 109 ∷ 67 ∷ 121 ∷ 76 ∷ 101 ∷ 120 ∷ 65 ∷ 110 ∷ 97 ∷ 108 ∷ 121 ∷ 122 ∷ 101 ∷ 114 ∷ []

abbrev pub analyzer_cnlex : List ℕ
analyzer_cnlex =
    73 ∷ 109 ∷ 67 ∷ 110 ∷ 76 ∷ 101 ∷ 120 ∷ 65 ∷ 110 ∷ 97 ∷ 108 ∷ 121 ∷ 122 ∷ 101 ∷ 114 ∷ []

abbrev pub analyzer_cxlex : List ℕ
analyzer_cxlex =
    73 ∷ 109 ∷ 67 ∷ 120 ∷ 76 ∷ 101 ∷ 120 ∷ 65 ∷ 110 ∷ 97 ∷ 108 ∷ 121 ∷ 122 ∷ 101 ∷ 114 ∷ []

-- The field that `memset` has cleared.
abbrev pub blank : Field
blank = record {
  type = 0;
  mask = 0;
  name = [];
  size = 0;
  buf = [];
  analyzer_name = [];
  dict_name = none;
}

-- The flags that are set where none of their group is.
unfoldable pub default_type : ℕ → ℕ
default_type type =
    let analyzed = (if has type 7687 then type else bit_or type 2) in
    let indexed = (if has analyzed 120 then analyzed else bit_or analyzed index_string) in
    if has indexed 384 then indexed else bit_or indexed storage

-- `realloc`, with the bytes of fresh memory.
unfoldable pub realloc : (ℕ → List ℕ) → List ℕ → ℕ → List ℕ
realloc alloc block n = take n (block ++ drop (length block) (alloc n))

-- The name of the analyzer that a type asks for; `other` is the argument behind the type.
abbrev pub analyzer_of : ℕ → List ℕ → List ℕ
analyzer_of type other =
    if has type other_analyzed
    then other
    else if has type 2
    then analyzer_cwslex
    else if has type 1024
    then analyzer_cylex
    else if has type 512
    then analyzer_cnlex
    else if has type 2048
    then analyzer_cxlex
    else []

module _ (alloc : ℕ → List ℕ) where
  -- The two tests of `eggField_dup` against NULL, which is `none`.
  abbrev dup_name : Field → Option (List ℕ) → ℕ → Field
  dup_name f none name_size = f
  dup_name f (some name) name_size = record f { name = take name_size name }

  abbrev pub dup_value : Field → Option (List ℕ) → ℕ → Option Field
  dup_value f none size = some f
  dup_value f (some value) size = do
    bytes ← read_bytes size value
    filled ← copy_at (if leb f.size size then alloc ((size + 8) % 2 ^ 32) else f.buf) 0 bytes
    buf ← copy_at filled size (0 ∷ [])
    some (record f { buf = buf; size = size })

  pub dup : Field → Option (List ℕ) → ℕ → Option (List ℕ) → ℕ → ℕ → List ℕ → Option Field
  dup f name name_size value val_size type analyzer = do
    g ← dup_value (dup_name f name name_size) value val_size
    some (record g { type = bit_or g.type type; analyzer_name = analyzer })

  -- The inner `none` is the return of NULL.
  pub new : Option (List ℕ) → Option (List ℕ) → ℕ → ℕ → List ℕ → Option (Option Field)
  unfolding default_type dup
  new none value size type other = some none
  new (some name) value size type other =
      let type' = default_type type in
      let made = (do
        f ← dup blank (some name) (length name) value size type' (analyzer_of type' other)
        some (some f)) in
      if has type range_index && (has type index_string && ltb 116 size)
      then some none
      else if has type range_index && not (has type not_analyzed)
      then some none
      else made

  -- The field and the return value; the value is as many bytes as `size`.
  pub set_value : Field → List ℕ → ℕ → Option (Bool × Field)
  unfolding realloc
  set_value f value size = do
    bytes ← read_bytes size value
    buf ← copy_at (if ltb f.size size then realloc alloc f.buf size else f.buf) 0 bytes
    some (true, record f { buf = buf; size = size })

  pub append_value : Field → List ℕ → ℕ → Option (Bool × Field)
  unfolding realloc
  append_value f value size =
      let appended = (do
        let grown = realloc alloc f.buf ((f.size + size + 1) % 2 ^ 32)
        ended ← copy_at grown ((f.size + size) % 2 ^ 32) (0 ∷ [])
        bytes ← read_bytes size value
        buf ← copy_at ended f.size bytes
        some (true, record f { buf = buf; size = (f.size + size) % 2 ^ 32 })) in
      if has f.type index_string then appended else some (false, f)

-- The bytes that `eggField_get_value` shows.
abbrev pub get_value : Field → List ℕ
get_value f = take f.size f.buf

abbrev pub set_dictname : Field → List ℕ → Field
set_dictname f dict = record f { dict_name = some dict; type = bit_or f.type other_dict }

-- A string that may be NULL, with the 0 behind it.
abbrev pub dict_bytes : Field → Option (List ℕ)
dict_bytes f =
    if has f.type other_dict then (do dict ← f.dict_name; some (dict ++ (0 ∷ []))) else some []

pub get_serializationsize : Field → Option ℕ
get_serializationsize f = do
  dict ← dict_bytes f
  some ((8 + length f.name + 1 + f.size + (length f.analyzer_name + 1) + length dict) % 2 ^ 32)

-- `hFieldNode->bufOff`
abbrev pub read_off : List ℕ → Option ℕ
read_off node = do word ← read_bytes 2 (drop 6 node); some (le_value word)

-- The `memcpy` to `bufOff`, which moves on unless it is the last one.
pub put_last : List ℕ → List ℕ → Option (List ℕ)
put_last node bytes = do off ← read_off node; copy_at node off bytes

pub put_bytes : List ℕ → List ℕ → Option (List ℕ)
put_bytes node bytes = do
  node' ← put_last node bytes
  off ← read_off node'
  copy_at node' 6 (le_bytes 2 ((off + length bytes) % 2 ^ 16))

-- The cleared block with the three words of its header.
pub node_header : ℕ → ℕ → Option (List ℕ)
node_header size type = do
  sized ← copy_at (zeros size) 0 (le_bytes 4 size)
  typed ← copy_at sized 4 (le_bytes 2 type)
  copy_at typed 6 (le_bytes 2 8)

pub serialization : Field → Option (List ℕ)
serialization f = do
  size ← get_serializationsize f
  node ← node_header size f.type
  named ← put_bytes node (f.name ++ (0 ∷ []))
  analyzed ← put_bytes named (f.analyzer_name ++ (0 ∷ []))
  dict ← dict_bytes f
  ready ← (if has f.type other_dict then put_bytes analyzed dict else some analyzed)
  value ← read_bytes f.size f.buf
  put_last ready value

-- The offset behind the dictionary's name, if there is one.
abbrev pub past_dict : ℕ → Option (List ℕ) → ℕ
past_dict off none = off
past_dict off (some dict) = off + (length dict + 1)

-- From the bytes at the node on.
pub unserialization : (ℕ → List ℕ) → List ℕ → Option Field
unserialization alloc node = do
  size ← read_u32 node
  type ← read_bytes 2 (drop 4 node)
  name ← c_string (drop 8 node)
  let named = 8 + (length name + 1)
  analyzer ← c_string (drop named node)
  let analyzed = named + (length analyzer + 1)
  dict ←
      (if has (le_value type) other_dict
        then (do d ← c_string (drop analyzed node); some (some d))
        else some none)
  let off = past_dict analyzed dict
  let left = (size + 2 ^ 64 - off) % 2 ^ 32
  value ← read_bytes left (drop off node)
  buf ← copy_at (alloc size) 0 value
  some (record {
    type = le_value type;
    mask = 0;
    name = name;
    size = left;
    buf = buf;
    analyzer_name = analyzer;
    dict_name = dict;
  })

-- `Uti_bz2_compress` and `Uti_bz2_decompress` are parameters: `none` is their failure. The two flags are
-- bits that the type of a field also uses for others.
abbrev pub compressed : ℕ
compressed = 1

abbrev pub not_compressed : ℕ
not_compressed = 2

abbrev repacked : Field → Field → Option (List ℕ) → Bool × Field
repacked f failed none = (false, failed)
repacked f failed (some result) = (true, record f { buf = result; size = length result })

pub compress : (List ℕ → Option (List ℕ)) → Field → Bool × Field
compress bz2_compress f =
    if has f.type compressed || ltb 10240 f.size
    then repacked f (record f { type = bit_or f.type not_compressed }) (bz2_compress (get_value f))
    else (false, f)

pub decompress : (List ℕ → Option (List ℕ)) → Field → Bool × Field
decompress bz2_decompress f =
    if has f.type compressed then repacked f f (bz2_decompress (get_value f)) else (true, f)
