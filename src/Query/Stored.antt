-- ===== src/Query/Stored.antt =====
-- egg3/src/search/eggQuery.c: `eggQuery_serialise` and `eggQuery_unserialise`. A stored query is the
-- records of its tree, each in front of those of its two parts. The image of a `struct eggIdNode` in
-- memory, which the compiler lays out in 36 bytes, is a parameter. `none` is an access outside a block,
-- fuel that ran out, or a query that has no value of `Query`: a record of an unknown kind, or a join
-- with NULL for a part. A size is an `int`: one of 2 ^ 31 or more, which overflows, gives `none`.
use egg.Base.{
  ℕ, zero, suc, ◌+◌, ◌-◌, ◌*◌, ◌/◌, Option, none, some, List, [], ◌∷◌, ◌++◌, ◌>>=◌, length, take,
  drop, ltb, ◌==◌, if◌then◌else◌, ◌^◌, ◌%◌,
}
use egg.Base.Bytes.{le_value, le_bytes, read_bytes, read_u32, c_string, zeros}
use egg.Vector.{copy_at}
use egg.FieldKey.{FieldKey}
use egg.FieldKey
use egg.IdNode.{IdNode}
use egg.Query.{
  Ask, Join, Key, Held, Query, Tokenizer, range, term, phrase, term_or, or, and, and_phrase, minus,
  ask, held, join, analyze_record,
}

-- `type_t opt`
unfoldable pub ask_opt : Ask → ℕ
ask_opt range = 2
ask_opt term = 3
ask_opt phrase = 4
ask_opt term_or = 5

unfoldable pub join_opt : Join → ℕ
join_opt or = 16
join_opt and = 17
join_opt and_phrase = 18
join_opt minus = 19

pub data Kind : Type 0 where
  ask_kind : Ask → Kind
  join_kind : Join → Kind
  data_kind : Kind

unfoldable pub kind_of : ℕ → Option Kind
kind_of opt =
    if opt == 0
    then some data_kind
    else if opt == 2
    then some (ask_kind range)
    else if opt == 3
    then some (ask_kind term)
    else if opt == 4
    then some (ask_kind phrase)
    else if opt == 5
    then some (ask_kind term_or)
    else if opt == 16
    then some (join_kind or)
    else if opt == 17
    then some (join_kind and)
    else if opt == 18
    then some (join_kind and_phrase)
    else if opt == 19
    then some (join_kind minus)
    else none

-- A name that may be NULL, which is stored as an empty one.
unfoldable pub name_bytes : Option (List ℕ) → List ℕ
name_bytes none = 0 ∷ []
name_bytes (some chars) = chars ++ (0 ∷ [])

-- What `dumpQueryRecord` writes of a node that asks, behind the opt.
unfoldable pub key_bytes : Key → ℕ → List ℕ
unfolding name_bytes
key_bytes key boost =
    key.field_name
    ++ (0
        ∷ (le_bytes 2 (length key.key1)
            ++ (key.key1
                ++ (le_bytes 2 (length key.key2)
                    ++ (key.key2
                        ++ (name_bytes key.analyzer_name
                            ++ (name_bytes key.dict_name ++ (boost ∷ []))))))))

unfoldable pub name_sz : Option (List ℕ) → ℕ
name_sz none = 1
name_sz (some chars) = length chars + 1

-- `sz` of such a node: all but the size itself and the boost.
unfoldable pub key_record_sz : Key → ℕ
unfolding name_sz
key_record_sz key =
    2
    + (length key.field_name + 1)
    + 2 * 2
    + length key.key1
    + length key.key2
    + name_sz key.analyzer_name
    + name_sz key.dict_name

unfoldable pub node_bytes : (IdNode → List ℕ) → List IdNode → List ℕ
node_bytes image [] = []
node_bytes image (x ∷ xs) = image x ++ node_bytes image xs

module _ (image : IdNode → List ℕ) (alloc : ℕ → List ℕ) where
  -- `getQueryRecordSz`
  unfoldable pub record_sz : Query → Option ℕ
  unfolding key_record_sz
  record_sz (ask a key boost) = some (4 + 1 + key_record_sz key)
  record_sz (held h boost) = do
    keys ← FieldKey.serialise alloc h.field_key
    some (4 + 2 + 1 + keys.1 + 36 * length h.id_nodes)
  record_sz (join o boost p q) = some (4 + 2 + 1)

  -- `dumpQueryRecord`
  unfoldable pub record_bytes : Query → Option (List ℕ)
  unfolding key_record_sz key_bytes ask_opt join_opt node_bytes
  record_bytes (ask a key boost) =
      some (le_bytes 4 (key_record_sz key) ++ (le_bytes 2 (ask_opt a) ++ key_bytes key boost))
  record_bytes (held h boost) = do
    keys ← FieldKey.serialise alloc h.field_key
    some (
        le_bytes 4 (2 + keys.1 + 36 * length h.id_nodes)
        ++ (le_bytes 2 0 ++ (keys.0 ++ (node_bytes image h.id_nodes ++ (boost ∷ [])))))
  record_bytes (join o boost p q) = some (le_bytes 4 2 ++ (le_bytes 2 (join_opt o) ++ (boost ∷ [])))

  -- `treeWalkPrefix` with either of them.
  unfoldable pub tree_sz : Query → Option ℕ
  unfolding record_sz
  tree_sz (ask a key boost) = record_sz (ask a key boost)
  tree_sz (held h boost) = record_sz (held h boost)
  tree_sz (join o boost p q) = do
    sz ← record_sz (join o boost p q)
    sz_p ← tree_sz p
    sz_q ← tree_sz q
    some (sz + (sz_p + sz_q))

  unfoldable pub tree_bytes : Query → Option (List ℕ)
  unfolding record_bytes
  tree_bytes (ask a key boost) = record_bytes (ask a key boost)
  tree_bytes (held h boost) = record_bytes (held h boost)
  tree_bytes (join o boost p q) = do
    bytes ← record_bytes (join o boost p q)
    bytes_p ← tree_bytes p
    bytes_q ← tree_bytes q
    some (bytes ++ (bytes_p ++ bytes_q))

  -- The buffer, `none` for NULL, and `*sz`.
  unfoldable pub serialise : Option Query → Option (Option (List ℕ × ℕ))
  unfolding tree_sz tree_bytes
  serialise none = some none
  serialise (some q) = do
    sz ← tree_sz q
    bytes ← tree_bytes q
    rp ← copy_at (zeros sz) 0 bytes
    if ltb sz (2 ^ 31) then some (some (rp, sz)) else none

unfoldable pub read_u16 : List ℕ → Option ℕ
read_u16 bytes = do word ← read_bytes 2 bytes; some (le_value word)

-- A string, a block behind its size, and a name, each with what stands behind it.
unfoldable pub read_str : List ℕ → Option (List ℕ × List ℕ)
read_str query = do chars ← c_string query; some (chars, drop (length chars + 1) query)

unfoldable pub read_block : List ℕ → Option (List ℕ × List ℕ)
unfolding read_u16
read_block query = do
  sz ← read_u16 query
  block ← read_bytes sz (drop 2 query)
  some (block, drop sz (drop 2 query))

unfoldable pub read_name : List ℕ → Option (Option (List ℕ) × List ℕ)
unfolding read_str
read_name [] = none
read_name (c ∷ query) =
    let named = (do r ← read_str (c ∷ query); some (some (r.0), r.1)) in
    if c == 0 then some (none, query) else named

unfoldable pub read_byte : List ℕ → Option (ℕ × List ℕ)
read_byte [] = none
read_byte (c ∷ query) = some (c, query)

unfoldable pub read_key : List ℕ → Option (Key × ℕ × List ℕ)
unfolding read_str read_block read_name read_byte
read_key query = do
  (field_name, query₁) ← read_str query
  (key1, query₂) ← read_block query₁
  (key2, query₃) ← read_block query₂
  (analyzer_name, query₄) ← read_name query₃
  (dict_name, query₅) ← read_name query₄
  (boost, query₆) ← read_byte query₅
  some (
    record {
      field_name = field_name;
      key1 = key1;
      key2 = key2;
      analyzer_name = analyzer_name;
      dict_name = dict_name;
    },
    boost,
    query₆,
  )

-- The record that `getNextQueryRecord` makes, without its parts.
pub data Record : Type 0 where
  asking : Ask → Key → ℕ → Record
  holding : Held → ℕ → Record
  joining : Join → ℕ → Record

-- `sizeof(size32_t) + (recordsz = (int)...)`: an `int` is added to a `size_t`.
unfoldable pub record_end : ℕ → ℕ
record_end record_sz =
    if ltb record_sz (2 ^ 31) then 4 + record_sz else (4 + record_sz + (2 ^ 64 - 2 ^ 32)) % 2 ^ 64

module _ (node_value : List ℕ → IdNode) where
  unfoldable pub nodes_at : ℕ → List ℕ → List IdNode
  nodes_at zero bytes = []
  nodes_at (suc cnt) bytes = node_value (take 36 bytes) ∷ nodes_at cnt (drop 36 bytes)

  -- The branches behind the opt; `query` stands there.
  unfoldable pub read_record : ℕ → Kind → List ℕ → Option (Record × List ℕ)
  unfolding read_key nodes_at read_byte
  read_record record_sz (ask_kind a) query = do
    (key, boost, rest) ← read_key query
    some (asking a key boost, rest)
  read_record record_sz (join_kind o) query = do
    (boost, rest) ← read_byte query
    some (joining o boost, rest)
  read_record record_sz data_kind query = do
    keys_sz ← read_u32 query
    field_key ← FieldKey.unserialise query
    let nodes_sz = record_sz - 2 - keys_sz
    nodes ← (if ltb record_sz (2 + keys_sz) then none else read_bytes nodes_sz (drop keys_sz query))
    (boost, rest) ← read_byte (drop nodes_sz (drop keys_sz query))
    some (
      holding (record { field_key = field_key; id_nodes = nodes_at (nodes_sz / 36) nodes }) boost,
      rest,
    )

  -- `getNextQueryRecord` with `*endp`; `sz` is the length of the buffer from `query` on.
  unfoldable pub next_record : List ℕ → Option (Option Record × List ℕ)
  unfolding kind_of read_record read_u16 record_end
  next_record query =
      let got = (do
        record_sz ← read_u32 query
        let read = (do
          opt ← read_u16 (drop 4 query)
          kind ← kind_of opt
          (r, rest) ← read_record record_sz kind (drop 6 query)
          some (some r, rest))
        if ltb (length query) (record_end record_sz) then some (none, query) else read) in
      if ltb (length query) 4 then some (none, query) else got

  unfoldable pub both_parts :
      Join → ℕ → Option Query → Option Query → List ℕ → Option (Option Query × List ℕ)
  both_parts o boost (some p) (some q) rest = some (some (join o boost p q), rest)
  both_parts o boost (some p) none rest = none
  both_parts o boost none q rest = none

  module _ (tokenize : Tokenizer) where
    unfoldable pub unserialise_internal : ℕ → List ℕ → Option (Option Query × List ℕ)
    unfolding next_record both_parts
    unserialise_internal zero query = none
    unserialise_internal (suc fuel) query = do
      (found, query₁) ← next_record query
      elim found [
        | none ↦ some (none, query₁)
        | some (asking a key boost) ↦
            some (some (analyze_record tokenize (ask a key boost)), query₁)
        | some (holding h boost) ↦ some (some (held h boost), query₁)
        | some (joining o boost) ↦ do
          (p, query₂) ← unserialise_internal fuel query₁
          (q, query₃) ← unserialise_internal fuel query₂
          both_parts o boost p q query₃
      ]

    -- Each record takes four bytes or more.
    unfoldable pub unserialise : List ℕ → Option (Option Query)
    unfolding unserialise_internal
    unserialise query =
        let parsed = (do (q, rest) ← unserialise_internal (length query + 1) query; some q) in
        if ltb (length query) (2 ^ 31) then parsed else none
