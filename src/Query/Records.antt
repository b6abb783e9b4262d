-- ===== src/Query/Records.antt =====
-- The records of stored queries: what `dumpQueryRecord` of egg3/src/search/eggQuery.c writes,
-- `getNextQueryRecord` reads back.
use egg.Base.{
  ℕ, ◌+◌, ◌-◌, ◌*◌, ◌/◌, ◌^◌, ◌<◌, ◌≤◌, ◌≡◌, refl, ap, sym, ◌∙◌, false, some, List, [], ◌∷◌, ◌++◌,
  append_assoc, length, length-append, take-append, drop, drop-append, drop-drop, All, ltb, arith,
}
use egg.Base.Bytes.{le_bytes, read_bytes-append, read_u32, length-le_bytes, read_u32-append}
use egg.IdNode.{IdNode}
use egg.FieldKey.{FieldKey}
use egg.FieldKey
use egg.FieldKey.Stream.{IsNode, size_of, stored, buffer, length-buffer, unserialise_lem}
use egg.Query.{Ask, Join, Key, Held}
use egg.Query.Stored.{
  ask_opt, join_opt, Kind, ask_kind, join_kind, data_kind, kind_of, key_bytes, key_record_sz,
  read_byte, node_bytes, nodes_at, Record, asking, holding, joining, read_record, next_record,
  record_end,
}
use egg.Query.Readers.{
  read_u16-append, IsKey, read_key-append, length-key_bytes, kind_of-ask, kind_of-join,
  kind_of-data,
}

behind_front :
    (sz opt : ℕ) (body : List ℕ) → drop 6 (le_bytes 4 sz ++ (le_bytes 2 opt ++ body)) ≡ body
behind_front sz opt body =
    sym (drop-drop 4 2 (le_bytes 4 sz ++ (le_bytes 2 opt ++ body)))
    ∙ ap (drop 2)
        (drop-append (le_bytes 4 sz) (le_bytes 2 opt ++ body) 4 (sym (length-le_bytes 4 sz)))
    ∙ drop-append (le_bytes 2 opt) body 2 (sym (length-le_bytes 2 opt))

stored-append : (nodes : List FieldKey) (ys : List ℕ) → stored nodes [] ++ ys ≡ stored nodes ys
stored-append [] ys = refl
stored-append (node ∷ nodes) ys = simp (append_assoc, stored-append nodes ys)

record_end-small : (sz : ℕ) → sz < 2 ^ 31 → record_end sz ≡ 4 + sz
unfolding record_end
record_end-small sz small = ground arith

-- The front of a record: its size and its kind.
module _ (node_value : List ℕ → IdNode) where
  next_steps :
      (sz opt : ℕ) (kind : Kind) (r : Record) (body rest : List ℕ)
      → sz < 2 ^ 31
      → opt < 2 ^ 16
      → kind_of opt ≡ some kind
      → sz ≤ length body + 2
      → read_record node_value sz kind body ≡ some (r, rest)
      → next_record node_value (le_bytes 4 sz ++ (le_bytes 2 opt ++ body)) ≡ some (some r, rest)
  unfolding next_record
  next_steps sz opt kind r body rest small few known fits read =
      let words = le_bytes 2 opt ++ body in
      let whole = le_bytes 4 sz ++ words in
      let size : length whole ≡ 6 + length body =
        simp (length-append, length-le_bytes) (omega arith) in
      let long : ltb (length whole) 4 ≡ false = ground (arith, size) in
      let end : record_end sz ≡ 4 + sz = record_end-small sz small in
      let room : ltb (length whole) (4 + sz) ≡ false = ground (arith, size, fits) in
      rw
        (
          long,
          read_u32-append sz words (omega (arith, small)),
          end,
          room,
          drop-append (le_bytes 4 sz) words 4 (sym (length-le_bytes 4 sz)),
          read_u16-append opt body few,
          known,
          behind_front sz opt body,
          read,
        )
        refl

  record_ask :
      (a : Ask) (key : Key) (boost : ℕ) (rest : List ℕ)
      → IsKey key
      → read_record node_value (key_record_sz key) (ask_kind a) (key_bytes key boost ++ rest)
        ≡ some (asking a key boost, rest)
  unfolding read_record
  record_ask a key boost rest h = rw (read_key-append key boost rest h) refl

  record_join :
      (o : Join) (boost : ℕ) (rest : List ℕ)
      → read_record node_value 2 (join_kind o) (boost ∷ rest) ≡ some (joining o boost, rest)
  unfolding read_record read_byte
  record_join o boost rest = refl

  record_data :
      (sz cnt : ℕ) (query nodes_bytes : List ℕ) (field_key : List FieldKey) (nodes : List IdNode)
      (boost : ℕ) (rest : List ℕ)
      → read_u32 query ≡ some sz
      → FieldKey.unserialise query ≡ some field_key
      → drop sz query ≡ nodes_bytes ++ (boost ∷ rest)
      → length nodes_bytes ≡ 36 * cnt
      → nodes_at node_value cnt nodes_bytes ≡ nodes
      → read_record node_value (2 + sz + 36 * cnt) data_kind query
        ≡ some (holding (record { field_key = field_key; id_nodes = nodes }) boost, rest)
  unfolding read_record read_byte
  record_data sz cnt query nodes_bytes field_key nodes boost rest sized keys behind len read =
      let fits : ltb (2 + sz + 36 * cnt) (2 + sz) ≡ false = ground arith in
      let left : 2 + sz + 36 * cnt - 2 - sz ≡ 36 * cnt = omega arith in
      let count : 36 * cnt / 36 ≡ cnt = omega arith in
      rw
        (
          sized,
          keys,
          fits,
          left,
          behind,
          read_bytes-append (36 * cnt) nodes_bytes (boost ∷ rest) (sym len),
          drop-append nodes_bytes (boost ∷ rest) (36 * cnt) (sym len),
          count,
          read,
        )
        refl

  pub ask_reads :
      (a : Ask) (key : Key) (boost : ℕ) (rest : List ℕ)
      → IsKey key
      → key_record_sz key < 2 ^ 31
      → next_record node_value (
          le_bytes 4 (key_record_sz key)
          ++ (le_bytes 2 (ask_opt a) ++ (key_bytes key boost ++ rest)))
        ≡ some (some (asking a key boost), rest)
  ask_reads a key boost rest h small =
      next_steps (key_record_sz key) (ask_opt a) (ask_kind a) (asking a key boost)
        (key_bytes key boost ++ rest) rest small ((kind_of-ask a).1) ((kind_of-ask a).0)
        (omega (arith, length-key_bytes key boost, length-append (key_bytes key boost) rest))
        (record_ask a key boost rest h)

  pub join_reads :
      (o : Join) (boost : ℕ) (rest : List ℕ)
      → next_record node_value (le_bytes 4 2 ++ (le_bytes 2 (join_opt o) ++ (boost ∷ rest)))
        ≡ some (some (joining o boost), rest)
  join_reads o boost rest =
      next_steps 2 (join_opt o) (join_kind o) (joining o boost) (boost ∷ rest) rest (omega arith)
        ((kind_of-join o).1) ((kind_of-join o).0) (omega arith) (record_join o boost rest)

  -- A node as its image gives it back.
  abbrev pub IsImage : (IdNode → List ℕ) → IdNode → Type 0
  IsImage image x = (length (image x) ≡ 36) × (node_value (image x) ≡ x)

  pub nodes_at-node_bytes :
      (image : IdNode → List ℕ) (xs : List IdNode)
      → All (IsImage image) xs
      → (nodes_at node_value (length xs) (node_bytes image xs) ≡ xs)
        × (length (node_bytes image xs) ≡ 36 * length xs)
  unfolding nodes_at node_bytes
  nodes_at-node_bytes image [] h = (refl, refl)
  nodes_at-node_bytes image (x ∷ xs) ((size, value), h) =
      let (ih, len) = nodes_at-node_bytes image xs h in
      (
        rw
            (
              take-append (image x) (node_bytes image xs) 36 (sym size),
              drop-append (image x) (node_bytes image xs) 36 (sym size),
              value,
              ih,
            )
            refl,
        omega (arith, len, size, length-append (image x) (node_bytes image xs)),
      )

  buffer-append :
      (sz : ℕ) (nodes : List FieldKey) (ys : List ℕ) → buffer sz nodes [] ++ ys ≡ buffer sz nodes ys
  buffer-append sz nodes ys = simp (append_assoc, stored-append nodes ys)

  pub held_reads :
      (image : IdNode → List ℕ) (h : Held) (boost : ℕ) (rest : List ℕ)
      → All IsNode h.field_key
      → All (IsImage image) h.id_nodes
      → 2 + (size_of h.field_key + 8) + 36 * length h.id_nodes < 2 ^ 31
      → next_record node_value (
          le_bytes 4 (2 + (size_of h.field_key + 8) + 36 * length h.id_nodes)
          ++ (le_bytes 2 0
              ++ (buffer (size_of h.field_key + 8) h.field_key []
                  ++ (node_bytes image h.id_nodes ++ (boost ∷ rest)))))
        ≡ some (some (holding h boost), rest)
  held_reads image h boost rest keys images small =
      let sz = size_of h.field_key + 8 in
      let nodes_bytes = node_bytes image h.id_nodes in
      let behind = nodes_bytes ++ (boost ∷ rest) in
      let query = buffer sz h.field_key [] ++ behind in
      let (nodes, len) = nodes_at-node_bytes image h.id_nodes images in
      let joined = buffer-append sz h.field_key behind in
      let room : sz < 2 ^ 32 = omega (arith, small) in
      next_steps (2 + sz + 36 * length h.id_nodes) 0 data_kind (holding h boost) query rest small
        (omega arith) kind_of-data
        (omega (
          arith,
          length-append (buffer sz h.field_key []) behind,
          length-append nodes_bytes (boost ∷ rest),
          length-buffer sz h.field_key keys,
          len,
        ))
        (record_data sz (length h.id_nodes) query nodes_bytes h.field_key h.id_nodes boost rest
          (ap read_u32 joined ∙ read_u32-append sz _ room)
          (ap FieldKey.unserialise joined ∙ unserialise_lem sz h.field_key behind keys refl room)
          (drop-append (buffer sz h.field_key []) behind sz
            (sym (length-buffer sz h.field_key keys)))
          len nodes)
