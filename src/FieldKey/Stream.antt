-- ===== src/FieldKey/Stream.antt =====
-- What `eggFieldKey_serialise` writes, `eggFieldKey_unserialise` reads back.
use egg.Base.{
  ℕ, suc, ◌+◌, ◌%◌, ◌^◌, ◌≤◌, ◌<◌, ◌≡◌, ◌≢◌, refl, ap, sym, ◌∙◌, some, List, [], ◌∷◌, ◌++◌,
  append_assoc, append-nil, length, drop, drop-append, drop-drop, length-append, All, arith,
}
use egg.Base.Bytes.{
  drop_past, le_bytes, read_bytes, length-le_bytes, read_bytes-append, read_u32-append,
  c_string-append,
}
use egg.Vector.Grow.{copy_at-whole}
use egg.FieldKey.{FieldKey, count_loop, write_nodes, serialise, read_node, read_nodes, unserialise}

-- A node as `eggFieldKey_new` makes it: no 0 within the name, and a key of the noted size.
pub record IsNode (node : FieldKey) : Type 0 where
  pub chars : All (λ c. c ≢ 0) node.field_name
  pub block : length node.key ≡ node.key_sz
  pub small : node.key_sz < 2 ^ 32

-- The bytes that the nodes take.
abbrev pub size_of : List FieldKey → ℕ
size_of [] = 0
size_of (node ∷ nodes) = (length node.field_name + 1) + (node.key_sz + 4) + size_of nodes

-- The nodes in memory, in front of other bytes.
abbrev pub stored : List FieldKey → List ℕ → List ℕ
stored [] behind = behind
stored (node ∷ nodes) behind =
    node.field_name ++ (0 ∷ (le_bytes 4 node.key_sz ++ (node.key ++ stored nodes behind)))

pub read_bytes-all : (n : ℕ) (xs : List ℕ) → length xs ≡ n → read_bytes n xs ≡ some xs
read_bytes-all n xs e = ap (read_bytes n) (sym (append-nil xs)) ∙ read_bytes-append n xs [] (sym e)

write_nodes-stored :
    (nodes : List FieldKey) → All IsNode nodes → write_nodes nodes ≡ some (stored nodes [])
unfolding write_nodes
write_nodes-stored [] h = refl
write_nodes-stored (node ∷ nodes) (v, vs) =
    rw (read_bytes-all node.key_sz node.key v.block, write_nodes-stored nodes vs) refl

stored-append :
    (nodes : List FieldKey) (behind : List ℕ) → stored nodes [] ++ behind ≡ stored nodes behind
stored-append [] behind = refl
stored-append (node ∷ nodes) behind =
    let word = le_bytes 4 node.key_sz in
    let rest = node.key ++ stored nodes [] in
    append_assoc node.field_name (0 ∷ (word ++ rest)) behind
    ∙ ap (λ l. node.field_name ++ (0 ∷ l))
        (append_assoc word rest behind
          ∙ ap (λ l. word ++ l)
              (append_assoc node.key (stored nodes []) behind
                ∙ ap (λ l. node.key ++ l) (stored-append nodes behind)))

length-stored :
    (nodes : List FieldKey) → All IsNode nodes → length (stored nodes []) ≡ size_of nodes
length-stored [] h = refl
length-stored (node ∷ nodes) (v, vs) =
    let word = le_bytes 4 node.key_sz in
    let rest = node.key ++ stored nodes [] in
    omega (
      arith,
      length-append node.field_name (0 ∷ (word ++ rest)),
      length-append word rest,
      length-append node.key (stored nodes []),
      length-le_bytes 4 node.key_sz,
      length-stored nodes vs,
      v.block,
    )

count_loop_lem :
    (nodes : List FieldKey) (sz count : ℕ)
    → sz + size_of nodes < 2 ^ 32
    → count ≤ sz
    → count_loop nodes sz count ≡ (sz + size_of nodes, count + length nodes)
unfolding count_loop
count_loop_lem [] sz count room h =
    ap (λ n. (n, count)) {x = sz} (omega arith) ∙ ap (λ n. (sz + 0, n)) {x = count} (omega arith)
count_loop_lem (node ∷ nodes) sz count room h =
    let sz' = (sz + (length node.field_name + 1) + node.key_sz + 4) % 2 ^ 32 in
    let next : sz' ≡ sz + (length node.field_name + 1) + node.key_sz + 4 = omega arith in
    let more : (count + 1) % 2 ^ 32 ≡ count + 1 = omega arith in
    count_loop_lem nodes sz' ((count + 1) % 2 ^ 32) (omega (arith, next, room))
      (omega (arith, next, more, h))
    ∙ ap (λ n. (n, (count + 1) % 2 ^ 32 + length nodes)) {x = sz' + size_of nodes}
        {y = sz + size_of (node ∷ nodes)} (omega (arith, next))
    ∙ ap (λ n. (sz + size_of (node ∷ nodes), n)) {x = (count + 1) % 2 ^ 32 + length nodes}
        {y = count + suc (length nodes)} (omega (arith, more))

read_node_lem :
    (node : FieldKey) (behind : List ℕ)
    → IsNode node
    → read_node (node.field_name ++ (0 ∷ (le_bytes 4 node.key_sz ++ (node.key ++ behind))))
      ≡ some (node, behind)
unfolding read_node
read_node_lem node behind v =
    let word = le_bytes 4 node.key_sz in
    rw
      (
        c_string-append node.field_name (word ++ (node.key ++ behind)) v.chars,
        drop_past node.field_name 0 (word ++ (node.key ++ behind)),
        read_u32-append node.key_sz (node.key ++ behind) v.small,
        drop-append word (node.key ++ behind) 4 (sym (length-le_bytes 4 node.key_sz)),
        read_bytes-append node.key_sz node.key behind (sym v.block),
        drop-append node.key behind node.key_sz (sym v.block),
      )
      refl

read_nodes_lem :
    (nodes : List FieldKey) (behind : List ℕ)
    → All IsNode nodes
    → read_nodes (length nodes) (stored nodes behind) ≡ some nodes
unfolding read_nodes
read_nodes_lem [] behind h = refl
read_nodes_lem (node ∷ nodes) behind (v, vs) =
    rw (read_node_lem node (stored nodes behind) v, read_nodes_lem nodes behind vs) refl

-- The buffer that `sz` and `count` make with the nodes behind them.
abbrev pub buffer : ℕ → List FieldKey → List ℕ → List ℕ
buffer sz nodes behind = le_bytes 4 sz ++ (le_bytes 4 (length nodes) ++ stored nodes behind)

pub length-buffer :
    (sz : ℕ) (nodes : List FieldKey)
    → All IsNode nodes
    → length (buffer sz nodes []) ≡ size_of nodes + 8
length-buffer sz nodes h = omega (
  arith,
  length-append (le_bytes 4 sz) (le_bytes 4 (length nodes) ++ stored nodes []),
  length-append (le_bytes 4 (length nodes)) (stored nodes []),
  length-le_bytes 4 sz,
  length-le_bytes 4 (length nodes),
  length-stored nodes h,
)

size_of-length : (nodes : List FieldKey) → length nodes ≤ size_of nodes
size_of-length [] = omega arith
size_of-length (node ∷ nodes) = omega (arith, size_of-length nodes)

drop_words : (a b : ℕ) (rest : List ℕ) → drop 8 (le_bytes 4 a ++ (le_bytes 4 b ++ rest)) ≡ rest
drop_words a b rest =
    sym (drop-drop 4 4 (le_bytes 4 a ++ (le_bytes 4 b ++ rest)))
    ∙ ap (drop 4) (drop-append (le_bytes 4 a) (le_bytes 4 b ++ rest) 4 (sym (length-le_bytes 4 a)))
    ∙ drop-append (le_bytes 4 b) rest 4 (sym (length-le_bytes 4 b))

pub unserialise_lem :
    (sz : ℕ) (nodes : List FieldKey) (behind : List ℕ)
    → All IsNode nodes
    → sz ≡ size_of nodes + 8
    → sz < 2 ^ 32
    → unserialise (buffer sz nodes behind) ≡ some nodes
unfolding unserialise
unserialise_lem sz [] behind h e room =
    rw (read_u32-append sz (le_bytes 4 0 ++ behind) room) (ground arith)
unserialise_lem sz (node ∷ nodes) behind h e room =
    let words = le_bytes 4 (suc (length nodes)) ++ stored (node ∷ nodes) behind in
    let few : suc (length nodes) < 2 ^ 32 = omega (arith, size_of-length nodes, e, room) in
    rw
      (
        read_u32-append sz words room,
        drop-append (le_bytes 4 sz) words 4 (sym (length-le_bytes 4 sz)),
        read_u32-append (suc (length nodes)) (stored (node ∷ nodes) behind) few,
        drop_words sz (suc (length nodes)) (stored (node ∷ nodes) behind),
        read_nodes_lem (node ∷ nodes) behind h,
      )
      (ground (arith, e))

counted :
    (nodes : List FieldKey)
    → size_of nodes < 2 ^ 32
    → count_loop nodes 0 0 ≡ (size_of nodes, length nodes)
counted nodes room =
    count_loop_lem nodes 0 0 (omega arith) (omega arith)
    ∙ ap (λ n. (n, 0 + length nodes)) {x = 0 + size_of nodes} {y = size_of nodes} (omega arith)
    ∙ ap (λ n. (size_of nodes, n)) {x = 0 + length nodes} {y = length nodes} (omega arith)

module _ (alloc : ℕ → List ℕ) (alloc_size : (n : ℕ) → length (alloc n) ≡ n) where
  pub serialise_lem :
      (nodes : List FieldKey)
      → All IsNode nodes
      → size_of nodes + 8 < 2 ^ 32
      → serialise alloc nodes ≡ some (buffer (size_of nodes + 8) nodes [], size_of nodes + 8)
  unfolding serialise
  serialise_lem nodes h room =
      let sz = size_of nodes + 8 in
      let same : (size_of nodes + 8) % 2 ^ 32 ≡ sz = omega arith in
      rw
        (
          counted nodes (omega arith),
          write_nodes-stored nodes h,
          same,
          copy_at-whole (alloc sz) (buffer sz nodes [])
              (omega (arith, length-buffer sz nodes h, alloc_size sz)),
        )
        refl

  -- For nodes as `eggFieldKey_new` makes them, of less than 2 ^ 32 bytes in all, `eggFieldKey_serialise`
  -- stays inside its buffer, which has the size that it reports, and `eggFieldKey_unserialise` of the
  -- buffer gives the nodes back.
  pub unserialise-serialise :
      (nodes : List FieldKey)
      → All IsNode nodes
      → size_of nodes + 8 < 2 ^ 32
      → (buf : List ℕ) × (serialise alloc nodes ≡ some (buf, size_of nodes + 8))
        × (length buf ≡ size_of nodes + 8)
        × (unserialise buf ≡ some nodes)
  unserialise-serialise nodes h room =
      let sz = size_of nodes + 8 in
      (
        buffer sz nodes [],
        serialise_lem nodes h room,
        length-buffer sz nodes h,
        unserialise_lem sz nodes [] h refl room,
      )
