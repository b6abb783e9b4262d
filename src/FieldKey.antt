-- ===== src/FieldKey.antt =====
-- egg3/src/search/eggFieldKey.c and egg3/src/eggFieldKey.h: the keys that a query asks of fields, a
-- linked list of a field's name and a key. A list is the list of its nodes, NULL the empty one. A name
-- is its characters without the 0 behind them. `none` is a read outside a block, a string without an
-- end, or a write outside the buffer. The tests for equal pointers in `equal` save work only: what they
-- skip would give the same.
pub mod Stream
pub mod Matching
mod Runs
use egg.Base.{
  ℕ, zero, suc, ◌+◌, ◌-◌, ◌%◌, ◌^◌, Bool, true, false, ◌&&◌, ◌||◌, Option, none, some, List, [],
  ◌∷◌, ◌++◌, ◌>>=◌, length, take, drop, leb, leb-true, take-all, refl, ◌≡◌, arith, ◌==◌,
  if◌then◌else◌,
}
use egg.Base.Bytes.{le_bytes, read_bytes, read_u32, c_string}
use egg.Vector.{copy_at}

-- `struct eggFieldKey`
pub record FieldKey : Type 0 where
  pub field_name : List ℕ
  pub key_sz : ℕ
  pub key : List ℕ

-- `eggFieldKey_new`: `none` among the arguments is NULL.
pub new : Option (List ℕ) → Option (List ℕ) → ℕ → Option (List FieldKey)
new none key key_sz = some []
new (some []) key key_sz = some []
new (some (c ∷ chars)) none key_sz = some []
new (some (c ∷ chars)) (some key) key_sz =
    let made = (do
      bytes ← read_bytes key_sz key
      some (record { field_name = c ∷ chars; key_sz = key_sz; key = bytes } ∷ [])) in
    if key_sz == 0 then some [] else made

new_steps :
    (c : ℕ) (chars : List ℕ) (k : ℕ) (key : List ℕ)
    → new (some (c ∷ chars)) (some (k ∷ key)) (length (k ∷ key))
      ≡ some (record { field_name = c ∷ chars; key_sz = length (k ∷ key); key = k ∷ key } ∷ [])
unfolding new read_bytes
new_steps c chars k key =
    rw
      (
        leb-true {a = length (k ∷ key)} {b = length (k ∷ key)} (omega arith),
        take-all (length (k ∷ key)) (k ∷ key) (omega arith),
      )
      (ground arith)

-- A name and a key with its own size never fail.
pub new-some :
    (field_name key : List ℕ)
    → (nodes : List FieldKey) × (new (some field_name) (some key) (length key) ≡ some nodes)
unfolding new
new-some [] key = ([], refl)
new-some (c ∷ chars) [] = ([], refl)
new-some (c ∷ chars) (k ∷ key) = (
  record { field_name = c ∷ chars; key_sz = length (k ∷ key); key = k ∷ key } ∷ [],
  new_steps c chars k key,
)

-- The walk to the last node, which gets the tail as its `next`.
pub link_last : FieldKey → List FieldKey → List FieldKey → List FieldKey
link_last node [] tail = node ∷ tail
link_last node (next ∷ nodes) tail = node ∷ link_last next nodes tail

pub append : List FieldKey → List FieldKey → List FieldKey
unfolding link_last
append [] tail = tail
append (node ∷ nodes) [] = node ∷ nodes
append (node ∷ nodes) (t ∷ tail) = link_last node nodes (t ∷ tail)

pub dup_node : FieldKey → Option FieldKey
dup_node node = do
  bytes ← read_bytes node.key_sz node.key
  some (record { field_name = node.field_name; key_sz = node.key_sz; key = bytes })

pub dup : List FieldKey → Option (List FieldKey)
unfolding dup_node
dup [] = some []
dup (node ∷ nodes) = do node' ← dup_node node; nodes' ← dup nodes; some (node' ∷ nodes')

-- `strcmp(...) == 0` of names, `memcmp(...) == 0` of as many bytes of keys.
unfoldable pub bytes_eq : List ℕ → List ℕ → Bool
bytes_eq [] [] = true
bytes_eq [] (y ∷ ys) = false
bytes_eq (x ∷ xs) [] = false
bytes_eq (x ∷ xs) (y ∷ ys) = (x == y) && bytes_eq xs ys

pub same_key : FieldKey → FieldKey → Bool
unfolding bytes_eq
same_key p q =
    bytes_eq q.field_name p.field_name
    && ((q.key_sz == p.key_sz) && bytes_eq (take q.key_sz q.key) (take q.key_sz p.key))

-- The inner loop stops at a node that is the same, and the outer one goes on if it did.
pub find_same : FieldKey → List FieldKey → Bool
unfolding same_key
find_same p [] = false
find_same p (q ∷ qs) = if same_key p q then true else find_same p qs

pub all_found : List FieldKey → List FieldKey → Bool
unfolding find_same
all_found [] qs = true
all_found (p ∷ ps) qs = if find_same p qs then all_found ps qs else false

pub equal : List FieldKey → List FieldKey → Bool
unfolding all_found
equal [] [] = true
equal [] (q ∷ qs) = false
equal (p ∷ ps) [] = false
equal (p ∷ ps) (q ∷ qs) =
    if length (p ∷ ps) == length (q ∷ qs) then all_found (p ∷ ps) (q ∷ qs) else false

-- The first loop of `eggFieldKey_serialise`: `*sz` and `count`.
pub count_loop : List FieldKey → ℕ → ℕ → ℕ × ℕ
count_loop [] sz count = (sz, count)
count_loop (node ∷ nodes) sz count =
    count_loop nodes ((sz + (length node.field_name + 1) + node.key_sz + 4) % 2 ^ 32)
      ((count + 1) % 2 ^ 32)

-- What the second loop writes, in order from `p`.
pub write_nodes : List FieldKey → Option (List ℕ)
write_nodes [] = some []
write_nodes (node ∷ nodes) = do
  key ← read_bytes node.key_sz node.key
  rest ← write_nodes nodes
  some (node.field_name ++ (0 ∷ (le_bytes 4 node.key_sz ++ (key ++ rest))))

-- The buffer and `*sz`. The writes run from the start of the block without a gap.
pub serialise : (ℕ → List ℕ) → List FieldKey → Option (List ℕ × ℕ)
unfolding count_loop write_nodes
serialise alloc nodes =
    let counted = count_loop nodes 0 0 in
    let sz = (counted.0 + 8) % 2 ^ 32 in
    do
      body ← write_nodes nodes
      buf ← copy_at (alloc sz) 0 (le_bytes 4 sz ++ (le_bytes 4 (counted.1) ++ body))
      some (buf, sz)

-- One node from the bytes at `buf`, and the bytes behind it.
pub read_node : List ℕ → Option (FieldKey × List ℕ)
read_node buf = do
  field_name ← c_string buf
  let buf' = drop (length field_name + 1) buf
  key_sz ← read_u32 buf'
  key ← read_bytes key_sz (drop 4 buf')
  some (record { field_name = field_name; key_sz = key_sz; key = key }, drop key_sz (drop 4 buf'))

-- The first node and `while (--count)`: `count` nodes.
pub read_nodes : ℕ → List ℕ → Option (List FieldKey)
unfolding read_node
read_nodes zero buf = some []
read_nodes (suc count) buf = do
  r ← read_node buf
  nodes ← read_nodes count (r.1)
  some (r.0 ∷ nodes)

-- What stands behind the end that `size` gives is logged only.
pub unserialise : List ℕ → Option (List FieldKey)
unfolding read_nodes
unserialise buf = do
  size ← read_u32 buf
  let stored = (do
    count ← read_u32 (drop 4 buf)
    if count == 0 then some [] else read_nodes count (drop 8 buf))
  if leb size 8 then some [] else stored
