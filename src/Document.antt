-- ===== src/Document.antt =====
-- egg3/src/interface/eggDocument.c and egg3/src/storage/eggDocNode.h: documents, their fields in a linked
-- list with a count beside it, and their stored form. A pointer to a field is the list from it on, NULL
-- the empty one. `none` is an access through NULL or outside a block. `g_doc_compress` is never set, so
-- that nodes are not compressed.
pub mod Lookup
pub mod Header
pub mod Stored
pub mod RoundTrip
mod Runs
use egg.Base.{
  ℕ, zero, suc, ◌+◌, ◌-◌, ◌%◌, ◌^◌, Bool, true, false, ◌&&◌, ◌||◌, Option, none, some, List, [],
  ◌∷◌, ◌++◌, ◌>>=◌, length, drop, ◌==◌, if◌then◌else◌,
}
use egg.Base.Bytes.{le_bytes, read_bytes, read_u32}
use egg.FieldKey.{bytes_eq}
use egg.Vector.{copy_at}
use egg.Field.{Field, get_value, has, storage, set_value, get_serializationsize}
use egg.Field

-- `struct eggDocument`; the weight is its 32 bits.
pub record Document : Type 0 where
  pub fields : List Field
  pub count : ℕ
  pub weight : ℕ

abbrev pub new : Document
new = record { fields = []; count = 0; weight = 0 }

abbrev pub add : Document → Field → Document
add d f = record d { fields = f ∷ d.fields; count = (d.count + 1) % 2 ^ 32 }

-- The test of a name: the lengths, then `memcmp`.
abbrev pub named : List ℕ → Field → Bool
named name f = (length name == length f.name) && bytes_eq name f.name

-- `while (n_field_cnt--)`
pub field_loop : ℕ → List ℕ → List Field → Option (List Field)
field_loop zero name iter = some []
field_loop (suc count) name [] = none
field_loop (suc count) name (f ∷ next) =
    if named name f then some (f ∷ next) else field_loop count name next

-- A name that is NULL asks for the head.
pub get_field : Document → Option (List ℕ) → Option (List Field)
unfolding field_loop
get_field d none = some d.fields
get_field d (some name) = field_loop d.count name d.fields

-- The size, and the block unless it is NULL.
pub get_doc : (ℕ → List ℕ) → Document → List ℕ → Option (ℕ × List ℕ)
unfolding get_field
get_doc alloc d name = do
  found ← get_field d (some name)
  elim found [
    | [] ↦ some (0, [])
    | f ∷ next ↦ do
      value ← read_bytes f.size f.buf
      filled ← copy_at (alloc ((f.size + 8) % 2 ^ 32)) 0 value
      block ← copy_at filled f.size (0 ∷ [])
      some (f.size, block)
  ]

-- `none` of the names is NULL. A field that is found is changed where it lies.
pub set_loop : (ℕ → List ℕ) → ℕ → List ℕ → List ℕ → ℕ → List Field → Option (Bool × List Field)
set_loop alloc zero name value size iter = some (false, iter)
set_loop alloc (suc count) name value size [] = none
set_loop alloc (suc count) name value size (f ∷ next) =
    let found = (do r ← set_value alloc f value size; some (true, (r.1) ∷ next)) in
    let further = (do r ← set_loop alloc count name value size next; some (r.0, f ∷ r.1)) in
    if named name f then found else further

pub set_doc : (ℕ → List ℕ) → Document → Option (List ℕ) → List ℕ → ℕ → Option (Bool × Document)
unfolding set_loop
set_doc alloc d none value size = some (false, d)
set_doc alloc d (some name) value size = do
  r ← set_loop alloc d.count name value size d.fields
  some (r.0, record d { fields = r.1 })

-- The field that is found and what is left of the list.
pub remove_loop : ℕ → List ℕ → List Field → Option (Option Field × List Field)
remove_loop zero name iter = some (none, iter)
remove_loop (suc count) name [] = none
remove_loop (suc count) name (f ∷ next) =
    let further = (do r ← remove_loop count name next; some (r.0, f ∷ r.1)) in
    if named name f then some (some f, next) else further

abbrev after_remove : Document → Option Field × List Field → Option Field × Document
after_remove d (none, fields) = (none, record d { fields = fields })
after_remove d (some f, fields) = (some f, record d { fields = fields; count = d.count - 1 })

pub remove_field_byname : Document → Option (List ℕ) → Option (Option Field × Document)
unfolding remove_loop
remove_field_byname d none = some (none, d)
remove_field_byname d (some name) = do
  r ← remove_loop d.count name d.fields
  some (after_remove d r)

-- Whether a field is stored; `all` is `g_doc_storage`.
abbrev pub is_stored : Bool → Field → Bool
is_stored all f = all || has f.type storage

-- `n_docNode_sz` and `n_docNode_cnt`
pub size_loop : Bool → ℕ → List Field → ℕ → ℕ → Option (ℕ × ℕ)
size_loop all zero iter size cnt = some (size, cnt)
size_loop all (suc count) [] size cnt = none
size_loop all (suc count) (f ∷ next) size cnt =
    let kept = (do
      n ← get_serializationsize f
      size_loop all count next ((size + n) % 2 ^ 32) ((cnt + 1) % 2 ^ 32)) in
    let skipped = size_loop all count next size cnt in if is_stored all f then kept else skipped

-- The nodes at `at` and on.
pub write_loop : Bool → ℕ → List Field → List ℕ → ℕ → Option (List ℕ)
write_loop all zero iter block at = some block
write_loop all (suc count) [] block at = none
write_loop all (suc count) (f ∷ next) block at =
    let kept = (do
      node ← Field.serialization f
      size ← read_u32 node
      bytes ← read_bytes size node
      block' ← copy_at block at bytes
      write_loop all count next block' (at + size)) in
    let skipped = write_loop all count next block at in if is_stored all f then kept else skipped

-- The words of the node: `count`, `type`, `size`, `weight`.
pub node_header : List ℕ → ℕ → ℕ → ℕ → Option (List ℕ)
node_header block count size weight = do
  counted ← copy_at block 8 (le_bytes 4 count)
  typed ← copy_at counted 0 (2 ∷ [])
  sized ← copy_at typed 4 (le_bytes 4 size)
  copy_at sized 12 (le_bytes 4 weight)

pub serialization : (ℕ → List ℕ) → Bool → Document → Option (List ℕ)
serialization alloc all d = do
  counted ← size_loop all d.count d.fields 0 0
  let size = (20 + counted.0) % 2 ^ 32
  node ← node_header (alloc (20 + counted.0)) (counted.1) size d.weight
  write_loop all d.count d.fields node 20

-- `while(count--)`, with the bytes at `lp_iter_pointer`.
pub read_loop : (ℕ → List ℕ) → ℕ → List ℕ → Document → Option Document
read_loop alloc zero bytes d = some d
read_loop alloc (suc count) bytes d = do
  f ← Field.unserialization alloc bytes
  size ← read_u32 bytes
  read_loop alloc count (drop size bytes) (add d f)

pub unserialization : (ℕ → List ℕ) → List ℕ → Option Document
unserialization alloc node = do
  count ← read_u32 (drop 8 node)
  weight ← read_u32 (drop 12 node)
  read_loop alloc count (drop 20 node) (record new { weight = weight })
