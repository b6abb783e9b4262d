-- ===== src/Document/Stored.antt =====
-- The block that `eggDocument_serialization` fills.
use egg.Base.{
  ℕ, zero, suc, ◌+◌, ◌%◌, ◌^◌, ◌≤◌, ◌<◌, ◌≡◌, refl, ap, sym, ◌∙◌, Bool, true, false, Option, some,
  none, List, [], ◌∷◌, ◌++◌, append_assoc, append-nil, length, length-append, length-take,
  length-drop, take, drop, take-drop, if◌then◌else◌, arith, All,
}
use egg.Base.Bytes.{read_bytes, read_u32}
use egg.FieldKey.Stream.{read_bytes-all}
use egg.Vector.{copy_at}
use egg.Vector.Copy.{copy_at-part}
use egg.Field.{Field, has, other_dict, get_value}
use egg.Field
use egg.Field.RoundTrip.{read_u32-node}
use egg.Field.Stored.{
  IsStorable, node_size, strings_of, stored, length-stored, serialization_lem,
  get_serializationsize_lem,
}
use egg.Document.Header.{header_of, node_header_lem, header_split, length-header_of}
use egg.Document.{Document, is_stored, size_loop, write_loop, node_header, serialization}

-- The dictionary that is stored with a field.
abbrev pub dict_of : Field → Option (List ℕ)
dict_of f = if has f.type other_dict then f.dict_name else none

abbrev pub Storable : Field → Type 0
Storable f = IsStorable f (dict_of f)

-- The fields that are stored.
pub data Kept (all : Bool) : List Field → List Field → Type 0 where
  none_left : Kept all [] []
  keep :
      (f : Field) {fields kept : List Field}
      → is_stored all f ≡ true
      → Kept all fields kept
      → Kept all (f ∷ fields) (f ∷ kept)
  skip :
      (f : Field) {fields kept : List Field}
      → is_stored all f ≡ false
      → Kept all fields kept
      → Kept all (f ∷ fields) kept

-- What they take, and their nodes one behind the other.
abbrev pub size_all : List Field → ℕ
size_all [] = 0
size_all (f ∷ fields) = node_size f (dict_of f) + size_all fields

abbrev pub stored_all : List Field → List ℕ
stored_all [] = []
stored_all (f ∷ fields) = stored f (dict_of f) ++ stored_all fields

size_loop_lem :
    (all : Bool) {fields kept : List Field} (count size cnt : ℕ)
    → Kept all fields kept
    → All Storable kept
    → count ≡ length fields
    → size + size_all kept < 2 ^ 32
    → cnt ≤ size
    → size_loop all count fields size cnt ≡ some (size + size_all kept, cnt + length kept)
unfolding size_loop
size_loop_lem all zero size cnt none_left h e room few =
    ap (λ n. some (n, cnt)) {x = size} (omega arith)
    ∙ ap (λ n. some (size + 0, n)) {x = cnt} (omega arith)
size_loop_lem all (suc count) size cnt none_left h e room few = absurd (omega (arith, e))
size_loop_lem all zero size cnt (keep f is k) h e room few = absurd (omega (arith, e))
size_loop_lem all (suc count) size cnt (keep f {fields} {kept} is k) (v, vs) e room few =
    let n = node_size f (dict_of f) in
    let more : (size + n) % 2 ^ 32 ≡ size + n = omega arith in
    let next : (cnt + 1) % 2 ^ 32 ≡ cnt + 1 = omega arith in
    rw (is, get_serializationsize_lem f (dict_of f) v, more, next)
      (size_loop_lem all count (size + n) (cnt + 1) k vs (omega (arith, e)) (omega arith)
          (omega arith)
        ∙ ap (λ m. some (m, cnt + 1 + length kept)) {x = size + n + size_all kept} (omega arith)
        ∙ ap (λ m. some (size + (n + size_all kept), m)) {x = cnt + 1 + length kept} (omega arith))
size_loop_lem all zero size cnt (skip f is k) h e room few = absurd (omega (arith, e))
size_loop_lem all (suc count) size cnt (skip f is k) h e room few =
    rw is (size_loop_lem all count size cnt k h (omega (arith, e)) room few)

pub read_size :
    (f : Field) (behind : List ℕ)
    → Storable f
    → read_u32 (stored f (dict_of f) ++ behind) ≡ some (node_size f (dict_of f))
read_size f behind h =
    read_u32-node (node_size f (dict_of f)) f.type (8 + length (strings_of f (dict_of f)))
      (strings_of f (dict_of f) ++ get_value f) behind h.whole

write_keep :
    (all : Bool) (count : ℕ) (f : Field) (next : List Field) (block node bytes block' : List ℕ)
    (at n : ℕ)
    → is_stored all f ≡ true
    → Field.serialization f ≡ some node
    → read_u32 node ≡ some n
    → read_bytes n node ≡ some bytes
    → copy_at block at bytes ≡ some block'
    → write_loop all (suc count) (f ∷ next) block at ≡ write_loop all count next block' (at + n)
unfolding write_loop
write_keep all count f next block node bytes block' at n is made sized read copied =
    rw (is, made, sized, read, copied) refl

write_loop_lem :
    (all : Bool) {fields kept : List Field} (count : ℕ) (front rest : List ℕ) (at : ℕ)
    → Kept all fields kept
    → All Storable kept
    → count ≡ length fields
    → at ≡ length front
    → length rest ≡ size_all kept
    → write_loop all count fields (front ++ rest) at ≡ some (front ++ stored_all kept)
unfolding write_loop
write_loop_lem all zero front [] at none_left h e place room = refl
write_loop_lem all zero front (x ∷ rest) at none_left h e place room = absurd (omega (arith, room))
write_loop_lem all (suc count) front rest at none_left h e place room = absurd (omega (arith, e))
write_loop_lem all zero front rest at (keep f is k) h e place room = absurd (omega (arith, e))
write_loop_lem all (suc count) front rest at (keep f {fields} {kept} is k) (v, vs) e place room =
    let node = stored f (dict_of f) in
    let n = node_size f (dict_of f) in
    let long : length node ≡ n = length-stored f (dict_of f) v.field in
    let sized : read_u32 node ≡ some n = ap read_u32 (sym (append-nil node)) ∙ read_size f [] v in
    let over : length (take n rest) ≡ length node = omega (arith, long, room, length-take n rest) in
    let behind = drop n rest in
    let copied : copy_at (front ++ rest) at node ≡ some ((front ++ node) ++ behind) =
      ap (λ l. copy_at (front ++ l) at node) (sym (take-drop n rest))
      ∙ copy_at-part front (take n rest) behind node at place over
      ∙ ap some (sym (append_assoc front node behind)) in
    write_keep all count f fields (front ++ rest) node node ((front ++ node) ++ behind) at n is
      (serialization_lem f (dict_of f) v) sized (read_bytes-all n node long) copied
    ∙ write_loop_lem all count (front ++ node) behind (at + n) k vs (omega (arith, e))
        (omega (arith, place, long, length-append front node))
        (omega (arith, room, length-drop n rest))
    ∙ ap some (append_assoc front node (stored_all kept))
write_loop_lem all zero front rest at (skip f is k) h e place room = absurd (omega (arith, e))
write_loop_lem all (suc count) front rest at (skip f is k) h e place room =
    rw is (write_loop_lem all count front rest at k h (omega (arith, e)) place room)

serialization-steps :
    (alloc : ℕ → List ℕ) (all : Bool) (d : Document) (total cnt size : ℕ) (node r : List ℕ)
    → size_loop all d.count d.fields 0 0 ≡ some (total, cnt)
    → (20 + total) % 2 ^ 32 ≡ size
    → node_header (alloc (20 + total)) cnt size d.weight ≡ some node
    → write_loop all d.count d.fields node 20 ≡ some r
    → serialization alloc all d ≡ some r
unfolding serialization
serialization-steps alloc all d total cnt size node r counted whole made written =
    rw (counted, whole, made) written

-- The stored form of a document: its header with the bytes that are not written, and the nodes.
abbrev pub doc_node : List Field → ℕ → List ℕ → List ℕ → List ℕ
doc_node kept weight pad last =
    header_of (length kept) (20 + size_all kept) weight pad (last ++ stored_all kept)

pub serialization_fills :
    (alloc : ℕ → List ℕ)
    → ((n : ℕ) → length (alloc n) ≡ n)
    → (all : Bool) (d : Document) (kept : List Field) → d.count ≡ length d.fields
    → Kept all d.fields kept
    → All Storable kept
    → 20 + size_all kept < 2 ^ 32
    → (pad : List ℕ) × (last : List ℕ) × (serialization alloc all d
        ≡ some (doc_node kept d.weight pad last))
      × (length pad ≡ 3)
      × (length last ≡ 4)
serialization_fills alloc alloc_size all d kept e k h room =
    let total = size_all kept in
    let cnt = length kept in
    let counted : size_loop all d.count d.fields 0 0 ≡ some (total, cnt) =
      size_loop_lem all d.count 0 0 k h e (omega arith) (omega arith)
      ∙ ap (λ n. some (n, 0 + cnt)) {x = 0 + total} {y = total} (omega arith)
      ∙ ap (λ n. some (total, n)) {x = 0 + cnt} {y = cnt} (omega arith) in
    let (pad, rest, made, hp, hr) =
      node_header_lem (alloc (20 + total)) cnt (20 + total) d.weight
        (omega (arith, alloc_size (20 + total))) in
    let long : length rest ≡ 4 + total = omega (arith, hr, alloc_size (20 + total)) in
    let last = take 4 rest in
    let hl : length last ≡ 4 = omega (arith, length-take 4 rest, long) in
    let front = header_of cnt (20 + total) d.weight pad last in
    let parts : header_of cnt (20 + total) d.weight pad rest ≡ front ++ drop 4 rest =
      ap (header_of cnt (20 + total) d.weight pad) (sym (take-drop 4 rest))
      ∙ header_split cnt (20 + total) d.weight pad last (drop 4 rest) in
    (
      pad,
      last,
      serialization-steps alloc all d total cnt (20 + total) (front ++ drop 4 rest)
          (doc_node kept d.weight pad last) counted (omega (arith, room)) (made ∙ ap some parts)
          (write_loop_lem all d.count front (drop 4 rest) 20 k h e
              (omega (arith, hl, length-header_of cnt (20 + total) d.weight pad last hp))
              (omega (arith, long, length-drop 4 rest))
            ∙ ap some (sym (header_split cnt (20 + total) d.weight pad last (stored_all kept)))),
      hp,
      hl,
    )
