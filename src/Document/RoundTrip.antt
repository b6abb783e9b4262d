-- ===== src/Document/RoundTrip.antt =====
-- What `eggDocument_serialization` stores, `eggDocument_unserialization` reads back.
use egg.Base.{
  ℕ, suc, ◌+◌, ◌%◌, ◌^◌, ◌≤◌, ◌<◌, ◌≡◌, refl, ap, sym, ◌∙◌, Bool, some, List, [], ◌∷◌, ◌++◌,
  append_assoc, length, drop, drop-append, if◌then◌else◌, arith, All, Bool-cases, inl, inr,
}
use egg.Base.Bytes.{le_bytes, read_u32, read_u32-append}
use egg.Field.{Field}
use egg.Field
use egg.Field.Stored.{node_size, stored, length-stored}
use egg.Field.RoundTrip.{Restored, read_stored}
use egg.Document.{Document, new, add, is_stored, serialization, read_loop, unserialization}
use egg.Document.Header.{header_of, header_split, header_reads}
use egg.Document.Lookup.{IsDocument}
use egg.Document.Stored.{
  dict_of, Storable, Kept, none_left, keep, skip, size_all, stored_all, read_size, doc_node,
  serialization_fills,
}

-- The fields that are stored, in the order of the list.
abbrev pub kept_of : Bool → List Field → List Field
kept_of all [] = []
kept_of all (f ∷ fields) = if is_stored all f then f ∷ kept_of all fields else kept_of all fields

kept_of-Kept : (all : Bool) (fields : List Field) → Kept all fields (kept_of all fields)
kept_of-Kept all [] = none_left
kept_of-Kept all (f ∷ fields) = elim (Bool-cases (is_stored all f)) [
  | inl is ↦ rw is (keep f is (kept_of-Kept all fields))
  | inr is_not ↦ rw is_not (skip f is_not (kept_of-Kept all fields))
]

-- Each field of one list restored from the field at its place in the other.
abbrev pub AllRestored : List Field → List Field → Type 0
AllRestored [] [] = Unit
AllRestored [] (g ∷ gs) = ⊥
AllRestored (f ∷ fields) [] = ⊥
AllRestored (f ∷ fields) (g ∷ gs) = Restored f (dict_of f) g × AllRestored fields gs

-- One field after the other put in front.
abbrev pub in_front : List Field → List Field → List Field
in_front [] fields = fields
in_front (g ∷ gs) fields = in_front gs (g ∷ fields)

module _ (alloc : ℕ → List ℕ) where
  read_step :
      (count : ℕ) (bytes : List ℕ) (d : Document) (g : Field) (size : ℕ)
      → Field.unserialization alloc bytes ≡ some g
      → read_u32 bytes ≡ some size
      → read_loop alloc (suc count) bytes d ≡ read_loop alloc count (drop size bytes) (add d g)
  unfolding read_loop
  read_step count bytes d g size read sized = rw (read, sized) refl

  read_parts :
      (node : List ℕ) (count weight : ℕ)
      → read_u32 (drop 8 node) ≡ some count
      → read_u32 (drop 12 node) ≡ some weight
      → unserialization alloc node
        ≡ read_loop alloc count (drop 20 node) (record new { weight = weight })
  unfolding unserialization
  read_parts node count weight counted weighed = rw (counted, weighed) refl

module _ (alloc : ℕ → List ℕ) (alloc_size : (n : ℕ) → length (alloc n) ≡ n) where
  read_loop_lem :
      (kept : List Field) (behind : List ℕ) (d : Document)
      → All Storable kept
      → d.count + length kept < 2 ^ 32
      → (gs : List Field) × (read_loop alloc (length kept) (stored_all kept ++ behind) d
          ≡ some (record d { fields = in_front gs d.fields; count = d.count + length kept }))
        × AllRestored kept gs
  unfolding read_loop
  read_loop_lem [] behind d h room = (
    [],
    ap (λ n. some (record d { count = n })) {x = d.count} {y = d.count + 0} (omega arith),
    tt,
  )
  read_loop_lem (f ∷ kept) behind d (v, vs) room =
      let node = stored f (dict_of f) in
      let size = node_size f (dict_of f) in
      let (g, read, same) =
        read_stored alloc alloc_size f (dict_of f) (stored_all kept ++ behind) v in
      let next : (d.count + 1) % 2 ^ 32 ≡ d.count + 1 = omega arith in
      let (gs, rest, restored) =
        read_loop_lem kept behind (record d { fields = g ∷ d.fields; count = d.count + 1 }) vs
          (omega arith) in
      (
        g ∷ gs,
        ap (λ l. read_loop alloc (suc (length kept)) l d)
              (append_assoc node (stored_all kept) behind)
            ∙ read_step alloc (length kept) (node ++ (stored_all kept ++ behind)) d g size read
                (read_size f (stored_all kept ++ behind) v)
            ∙ ap (λ l. read_loop alloc (length kept) l (add d g))
                (drop-append node (stored_all kept ++ behind) size
                  (sym (length-stored f (dict_of f) v.field)))
            ∙ ap
                (λ n.
                  read_loop alloc (length kept) (stored_all kept ++ behind)
                    (record d { fields = g ∷ d.fields; count = n }))
                next
            ∙ rest
            ∙ ap (λ n. some (record d { fields = in_front gs (g ∷ d.fields); count = n }))
                {x = d.count + 1 + length kept} {y = d.count + suc (length kept)} (omega arith),
        (same, restored),
      )

  few_kept : (kept : List Field) → length kept ≤ size_all kept
  few_kept [] = omega arith
  few_kept (f ∷ kept) = omega (arith, few_kept kept)

  read_doc :
      (kept : List Field) (weight : ℕ) (pad last behind : List ℕ)
      → All Storable kept
      → 20 + size_all kept < 2 ^ 32
      → weight < 2 ^ 32
      → length pad ≡ 3
      → length last ≡ 4
      → (gs : List Field) × (unserialization alloc (doc_node kept weight pad last ++ behind)
          ≡ some (record { fields = in_front gs []; count = length kept; weight = weight }))
        × AllRestored kept gs
  unfolding unserialization
  read_doc kept weight pad last behind h room small hp hl =
      let size = 20 + size_all kept in
      let body = stored_all kept ++ behind in
      let node = header_of (length kept) size weight pad (last ++ body) in
      let whole : doc_node kept weight pad last ++ behind ≡ node =
        ap (λ l. l ++ behind) (header_split (length kept) size weight pad last (stored_all kept))
        ∙ append_assoc (header_of (length kept) size weight pad last) (stored_all kept) behind
        ∙ sym (header_split (length kept) size weight pad last body) in
      let (at_count, at_weight, at_body) =
        header_reads (length kept) size weight pad last body hp hl in
      let count_read : read_u32 (drop 8 node) ≡ some (length kept) =
        ap read_u32 at_count
        ∙ read_u32-append (length kept) (le_bytes 4 weight ++ (last ++ body))
            (omega (arith, few_kept kept)) in
      let weight_read : read_u32 (drop 12 node) ≡ some weight =
        ap read_u32 at_weight ∙ read_u32-append weight (last ++ body) small in
      let (gs, read, restored) =
        read_loop_lem kept behind (record new { weight = weight }) h
          (omega (arith, few_kept kept)) in
      (
        gs,
        ap (unserialization alloc) whole
            ∙ read_parts alloc node (length kept) weight count_read weight_read
            ∙ ap (λ l. read_loop alloc (length kept) l (record new { weight = weight })) at_body
            ∙ read
            ∙ ap (λ n. some (record { fields = in_front gs []; count = n; weight = weight }))
                {x = 0 + length kept} {y = length kept} (omega arith),
        restored,
      )

  -- For a document whose count is that of its list and whose stored fields fit their headers,
  -- `eggDocument_serialization` stays inside its block, and `eggDocument_unserialization` of the block,
  -- whatever lies behind it, gives a document with the same weight, the count of the fields that are
  -- stored, and these fields restored, each put in front of the one before it: their order is reversed.
  pub unserialization-serialization_doc :
      (all : Bool) (d : Document) (behind : List ℕ)
      → IsDocument d
      → All Storable (kept_of all d.fields)
      → 20 + size_all (kept_of all d.fields) < 2 ^ 32
      → d.weight < 2 ^ 32
      → (node : List ℕ) × (gs : List Field) × (serialization alloc all d ≡ some node)
        × (unserialization alloc (node ++ behind)
            ≡ some (record {
              fields = in_front gs [];
              count = length (kept_of all d.fields);
              weight = d.weight;
            }))
        × AllRestored (kept_of all d.fields) gs
  unserialization-serialization_doc all d behind e h room small =
      let kept = kept_of all d.fields in
      let (pad, last, made, hp, hl) =
        serialization_fills alloc alloc_size all d kept e (kept_of-Kept all d.fields) h room in
      let (gs, read, restored) = read_doc kept d.weight pad last behind h room small hp hl in
      (doc_node kept d.weight pad last, gs, made, read, restored)
