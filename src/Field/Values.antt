-- ===== src/Field/Values.antt =====
-- What the operations on a value leave to be read.
use egg.Base.{
  bit_or, ℕ, zero, suc, ◌+◌, ◌%◌, ◌^◌, ◌≤◌, ◌<◌, ◌≡◌, refl, ap, sym, ◌∙◌, Bool, true, false, Option,
  some, List, [], ◌∷◌, ◌++◌, length, take, drop, length-append, length-take, length-drop, take-all,
  take-front, ltb, leb, leb-true, if◌then◌else◌, arith, Bool-cases, inl, inr,
}
use egg.Base.Bytes.{read_bytes}
use egg.Vector.{copy_at}
use egg.Vector.Grow.{copy_at_lem}
use egg.Field.{
  compressed, compress, decompress, Field, realloc, get_value, dup_value, dup, set_value, blank,
  default_type, analyzer_of, range_index, append_value, new, has, index_string,
}

-- The value lies in its block.
pub record IsField (f : Field) : Type 0 where
  pub inside : f.size ≤ length f.buf
  pub small : f.size < 2 ^ 32

pub read_bytes-inside :
    (n : ℕ) (bytes : List ℕ) → n ≤ length bytes → read_bytes n bytes ≡ some (take n bytes)
unfolding read_bytes
read_bytes-inside n bytes h = rw (leb-true h) refl

take-min : (k n : ℕ) (xs : List ℕ) → k ≤ n → take k (take n xs) ≡ take k xs
take-min zero n xs h = refl
take-min (suc k) zero xs h = absurd (omega arith)
take-min (suc k) (suc n) [] h = refl
take-min (suc k) (suc n) (x ∷ xs) h = ap (◌∷◌ x) (take-min k n xs (omega arith))

-- What a copy leaves in front of it.
copy_keeps :
    (r cells units : List ℕ) (at k : ℕ)
    → take (at + length units) r ≡ take at cells ++ units
    → k ≤ at
    → at ≤ length cells
    → take k r ≡ take k cells
copy_keeps r cells units at k e h room =
    sym (take-min k (at + length units) r (omega arith))
    ∙ ap (take k) e
    ∙ take-front k (take at cells) units (omega (arith, length-take at cells))
    ∙ take-min k at cells h

-- What a call gives has the value that is given.
abbrev pub Shows : Option (Bool × Field) → List ℕ → Type 0
Shows m bytes = (g : Field) × (m ≡ some (true, g)) × (get_value g ≡ bytes) × IsField g

module _ (alloc : ℕ → List ℕ) (alloc_size : (n : ℕ) → length (alloc n) ≡ n) where
  length-realloc : (block : List ℕ) (n : ℕ) → length (realloc alloc block n) ≡ n
  unfolding realloc
  length-realloc block n = omega (
    arith,
    length-take n (block ++ drop (length block) (alloc n)),
    length-append block (drop (length block) (alloc n)),
    length-drop (length block) (alloc n),
    alloc_size n,
  )

  realloc-keeps :
      (block : List ℕ) (n k : ℕ)
      → k ≤ n
      → k ≤ length block
      → take k (realloc alloc block n) ≡ take k block
  unfolding realloc
  realloc-keeps block n k h room =
      take-min k n (block ++ drop (length block) (alloc n)) h
      ∙ take-front k block (drop (length block) (alloc n)) room

  -- The block that `eggField_set_value` writes to has room.
  set_room :
      (f : Field) (size : ℕ)
      → IsField f
      → size ≤ length (if ltb f.size size then realloc alloc f.buf size else f.buf)
  set_room f size h = elim (Bool-cases (ltb f.size size)) [
    | inl more ↦ rw more (omega (arith, length-realloc f.buf size))
    | inr less ↦ rw less (ground (arith, h.inside))
  ]

  -- Only the block and its size change.
  pub set_value_block :
      (f : Field) (value : List ℕ) (size : ℕ)
      → IsField f
      → size ≤ length value
      → size < 2 ^ 32
      → (buf : List ℕ) × (set_value alloc f value size
          ≡ some (true, record f { buf = buf; size = size }))
        × (take size buf ≡ take size value)
        × IsField (record f { buf = buf; size = size })
  unfolding set_value
  set_value_block f value size h given small =
      let block = if ltb f.size size then realloc alloc f.buf size else f.buf in
      let width : length (take size value) ≡ size = omega (arith, length-take size value) in
      let (r, copied, long, front) =
        copy_at_lem block 0 (take size value) (omega (arith, width, set_room f size h)) in
      (
        r,
        rw (read_bytes-inside size value given, copied) refl,
        ap (λ n. take n r) {x = size} {y = 0 + length (take size value)} (omega (arith, width))
            ∙ front,
        record { inside = omega (arith, long, set_room f size h); small = small },
      )

  pub set_value_lem :
      (f : Field) (value : List ℕ) (size : ℕ)
      → IsField f
      → size ≤ length value
      → size < 2 ^ 32
      → (g : Field) × (set_value alloc f value size ≡ some (true, g))
        × (get_value g ≡ take size value)
        × IsField g
  set_value_lem f value size h given small =
      let (buf, made, shown, field) = set_value_block f value size h given small in
      (record f { buf = buf; size = size }, made, shown, field)

  append_steps :
      (f : Field) (value : List ℕ) (size : ℕ) (ended bytes r : List ℕ)
      → has f.type index_string ≡ true
      → f.size + size + 1 < 2 ^ 32
      → copy_at (realloc alloc f.buf (f.size + size + 1)) (f.size + size) (0 ∷ []) ≡ some ended
      → read_bytes size value ≡ some bytes
      → copy_at ended f.size bytes ≡ some r
      → append_value alloc f value size ≡ some (true, record f { buf = r; size = f.size + size })
  unfolding append_value
  append_steps f value size ended bytes r string small copied given copied' =
      let whole : (f.size + size + 1) % 2 ^ 32 ≡ f.size + size + 1 = omega arith in
      let more : (f.size + size) % 2 ^ 32 ≡ f.size + size = omega arith in
      rw (string, whole, more, copied, given, copied') refl

  append_value_lem :
      (f : Field) (value : List ℕ) (size : ℕ)
      → IsField f
      → has f.type index_string ≡ true
      → size ≤ length value
      → f.size + size + 1 < 2 ^ 32
      → (g : Field) × (append_value alloc f value size ≡ some (true, g))
        × (get_value g ≡ get_value f ++ take size value)
        × IsField g
  append_value_lem f value size h string given small =
      let grown = realloc alloc f.buf (f.size + size + 1) in
      let long = length-realloc f.buf (f.size + size + 1) in
      let width : length (take size value) ≡ size = omega (arith, length-take size value) in
      let (ended, copied, same, front) =
        copy_at_lem grown (f.size + size) (0 ∷ []) (omega (arith, long)) in
      let (r, copied', same', front') =
        copy_at_lem ended f.size (take size value) (omega (arith, same, long, width)) in
      let before : take f.size ended ≡ get_value f =
        copy_keeps ended grown (0 ∷ []) (f.size + size) f.size front (omega arith)
          (omega (arith, long))
        ∙ realloc-keeps f.buf (f.size + size + 1) f.size (omega arith) h.inside in
      (
        record f { buf = r; size = f.size + size },
        append_steps f value size ended (take size value) r string small copied
            (read_bytes-inside size value given) copied',
        ap (λ n. take n r) {x = f.size + size} {y = f.size + length (take size value)}
              (omega (arith, width))
            ∙ front'
            ∙ ap (λ l. l ++ take size value) before,
        record { inside = omega (arith, same', same, long); small = omega arith },
      )

  -- For a field with the type of strings whose value lies in its block, and `size` bytes of a new value,
  -- within the 32 bits of the sizes: `eggField_set_value` stays inside the block that it has or gets, and
  -- `eggField_get_value` then shows the new value; `eggField_append_value` does so too, and leads to the
  -- old value with the new one behind it; after each the value lies in its block.
  pub value_lem :
      (f : Field) (value : List ℕ) (size : ℕ)
      → IsField f
      → has f.type index_string ≡ true
      → size ≤ length value
      → f.size + size + 1 < 2 ^ 32
      → Shows (set_value alloc f value size) (take size value)
        × Shows (append_value alloc f value size) (get_value f ++ take size value)
  value_lem f value size h string given small = (
    set_value_lem f value size h given (omega arith),
    append_value_lem f value size h string given small,
  )

  fill_steps :
      (f : Field) (value : List ℕ) (size : ℕ) (bytes filled r : List ℕ)
      → f.size ≡ 0
      → size + 8 < 2 ^ 32
      → read_bytes size value ≡ some bytes
      → copy_at (alloc (size + 8)) 0 bytes ≡ some filled
      → copy_at filled size (0 ∷ []) ≡ some r
      → dup_value alloc f (some value) size ≡ some (record f { buf = r; size = size })
  fill_steps f value size bytes filled r none_yet small given copied copied' =
      let wide : (size + 8) % 2 ^ 32 ≡ size + 8 = omega arith in
      let fresh : leb f.size size ≡ true = ground (arith, none_yet) in
      rw (given, fresh, wide, copied, copied') refl

  -- The block that `eggField_dup` fills for a field that has none.
  fill_blank :
      (value : List ℕ) (size : ℕ)
      → size ≤ length value
      → size + 8 < 2 ^ 32
      → (r : List ℕ) × ((f : Field)
          → f.size ≡ 0
          → dup_value alloc f (some value) size ≡ some (record f { buf = r; size = size }))
        × (take size r ≡ take size value)
        × (size ≤ length r)
  fill_blank value size given small =
      let width : length (take size value) ≡ size = omega (arith, length-take size value) in
      let (filled, copied, long, front) =
        copy_at_lem (alloc (size + 8)) 0 (take size value)
          (omega (arith, width, alloc_size (size + 8))) in
      let (r, copied', long', front') =
        copy_at_lem filled size (0 ∷ []) (omega (arith, long, alloc_size (size + 8))) in
      (
        r,
        (λ f none_yet.
            fill_steps f value size (take size value) filled r none_yet small
              (read_bytes-inside size value given) copied copied'),
        copy_keeps r filled (0 ∷ []) size size front' (omega arith)
              (omega (arith, long, alloc_size (size + 8)))
            ∙ ap (λ n. take n filled) {x = size} {y = 0 + length (take size value)}
                (omega (arith, width))
            ∙ front,
        omega (arith, long', long, alloc_size (size + 8)),
      )

  -- `eggField_new` with a name, a value of `size` bytes and a type that is not of ranges gives a field with
  -- this name and this value, which lies in its block.
  pub new_lem :
      (name value : List ℕ) (size type : ℕ) (other : List ℕ)
      → has type range_index ≡ false
      → size ≤ length value
      → size + 8 < 2 ^ 32
      → (f : Field) × (new alloc (some name) (some value) size type other ≡ some (some f))
        × (f.name ≡ name)
        × (get_value f ≡ take size value)
        × IsField f
  unfolding new dup
  new_lem name value size type other plain given small =
      let (r, filled, shown, room) = fill_blank value size given small in
      let whole : take (length name) name ≡ name = take-all (length name) name (omega arith) in
      (
        record blank {
          name = name;
          buf = r;
          size = size;
          type = bit_or 0 (default_type type);
          analyzer_name = analyzer_of (default_type type) other;
        },
        rw (plain, whole, filled (record blank { name = name }) refl) refl,
        refl,
        shown,
        record { inside = room; small = omega arith },
      )

-- A value that `bz2_compress` packs is shown again after `eggField_decompress`, with the other parts of the
-- field as they were, for a field whose type has the bit of `EGG_COMPRESSED`; both calls return
-- `EGG_TRUE`. `bz2_decompress` gives back what was packed.
pub decompress-compress :
    (bz2_compress bz2_decompress : List ℕ → Option (List ℕ)) (f : Field) (packed : List ℕ)
    → ((bytes result : List ℕ)
        → bz2_compress bytes ≡ some result
        → bz2_decompress result ≡ some bytes)
    → IsField f
    → has f.type compressed ≡ true
    → bz2_compress (get_value f) ≡ some packed
    → (g : Field) × (compress bz2_compress f ≡ (true, g))
      × (decompress bz2_decompress g ≡ (true, record f { buf = get_value f }))
unfolding compress decompress
decompress-compress bz2_compress bz2_decompress f packed back h flag packs =
    let whole : take (length packed) packed ≡ packed =
      take-all (length packed) packed (omega arith) in
    let size : length (get_value f) ≡ f.size = omega (arith, length-take f.size f.buf, h.inside) in
    (
      record f { buf = packed; size = length packed },
      rw (flag, packs) refl,
      rw (flag, whole, back (get_value f) packed packs)
          (ap (λ n. (true, record f { buf = get_value f; size = n })) size),
    )
