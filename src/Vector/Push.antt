-- ===== src/Vector/Push.antt =====
-- A push appends its units to what the array holds.
use egg.Base.{
  ℕ, suc, ◌+◌, ◌%◌, ◌^◌, ◌≤◌, ◌≡◌, refl, ap, ◌∙◌, true, false, some, List, [], ◌∷◌, ◌++◌, length,
  take, drop, take-append, length-take, length-append, length-drop, leb-true, ltb, ◌==◌,
  if◌then◌else◌, arith, Bool-cases, inl, inr, lt→ltb, ◌*◌, ◌<◌, none,
}
use egg.Vector.{
  copy_at, grow_count, Vector, vector_create, vector_push, MemChunk, grow_chunk, memchunk_push,
}
use egg.Vector.Grow.{grow_count-room, grow_count_lem, copy_at_lem, IsChunk, grow_chunk_lem}

-- The fields agree: the block has the size that is noted, and the units in use fit it.
pub record IsVector {A : Type 0} (v : Vector A) : Type 0 where
  pub block : length v.cells ≡ v.a_count
  pub used : v.e_count ≤ v.a_count

-- A new array, which holds nothing.
pub vector_create_lem :
    {A : Type 0}
    → IsVector (vector_create {A = A})
      × ((vector_create {A = A}).e_count ≡ 0)
      × ((vector_create {A = A}).cells ≡ [])
unfolding vector_create
vector_create_lem = (record { block = refl; used = omega arith }, refl, refl)

product_lem : (a b c : ℕ) → a ≤ b → b * c < 2 ^ 32 → a * c < 2 ^ 32
product_lem a b c h k = grind arith

if_suc : {B : Type 0} (n : ℕ) (x y : B) → (if suc n == 0 then x else y) ≡ y
if_suc n x y = ground arith

module _ {A : Type 0} (alloc : ℕ → List A) (alloc_size : (n : ℕ) → length (alloc n) ≡ n)
    (atom_sz : ℕ) where
  -- The block of the new size, with the units in use at its front.
  moved_lem :
      (v : Vector A) (need a_count : ℕ)
      → IsVector v
      → v.a_count ≤ a_count
      → need ≤ a_count
      → grow_count (need + 1) need v.a_count ≡ some a_count
      → (ltb v.a_count need ≡ true → ltb (a_count * atom_sz) (2 ^ 32) ≡ true)
      → (cells : List A) × ((if ltb v.a_count need
            then if ltb (a_count * atom_sz) (2 ^ 32)
              then copy_at (alloc a_count) 0 (take v.e_count v.cells)
              else none
            else some v.cells)
          ≡ some cells)
        × (length cells ≡ a_count)
        × (take v.e_count cells ≡ take v.e_count v.cells)
  unfolding copy_at
  moved_lem v need a_count valid above enough grown narrow =
      elim (Bool-cases (ltb v.a_count need)) [
        | inl more ↦
            let old = take v.e_count v.cells in
            let back = drop (0 + length old) (alloc a_count) in
            let size : length old ≡ v.e_count =
              omega (arith, length-take v.e_count v.cells, valid.block, valid.used) in
            (
              old ++ back,
              rw
                  (
                    more,
                    narrow more,
                    leb-true {a = 0 + length old} {b = length (alloc a_count)}
                        (omega (arith, size, alloc_size a_count, above, valid.used)),
                  )
                  refl,
              omega (
                arith,
                size,
                above,
                valid.used,
                length-append old back,
                length-drop (0 + length old) (alloc a_count),
                alloc_size a_count,
              ),
              take-append old back v.e_count (omega (arith, size)),
            )
        | inr room ↦
            let same : v.a_count ≡ a_count =
              ground (arith, grow_count-room (need + 1) need v.a_count (omega arith) room) in
            (v.cells, rw room refl, valid.block ∙ same, refl)
      ]

  -- The steps of a push in a row.
  push_steps :
      (v : Vector A) (unit : A) (units : List A) (need a_count : ℕ) (cells cells' : List A)
      → need ≡ (length (unit ∷ units) + v.e_count) % 2 ^ 32
      → grow_count (need + 1) need v.a_count ≡ some a_count
      → (if ltb v.a_count need
          then if ltb (a_count * atom_sz) (2 ^ 32)
            then copy_at (alloc a_count) 0 (take v.e_count v.cells)
            else none
          else some v.cells)
        ≡ some cells
      → copy_at cells v.e_count (unit ∷ units) ≡ some cells'
      → vector_push alloc atom_sz v (unit ∷ units)
        ≡ some (true, record { a_count = a_count; e_count = need; cells = cells' })
  unfolding vector_push
  push_steps v unit units need a_count cells cells' e grown copied written =
      rw (← e, grown, copied, written) (if_suc (length units) (some (false, v)) _)

  -- For a block whose size is the one noted, and up to 2 ^ 31 units in all, of less than 2 ^ 31 bytes,
  -- `Uti_vector_push` of some units returns `EGG_TRUE`; the array stays such and holds the units it had with the new ones behind.
  pub vector_push_lem :
      (v : Vector A) (unit : A) (units : List A)
      → IsVector v
      → v.e_count + length (unit ∷ units) ≤ 2 ^ 31
      → 2 * (v.e_count + length (unit ∷ units)) * atom_sz < 2 ^ 32
      → (v' : Vector A) × (vector_push alloc atom_sz v (unit ∷ units) ≡ some (true, v'))
        × IsVector v'
        × (take v'.e_count v'.cells ≡ take v.e_count v.cells ++ (unit ∷ units))
  vector_push_lem v unit units valid small bytes =
      let count = length (unit ∷ units) in
      let need = (count + v.e_count) % 2 ^ 32 in
      let (a_count, grown, enough, above, most) =
        grow_count_lem (need + 1) need v.a_count (omega arith) (omega arith) in
      let whole : need ≡ v.e_count + count = omega (arith, small) in
      let narrow : ltb v.a_count need ≡ true → ltb (a_count * atom_sz) (2 ^ 32) ≡ true = λ more.
        lt→ltb (a_count * atom_sz) (2 ^ 32) (
          product_lem a_count (2 * (v.e_count + count)) atom_sz
            (omega (arith, most (ground (arith, more)), whole)) bytes) in
      let (cells, copied, size, front) = moved_lem v need a_count valid above enough grown narrow in
      let (cells', written, size', all) =
        copy_at_lem cells v.e_count (unit ∷ units) (omega (arith, size, enough, small)) in
      (
        record { a_count = a_count; e_count = need; cells = cells' },
        push_steps v unit units need a_count cells cells' refl grown copied written,
        record { block = size' ∙ size; used = enough },
        ap (λ n. take n cells') {x = need} {y = v.e_count + count} (omega (arith, small))
            ∙ all
            ∙ ap (λ f. f ++ (unit ∷ units)) front,
      )

module _ (alloc : ℕ → List ℕ) (alloc_size : (n : ℕ) → length (alloc n) ≡ n) where
  chunk_steps :
      (c c' : MemChunk) (units bytes : List ℕ)
      → grow_chunk alloc (c.e_sz + length units + 1) (length units) c ≡ some c'
      → copy_at c'.bytes c'.e_sz units ≡ some bytes
      → memchunk_push alloc c units
        ≡ some (true, record c' { e_sz = (c'.e_sz + length units) % 2 ^ 32; bytes = bytes })
  unfolding memchunk_push
  chunk_steps c c' units bytes grown written = rw (grown, written) refl

  -- For a chunk whose sizes are those of its block, and up to 2 ^ 30 bytes in all, `Uti_memchunk_push`
  -- returns `EGG_TRUE`; the chunk stays such and holds the bytes it had with the new ones behind.
  pub memchunk_push_lem :
      (c : MemChunk) (units : List ℕ)
      → IsChunk c
      → c.e_sz + length units ≤ 2 ^ 30
      → (c' : MemChunk) × (memchunk_push alloc c units ≡ some (true, c'))
        × IsChunk c'
        × (take c'.e_sz c'.bytes ≡ take c.e_sz c.bytes ++ units)
  memchunk_push_lem c units valid small =
      let (g, grown, v, same, enough, front) =
        grow_chunk_lem alloc alloc_size (c.e_sz + length units + 1) (length units) c valid small
          (omega arith) in
      let (bytes, written, size, all) =
        copy_at_lem g.bytes g.e_sz units (omega (arith, same, enough, v.block)) in
      let e_sz' : (g.e_sz + length units) % 2 ^ 32 ≡ g.e_sz + length units =
        omega (arith, same, small) in
      (
        record g { e_sz = (g.e_sz + length units) % 2 ^ 32; bytes = bytes },
        chunk_steps c g units bytes grown written,
        record {
          block = size ∙ v.block;
          used = omega (arith, e_sz', same, enough);
          small = v.small;
        },
        ap (λ n. take n bytes) e_sz'
            ∙ all
            ∙ ap (λ f. f ++ units) (ap (λ n. take n g.bytes) same ∙ front),
      )
