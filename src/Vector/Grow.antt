-- ===== src/Vector/Grow.antt =====
-- The room grows to what is needed, and copies land where they should.
use egg.Base.{
  ℕ, zero, suc, ◌+◌, ◌-◌, ◌*◌, ◌%◌, ◌^◌, ◌≤◌, ◌<◌, ◌≡◌, refl, ap, sym, ◌∙◌, false, some, List, ◌++◌,
  append_assoc, length, take, drop, take-append, take-all, take-front, length-take, length-drop,
  length-append, ltb, leb-true, ◌==◌, if◌then◌else◌, arith, tests, Bool-cases, inl, inr,
}
use egg.Vector.{copy_at, grow_count, MemChunk, grow_chunk}

-- Up to 2 ^ 31 units the doubling does not wrap, and ends, at most at twice what is needed.
pub grow_count_lem :
    (fuel need a : ℕ)
    → need ≤ 2 ^ 31
    → need - a < fuel
    → (c : ℕ) × (grow_count fuel need a ≡ some c)
      × (need ≤ c)
      × (a ≤ c)
      × (a ≤ 2 * need → c ≤ 2 * need)
unfolding grow_count
grow_count_lem zero need a small hf = absurd (omega arith)
grow_count_lem (suc fuel) need a small hf = elim (Bool-cases (ltb a need)) [
  | inl more ↦
      let next = if a == 0 then 1 else (a + a) % 2 ^ 32 in
      let less : a < need = omega tests in
      let (c, r, enough, above, most) = grow_count_lem fuel need next small (ground arith) in
      (c, rw more r, enough, ground arith, λ le. most (ground arith))
  | inr room ↦ (a, rw room, ground arith, omega arith, λ le. le)
]

-- Where there is room the size stays.
pub grow_count-room :
    (fuel need a : ℕ) → 0 < fuel → ltb a need ≡ false → grow_count fuel need a ≡ some a
unfolding grow_count
grow_count-room zero need a h room = absurd (omega arith)
grow_count-room (suc fuel) need a h room = rw room refl

module _ {A : Type 0} where
  -- A copy inside the block keeps what stands before it and the size of the block.
  pub copy_at_lem :
      (cells : List A) (at : ℕ) (units : List A)
      → at + length units ≤ length cells
      → (r : List A) × (copy_at cells at units ≡ some r)
        × (length r ≡ length cells)
        × (take (at + length units) r ≡ take at cells ++ units)
  unfolding copy_at
  copy_at_lem cells at units h =
      let back = drop (at + length units) cells in
      let front = length-take at cells in
      (
        take at cells ++ (units ++ back),
        rw (leb-true h),
        omega (
          arith,
          front,
          length-append (take at cells) (units ++ back),
          length-append units back,
          length-drop (at + length units) cells,
        ),
        rw (← append_assoc (take at cells) units back) (
            take-append (take at cells ++ units) back (at + length units)
              (omega (arith, front, length-append (take at cells) units))),
      )

  -- A copy of the block's size is the block.
  pub copy_at-whole :
      (cells units : List A) → length units ≡ length cells → copy_at cells 0 units ≡ some units
  copy_at-whole cells units e =
      let (r, copied, size, front) = copy_at_lem cells 0 units (omega (arith, e)) in
      copied ∙ ap some (sym (take-all (0 + length units) r (omega (arith, size, e))) ∙ front)

-- A chunk whose sizes are those of its block.
pub record IsChunk (c : MemChunk) : Type 0 where
  pub block : length c.bytes ≡ c.a_sz
  pub used : c.e_sz ≤ c.a_sz
  pub small : c.a_sz ≤ 2 ^ 31

module _ (alloc : ℕ → List ℕ) (alloc_size : (n : ℕ) → length (alloc n) ≡ n) where
  pub grow_chunk_lem :
      (fuel sz : ℕ) (c : MemChunk)
      → IsChunk c
      → c.e_sz + sz ≤ 2 ^ 30
      → c.e_sz + sz - c.a_sz < fuel
      → (c' : MemChunk) × (grow_chunk alloc fuel sz c ≡ some c')
        × IsChunk c'
        × (c'.e_sz ≡ c.e_sz)
        × (c.e_sz + sz ≤ c'.a_sz)
        × (take c.e_sz c'.bytes ≡ take c.e_sz c.bytes)
  unfolding grow_chunk
  grow_chunk_lem zero sz c v small hf = absurd (omega arith)
  grow_chunk_lem (suc fuel) sz c v small hf =
      elim (Bool-cases (ltb ((c.a_sz + 2 ^ 32 - c.e_sz) % 2 ^ 32) sz)) [
        | inl more ↦
            let a_sz' = if c.a_sz == 0 then 4096 else c.a_sz * 2 % 2 ^ 32 in
            let less : c.a_sz < c.e_sz + sz = ground (arith, v.used, v.small) in
            let doubled : (c.a_sz < a_sz') × (a_sz' ≤ 2 ^ 31) × (a_sz' ≤ 4096 + 2 * c.a_sz) =
              ground arith in
            let kept : take a_sz' c.bytes ≡ c.bytes =
              take-all a_sz' c.bytes (omega (arith, v.block, doubled)) in
            let next : MemChunk = record c {
              a_sz = a_sz';
              bytes = take a_sz' c.bytes ++ alloc (a_sz' - c.a_sz);
            } in
            let block : length next.bytes ≡ a_sz' = rw kept (
              omega (
                arith,
                v.block,
                doubled,
                length-append c.bytes (alloc (a_sz' - c.a_sz)),
                alloc_size (a_sz' - c.a_sz),
              )) in
            let (c', r, v', same, enough, front) =
              grow_chunk_lem fuel sz next
                (record { block = block; used = omega (arith, v.used, doubled); small = doubled.1 })
                small (omega (arith, less, doubled, hf)) in
            (
              c',
              rw more r,
              v',
              same,
              enough,
              front
                  ∙ ap (take c.e_sz) {x = take a_sz' c.bytes ++ alloc (a_sz' - c.a_sz)}
                      (ap (λ b. b ++ alloc (a_sz' - c.a_sz)) kept)
                  ∙ take-front c.e_sz c.bytes (alloc (a_sz' - c.a_sz))
                      (omega (arith, v.block, v.used)),
            )
        | inr room ↦ (c, rw room, v, refl, ground (arith, v.used, v.small), refl)
      ]
