-- ===== src/Vector.antt =====
-- egg3/src/uti/Utility.c: the two growing arrays, `UTIVECTOR` of units and `EGGMEMCHUNK` of bytes.
-- Sizes are 32-bit numbers. `alloc n` is the block of `n` cells that `malloc` or the new end of a block
-- that `realloc` returns. `none` is a copy outside the block, a block of 2 ^ 32 bytes or more, whose size
-- wraps, or fuel that ran out.
pub mod Copy
pub mod Grow
pub mod Push
mod Runs
use egg.Base.{
  ◌>>=◌, ℕ, zero, suc, ◌+◌, ◌-◌, ◌*◌, ◌%◌, ◌^◌, Bool, true, false, Option, none, some, List, [],
  ◌∷◌, ◌++◌, length, take, drop, ltb, leb, ◌==◌, if◌then◌else◌,
}

-- `memcpy(cells + at, units, ...)`
pub copy_at : {A : Type 0} → List A → ℕ → List A → Option (List A)
copy_at cells at units =
    if leb (at + length units) (length cells)
    then some (take at cells ++ (units ++ drop (at + length units) cells))
    else none

-- `UTIVECTOR`, whose `atomSize` is a parameter of what uses it: the units are the cells.
pub record Vector (A : Type 0) : Type 0 where
  pub a_count : ℕ
  pub e_count : ℕ
  pub cells : List A

-- `Uti_vector_create`: all is zero.
pub vector_create : {A : Type 0} → Vector A
vector_create = record { a_count = 0; e_count = 0; cells = [] }

-- `while (count + eCount > aCount) aCount = aCount ? aCount + aCount : 1`
pub grow_count : ℕ → ℕ → ℕ → Option ℕ
grow_count zero need a_count = none
grow_count (suc fuel) need a_count =
    let more = grow_count fuel need (if a_count == 0 then 1 else (a_count + a_count) % 2 ^ 32) in
    if ltb a_count need then more else some a_count

-- `Uti_vector_push`: the return value and the vector. `atom_sz` is its `atomSize`, which stays as it is.
-- `malloc(atomSize * aCount)` is a block of that many units where the 32-bit product does not wrap.
module _ {A : Type 0} (alloc : ℕ → List A) (atom_sz : ℕ) where
  pub vector_push : Vector A → List A → Option (Bool × Vector A)
  unfolding grow_count copy_at
  vector_push v units =
      let count = length units in
      let need = (count + v.e_count) % 2 ^ 32 in
      let pushed = (do
        a_count ← grow_count (need + 1) need v.a_count
        cells ←
            (if ltb v.a_count need
              then if ltb (a_count * atom_sz) (2 ^ 32)
                then copy_at (alloc a_count) 0 (take v.e_count v.cells)
                else none
              else some v.cells)
        cells' ← copy_at cells v.e_count units
        some (true, record { a_count = a_count; e_count = need; cells = cells' })) in
      if count == 0 then some (false, v) else pushed

pub record MemChunk : Type 0 where
  pub a_sz : ℕ
  pub e_sz : ℕ
  pub bytes : List ℕ

-- `Uti_memchunk_create`
pub memchunk_create : MemChunk
memchunk_create = record { a_sz = 0; e_sz = 0; bytes = [] }

-- `while (aSz - eSz < sz) { aSz = aSz ? aSz * 2 : EGG_MEMCHUNK_SIZE; data = realloc(data, aSz); }`:
-- `realloc` keeps the bytes that there are, and `alloc` gives those behind them.
module _ (alloc : ℕ → List ℕ) where
  pub grow_chunk : ℕ → ℕ → MemChunk → Option MemChunk
  grow_chunk zero sz c = none
  grow_chunk (suc fuel) sz c =
      let a_sz' = if c.a_sz == 0 then 4096 else c.a_sz * 2 % 2 ^ 32 in
      let more =
        grow_chunk fuel sz
          (record c { a_sz = a_sz'; bytes = take a_sz' c.bytes ++ alloc (a_sz' - c.a_sz) }) in
      if ltb ((c.a_sz + 2 ^ 32 - c.e_sz) % 2 ^ 32) sz then more else some c

  -- `Uti_memchunk_push`
  pub memchunk_push : MemChunk → List ℕ → Option (Bool × MemChunk)
  unfolding grow_chunk copy_at
  memchunk_push c bytes = do
    let sz = length bytes
    c' ← grow_chunk (c.e_sz + sz + 1) sz c
    bytes' ← copy_at c'.bytes c'.e_sz bytes
    some (true, record c' { e_sz = (c'.e_sz + sz) % 2 ^ 32; bytes = bytes' })
