-- ===== src/VintData.antt =====
-- egg3/src/uti/Utility.c: arrays of integers as one buffer of variable-length integers
-- (`Uti_itov_32`, `Uti_itov_64`) and back (`Uti_vtoi_32`, `Uti_vtoi_64`).
-- `none` is an access outside the memory that was allocated. `alloc n` is what `malloc(n)` returns:
-- the bytes of the new block, of which the code relies on the number alone.
pub mod Stream
pub mod RoundTrip
pub mod Single
mod Runs
use egg.Base.{
  ◌>>=◌, ℕ, zero, suc, ◌+◌, ◌*◌, ◌%◌, ◌^◌, Option, none, some, List, [], ◌∷◌, ◌++◌, length, get_or,
  set, ltb, leb, ◌==◌, if◌then◌else◌,
}
use egg.Vint.{core_read_vint, core_write_vint}

-- `VINTDATA`: the position in the buffer, and its bytes.
pub record VintData : Type 0 where
  pub len : ℕ
  pub bytes : List ℕ

-- `vData[len++] = v`. `len` is a `size32_t`: it wraps behind 2 ^ 32 bytes, which no block has that is
-- filled below.
pub vint_write : ℕ → VintData → Option VintData
vint_write v d =
    if ltb d.len (length d.bytes)
    then some (record { len = d.len + 1; bytes = set d.bytes d.len v })
    else none

-- `return vData[len++]`
pub vint_read : VintData → Option (ℕ × VintData)
vint_read d =
    if ltb d.len (length d.bytes)
    then some (get_or d.bytes d.len 0, record d { len = d.len + 1 })
    else none

-- `while(i != len) core_write_vint(array[i++], VintWrite, ...)`
pub itov_loop : List ℕ → VintData → Option VintData
unfolding vint_write
itov_loop [] d = some d
itov_loop (x ∷ xs) d = core_write_vint vint_write x d >>= itov_loop xs

-- `core_write_vint` takes a `size32_t`: a `size64_t` that is passed to it loses its upper half.
pub itov_loop_64 : List ℕ → VintData → Option VintData
unfolding vint_write
itov_loop_64 [] d = some d
itov_loop_64 (x ∷ xs) d = core_write_vint vint_write (x % 2 ^ 32) d >>= itov_loop_64 xs

-- Of more than 2 ^ 29 numbers the buffer may be longer than `len` counts: `none`.
module _ (alloc : ℕ → List ℕ) where
  pub itov_32 : List ℕ → Option VintData
  unfolding itov_loop
  itov_32 xs =
      let written = itov_loop xs (record { len = 0; bytes = alloc (4 * length xs) }) in
      if leb (length xs) (2 ^ 29) then written else none

  pub itov_64 : List ℕ → Option VintData
  unfolding itov_loop_64
  itov_64 xs =
      let written = itov_loop_64 xs (record { len = 0; bytes = alloc (8 * length xs) }) in
      if leb (length xs) (2 ^ 29) then written else none

-- `while(len != n_max_len)`: the numbers read so far are `out`, and `cap` is `n_total_count`, the
-- room of the result, an `int`, which is doubled when it is used up: `none` where it overflows.
pub vtoi_loop : ℕ → ℕ → ℕ → VintData → List ℕ → Option (List ℕ)
unfolding vint_read
vtoi_loop zero max cap d out = if d.len == max then some out else none
vtoi_loop (suc fuel) max cap d out =
    let more = (do
      (v, d') ← core_read_vint vint_read d
      let out' = out ++ v ∷ []
      let cap' = if leb cap (length out') then cap + cap else cap
      let rest = vtoi_loop fuel max cap' d' out'
      if ltb (length out) cap then (if ltb cap' (2 ^ 31) then rest else none) else none) in
    if d.len == max then some out else more

-- Each number takes a byte at least, so `len` rounds are enough.
pub vtoi_32 : VintData → Option (List ℕ)
unfolding vtoi_loop
vtoi_32 d = vtoi_loop d.len d.len 4 (record d { len = 0 }) []

-- The 64-bit version reads with `core_read_vint` too.
pub vtoi_64 : VintData → Option (List ℕ)
unfolding vtoi_loop
vtoi_64 d = vtoi_loop d.len d.len 4 (record d { len = 0 }) []
