-- ===== src/NetPackage.antt =====
-- egg3/src/net/eggNetPackage.c and .h: a message is a header and units, each a unit header of 8 bytes
-- (a type of 2 bytes, 2 bytes that the alignment leaves, a size of 4) with its bytes behind it. The
-- block behind the message's header is `bytes`; `alloc n` is what `malloc` or the new end of a block
-- that `realloc` returns, and the C code ends the process where `realloc` fails. `none` is an access
-- outside the block, or fuel that ran out.
pub mod Layout
pub mod Fetch
mod Runs
use egg.Base.{
  ℕ, zero, suc, ◌+◌, ◌-◌, ◌*◌, ◌%◌, ◌^◌, Bool, true, false, Option, none, some, List, [], ◌∷◌, ◌++◌,
  ◌>>=◌, length, take, drop, ltb, leb, ◌==◌, if◌then◌else◌,
}
use egg.Base.Bytes.{le_bytes, read_bytes, read_u32}
use egg.Vector.{copy_at}

-- `struct eggNetPackage` with the block behind it.
pub record NetPackage : Type 0 where
  pub op : ℕ
  pub e_size : ℕ
  pub a_size : ℕ
  pub bytes : List ℕ

-- `struct eggNetUnitPackage`, in memory.
unfoldable pub unit_header : ℕ → ℕ → List ℕ
unfolding le_bytes
unit_header ty size = le_bytes 2 ty ++ (0 ∷ 0 ∷ le_bytes 4 size)

-- `while (aSize < eSize + sizeof(st_unit_package) + size) aSize += aSize;` where the sum has 64 bits and `aSize` has 32.
pub grow_size : ℕ → ℕ → ℕ → Option ℕ
grow_size zero need a_size = none
grow_size (suc fuel) need a_size =
    let more = grow_size fuel need ((a_size + a_size) % 2 ^ 32) in
    if ltb a_size need then more else some a_size

module _ (alloc : ℕ → List ℕ) where
  pub new : ℕ → NetPackage
  new op = record { op = op; e_size = 0; a_size = 4096; bytes = alloc 4096 }

  -- `eggNetPackage_add`, where `units` holds the `size` bytes at `data`, or `none` for NULL: the unit
  -- header, and the bytes unless there are none.
  pub add : NetPackage → Option (List ℕ) → ℕ → ℕ → Option NetPackage
  unfolding grow_size unit_header
  add p units size ty = do
    let need = p.e_size + 8 + size
    a_size ← grow_size (need + 1) need p.a_size
    let block =
        (if a_size == p.a_size then p.bytes else take a_size p.bytes ++ alloc (a_size - p.a_size))
    headed ← copy_at block p.e_size (unit_header ty size)
    let header_end = (p.e_size + 8) % 2 ^ 32
    let bare = some (record p { e_size = header_end; a_size = a_size; bytes = headed })
    elim units [
      | none ↦ bare
      | some source ↦
          let filled = (do
            unit_bytes ← read_bytes size source
            full ← copy_at headed header_end unit_bytes
            some (record p {
              e_size = (header_end + size) % 2 ^ 32;
              a_size = a_size;
              bytes = full;
            })) in
          if size == 0 then bare else filled
    ]

-- `lp_iter_package->size` of the unit at an offset.
pub unit_size : NetPackage → ℕ → Option ℕ
unit_size p at = read_u32 (drop (at + 4) p.bytes)

-- `eggNetPackage_fetch_by_iter`: the return value, and the offset and size that `*data` and `*pSize` get,
-- with `*pIter` (`none` where they are left alone).
pub fetch_by_iter : NetPackage → ℕ → Option (Bool × Option (ℕ × ℕ) × ℕ)
unfolding unit_size
fetch_by_iter p iter =
    let fetched = (do
      size ← unit_size p iter
      some (true, some (iter + 8, size), (iter + 8 + size) % 2 ^ 32)) in
    if leb p.e_size iter then some (false, none, iter) else fetched

-- The loop of `eggNetPackage_fetch`: `pairs` is the number of pairs of pointers that the caller gives;
-- the result is what the pairs get, in order.
pub fetch_loop : ℕ → NetPackage → ℕ → Option (List (ℕ × ℕ))
unfolding unit_size
fetch_loop zero p iter = some []
fetch_loop (suc pairs) p iter =
    let rest = (do
      size ← unit_size p iter
      found ← fetch_loop pairs p ((iter + size + 8) % 2 ^ 32)
      some ((iter + 8, size) ∷ found)) in
    if ltb iter p.e_size then rest else some []

pub fetch : NetPackage → ℕ → Option (Bool × List (ℕ × ℕ))
unfolding fetch_loop
fetch p pairs = do found ← fetch_loop pairs p 0; some (true, found)

pub get_packagesize : NetPackage → ℕ
get_packagesize p = (p.e_size + 12) % 2 ^ 32

pub get_datasize : NetPackage → ℕ
get_datasize p = p.e_size
