-- ===== src/Search.antt =====
-- egg3/src/uti/Utility.c: the binary searches. The caller's comparison with the value that is looked up
-- is a function of the index, `probe`: `fnCmp(data, idx, val)`, or `cmp(key, array + idx * itemSz)`.
-- `none` means that the fuel ran out, or that a number left the 32 bits of its type.
pub mod Lookup
pub mod Bound
mod Runs
use egg.Base.{
  ℕ, zero, suc, ◌+◌, ◌-◌, ◌/◌, ◌^◌, Bool, true, false, not, Option, none, some, ltb, fits,
  if◌then◌else◌,
}
use egg.Base.Int.{ℤ, pos, negsuc, ltb_ℤ}
use egg.Compare.{is_neg, is_pos}

-- `while (n_start_idx <= n_end_idx)`: `end` is `n_end_idx + 1`, since that index may come to -1. The
-- result is the return value and `*lp_dest_idx`.
pub lookup_loop : (ℕ → ℤ) → ℕ → ℕ → ℕ → ℤ → Option (Bool × ℤ)
lookup_loop probe zero start end idx = none
lookup_loop probe (suc fuel) start end idx =
    let sum = start + (end - 1) in
    let mid = sum / 2 in
    let right = lookup_loop probe fuel (mid + 1) end (pos mid) in
    let left = lookup_loop probe fuel start mid (pos mid) in
    let further =
      if is_pos (probe mid)
      then right
      else if is_neg (probe mid)
      then left
      else some (true, pos mid) in
    if ltb start end then (if ltb sum (2 ^ 31) then further else none) else some (false, idx)

-- `n_max_idx` is the last index, or negative; the `*lp_dest_idx` that the call finds is `old_idx`.
pub binary_lookup : (ℕ → ℤ) → ℤ → ℤ → Option (Bool × ℤ)
unfolding lookup_loop
binary_lookup probe (negsuc m) old_idx = some (false, old_idx)
binary_lookup probe (pos max_idx) old_idx =
    lookup_loop probe (max_idx + 2) 0 (max_idx + 1) (negsuc 0)

-- `while (n_start_idx < n_end_idx)`, where `test` says that the search goes on to the left.
pub bound_loop : (ℕ → Bool) → ℕ → ℕ → ℕ → Option ℕ
bound_loop test zero start end = none
bound_loop test (suc fuel) start end =
    let sum = start + end in
    let mid = sum / 2 in
    let left = bound_loop test fuel start mid in
    let right = bound_loop test fuel (mid + 1) end in
    let further = if test mid then left else right in
    if ltb start end then (if ltb sum (2 ^ 31) then further else none) else some start

-- The index of the cell that is returned: it is `items` for the end of the array. The `size32_t` count of
-- items becomes an `index_t`, and `n_mid_idx * itemSz` is a 32-bit product.
pub binary_searchleft : (ℕ → ℤ) → ℕ → ℕ → Option ℕ
unfolding bound_loop
binary_searchleft probe items item_sz =
    let found = bound_loop (λ i. not (is_pos (probe i))) (items + 1) 0 items in
    if fits item_sz items then found else none

pub binary_searchright : (ℕ → ℤ) → ℕ → ℕ → Option ℕ
unfolding bound_loop
binary_searchright probe items item_sz =
    let found = bound_loop (λ i. is_neg (probe i)) (items + 1) 0 items in
    if fits item_sz items then found else none
