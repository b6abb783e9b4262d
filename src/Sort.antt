-- ===== src/Sort.antt =====
-- egg3/src/uti/Utility.c: sorting and thinning out arrays of units in place, by a comparison (`SORTCMP`).
-- An array is the list of its units; a copy between cells (`SORT_COPY`, `memcpy`) is a write by index.
-- The loops run on an array that `fits`, as `sedgesort` tests, of which no 32-bit sum of two indexes and
-- no 32-bit product of an index and the size of a unit wraps.
pub mod Insertion
pub mod Perm
pub mod Swap
pub mod Quick
mod Runs
use egg.Base.{
  ◌>>=◌, ℕ, zero, suc, ◌+◌, ◌-◌, ◌/◌, ◌==◌, ltb, Bool, Option, none, some, List, [], ◌∷◌, length,
  get_or, get_elem?, set, if◌then◌else◌, fits, ◌^◌,
}
use egg.Base.Int.{ℤ}
use egg.Compare.{is_neg, is_pos}

-- In what follows `none` is an access outside the array, or fuel that ran out.
-- `SORT_SWAP`
pub swap : {A : Type 0} → List A → ℕ → ℕ → Option (List A)
swap array i j =
    let swapped = (do
      x ← get_elem? array i
      y ← get_elem? array j
      some (set (set array i y) j x)) in
    if i == j then some array else swapped

-- `SORT_SWAP(lower, j)` where `j` is one less than the number that is given: -1 is outside the array.
pub swap_pivot : {A : Type 0} → List A → ℕ → ℕ → Option (List A)
unfolding swap
swap_pivot array lower zero = none
swap_pivot array lower (suc j) = swap array lower j

module _ {A : Type 0} (cmp : A → A → ℤ) where
  -- `while (j > 0 && fnCmp(array[j-1], tmp) < 0) { array[j] = array[j-1]; j--; } array[j] = tmp;`
  pub shift_down : A → ℕ → List A → List A
  shift_down tmp zero array = set array 0 tmp
  shift_down tmp (suc j) array =
      let prev = get_or array j tmp in
      let rest = shift_down tmp j (set array (suc j) prev) in
      if is_neg (cmp prev tmp) then rest else set array (suc j) tmp

  -- `for (i = 1; i < len; i++)`, with the rounds that are left.
  pub insort_loop : ℕ → ℕ → List A → List A
  unfolding shift_down
  insort_loop zero i array = array
  insort_loop (suc n) i array =
      insort_loop n (i + 1)
        (elim (get_elem? array i) [ some tmp ↦ shift_down tmp i array | none ↦ array ])

  unfoldable pub insort : List A → List A
  unfolding insort_loop
  insort array = insort_loop (length array - 1) 1 array

  -- `do i++; while (i <= upper && fnCmp(array[i], pivot) > 0)`, from the new `i` on, with the number of
  -- cells up to `upper`. (The cells that are read are in the array: see `upper` below.)
  pub scan_up : A → List A → ℕ → ℕ → ℕ
  scan_up pivot array zero i = i
  scan_up pivot array (suc n) i =
      let further = scan_up pivot array n (i + 1) in
      if is_pos (cmp (get_or array i pivot) pivot) then further else i

  -- `do j--; while (j >= 0 && fnCmp(array[j], pivot) < 0)`: takes the old `j`, and returns the new one
  -- plus 1, since it may come to -1.
  pub scan_down : A → List A → ℕ → ℕ
  scan_down pivot array zero = zero
  scan_down pivot array (suc j) =
      let further = scan_down pivot array j in
      if is_neg (cmp (get_or array j pivot) pivot) then further else suc j

  -- `while (1) { ...; if (j < i) break; SORT_SWAP(i, j); }`: `end` is `upper + 1`, and the result is the
  -- array with `i` and `j + 1`.
  pub partition_loop : ℕ → A → ℕ → ℕ → ℕ → List A → Option (List A × ℕ × ℕ)
  unfolding swap scan_up scan_down
  partition_loop zero pivot end i j array = none
  partition_loop (suc fuel) pivot end i j array =
      let i' = scan_up pivot array (end - (i + 1)) (i + 1) in
      let j' = scan_down pivot array j in
      let more = (do
        array' ← swap array i' (j' - 1)
        partition_loop fuel pivot end i' (j' - 1) array') in
      if ltb i' j' then more else some (array, i', j')

  -- `upper` may be -1 and is kept as `end`, which is `upper + 1`; SORT_CUTOFF is 15. The loop takes at
  -- most `end + 1` rounds, since `j` falls in each. `none` too where `upper + lower` overflows.
  pub quickersort : ℕ → ℕ → ℕ → List A → Option (List A)
  unfolding partition_loop swap_pivot
  quickersort zero lower end array = none
  quickersort (suc fuel) lower end array =
      let sum = end - 1 + lower in
      let split = (do
        array1 ← swap array lower (sum / 2)
        pivot ← get_elem? array1 lower
        (array2, i, j) ← partition_loop (end + 1) pivot end lower end array1
        array3 ← swap_pivot array2 lower j
        array4 ← quickersort fuel lower (j - 1) array3
        quickersort fuel i end array4) in
      if ltb (lower + 16) end then if ltb sum (2 ^ 31) then split else none else some array

  -- The recursion is at most as deep as the array is long. An array with more units than an `int` counts,
  -- or more bytes than the offsets reach, gives `none`.
  unfoldable pub sedgesort : ℕ → List A → Option (List A)
  unfolding quickersort insort
  sedgesort unit_sz array =
      let sorted = (do
        array' ← quickersort (length array + 1) 0 (length array) array
        some (insort array')) in
      if length array == 0 then some array else if fits unit_sz (length array) then sorted else none
