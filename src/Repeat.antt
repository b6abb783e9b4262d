-- ===== src/Repeat.antt =====
-- egg3/src/uti/Utility.c: `Uti_filter_repeat`, which moves the units of an array that differ from the
-- one before them to its front. `none` is an access outside the array.
pub mod Compact
pub mod Changes
mod Runs
use egg.Base.{
  ℕ, zero, suc, ◌+◌, ◌-◌, Bool, true, false, ◌||◌, Option, none, some, List, [], ◌∷◌, ◌>>=◌, length,
  get_elem?, ltb, ◌==◌, set, fits, if◌then◌else◌,
}
use egg.Base.Int.{ℤ}
use egg.Compare.{is_neg, is_pos}

-- `array[i] = x`
unfoldable pub store : {A : Type 0} → List A → ℕ → A → Option (List A)
store array i x = if ltb i (length array) then some (set array i x) else none

module _ {A : Type 0} (cmp : A → A → ℤ) where
  -- `while (i_src < n_src_cnt)`, with `left` rounds to go.
  pub filter_loop : ℕ → ℕ → ℕ → List A → Option (List A × ℕ)
  unfolding store
  filter_loop zero i_src i_dest array = some (array, i_dest)
  filter_loop (suc left) i_src i_dest array = do
    x ← get_elem? array i_src
    last ← get_elem? array (i_src - 1)
    let moved = (do
      array' ← (if i_src == i_dest then some array else store array i_dest x)
      filter_loop left (i_src + 1) (i_dest + 1) array')
    let same = filter_loop left (i_src + 1) i_dest array
    if is_pos (cmp x last) || is_neg (cmp x last) then moved else same

  -- The array and `*pCnt`; `none` too where an index or an offset `i_src * unitSz` leaves its 32 bits.
  pub filter_repeat : ℕ → List A → Option (List A × ℕ)
  unfolding filter_loop
  filter_repeat unit_sz array =
      if fits unit_sz (length array) then filter_loop (length array - 1) 1 1 array else none
