-- ===== src/IdNode.antt =====
-- egg3/src/storage/eggIdNode.c and .h: the nodes that say which document holds a key, and the lists of
-- them that a query joins. A C array is the list of its nodes; a walk by a growing index is the list
-- from that index on. A result is the array that is returned, `none` for NULL, with `*pResCnt`; around
-- it, `none` is a write outside an array, a size that leaves its 32 bits, or fuel that ran out. The
-- growing `UTIVECTOR` of a result is the list of what is pushed, in order (see Vector/Push), up to the
-- count at which its size in bytes, a 32-bit product, wraps.
pub mod Ids
pub mod Union
pub mod Intersection
pub mod Difference
pub mod Stamps
pub mod Repeat
pub mod Continuation
pub mod Members
mod Runs
use egg.Base.{
  ℕ, zero, suc, ◌+◌, ◌%◌, ◌^◌, Bool, true, false, ◌||◌, Option, none, some, List, [], ◌∷◌, ◌++◌,
  ◌>>=◌, map, length, get_elem?, ltb, leb, ◌==◌, if◌then◌else◌,
}
use egg.Base.Int.{ℤ, ltb_ℤ}
use egg.Compare.{three_way}
use egg.Sort.{sedgesort}

pub record IdNode : Type 0 where
  pub id : ℕ
  pub weight : ℤ
  pub key_cnt : ℕ
  pub mask : ℕ
  pub time_stamp : ℕ
  pub flag : ℕ
  pub boost : ℕ
  pub reservd : List ℕ
  pub pos : List ℕ

-- `sizeof(EGGIDNODE)`
abbrev pub idnode_sz : ℕ
idnode_sz = 36

pub cmp_id : IdNode → IdNode → ℤ
cmp_id src dest = three_way ltb src.id dest.id

pub cmp_id3 : IdNode → IdNode → ℤ
cmp_id3 src dest = three_way ltb dest.id src.id

pub cmp_mask : IdNode → IdNode → ℤ
cmp_mask src dest = three_way ltb src.mask dest.mask

pub cmp_weight : IdNode → IdNode → ℤ
cmp_weight src dest = three_way ltb_ℤ dest.weight src.weight

-- The comparisons of the node of an index; `none` is one outside the array.
pub cmp_id2 : List IdNode → ℕ → IdNode → Option ℤ
cmp_id2 nodes idx dest = do node ← get_elem? nodes idx; some (three_way ltb node.id dest.id)

pub cmp_weight2 : List IdNode → ℕ → IdNode → Option ℤ
cmp_weight2 nodes idx dest = do
  node ← get_elem? nodes idx
  some (three_way ltb_ℤ dest.weight node.weight)

-- The result's array has room for `(srcCnt + destCnt) % 2 ^ 32` nodes.
pub merge_or : List IdNode → List IdNode → ℕ → Option (Option (List IdNode) × ℕ)
unfolding sedgesort cmp_id
merge_or src dest res_cnt =
    let cnt = (length src + length dest) % 2 ^ 32 in
    let sorted = (do nodes ← sedgesort cmp_id idnode_sz (src ++ dest); some (some nodes, cnt)) in
    if cnt == 0 then some (none, 0) else if leb (length src + length dest) cnt then sorted else none

-- `while (... nodes[idx].id == id)`: what the loop pushes, and what is left behind it.
pub equal_run : ℕ → List IdNode → List IdNode
equal_run id [] = []
equal_run id (x ∷ xs) = if x.id == id then x ∷ equal_run id xs else []

pub after_run : ℕ → List IdNode → List IdNode
after_run id [] = []
after_run id (x ∷ xs) = if x.id == id then after_run id xs else x ∷ xs

-- `Uti_vector_data`, `Uti_vector_count`: there is no array when nothing was pushed.
unfoldable pub vector_result : List IdNode → Option (List IdNode) × ℕ
vector_result [] = (none, 0)
vector_result (x ∷ xs) = (some (x ∷ xs), length (x ∷ xs))

-- What was pushed one by one: the block has `atomSize * aCount` bytes, where `aCount` is the power of two
-- that reaches the count. 36 * 2 ^ 26 is the last of these products that does not wrap; the next block
-- is too small for the nodes that are copied to it.
unfoldable pub pushed : List IdNode → Option (List IdNode)
pushed nodes = if leb (length nodes) (2 ^ 26) then some nodes else none

pub and_loop : ℕ → List IdNode → List IdNode → Option (List IdNode)
unfolding equal_run after_run
and_loop zero src dest = none
and_loop (suc fuel) [] dest = some []
and_loop (suc fuel) (s ∷ src) [] = some []
and_loop (suc fuel) (s ∷ src) (d ∷ dest) =
    let next_src = and_loop fuel src (d ∷ dest) in
    let next_dest = and_loop fuel (s ∷ src) dest in
    let both = (do
      rest ← and_loop fuel (after_run d.id src) (after_run s.id dest)
      some ((s ∷ equal_run d.id src) ++ ((d ∷ equal_run s.id dest) ++ rest))) in
    if ltb d.id s.id then next_src else if ltb s.id d.id then next_dest else both

pub merge_and : List IdNode → List IdNode → ℕ → Option (Option (List IdNode) × ℕ)
unfolding and_loop vector_result pushed
merge_and src dest res_cnt =
    let merged = (do
      nodes ← and_loop (length src + length dest + 1) src dest >>= pushed
      some (vector_result nodes)) in
    if length src == 0 || length dest == 0 then some (none, res_cnt) else merged

pub minus_loop : ℕ → List IdNode → List IdNode → Option (List IdNode)
minus_loop zero src dest = none
minus_loop (suc fuel) [] dest = some []
minus_loop (suc fuel) (s ∷ src) [] = some (s ∷ src)
minus_loop (suc fuel) (s ∷ src) (d ∷ dest) =
    let next_src = (do rest ← minus_loop fuel src (d ∷ dest); some (s ∷ rest)) in
    let next_dest = minus_loop fuel (s ∷ src) dest in
    let both = minus_loop fuel src dest in
    if ltb d.id s.id then next_src else if ltb s.id d.id then next_dest else both

pub merge_minus : List IdNode → List IdNode → ℕ → Option (Option (List IdNode) × ℕ)
unfolding minus_loop vector_result pushed
merge_minus src dest res_cnt =
    let merged = (do
      nodes ← minus_loop (length src + length dest + 1) src dest >>= pushed
      some (vector_result nodes)) in
    if length src == 0 || length dest == 0 then some (none, res_cnt) else merged

-- The loop of `eggIdNode_set_timestamp` from the index `idx` on.
pub timestamp_loop : ℕ → ℕ → List IdNode → List IdNode
timestamp_loop base_value idx [] = []
timestamp_loop base_value idx (x ∷ xs) =
    record x { time_stamp = (base_value + idx + 1) % 2 ^ 32 }
    ∷ timestamp_loop base_value (idx + 1) xs

pub set_timestamp : List IdNode → ℕ → Bool × List IdNode
unfolding timestamp_loop
set_timestamp nodes base_value = (true, timestamp_loop base_value 0 nodes)

pub set_boost : List IdNode → ℕ → Bool × List IdNode
set_boost nodes boost = (true, map {A = IdNode} (λ x. record x { boost = boost }) nodes)

pub reset_timestamp : List IdNode → Bool × List IdNode
reset_timestamp nodes = (true, map {A = IdNode} (λ x. record x { time_stamp = 64 }) nodes)
