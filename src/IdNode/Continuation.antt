-- ===== src/IdNode/Continuation.antt =====
-- egg3/src/storage/eggIdNode.c: `eggIdNode_filter_by_continuation`, which keeps of the nodes of a phrase,
-- by groups of one id, those whose words follow one another. A group's size is that of the first.
-- `none` is a read behind the array or fuel that ran out.
use egg.Base.{
  ℕ, zero, suc, Bool, true, false, Option, none, some, List, [], ◌∷◌, ◌++◌, ◌>>=◌, length, take,
  drop, ltb, if◌then◌else◌,
}
use egg.Similarity.{word_with_continuation}
use egg.IdNode.{IdNode, equal_run}

-- `while (n_ids_idx != n_org_cnt)` from the index on: the nodes that it moves to the front.
pub continuation_groups : ℕ → ℕ → List IdNode → Option (List IdNode)
continuation_groups zero equal_cnt nodes = none
continuation_groups (suc fuel) equal_cnt [] = some []
continuation_groups (suc fuel) equal_cnt (x ∷ xs) =
    let group = take equal_cnt (x ∷ xs) in
    let moved = (do
      ret ← word_with_continuation group
      rest ← continuation_groups fuel equal_cnt (drop equal_cnt (x ∷ xs))
      some (if ret then group ++ rest else rest)) in
    if ltb (length (x ∷ xs)) equal_cnt then none else moved

-- The return value, and the array as far as `*pIdCnt` counts it.
pub filter_by_continuation : List IdNode → Option (Bool × List IdNode)
unfolding equal_run continuation_groups
filter_by_continuation [] = some (false, [])
filter_by_continuation (x ∷ xs) =
    let equal_cnt = suc (length (equal_run x.id xs)) in
    let filtered = (do
      nodes ← continuation_groups (suc (length (x ∷ xs))) equal_cnt (x ∷ xs)
      some (true, nodes)) in
    if ltb equal_cnt 2 then some (true, x ∷ xs) else filtered
