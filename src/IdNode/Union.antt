-- ===== src/IdNode/Union.antt =====
-- `eggIdNode_merge_or` puts the nodes of both lists in the order of their ids.
use egg.Base.{
  ℕ, ◌+◌, ◌^◌, ◌≤◌, ◌<◌, ◌≡◌, none, some, List, [], ◌∷◌, ◌++◌, length, length-append, All-map, refl,
  arith,
}
use mathlib.Core.List.{Perm}
use egg.Compare.{IsOrder, Before, three_way-IsOrder, ltb-StrictWeak}
use egg.Sort.{sedgesort}
use egg.Sort.Insertion.{IsSorted}
use egg.Sort.Quick.{sedgesort_sorts}
use egg.IdNode.{IdNode, idnode_sz, cmp_id, merge_or}
use egg.IdNode.Ids.{Descends}

pub cmp_id-IsOrder : IsOrder cmp_id
unfolding cmp_id
cmp_id-IsOrder = three_way-IsOrder (λ (x : IdNode). x.id) ltb-StrictWeak

Before-le : (x y : IdNode) → Before cmp_id x y → y.id ≤ x.id
unfolding cmp_id
Before-le x y h = ground arith

pub sorted-Descends : (xs : List IdNode) → IsSorted cmp_id xs → Descends xs
sorted-Descends [] h = tt
sorted-Descends (x ∷ xs) (h, k) = (All-map (λ y b. Before-le x y b) xs h, sorted-Descends xs k)

or_steps :
    (src dest : List IdNode) (res_cnt : ℕ) (nodes : List IdNode)
    → 0 < length src + length dest
    → length src + length dest < 2 ^ 32
    → sedgesort cmp_id idnode_sz (src ++ dest) ≡ some nodes
    → merge_or src dest res_cnt ≡ some (some nodes, length src + length dest)
unfolding merge_or
or_steps src dest res_cnt nodes some_node room e = rw e (ground arith)

-- For two lists with at most 2 ^ 26 nodes in all, and at least one, `eggIdNode_merge_or` ends without
-- a write outside its array; the result is the nodes of both lists, each as often as before, with ids
-- that descend, and `*pResCnt` is their count.
pub merge_or_lem :
    (src dest : List IdNode) (res_cnt : ℕ)
    → 0 < length src + length dest
    → length src + length dest ≤ 2 ^ 26
    → (nodes : List IdNode) × (merge_or src dest res_cnt
        ≡ some (some nodes, length src + length dest))
      × Descends nodes
      × Perm nodes (src ++ dest)
merge_or_lem src dest res_cnt some_node room =
    let size = length-append src dest in
    let (nodes, e, sorted, perm) =
      sedgesort_sorts cmp_id cmp_id-IsOrder idnode_sz (src ++ dest) (omega (arith, size))
        (omega (arith, size)) in
    (
      nodes,
      or_steps src dest res_cnt nodes some_node (omega arith) e,
      sorted-Descends nodes sorted,
      perm,
    )

pub merge_or-nil : (res_cnt : ℕ) → merge_or [] [] res_cnt ≡ some (none, 0)
unfolding merge_or
merge_or-nil res_cnt = refl
