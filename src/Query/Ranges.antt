-- ===== src/Query/Ranges.antt =====
-- The nodes of a range, which egg3/src/interface/eggIndexSearcherLocal.c sorts by id without repeats.
use egg.Base.{ℕ, ◌^◌, ◌≤◌, ◌≡◌, refl, ap, ◌∙◌, some, List, [], ◌∷◌, length, take, arith}
use mathlib.Core.List.{Perm}
use egg.Sort.{sedgesort}
use egg.Sort.Quick.{sedgesort_sorts}
use egg.Repeat.{filter_repeat}
use egg.Repeat.Changes.{changes, filter_repeat_lem}
use egg.IdNode.{IdNode, idnode_sz, cmp_id}
use egg.IdNode.Ids.{has_id, Descends}
use egg.IdNode.Union.{cmp_id-IsOrder, sorted-Descends}
use egg.IdNode.Members.{perm-length, perm-has_id, has_id-changes, length-changes, Descends-changes}
use egg.Query.Search.{sort_range}
use egg.Query.Joins.{Ordered}

range_steps :
    (x : IdNode) (xs by_id r : List IdNode) (n : ℕ)
    → sedgesort cmp_id idnode_sz (x ∷ xs) ≡ some by_id
    → filter_repeat cmp_id idnode_sz by_id ≡ some (r, n)
    → sort_range (x ∷ xs) ≡ some (take n r)
unfolding sort_range
range_steps x xs by_id r n e f = rw (e, f) (ground arith)

range_empty : sort_range [] ≡ some []
unfolding sort_range
range_empty = refl

-- The repeats of a list in order go, and no id with them.
range_sorted :
    (x : IdNode) (xs by_id : List IdNode)
    → sedgesort cmp_id idnode_sz (x ∷ xs) ≡ some by_id
    → Descends by_id
    → Perm by_id (x ∷ xs)
    → length (x ∷ xs) ≤ 2 ^ 26
    → (sorted : List IdNode) × (sort_range (x ∷ xs) ≡ some sorted)
      × Ordered sorted (λ id. has_id id (x ∷ xs)) (length (x ∷ xs))
range_sorted x xs [] e d perm few = absurd (omega (arith, perm-length perm))
range_sorted x xs (y ∷ ys) e d perm few =
    let (r, n, f, front) =
      filter_repeat_lem cmp_id idnode_sz y ys (omega (arith, perm-length perm))
        (omega (arith, perm-length perm)) in
    (
      y ∷ changes cmp_id y ys,
      range_steps x xs (y ∷ ys) r n e f ∙ ap some front,
      record {
        descends = Descends-changes y ys d;
        members = λ id. has_id-changes id y ys ∙ perm-has_id id perm;
        few = omega (arith, length-changes y ys, perm-length perm);
      },
    )

pub sort_range_lem :
    (nodes : List IdNode)
    → length nodes ≤ 2 ^ 26
    → (sorted : List IdNode) × (sort_range nodes ≡ some sorted)
      × Ordered sorted (λ id. has_id id nodes) (length nodes)
sort_range_lem [] few =
    ([], range_empty, record { descends = tt; members = λ id. refl; few = omega arith })
sort_range_lem (x ∷ xs) few =
    let (by_id, e, sorted, perm) =
      sedgesort_sorts cmp_id cmp_id-IsOrder idnode_sz (x ∷ xs) (omega arith) (omega arith) in
    range_sorted x xs by_id e (sorted-Descends by_id sorted) perm few
