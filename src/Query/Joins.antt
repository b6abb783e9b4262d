-- ===== src/Query/Joins.antt =====
-- The nodes of OR and AND, as egg3/src/search/eggQuery.c takes them from the joins of id nodes.
use egg.Base.{
  ℕ, ◌+◌, ◌^◌, ◌≤◌, ◌<◌, ◌≡◌, refl, ap, ◌∙◌, Bool, ◌&&◌, ◌||◌, some, List, [], ◌∷◌, ◌++◌, length,
  length-append, take, take-all, ◌⊎◌, inl, inr, arith,
}
use mathlib.Core.List.{Perm}
use egg.IdNode.{IdNode, vector_result, merge_or, merge_and}
use egg.IdNode.Ids.{has_id, Descends}
use egg.IdNode.Union.{merge_or_lem, merge_or-nil}
use egg.IdNode.Intersection.{common, merge_and_lem, merge_and-nil}
use egg.IdNode.Members.{perm-length, perm-has_id, has_id-append, has_id-keep, length-keep}
use egg.Query.{or, and}
use egg.Query.Expression.{counted_nodes, merge}

-- Nodes in the order that a join wants, with the ids of others and not more of them.
pub record Ordered (nodes : List IdNode) (ids : ℕ → Bool) (most : ℕ) : Type 0 where
  pub descends : Descends nodes
  pub members : (id : ℕ) → has_id id nodes ≡ ids id
  pub few : length nodes ≤ most

or_steps :
    (xs ys nodes : List IdNode) (cnt : ℕ) (end : Bool)
    → merge_or xs ys 0 ≡ some (some nodes, cnt)
    → merge or xs ys end ≡ some (take cnt nodes)
unfolding merge counted_nodes
or_steps xs ys nodes cnt end e = rw e refl

or_empty : (end : Bool) → merge or [] [] end ≡ some []
unfolding merge counted_nodes
or_empty end = rw (merge_or-nil 0) refl

merge-or_some :
    (xs ys : List IdNode) (end : Bool)
    → 0 < length xs + length ys
    → length xs + length ys ≤ 2 ^ 26
    → (nodes : List IdNode) × (merge or xs ys end ≡ some nodes)
      × Ordered nodes (λ id. has_id id xs || has_id id ys) (length xs + length ys)
merge-or_some xs ys end some_node room =
    let (nodes, e, descends, perm) = merge_or_lem xs ys 0 some_node room in
    let size = perm-length perm ∙ length-append xs ys in
    (
      nodes,
      or_steps xs ys nodes (length xs + length ys) end e
          ∙ ap some (take-all (length xs + length ys) nodes (omega (arith, size))),
      record {
        descends = descends;
        members = λ id. perm-has_id id perm ∙ has_id-append id xs ys;
        few = omega (arith, size);
      },
    )

pub merge-or :
    (xs ys : List IdNode) (end : Bool)
    → length xs + length ys ≤ 2 ^ 26
    → (nodes : List IdNode) × (merge or xs ys end ≡ some nodes)
      × Ordered nodes (λ id. has_id id xs || has_id id ys) (length xs + length ys)
merge-or [] [] end room =
    ([], or_empty end, record { descends = tt; members = λ id. refl; few = omega arith })
merge-or (x ∷ xs) ys end room = merge-or_some (x ∷ xs) ys end (omega arith) room
merge-or [] (y ∷ ys) end room = merge-or_some [] (y ∷ ys) end (omega arith) room

and_steps :
    (xs ys nodes : List IdNode) (end : Bool)
    → merge_and xs ys 0 ≡ some (vector_result nodes)
    → merge and xs ys end ≡ some nodes
unfolding merge counted_nodes vector_result
and_steps xs ys [] end e = rw e refl
and_steps xs ys (x ∷ nodes) end e =
    rw e (ap some (take-all (length (x ∷ nodes)) (x ∷ nodes) (omega arith)))

and_empty :
    (xs ys : List IdNode) (end : Bool)
    → (length xs ≡ 0) ⊎ (length ys ≡ 0)
    → merge and xs ys end ≡ some []
unfolding merge counted_nodes
and_empty xs ys end h = rw (merge_and-nil xs ys 0 h) refl

members_and :
    (xs ys nodes : List IdNode) (id : ℕ)
    → Perm nodes (common xs ys ++ common ys xs)
    → has_id id nodes ≡ (has_id id xs && has_id id ys)
members_and xs ys nodes id perm =
    perm-has_id id perm
    ∙ has_id-append id (common xs ys) (common ys xs)
    ∙ ground (arith, has_id-keep id xs ys, has_id-keep id ys xs)

pub merge-and :
    (xs ys : List IdNode) (end : Bool)
    → Descends xs
    → Descends ys
    → length xs + length ys ≤ 2 ^ 26
    → (nodes : List IdNode) × (merge and xs ys end ≡ some nodes)
      × Ordered nodes (λ id. has_id id xs && has_id id ys) (length xs + length ys)
merge-and [] ys end dx dy room = (
  [],
  and_empty [] ys end (inl refl),
  record { descends = tt; members = λ id. refl; few = omega arith },
)
merge-and (x ∷ xs) [] end dx dy room = (
  [],
  and_empty (x ∷ xs) [] end (inr refl),
  record { descends = tt; members = λ id. ground arith; few = omega arith },
)
merge-and (x ∷ xs) (y ∷ ys) end dx dy room =
    let (nodes, e, descends, perm) =
      merge_and_lem (x ∷ xs) (y ∷ ys) 0 dx dy (omega arith) (omega arith) room in
    let size =
      perm-length perm ∙ length-append (common (x ∷ xs) (y ∷ ys)) (common (y ∷ ys) (x ∷ xs)) in
    let src = length-keep (λ z. has_id z.id (y ∷ ys)) (x ∷ xs) in
    let dest = length-keep (λ z. has_id z.id (x ∷ xs)) (y ∷ ys) in
    (
      nodes,
      and_steps (x ∷ xs) (y ∷ ys) nodes end e,
      record {
        descends = descends;
        members = λ id. members_and (x ∷ xs) (y ∷ ys) nodes id perm;
        few = omega (arith, size, src, dest);
      },
    )
