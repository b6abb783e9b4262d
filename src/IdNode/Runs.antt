-- ===== src/IdNode/Runs.antt =====
-- The theorems at concrete lists.
use egg.Base.{ℕ, ◌+◌, ◌≡◌, List, [], ◌∷◌, ◌++◌, some, length, arith}
use egg.Base.Int.{pos}
use mathlib.Core.List.{Perm}
use egg.IdNode.{IdNode, vector_result, merge_or, merge_and, merge_minus}
use egg.IdNode.Ids.{Descends, DescendsStrictly}
use egg.IdNode.Union.{merge_or_lem}
use egg.IdNode.Intersection.{common, merge_and_lem}
use egg.IdNode.Difference.{without, merge_minus_lem}

abbrev node : ℕ → ℕ → IdNode
node id mask = record {
  id = id;
  weight = pos 0;
  key_cnt = 1;
  mask = mask;
  time_stamp = 0;
  flag = 1;
  boost = 0;
  reservd = [];
  pos = [];
}

abbrev one_field : List IdNode
one_field = node 9 1 ∷ node 7 1 ∷ node 4 1 ∷ []

abbrev other_field : List IdNode
other_field = node 8 2 ∷ node 7 2 ∷ node 7 3 ∷ node 4 2 ∷ []

one_field-Descends : Descends one_field
one_field-Descends = ((omega arith, (omega arith, tt)), ((omega arith, tt), (tt, tt)))

one_field-DescendsStrictly : DescendsStrictly one_field
one_field-DescendsStrictly = ((omega arith, (omega arith, tt)), ((omega arith, tt), (tt, tt)))

other_field-Descends : Descends other_field
other_field-Descends = (
  (omega arith, (omega arith, (omega arith, tt))),
  ((omega arith, (omega arith, tt)), ((omega arith, tt), (tt, tt))),
)

merge_or_lem_example :
    (nodes : List IdNode) × (merge_or one_field other_field 0
      ≡ some (some nodes, length one_field + length other_field))
    × Descends nodes
    × Perm nodes (one_field ++ other_field)
merge_or_lem_example = merge_or_lem one_field other_field 0 (omega arith) (omega arith)

merge_and_lem_example :
    (nodes : List IdNode) × (merge_and one_field other_field 0 ≡ some (vector_result nodes))
    × Descends nodes
    × Perm nodes (common one_field other_field ++ common other_field one_field)
merge_and_lem_example =
    merge_and_lem one_field other_field 0 one_field-Descends other_field-Descends (omega arith)
      (omega arith) (omega arith)

merge_minus_lem_example :
    merge_minus one_field other_field 0 ≡ some (vector_result (without one_field other_field))
merge_minus_lem_example =
    merge_minus_lem one_field other_field 0 one_field-DescendsStrictly other_field-Descends
      (omega arith) (omega arith) (omega arith)
