-- ===== src/ScoreDoc/Indexed.antt =====
-- The comparisons that take an array and an index, as the binary search calls them.
use egg.Base.{◌≡◌, List, ℕ, Bool, some, get_elem?}
use egg.ScoreDoc.{
  ScoreDoc, cmp_weight, cmp_score, cmp_orderby_int32_asc, cmp_orderby_int32_desc,
  cmp_orderbytmpval_int32_asc, cmp_orderbytmpval_int32_desc, cmp_orderby_int64_asc,
  cmp_orderby_int64_desc, cmp_orderbytmpval_int64_asc, cmp_orderbytmpval_int64_desc,
  cmp_orderby_double_asc, cmp_orderby_double_desc, cmp_orderbytmpval_double_asc,
  cmp_orderbytmpval_double_desc, cmp_weight2, cmp_score2, cmp_orderby2_int32_asc,
  cmp_orderby2_int32_desc, cmp_orderbytmpval2_int32_asc, cmp_orderbytmpval2_int32_desc,
  cmp_orderby2_int64_asc, cmp_orderby2_int64_desc, cmp_orderbytmpval2_int64_asc,
  cmp_orderbytmpval2_int64_desc, cmp_orderby2_double_asc, cmp_orderby2_double_desc,
  cmp_orderbytmpval2_double_asc, cmp_orderbytmpval2_double_desc,
}

module _ {D : Type 0} (lt : D → D → Bool) (read_double : List ℕ → D) where
  -- Inside the array, each of the fourteen comparisons by index gives what its namesake gives on the
  -- document that stands at the index.
  pub indexed-eq_plain :
      (docs : List (ScoreDoc D)) (idx : ℕ) (src dest : ScoreDoc D)
      → get_elem? docs idx ≡ some src
      → (cmp_weight2 docs idx dest ≡ some (cmp_weight src dest))
        × (cmp_score2 lt docs idx dest ≡ some (cmp_score lt src dest))
        × (cmp_orderby2_int32_asc docs idx dest ≡ some (cmp_orderby_int32_asc src dest))
        × (cmp_orderby2_int32_desc docs idx dest ≡ some (cmp_orderby_int32_desc src dest))
        × (cmp_orderbytmpval2_int32_asc docs idx dest ≡ some (cmp_orderbytmpval_int32_asc src dest))
        × (cmp_orderbytmpval2_int32_desc docs idx dest
            ≡ some (cmp_orderbytmpval_int32_desc src dest))
        × (cmp_orderby2_int64_asc docs idx dest ≡ some (cmp_orderby_int64_asc src dest))
        × (cmp_orderby2_int64_desc docs idx dest ≡ some (cmp_orderby_int64_desc src dest))
        × (cmp_orderbytmpval2_int64_asc docs idx dest ≡ some (cmp_orderbytmpval_int64_asc src dest))
        × (cmp_orderbytmpval2_int64_desc docs idx dest
            ≡ some (cmp_orderbytmpval_int64_desc src dest))
        × (cmp_orderby2_double_asc lt read_double docs idx dest
            ≡ some (cmp_orderby_double_asc lt read_double src dest))
        × (cmp_orderby2_double_desc lt read_double docs idx dest
            ≡ some (cmp_orderby_double_desc lt read_double src dest))
        × (cmp_orderbytmpval2_double_asc lt read_double docs idx dest
            ≡ some (cmp_orderbytmpval_double_asc lt read_double src dest))
        × (cmp_orderbytmpval2_double_desc lt read_double docs idx dest
            ≡ some (cmp_orderbytmpval_double_desc lt read_double src dest))
  unfolding cmp_weight cmp_score cmp_orderby_int32_asc cmp_orderby_int32_desc
      cmp_orderbytmpval_int32_asc cmp_orderbytmpval_int32_desc cmp_orderby_int64_asc
      cmp_orderby_int64_desc cmp_orderbytmpval_int64_asc cmp_orderbytmpval_int64_desc
      cmp_orderby_double_asc cmp_orderby_double_desc cmp_orderbytmpval_double_asc
      cmp_orderbytmpval_double_desc cmp_weight2 cmp_score2 cmp_orderby2_int32_asc
      cmp_orderby2_int32_desc cmp_orderbytmpval2_int32_asc cmp_orderbytmpval2_int32_desc
      cmp_orderby2_int64_asc cmp_orderby2_int64_desc cmp_orderbytmpval2_int64_asc
      cmp_orderbytmpval2_int64_desc cmp_orderby2_double_asc cmp_orderby2_double_desc
      cmp_orderbytmpval2_double_asc cmp_orderbytmpval2_double_desc
  indexed-eq_plain docs idx src dest e =
      (rw e, rw e, rw e, rw e, rw e, rw e, rw e, rw e, rw e, rw e, rw e, rw e, rw e, rw e)
