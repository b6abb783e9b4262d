-- ===== src/ScoreDoc/Orders.antt =====
-- The comparisons of scored documents meet the contract of the sorts.
use egg.Base.{List, ℕ, Bool}
use egg.Compare.{
  StrictWeak, IsOrder, ltb_ℤ-StrictWeak, StrictWeak-flip, three_way-IsOrder,
  three_way_flipped-IsOrder, then_by-IsOrder,
}
use egg.ScoreDoc.{
  ScoreDoc, int32_of, int64_of, double_of, cmp_tmp_val, cmp_weight, cmp_score,
  cmp_orderby_int32_asc, cmp_orderby_int32_desc, cmp_orderbytmpval_int32_asc,
  cmp_orderbytmpval_int32_desc, cmp_orderby_int64_asc, cmp_orderby_int64_desc,
  cmp_orderbytmpval_int64_asc, cmp_orderbytmpval_int64_desc, cmp_orderby_double_asc,
  cmp_orderby_double_desc, cmp_orderbytmpval_double_asc, cmp_orderbytmpval_double_desc,
}

module _ {D : Type 0} (lt : D → D → Bool) (read_double : List ℕ → D) (w : StrictWeak lt) where
  -- Each of the fourteen comparisons of two documents is an order that a sort may be given: by weight,
  -- by score, by an `orderBy` value of each type in each direction, and by such a value with ties broken
  -- by `sort_tmp_val`; where `<` on doubles is a strict weak order.
  pub comparisons-IsOrder :
      IsOrder {A = ScoreDoc D} cmp_weight
      × IsOrder {A = ScoreDoc D} (cmp_score lt)
      × IsOrder {A = ScoreDoc D} cmp_orderby_int32_asc
      × IsOrder {A = ScoreDoc D} cmp_orderby_int32_desc
      × IsOrder {A = ScoreDoc D} cmp_orderbytmpval_int32_asc
      × IsOrder {A = ScoreDoc D} cmp_orderbytmpval_int32_desc
      × IsOrder {A = ScoreDoc D} cmp_orderby_int64_asc
      × IsOrder {A = ScoreDoc D} cmp_orderby_int64_desc
      × IsOrder {A = ScoreDoc D} cmp_orderbytmpval_int64_asc
      × IsOrder {A = ScoreDoc D} cmp_orderbytmpval_int64_desc
      × IsOrder {A = ScoreDoc D} (cmp_orderby_double_asc lt read_double)
      × IsOrder {A = ScoreDoc D} (cmp_orderby_double_desc lt read_double)
      × IsOrder {A = ScoreDoc D} (cmp_orderbytmpval_double_asc lt read_double)
      × IsOrder {A = ScoreDoc D} (cmp_orderbytmpval_double_desc lt read_double)
  unfolding cmp_tmp_val cmp_weight cmp_score cmp_orderby_int32_asc cmp_orderby_int32_desc
      cmp_orderbytmpval_int32_asc cmp_orderbytmpval_int32_desc cmp_orderby_int64_asc
      cmp_orderby_int64_desc cmp_orderbytmpval_int64_asc cmp_orderbytmpval_int64_desc
      cmp_orderby_double_asc cmp_orderby_double_desc cmp_orderbytmpval_double_asc
      cmp_orderbytmpval_double_desc
  comparisons-IsOrder = (
    three_way-IsOrder ScoreDoc.weight ltb_ℤ-StrictWeak,
    three_way-IsOrder ScoreDoc.score w,
    three_way-IsOrder (int32_of) ltb_ℤ-StrictWeak,
    three_way_flipped-IsOrder (int32_of) ltb_ℤ-StrictWeak,
    then_by-IsOrder (int32_of) ScoreDoc.sort_tmp_val ltb_ℤ-StrictWeak ltb_ℤ-StrictWeak,
    then_by-IsOrder (int32_of) ScoreDoc.sort_tmp_val (StrictWeak-flip ltb_ℤ-StrictWeak)
        ltb_ℤ-StrictWeak,
    three_way-IsOrder (int64_of) ltb_ℤ-StrictWeak,
    three_way_flipped-IsOrder (int64_of) ltb_ℤ-StrictWeak,
    then_by-IsOrder (int64_of) ScoreDoc.sort_tmp_val ltb_ℤ-StrictWeak ltb_ℤ-StrictWeak,
    then_by-IsOrder (int64_of) ScoreDoc.sort_tmp_val (StrictWeak-flip ltb_ℤ-StrictWeak)
        ltb_ℤ-StrictWeak,
    three_way-IsOrder (double_of lt read_double) w,
    three_way_flipped-IsOrder (double_of lt read_double) w,
    then_by-IsOrder (double_of lt read_double) ScoreDoc.sort_tmp_val w ltb_ℤ-StrictWeak,
    then_by-IsOrder (double_of lt read_double) ScoreDoc.sort_tmp_val (StrictWeak-flip w)
        ltb_ℤ-StrictWeak,
  )
