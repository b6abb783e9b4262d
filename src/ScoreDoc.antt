-- ===== src/ScoreDoc.antt =====
-- egg3/src/search/eggScoreDoc.c and eggScoreDoc.h: a scored document, and the comparison functions by
-- which search results are sorted and looked up. The eight bytes of `orderBy` hold an `int32_t`, an
-- `int64_t` or a `double`, least significant byte first. The type `double`, its `<` and the reading
-- of eight bytes as one are parameters. A function whose name has a 2 takes an array and an index;
-- `none` is an index outside the array.
pub mod Orders
pub mod Indexed
mod Runs
use egg.Base.{
  ℕ, ◌+◌, ◌-◌, ◌*◌, ◌^◌, Bool, Option, none, some, List, [], ◌∷◌, ltb, if◌then◌else◌, take,
  get_elem?,
}
use egg.Base.Int.{ℤ, pos, negsuc, ltb_ℤ}
use egg.Base.Bytes.{le_value}
use egg.Compare.{three_way, then_by}
use mathlib.Core.Option

-- `struct eggScoreDoc`
pub record ScoreDoc (D : Type 0) : Type 0 where
  pub id_doc : ℕ
  pub score : D
  pub weight : ℤ
  pub order_by : List ℕ
  pub sort_tmp_val : ℤ

-- The integer that a pattern of 32 or of 64 bits stands for.
abbrev pub signed32 : ℕ → ℤ
signed32 w = if ltb w (2 ^ 31) then pos w else negsuc (2 ^ 32 - w - 1)

abbrev pub signed64 : ℕ → ℤ
signed64 w = if ltb w (2 ^ 63) then pos w else negsuc (2 ^ 64 - w - 1)

module _ {D : Type 0} where
  -- `*(int32_t*)hScoreDoc->orderBy` and `*(int64_t*)hScoreDoc->orderBy`
  unfoldable pub int32_of : ScoreDoc D → ℤ
  unfolding le_value
  int32_of d = signed32 (le_value (take 4 d.order_by))

  unfoldable pub int64_of : ScoreDoc D → ℤ
  unfolding le_value
  int64_of d = signed64 (le_value (take 8 d.order_by))

  -- The later key of the comparisons by `sort_tmp_val`: the smaller value counts as the greater.
  pub cmp_tmp_val : ScoreDoc D → ScoreDoc D → ℤ
  cmp_tmp_val src dest = three_way ltb_ℤ dest.sort_tmp_val src.sort_tmp_val

  pub cmp_weight : ScoreDoc D → ScoreDoc D → ℤ
  cmp_weight src dest = three_way ltb_ℤ src.weight dest.weight

  pub cmp_weight2 : List (ScoreDoc D) → ℕ → ScoreDoc D → Option ℤ
  cmp_weight2 docs idx dest =
      Option.map (λ src. three_way ltb_ℤ src.weight dest.weight) (get_elem? docs idx)

  unfoldable pub cmp_orderby_int32_asc : ScoreDoc D → ScoreDoc D → ℤ
  unfolding int32_of
  cmp_orderby_int32_asc src dest = three_way ltb_ℤ (int32_of src) (int32_of dest)

  pub cmp_orderby_int32_desc : ScoreDoc D → ScoreDoc D → ℤ
  unfolding int32_of
  cmp_orderby_int32_desc src dest = three_way ltb_ℤ (int32_of dest) (int32_of src)

  pub cmp_orderby2_int32_asc : List (ScoreDoc D) → ℕ → ScoreDoc D → Option ℤ
  unfolding int32_of
  cmp_orderby2_int32_asc docs idx dest =
      Option.map (λ src. three_way ltb_ℤ (int32_of src) (int32_of dest)) (get_elem? docs idx)

  pub cmp_orderby2_int32_desc : List (ScoreDoc D) → ℕ → ScoreDoc D → Option ℤ
  unfolding int32_of
  cmp_orderby2_int32_desc docs idx dest =
      Option.map (λ src. three_way ltb_ℤ (int32_of dest) (int32_of src)) (get_elem? docs idx)

  pub cmp_orderbytmpval_int32_asc : ScoreDoc D → ScoreDoc D → ℤ
  unfolding int32_of cmp_tmp_val
  cmp_orderbytmpval_int32_asc src dest =
      then_by (three_way ltb_ℤ (int32_of src) (int32_of dest)) (cmp_tmp_val src dest)

  pub cmp_orderbytmpval_int32_desc : ScoreDoc D → ScoreDoc D → ℤ
  unfolding int32_of cmp_tmp_val
  cmp_orderbytmpval_int32_desc src dest =
      then_by (three_way ltb_ℤ (int32_of dest) (int32_of src)) (cmp_tmp_val src dest)

  pub cmp_orderbytmpval2_int32_asc : List (ScoreDoc D) → ℕ → ScoreDoc D → Option ℤ
  unfolding int32_of cmp_tmp_val
  cmp_orderbytmpval2_int32_asc docs idx dest =
      Option.map
        (λ src. then_by (three_way ltb_ℤ (int32_of src) (int32_of dest)) (cmp_tmp_val src dest))
        (get_elem? docs idx)

  pub cmp_orderbytmpval2_int32_desc : List (ScoreDoc D) → ℕ → ScoreDoc D → Option ℤ
  unfolding int32_of cmp_tmp_val
  cmp_orderbytmpval2_int32_desc docs idx dest =
      Option.map
        (λ src. then_by (three_way ltb_ℤ (int32_of dest) (int32_of src)) (cmp_tmp_val src dest))
        (get_elem? docs idx)

  pub cmp_orderby_int64_asc : ScoreDoc D → ScoreDoc D → ℤ
  unfolding int64_of
  cmp_orderby_int64_asc src dest = three_way ltb_ℤ (int64_of src) (int64_of dest)

  pub cmp_orderby_int64_desc : ScoreDoc D → ScoreDoc D → ℤ
  unfolding int64_of
  cmp_orderby_int64_desc src dest = three_way ltb_ℤ (int64_of dest) (int64_of src)

  pub cmp_orderby2_int64_asc : List (ScoreDoc D) → ℕ → ScoreDoc D → Option ℤ
  unfolding int64_of
  cmp_orderby2_int64_asc docs idx dest =
      Option.map (λ src. three_way ltb_ℤ (int64_of src) (int64_of dest)) (get_elem? docs idx)

  pub cmp_orderby2_int64_desc : List (ScoreDoc D) → ℕ → ScoreDoc D → Option ℤ
  unfolding int64_of
  cmp_orderby2_int64_desc docs idx dest =
      Option.map (λ src. three_way ltb_ℤ (int64_of dest) (int64_of src)) (get_elem? docs idx)

  pub cmp_orderbytmpval_int64_asc : ScoreDoc D → ScoreDoc D → ℤ
  unfolding int64_of cmp_tmp_val
  cmp_orderbytmpval_int64_asc src dest =
      then_by (three_way ltb_ℤ (int64_of src) (int64_of dest)) (cmp_tmp_val src dest)

  pub cmp_orderbytmpval_int64_desc : ScoreDoc D → ScoreDoc D → ℤ
  unfolding int64_of cmp_tmp_val
  cmp_orderbytmpval_int64_desc src dest =
      then_by (three_way ltb_ℤ (int64_of dest) (int64_of src)) (cmp_tmp_val src dest)

  pub cmp_orderbytmpval2_int64_asc : List (ScoreDoc D) → ℕ → ScoreDoc D → Option ℤ
  unfolding int64_of cmp_tmp_val
  cmp_orderbytmpval2_int64_asc docs idx dest =
      Option.map
        (λ src. then_by (three_way ltb_ℤ (int64_of src) (int64_of dest)) (cmp_tmp_val src dest))
        (get_elem? docs idx)

  pub cmp_orderbytmpval2_int64_desc : List (ScoreDoc D) → ℕ → ScoreDoc D → Option ℤ
  unfolding int64_of cmp_tmp_val
  cmp_orderbytmpval2_int64_desc docs idx dest =
      Option.map
        (λ src. then_by (three_way ltb_ℤ (int64_of dest) (int64_of src)) (cmp_tmp_val src dest))
        (get_elem? docs idx)

module _ {D : Type 0} (lt : D → D → Bool) where
  pub cmp_score : ScoreDoc D → ScoreDoc D → ℤ
  cmp_score src dest = three_way lt src.score dest.score

  pub cmp_score2 : List (ScoreDoc D) → ℕ → ScoreDoc D → Option ℤ
  cmp_score2 docs idx dest =
      Option.map (λ src. three_way lt src.score dest.score) (get_elem? docs idx)

module _ {D : Type 0} (lt : D → D → Bool) (read_double : List ℕ → D) where
  -- `*(double*)hScoreDoc->orderBy`
  abbrev pub double_of : ScoreDoc D → D
  double_of d = read_double (take 8 d.order_by)

  pub cmp_orderby_double_asc : ScoreDoc D → ScoreDoc D → ℤ
  cmp_orderby_double_asc src dest = three_way lt (double_of src) (double_of dest)

  pub cmp_orderby_double_desc : ScoreDoc D → ScoreDoc D → ℤ
  cmp_orderby_double_desc src dest = three_way lt (double_of dest) (double_of src)

  pub cmp_orderby2_double_asc : List (ScoreDoc D) → ℕ → ScoreDoc D → Option ℤ
  cmp_orderby2_double_asc docs idx dest =
      Option.map (λ src. three_way lt (double_of src) (double_of dest)) (get_elem? docs idx)

  pub cmp_orderby2_double_desc : List (ScoreDoc D) → ℕ → ScoreDoc D → Option ℤ
  cmp_orderby2_double_desc docs idx dest =
      Option.map (λ src. three_way lt (double_of dest) (double_of src)) (get_elem? docs idx)

  pub cmp_orderbytmpval_double_asc : ScoreDoc D → ScoreDoc D → ℤ
  unfolding cmp_tmp_val
  cmp_orderbytmpval_double_asc src dest =
      then_by (three_way lt (double_of src) (double_of dest)) (cmp_tmp_val src dest)

  pub cmp_orderbytmpval_double_desc : ScoreDoc D → ScoreDoc D → ℤ
  unfolding cmp_tmp_val
  cmp_orderbytmpval_double_desc src dest =
      then_by (three_way lt (double_of dest) (double_of src)) (cmp_tmp_val src dest)

  pub cmp_orderbytmpval2_double_asc : List (ScoreDoc D) → ℕ → ScoreDoc D → Option ℤ
  unfolding cmp_tmp_val
  cmp_orderbytmpval2_double_asc docs idx dest =
      Option.map
        (λ src. then_by (three_way lt (double_of src) (double_of dest)) (cmp_tmp_val src dest))
        (get_elem? docs idx)

  pub cmp_orderbytmpval2_double_desc : List (ScoreDoc D) → ℕ → ScoreDoc D → Option ℤ
  unfolding cmp_tmp_val
  cmp_orderbytmpval2_double_desc docs idx dest =
      Option.map
        (λ src. then_by (three_way lt (double_of dest) (double_of src)) (cmp_tmp_val src dest))
        (get_elem? docs idx)
