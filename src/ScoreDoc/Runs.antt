-- ===== src/ScoreDoc/Runs.antt =====
-- A concrete comparison. Numbers stand for doubles.
use egg.Base.{ℕ, ◌≡◌, refl, [], ◌∷◌}
use egg.Base.Int.{pos, negsuc}
use egg.ScoreDoc.{ScoreDoc, cmp_orderby_int32_asc}

abbrev first_doc : ScoreDoc ℕ
first_doc = record {
  id_doc = 1;
  score = 7;
  weight = pos 3;
  order_by = 0xff ∷ 0xff ∷ 0xff ∷ 0xff ∷ 0xff ∷ 0xff ∷ 0xff ∷ 0xff ∷ [];
  sort_tmp_val = pos 2;
}

abbrev second_doc : ScoreDoc ℕ
second_doc = record {
  id_doc = 2;
  score = 9;
  weight = negsuc 4;
  order_by = 5 ∷ 1 ∷ 0 ∷ 0 ∷ 0 ∷ 0 ∷ 0 ∷ 0 ∷ [];
  sort_tmp_val = pos 1;
}

-- The bytes of -1 stand below those of 261.
int32_signed : cmp_orderby_int32_asc first_doc second_doc ≡ negsuc 0
unfolding cmp_orderby_int32_asc
int32_signed = refl
