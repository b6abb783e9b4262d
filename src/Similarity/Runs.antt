-- ===== src/Similarity/Runs.antt =====
-- The theorems at concrete nodes.
use egg.Base.{ℕ, ◌≡◌, List, [], ◌∷◌, some, length, arith}
use egg.Base.Int.{pos}
use mathlib.Core.List.{Perm}
use egg.Sort.Insertion.{IsSorted}
use egg.IdNode.{IdNode}
use egg.Similarity.{DocOffset, cmp_key_off, doc_offset, word_with_continuation}
use egg.Similarity.Continuation.{in_a_row, word_with_continuation_lem}

abbrev word_at : List ℕ → IdNode
word_at bytes = record {
  id = 7;
  weight = pos 0;
  key_cnt = 2;
  mask = 1;
  time_stamp = 0;
  flag = 1;
  boost = 0;
  reservd = [];
  pos = bytes;
}

-- One word at 3 and 9, the other at 4.
abbrev two_words : List IdNode
two_words =
    word_at (3 ∷ 0 ∷ 9 ∷ 0 ∷ 0 ∷ 0 ∷ 0 ∷ 0 ∷ 0 ∷ 0 ∷ [])
    ∷ word_at (4 ∷ 0 ∷ 0 ∷ 0 ∷ 0 ∷ 0 ∷ 0 ∷ 0 ∷ 0 ∷ 0 ∷ [])
    ∷ []

word_with_continuation_lem_example :
    (table : List DocOffset) × (word_with_continuation two_words
      ≡ some (in_a_row table (length two_words)))
    × IsSorted cmp_key_off table
    × Perm table (doc_offset 0 two_words)
unfolding doc_offset
word_with_continuation_lem_example =
    word_with_continuation_lem two_words (omega arith) (omega arith)
