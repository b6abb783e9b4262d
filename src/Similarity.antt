-- ===== src/Similarity.antt =====
-- egg3/src/similarity/eggSimilarScore.c and .h: whether the words that a list of id nodes stands for
-- follow one another in a document. A node's address in a table of offsets is its index in the list. A
-- walk by a growing index is the list from that index on; `none` is fuel that ran out. The scores of
-- this file are in floating point and not modelled.
pub mod Phrase
pub mod Continuation
mod Runs
use egg.Base.{
  ℕ, zero, suc, ◌+◌, ◌-◌, ◌*◌, Bool, true, false, Option, none, some, List, [], ◌∷◌, ◌++◌, ◌>>=◌,
  length, take, drop, ltb, ◌==◌, if◌then◌else◌,
}
use egg.Base.Int.{ℤ}
use egg.Compare.{three_way}
use egg.Sort.{sedgesort}
use egg.IdNode.{IdNode}

-- `struct eggDocOffsetTable`
pub record DocOffset : Type 0 where
  pub key : ℕ
  pub off : ℕ

pub cmp_key_off : DocOffset → DocOffset → ℤ
cmp_key_off offsettable1 offsettable2 = three_way ltb offsettable2.off offsettable1.off

-- `while (n_tmp_idx != EGG_POS_COUNT && lp_off[n_tmp_idx])` on the bytes of `pos`, which are
-- `2 * EGG_POS_COUNT` by the node's type; `left` numbers may follow.
pub node_offsets : ℕ → ℕ → List ℕ → List DocOffset
node_offsets zero key pos = []
node_offsets (suc left) key [] = []
node_offsets (suc left) key (low ∷ []) = []
node_offsets (suc left) key (low ∷ high ∷ pos) =
    let rest = record { key = key; off = low + 256 * high } ∷ node_offsets left key pos in
    if low + 256 * high == 0 then [] else rest

-- The loop of `similar_get_doc_offset` from the node `n_ids_idx` on.
pub doc_offset : ℕ → List IdNode → List DocOffset
unfolding node_offsets
doc_offset n_ids_idx [] = []
doc_offset n_ids_idx (x ∷ xs) = node_offsets 5 n_ids_idx x.pos ++ doc_offset (n_ids_idx + 1) xs

-- `while (++n_idx_tmp != max_pos)`: whether the key stands behind.
pub has_key : ℕ → List DocOffset → Bool
has_key key [] = false
has_key key (x ∷ xs) = if key == x.key then true else has_key key xs

-- `egg_word_different` on the entries from `idx` to before `max_pos`: how far behind `idx` the index
-- that it returns stands, `none` for -1.
pub word_different : List DocOffset → Option ℕ
unfolding has_key
word_different [] = none
word_different (x ∷ xs) =
    let rest = (do k ← word_different xs; some (suc k)) in if has_key x.key xs then some 0 else rest

-- `while (++i != wordCnt + n_idx)`, with `left` rounds to go at most: `i - n_idx` behind it. The entry
-- of a further round is there, as the caller has tested.
pub run_end : ℕ → List DocOffset → ℕ
run_end zero peggDoc = 1
run_end (suc left) [] = 1
run_end (suc left) (x ∷ []) = 1
run_end (suc left) (x ∷ y ∷ ys) =
    let further = suc (run_end left (y ∷ ys)) in if y.off == suc x.off then further else 1

-- `while (n_idx != len)` from `n_idx` on.
pub continuation_loop : ℕ → ℕ → List DocOffset → Option Bool
continuation_loop zero word_cnt peggDoc = none
continuation_loop (suc fuel) word_cnt [] = some true
continuation_loop (suc fuel) word_cnt (x ∷ xs) =
    let i = run_end (word_cnt - 1) (x ∷ xs) in
    let same : Option ℕ = word_different (take word_cnt (x ∷ xs)) in
    let found : Option Bool = elim same [
      | none ↦ some true
      | some k ↦ continuation_loop fuel word_cnt (drop (suc k) (x ∷ xs))
    ] in
    let broken = continuation_loop fuel word_cnt (drop i (x ∷ xs)) in
    let looked = if i == word_cnt then found else broken in
    if ltb (length (x ∷ xs)) word_cnt then some false else looked

pub word_continuation : List DocOffset → ℕ → Option Bool
unfolding continuation_loop
word_continuation peggDoc word_cnt = continuation_loop (length peggDoc + 1) word_cnt peggDoc

-- `sizeof(DOCOFFSETTABLE)`
abbrev docoffset_sz : ℕ
docoffset_sz = 16

pub word_with_continuation : List IdNode → Option Bool
unfolding sedgesort cmp_key_off doc_offset word_continuation
word_with_continuation [] = some false
word_with_continuation (x ∷ xs) = do
  table ← sedgesort cmp_key_off docoffset_sz (doc_offset 0 (x ∷ xs))
  word_continuation table (length (x ∷ xs))
