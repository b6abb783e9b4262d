-- ===== src/Similarity/Continuation.antt =====
-- `similar_word_with_continuation` ends, and says whether the words stand in a row.
use egg.Base.{
  ℕ, zero, suc, ◌+◌, ◌-◌, ◌≤◌, ◌<◌, ◌≡◌, ◌≢◌, refl, ap, sym, ◌∙◌, true, false, none, some, Bool,
  List, [], ◌∷◌, length, take, drop, length-drop, length-take, ltb, ◌==◌, if◌then◌else◌, arith,
  Bool-cases, Option-cases, inl, inr, ◌^◌,
}
use mathlib.Core.List.{Perm}
use egg.Compare.{IsOrder, three_way_flipped-IsOrder, ltb-StrictWeak}
use egg.Sort.{sedgesort}
use egg.Sort.Insertion.{IsSorted}
use egg.Sort.Quick.{sedgesort_sorts}
use egg.IdNode.{IdNode}
use egg.Similarity.{
  DocOffset, cmp_key_off, doc_offset, word_different, run_end, continuation_loop, word_continuation,
  word_with_continuation,
}
use egg.Similarity.Phrase.{
  consecutive, distinct, has_phrase, has_phrase-short, run_end-full, jump_break,
  word_different-none, jump_same, run_end-bounds, different-below,
}

less_one : (n : ℕ) → suc n - 1 ≡ n
less_one n = omega arith

-- One round of the loop.
module _ (fuel n : ℕ) (x : DocOffset) (xs : List DocOffset) where
  round_short : length xs < n → continuation_loop (suc fuel) (suc n) (x ∷ xs) ≡ some false
  unfolding continuation_loop
  round_short h = ground arith

  module _ (le : n ≤ length xs) where
    round_break :
        run_end n (x ∷ xs) ≢ suc n
        → continuation_loop (suc fuel) (suc n) (x ∷ xs)
          ≡ continuation_loop fuel (suc n) (drop (run_end n (x ∷ xs)) (x ∷ xs))
    unfolding continuation_loop
    round_break d = rw (less_one n) (ground arith)

    round_found :
        run_end n (x ∷ xs) ≡ suc n
        → word_different (take (suc n) (x ∷ xs)) ≡ none
        → continuation_loop (suc fuel) (suc n) (x ∷ xs) ≡ some true
    unfolding continuation_loop
    round_found e f = rw (less_one n, f) (ground arith)

    round_same :
        (k : ℕ)
        → run_end n (x ∷ xs) ≡ suc n
        → word_different (take (suc n) (x ∷ xs)) ≡ some k
        → continuation_loop (suc fuel) (suc n) (x ∷ xs)
          ≡ continuation_loop fuel (suc n) (drop (suc k) (x ∷ xs))
    unfolding continuation_loop
    round_same k e f = rw (less_one n, f) (ground arith)

phrase_here :
    (n : ℕ) (x : DocOffset) (xs : List DocOffset)
    → consecutive n (x ∷ xs) ≡ true
    → distinct (take n (x ∷ xs)) ≡ true
    → has_phrase n (x ∷ xs) ≡ true
phrase_here n x xs c d = rw (c, d) refl

continuation_loop_lem :
    (fuel n : ℕ) (xs : List DocOffset)
    → 0 < n
    → 0 < length xs
    → length xs < fuel
    → continuation_loop fuel n xs ≡ some (has_phrase n xs)
continuation_loop_lem zero n xs hn hx h = absurd (omega arith)
continuation_loop_lem (suc fuel) n [] hn hx h = absurd (omega arith)
continuation_loop_lem (suc fuel) zero (x ∷ xs) hn hx h = absurd (omega arith)
continuation_loop_lem (suc fuel) (suc n) (x ∷ xs) hn hx h =
    elim (Bool-cases (ltb (length (x ∷ xs)) (suc n))) [
      | inl s ↦
          round_short fuel n x xs (ground arith)
          ∙ ap some (sym (has_phrase-short (suc n) (x ∷ xs) (ground arith)))
      | inr long ↦ elim (Bool-cases (run_end n (x ∷ xs) == suc n)) [
        | inr d ↦
            let short : run_end n (x ∷ xs) ≢ suc n = ground arith in
            let (low, high) = run_end-bounds n (x ∷ xs) in
            let left = length-drop (run_end n (x ∷ xs)) (x ∷ xs) in
            let le : n ≤ length xs = ground arith in
            round_break fuel n x xs le short
            ∙ continuation_loop_lem fuel (suc n) (drop (run_end n (x ∷ xs)) (x ∷ xs)) hn
                (omega (arith, left, high, short, le)) (omega (arith, left, low, h))
            ∙ ap some (sym (jump_break n (suc n) (x ∷ xs) short (omega arith)))
        | inl e ↦ elim (Option-cases (word_different (take (suc n) (x ∷ xs)))) [
          | inl f ↦
              let full : run_end n (x ∷ xs) ≡ suc n = ground arith in
              round_found fuel n x xs (ground arith) full f
              ∙ ap some (
                  sym (
                    phrase_here (suc n) x xs (run_end-full n (x ∷ xs) hx full)
                      (word_different-none (take (suc n) (x ∷ xs)) f)))
          | inr (k, f) ↦
              let full : run_end n (x ∷ xs) ≡ suc n = ground arith in
              let le : n ≤ length xs = ground arith in
              let below = different-below (take (suc n) (x ∷ xs)) k f in
              let taken = length-take (suc n) (x ∷ xs) in
              let left = length-drop (suc k) (x ∷ xs) in
              round_same fuel n x xs le k full f
              ∙ continuation_loop_lem fuel (suc n) (drop (suc k) (x ∷ xs)) hn
                  (omega (arith, left, below, taken)) (omega (arith, left, h))
              ∙ ap some (sym (jump_same (suc n) (suc n) k (x ∷ xs) (omega arith) f))
        ]
      ]
    ]

-- What the walk over a table comes to; an empty one passes.
abbrev pub in_a_row : List DocOffset → ℕ → Bool
in_a_row table word_cnt = if length table == 0 then true else has_phrase word_cnt table

pub word_continuation_lem :
    (table : List DocOffset) (word_cnt : ℕ)
    → 0 < word_cnt
    → word_continuation table word_cnt ≡ some (in_a_row table word_cnt)
unfolding word_continuation continuation_loop
word_continuation_lem [] word_cnt h = refl
word_continuation_lem (x ∷ xs) word_cnt h =
    continuation_loop_lem (length (x ∷ xs) + 1) word_cnt (x ∷ xs) h (omega arith) (omega arith)
    ∙ ground arith

cmp_key_off-IsOrder : IsOrder cmp_key_off
unfolding cmp_key_off
cmp_key_off-IsOrder = three_way_flipped-IsOrder (λ (x : DocOffset). x.off) ltb-StrictWeak

table_step :
    (x : IdNode) (xs : List IdNode) (table : List DocOffset)
    → sedgesort cmp_key_off 16 (doc_offset 0 (x ∷ xs)) ≡ some table
    → word_with_continuation (x ∷ xs) ≡ word_continuation table (length (x ∷ xs))
unfolding word_with_continuation
table_step x xs table e = rw e refl

-- For at least one node, and at most 2 ^ 27 positions, `similar_word_with_continuation` ends; it is true exactly if, in the table of
-- the nodes' positions sorted by offset, as many entries in a row as there are nodes have offsets that
-- follow one another and belong to different nodes; a table without an entry passes.
pub word_with_continuation_lem :
    (nodes : List IdNode)
    → 0 < length nodes
    → length (doc_offset 0 nodes) ≤ 2 ^ 27
    → (table : List DocOffset) × (word_with_continuation nodes
        ≡ some (in_a_row table (length nodes)))
      × IsSorted cmp_key_off table
      × Perm table (doc_offset 0 nodes)
word_with_continuation_lem [] h few = absurd (omega arith)
word_with_continuation_lem (x ∷ xs) h few =
    let (table, e, sorted, perm) =
      sedgesort_sorts cmp_key_off cmp_key_off-IsOrder 16 (doc_offset 0 (x ∷ xs)) (omega arith)
        (omega arith) in
    let walked : word_continuation table (length (x ∷ xs))
        ≡ some (in_a_row table (length (x ∷ xs))) =
      word_continuation_lem table (length (x ∷ xs)) (omega arith) in
    (table, table_step x xs table e ∙ walked, sorted, perm)
