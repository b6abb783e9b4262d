-- ===== src/Search/Bound.antt =====
-- The two searches for a bound: the first cell that is not below, or that is above, the key.
use egg.Base.{
  ℕ, zero, suc, ◌+◌, ◌*◌, ◌/◌, ◌^◌, ◌≤◌, ◌<◌, ◌≡◌, refl, Bool, true, false, not, Option, some, ltb,
  arith, tests, fits-true, Bool-cases, inl, inr,
}
use egg.Base.Int.{ℤ}
use egg.Compare.{is_neg, is_pos}
use egg.Search.{bound_loop, binary_searchleft, binary_searchright}

-- `r` is the number of cells before the first that passes the test; all behind it pass.
abbrev pub IsBound : (ℕ → Bool) → ℕ → Option ℕ → Type 0
IsBound test items r =
    (n : ℕ) × (r ≡ some n)
    × (n ≤ items)
    × ((i : ℕ) → i < n → test i ≡ false)
    × ((i : ℕ) → n ≤ i → i < items → test i ≡ true)

module _ (test : ℕ → Bool) (items : ℕ)
    (rises : (i j : ℕ) → i ≤ j → j < items → test i ≡ true → test j ≡ true)
    (few : items ≤ 2 ^ 30) where
  bound_loop_lem :
      (fuel start end : ℕ)
      → end < fuel + start
      → start ≤ end
      → end ≤ items
      → ((i : ℕ) → i < start → test i ≡ false)
      → ((i : ℕ) → end ≤ i → i < items → test i ≡ true)
      → IsBound test items (bound_loop test fuel start end)
  unfolding bound_loop
  bound_loop_lem zero start end hf le room below above = absurd (omega arith)
  bound_loop_lem (suc fuel) start end hf le room below above =
      let mid = (start + end) / 2 in
      elim (Bool-cases (ltb start end)) [
        | inl cells ↦
            let h : start < end = omega tests in
            let narrow : ltb (start + end) (2 ^ 31) ≡ true = ground arith in
            elim (Bool-cases (test mid)) [
              | inl left ↦
                  rw (cells, narrow, left)
                    (bound_loop_lem fuel start mid (omega arith) (omega arith) (omega arith) below
                      (λ i q q'. rises mid i q q' left))
              | inr right ↦
                  rw (cells, narrow, right)
                    (bound_loop_lem fuel (mid + 1) end (omega arith) (omega arith) room
                      (λ i q. elim (Bool-cases (test i)) [
                        | inl up ↦ cc (rises i mid (omega arith) (omega arith) up)
                        | inr down ↦ down
                      ])
                      above)
            ]
        | inr nothing ↦
            let h : end ≤ start = ground arith in
            rw nothing (start, refl, omega arith, below, λ i q q'. above i (omega arith) q')
      ]

-- Among at most 2 ^ 30 items that ascend, in less than 2 ^ 32 bytes, `Uti_binary_searchleft` ends and
-- returns the place of the first item that is not below the key: the comparison with the key is positive
-- before it and not from it on.
pub binary_searchleft_lem :
    (probe : ℕ → ℤ) (items item_sz : ℕ)
    → ((i j : ℕ)
        → i ≤ j
        → j < items
        → not (is_pos (probe i)) ≡ true
        → not (is_pos (probe j)) ≡ true)
    → items ≤ 2 ^ 30
    → items * item_sz < 2 ^ 32
    → IsBound (λ i. not (is_pos (probe i))) items (binary_searchleft probe items item_sz)
unfolding binary_searchleft
binary_searchleft_lem probe items item_sz rises few small = rw (fits-true item_sz items few small) (
    bound_loop_lem (λ i. not (is_pos (probe i))) items rises few (items + 1) 0 items (omega arith)
      (omega arith) (omega arith) (λ i q. absurd (omega arith)) (λ i q q'. absurd (omega arith)))

-- Among such items `Uti_binary_searchright` ends and returns the place of the first item that is above the key: the
-- comparison with the key is negative from it on and not before it.
pub binary_searchright_lem :
    (probe : ℕ → ℤ) (items item_sz : ℕ)
    → ((i j : ℕ) → i ≤ j → j < items → is_neg (probe i) ≡ true → is_neg (probe j) ≡ true)
    → items ≤ 2 ^ 30
    → items * item_sz < 2 ^ 32
    → IsBound (λ i. is_neg (probe i)) items (binary_searchright probe items item_sz)
unfolding binary_searchright
binary_searchright_lem probe items item_sz rises few small =
    rw (fits-true item_sz items few small) (
      bound_loop_lem (λ i. is_neg (probe i)) items rises few (items + 1) 0 items (omega arith)
        (omega arith) (omega arith) (λ i q. absurd (omega arith)) (λ i q q'. absurd (omega arith)))
