-- ===== src/Search/Lookup.antt =====
-- The lookup among cells whose comparisons with the value fall from positive to negative.
use egg.Base.{
  ℕ, zero, suc, ◌+◌, ◌-◌, ◌/◌, ◌^◌, ◌≤◌, ◌<◌, ◌≡◌, ◌≢◌, ◌⊎◌, refl, Bool, true, false, Option, some,
  ltb, arith, tests, Bool-cases, inl, inr,
}
use egg.Base.Int.{ℤ, pos, negsuc}
use egg.Compare.{is_neg, is_pos}
use egg.Search.{lookup_loop, binary_lookup}

-- The comparisons fall: what stands before a cell that is too small in the order, or after one that is
-- too great, is so too.
pub record Falls (probe : ℕ → ℤ) : Type 0 where
  pub before : (i j : ℕ) → i ≤ j → is_pos (probe j) ≡ true → is_pos (probe i) ≡ true
  pub after : (i j : ℕ) → i ≤ j → is_neg (probe i) ≡ true → is_neg (probe j) ≡ true

-- What the lookup says of the cells below `count`.
abbrev pub Answers : (ℕ → ℤ) → ℕ → Option (Bool × ℤ) → Type 0
Answers probe count r =
    ((i : ℕ) × (r ≡ some (true, pos i)) × (i < count) × (probe i ≡ pos 0))
    ⊎ ((idx : ℤ) × (r ≡ some (false, idx)) × ((i : ℕ) → i < count → probe i ≢ pos 0))

sign_zero : (r : ℤ) → is_pos r ≡ false → is_neg r ≡ false → r ≡ pos 0
sign_zero r h k = ground arith

pos_ne : (r : ℤ) → is_pos r ≡ true → r ≢ pos 0
pos_ne r h e = ground arith

neg_ne : (r : ℤ) → is_neg r ≡ true → r ≢ pos 0
neg_ne r h e = ground arith

module _ (probe : ℕ → ℤ) (falls : Falls probe) (count : ℕ) (few : count ≤ 2 ^ 30) where
  lookup_loop_lem :
      (fuel start end : ℕ) (idx : ℤ)
      → end < fuel + start
      → start ≤ end
      → end ≤ count
      → ((i : ℕ) → i < start → probe i ≢ pos 0)
      → ((i : ℕ) → end ≤ i → i < count → probe i ≢ pos 0)
      → Answers probe count (lookup_loop probe fuel start end idx)
  unfolding lookup_loop
  lookup_loop_lem zero start end idx hf le room below above = absurd (omega arith)
  lookup_loop_lem (suc fuel) start end idx hf le room below above =
      let mid = (start + (end - 1)) / 2 in
      elim (Bool-cases (ltb start end)) [
        | inl cells ↦
            let h : start < end = omega tests in
            let narrow : ltb (start + (end - 1)) (2 ^ 31) ≡ true = ground arith in
            elim (Bool-cases (is_pos (probe mid))) [
              | inl right ↦
                  rw (cells, narrow, right)
                    (lookup_loop_lem fuel (mid + 1) end (pos mid) (omega arith) (omega arith) room
                      (λ i q. pos_ne (probe i) (falls.before i mid (omega arith) right)) above)
              | inr notright ↦ elim (Bool-cases (is_neg (probe mid))) [
                | inl left ↦
                    rw (cells, narrow, notright, left)
                      (lookup_loop_lem fuel start mid (pos mid) (omega arith) (omega arith)
                        (omega arith) below (λ i q q'. neg_ne (probe i) (falls.after mid i q left)))
                | inr notleft ↦
                    rw (cells, narrow, notright, notleft)
                      (inl (mid, refl, omega arith, sign_zero (probe mid) notright notleft))
              ]
            ]
        | inr nothing ↦
            let h : end ≤ start = ground arith in
            rw nothing (
              inr (
                idx,
                refl,
                λ i q. elim (Bool-cases (ltb i start)) [
                  | inl low ↦ below i (omega tests)
                  | inr high ↦ above i (ground arith) q
                ],
              ))
      ]

-- Where the comparisons of at most 2 ^ 30 cells fall, `Uti_binary_lookup` ends, and either finds an index up to the last one at
-- which the comparison gives 0, or there is none and it says so.
pub binary_lookup_lem :
    (probe : ℕ → ℤ) (max_idx : ℕ) (old_idx : ℤ)
    → Falls probe
    → max_idx < 2 ^ 30
    → Answers probe (max_idx + 1) (binary_lookup probe (pos max_idx) old_idx)
unfolding binary_lookup
binary_lookup_lem probe max_idx old_idx falls few =
    lookup_loop_lem probe falls (max_idx + 1) (omega arith) (max_idx + 2) 0 (max_idx + 1) (negsuc 0)
      (omega arith) (omega arith) (omega arith) (λ i q. absurd (omega arith))
      (λ i q q'. absurd (omega arith))
