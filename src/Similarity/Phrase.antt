-- ===== src/Similarity/Phrase.antt =====
-- The walk of `egg_word_continuation` by jumps finds the same as a look at every place of the table.
use egg.Base.{
  ℕ, zero, suc, ◌≤◌, ◌<◌, ◌≡◌, ◌≢◌, refl, ap, Bool, true, false, not, ◌&&◌, ◌||◌, none, some, List,
  [], ◌∷◌, length, take, drop, ◌==◌, arith, Bool-cases, Option-cases, inl, inr,
}
use egg.Similarity.{DocOffset, has_key, word_different, run_end}

-- The first `n` entries are there and their offsets follow one another.
abbrev pub consecutive : ℕ → List DocOffset → Bool
consecutive zero xs = true
consecutive (suc n) [] = false
consecutive (suc zero) (x ∷ xs) = true
consecutive (suc (suc n)) (x ∷ []) = false
consecutive (suc (suc n)) (x ∷ y ∷ ys) = (y.off == suc x.off) && consecutive (suc n) (y ∷ ys)

abbrev pub distinct : List DocOffset → Bool
distinct [] = true
distinct (x ∷ xs) = not (has_key x.key xs) && distinct xs

-- Some `n` entries in a row have offsets that follow one another and are of different nodes.
abbrev pub has_phrase : ℕ → List DocOffset → Bool
has_phrase n [] = false
has_phrase n (x ∷ xs) = (consecutive n (x ∷ xs) && distinct (take n (x ∷ xs))) || has_phrase n xs

consecutive-le : (n : ℕ) (xs : List DocOffset) → length xs < n → consecutive n xs ≡ false
consecutive-le zero xs h = absurd (omega arith)
consecutive-le (suc n) [] h = refl
consecutive-le (suc zero) (x ∷ xs) h = absurd (omega arith)
consecutive-le (suc (suc n)) (x ∷ []) h = refl
consecutive-le (suc (suc n)) (x ∷ y ∷ ys) h =
    ground (arith, consecutive-le (suc n) (y ∷ ys) (omega arith))

pub has_phrase-short : (n : ℕ) (xs : List DocOffset) → length xs < n → has_phrase n xs ≡ false
has_phrase-short n [] h = refl
has_phrase-short n (x ∷ xs) h =
    rw (consecutive-le n (x ∷ xs) h, has_phrase-short n xs (omega arith)) refl

-- A full run is a run of offsets, and a shorter one breaks each longer row.
pub run_end-full :
    (k : ℕ) (xs : List DocOffset)
    → 0 < length xs
    → run_end k xs ≡ suc k
    → consecutive (suc k) xs ≡ true
unfolding run_end
run_end-full zero [] h e = absurd (omega arith)
run_end-full zero (x ∷ xs) h e = refl
run_end-full (suc k) [] h e = absurd (omega arith)
run_end-full (suc k) (x ∷ []) h e = absurd (omega arith)
run_end-full (suc k) (x ∷ y ∷ ys) h e = elim (Bool-cases (y.off == suc x.off)) [
  | inl s ↦ rw s (run_end-full k (y ∷ ys) (omega arith) (ground arith))
  | inr d ↦ absurd (omega (arith, rw d at e))
]

pub run_end-short :
    (k n : ℕ) (xs : List DocOffset) → run_end k xs ≢ suc k → k < n → consecutive n xs ≡ false
unfolding run_end
run_end-short zero n [] h less = absurd (h refl)
run_end-short zero n (x ∷ xs) h less = absurd (h refl)
run_end-short (suc k) n [] h less = consecutive-le n [] (omega arith)
run_end-short (suc k) n (x ∷ []) h less = consecutive-le n (x ∷ []) (omega arith)
run_end-short (suc k) zero (x ∷ y ∷ ys) h less = absurd (omega arith)
run_end-short (suc k) (suc zero) (x ∷ y ∷ ys) h less = absurd (omega arith)
run_end-short (suc k) (suc (suc n)) (x ∷ y ∷ ys) h less = elim (Bool-cases (y.off == suc x.off)) [
  | inl s ↦ rw s (run_end-short k (suc n) (y ∷ ys) (λ e. h (rw s (ap suc e))) (omega arith))
  | inr d ↦ rw d refl
]

-- What the jump behind a break passes over holds no row.
pub jump_break :
    (k n : ℕ) (xs : List DocOffset)
    → run_end k xs ≢ suc k
    → k < n
    → has_phrase n xs ≡ has_phrase n (drop (run_end k xs) xs)
unfolding run_end
jump_break zero n [] h less = refl
jump_break zero n (x ∷ xs) h less = absurd (h refl)
jump_break (suc k) n [] h less = refl
jump_break (suc k) n (x ∷ []) h less = rw (run_end-short (suc k) n (x ∷ []) h less) refl
jump_break (suc k) n (x ∷ y ∷ ys) h less = elim (Bool-cases (y.off == suc x.off)) [
  | inl s ↦
      rw (run_end-short (suc k) n (x ∷ y ∷ ys) h less, s)
        (jump_break k n (y ∷ ys) (λ e. h (rw s (ap suc e))) (omega arith))
  | inr d ↦ rw (run_end-short (suc k) n (x ∷ y ∷ ys) h less, d) refl
]

has_key-take :
    (key m n : ℕ) (xs : List DocOffset)
    → m ≤ n
    → has_key key (take m xs) ≡ true
    → has_key key (take n xs) ≡ true
unfolding has_key
has_key-take key zero n xs le h = absurd (cc)
has_key-take key (suc m) zero xs le h = absurd (omega arith)
has_key-take key (suc m) (suc n) [] le h = h
has_key-take key (suc m) (suc n) (x ∷ xs) le h =
    ground (arith, has_key-take key m n xs (omega arith))

pub word_different-none : (xs : List DocOffset) → word_different xs ≡ none → distinct xs ≡ true
unfolding word_different
word_different-none [] h = refl
word_different-none (x ∷ xs) h = ground (arith, word_different-none xs)

different_dup :
    (m n k : ℕ) (xs : List DocOffset)
    → m ≤ n
    → word_different (take m xs) ≡ some k
    → distinct (take n xs) ≡ false
unfolding word_different
different_dup zero n k xs le h = absurd (cc)
different_dup (suc m) zero k xs le h = absurd (omega arith)
different_dup (suc m) (suc n) k [] le h = absurd (cc)
different_dup (suc m) (suc n) k (x ∷ xs) le h = elim (Bool-cases (has_key x.key (take m xs))) [
  | inl d ↦ rw (has_key-take x.key m n xs (omega arith) d) refl
  | inr d ↦ elim (Option-cases (word_different (take m xs))) [
    | inl e ↦ absurd (let bad = rw (d, e) at h in cc)
    | inr (k', e) ↦ ground (arith, different_dup m n k' xs (omega arith) e)
  ]
]

-- What the jump behind a repeated node passes over holds no row of different ones.
pub jump_same :
    (m n k : ℕ) (xs : List DocOffset)
    → m ≤ n
    → word_different (take m xs) ≡ some k
    → has_phrase n xs ≡ has_phrase n (drop (suc k) xs)
unfolding word_different
jump_same zero n k xs le h = absurd (cc)
jump_same (suc m) n k [] le h = absurd (cc)
jump_same (suc m) n k (x ∷ xs) le h =
    let dup = different_dup (suc m) n k (x ∷ xs) le h in
    elim (Bool-cases (has_key x.key (take m xs))) [
      | inl d ↦ let e : k ≡ 0 = ground arith in rw (e, dup) (ground arith)
      | inr d ↦ elim (Option-cases (word_different (take m xs))) [
        | inl e ↦ absurd (let bad = rw (d, e) at h in cc)
        | inr (k', e) ↦
            let f : k ≡ suc k' = ground arith in
            rw (f, dup, jump_same m n k' xs (omega arith) e) (ground arith)
      ]
    ]

pub run_end-bounds : (k : ℕ) (xs : List DocOffset) → (0 < run_end k xs) × (run_end k xs ≤ suc k)
unfolding run_end
run_end-bounds zero xs = (omega arith, omega arith)
run_end-bounds (suc k) [] = (omega arith, omega arith)
run_end-bounds (suc k) (x ∷ []) = (omega arith, omega arith)
run_end-bounds (suc k) (x ∷ y ∷ ys) =
    let ih = run_end-bounds k (y ∷ ys) in (ground (arith, ih), ground (arith, ih))

has_key-some : (key : ℕ) (xs : List DocOffset) → has_key key xs ≡ true → 0 < length xs
unfolding has_key
has_key-some key [] h = absurd (cc)
has_key-some key (x ∷ xs) h = omega arith

pub different-below : (xs : List DocOffset) (k : ℕ) → word_different xs ≡ some k → suc k < length xs
unfolding word_different
different-below [] k h = absurd (cc)
different-below (x ∷ xs) k h = elim (Bool-cases (has_key x.key xs)) [
  | inl d ↦ let e : k ≡ 0 = ground arith in omega (arith, has_key-some x.key xs d, e)
  | inr d ↦ elim (Option-cases (word_different xs)) [
    | inl e ↦ absurd (let bad = rw (d, e) at h in cc)
    | inr (k', e) ↦ let f : k ≡ suc k' = ground arith in omega (arith, different-below xs k' e, f)
  ]
]
