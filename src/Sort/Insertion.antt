-- ===== src/Sort/Insertion.antt =====
-- The insertion sort keeps the units before the index sorted. The part before the index is handled in
-- reverse, `front`, so that the unit beside the index is at hand.
use egg.Base.{
  ℕ, zero, suc, ◌+◌, ◌-◌, ◌≡◌, refl, ap, ◌∙◌, List, [], ◌∷◌, length, get_or, get_elem?, set,
  if◌then◌else◌, arith, All, All-map, All-zip, Bool-cases, inl, inr,
}
use egg.Base.Int.{ℤ}
use egg.Compare.{is_neg, Before, IsOrder}
use egg.Sort.{shift_down, insort_loop, insort}

module _ {A : Type 0} where
  -- `reverse front ++ rest`
  abbrev pub unrev : List A → List A → List A
  unrev [] rest = rest
  unrev (x ∷ front) rest = unrev front (x ∷ rest)

  pub get_or-unrev :
      (front rest : List A) (i j : ℕ) (d : A)
      → i ≡ length front + j
      → get_or (unrev front rest) i d ≡ get_or rest j d
  get_or-unrev [] rest i j d e = ap (λ k. get_or rest k d) (omega arith)
  get_or-unrev (x ∷ front) rest i j d e = get_or-unrev front (x ∷ rest) i (suc j) d (omega arith)

  pub get_elem?-unrev :
      (front rest : List A) (i j : ℕ)
      → i ≡ length front + j
      → get_elem? (unrev front rest) i ≡ get_elem? rest j
  get_elem?-unrev [] rest i j e = ap (get_elem? rest) (omega arith)
  get_elem?-unrev (x ∷ front) rest i j e = get_elem?-unrev front (x ∷ rest) i (suc j) (omega arith)

  pub set-unrev :
      (front rest : List A) (i j : ℕ) (v : A)
      → i ≡ length front + j
      → set (unrev front rest) i v ≡ unrev front (set rest j v)
  set-unrev [] rest i j v e = ap (λ k. set rest k v) (omega arith)
  set-unrev (x ∷ front) rest i j v e = set-unrev front (x ∷ rest) i (suc j) v (omega arith)

module _ {A : Type 0} (cmp : A → A → ℤ) where
  -- Insertion into a sorted part that is held in reverse.
  unfoldable pub insert_rev : A → List A → List A
  insert_rev x [] = x ∷ []
  insert_rev x (y ∷ front) = if is_neg (cmp y x) then y ∷ insert_rev x front else x ∷ y ∷ front

  unfoldable pub sort_rev : List A → List A → List A
  unfolding insert_rev
  sort_rev [] front = front
  sort_rev (x ∷ xs) front = sort_rev xs (insert_rev x front)

  shift_down-insert_rev :
      (x h : A) (front rest : List A)
      → shift_down cmp x (length front) (unrev front (h ∷ rest)) ≡ unrev (insert_rev x front) rest
  unfolding shift_down insert_rev
  shift_down-insert_rev x h [] rest = refl
  shift_down-insert_rev x h (y ∷ front) rest =
      let cells = y ∷ h ∷ rest in
      let prev = get_or-unrev front cells (length front) 0 x (omega arith) in
      let copied = set-unrev front cells (suc (length front)) 1 y (omega arith) in
      let stored = set-unrev front cells (suc (length front)) 1 x (omega arith) in
      elim (Bool-cases (is_neg (cmp y x))) [
        | inl moves ↦ rw (prev, moves, copied) (shift_down-insert_rev x y front (y ∷ rest))
        | inr stays ↦ rw (prev, stays, stored)
      ]

  length-insert_rev : (x : A) (front : List A) → length (insert_rev x front) ≡ suc (length front)
  unfolding insert_rev
  length-insert_rev x [] = refl
  length-insert_rev x (y ∷ front) = ground (arith, length-insert_rev x front)

  insort_loop-sort_rev :
      (front rest : List A) (i n : ℕ)
      → i ≡ length front
      → n ≡ length rest
      → insort_loop cmp n i (unrev front rest) ≡ unrev (sort_rev rest front) []
  unfolding insort_loop sort_rev
  insort_loop-sort_rev front [] i zero e f = refl
  insort_loop-sort_rev front [] i (suc n) e f = absurd (omega arith)
  insort_loop-sort_rev front (x ∷ rest) i zero e f = absurd (omega arith)
  insort_loop-sort_rev front (x ∷ rest) i (suc n) e f =
      let here = get_elem?-unrev front (x ∷ rest) i 0 (omega arith) in
      let step : shift_down cmp x i (unrev front (x ∷ rest)) ≡ unrev (insert_rev x front) rest =
        ap (λ k. shift_down cmp x k (unrev front (x ∷ rest))) e
        ∙ shift_down-insert_rev x x front rest in
      rw (here, step)
        (insort_loop-sort_rev (insert_rev x front) rest (i + 1) n
          (omega (arith, length-insert_rev x front)) (omega arith))

  -- The insertion sort as a fold: each unit of the array goes into the sorted part.
  pub insort-sort_rev : (array : List A) → insort cmp array ≡ unrev (sort_rev array []) []
  unfolding insort sort_rev insert_rev
  insort-sort_rev [] = refl
  insort-sort_rev (x ∷ xs) =
      insort_loop-sort_rev (x ∷ []) xs 1 (suc (length xs) - 1) refl (omega arith)

  -- Every unit may stand before each unit after it.
  abbrev pub IsSorted : List A → Type 0
  IsSorted [] = Unit
  IsSorted (x ∷ xs) = All (Before cmp x) xs × IsSorted xs

  -- The same of a part that is held in reverse.
  abbrev IsSortedRev : List A → Type 0
  IsSortedRev [] = Unit
  IsSortedRev (x ∷ front) = All (λ y. Before cmp y x) front × IsSortedRev front

  module _ (order : IsOrder cmp) where
    All-insert_rev :
        (P : A → Type 0) (x : A) (front : List A) → P x → All P front → All P (insert_rev x front)
    unfolding insert_rev
    All-insert_rev P x [] px h = (px, tt)
    All-insert_rev P x (y ∷ front) px (py, h) = elim (Bool-cases (is_neg (cmp y x))) [
      | inl moves ↦ rw moves (py, All-insert_rev P x front px h)
      | inr stays ↦ rw stays (px, (py, h))
    ]

    insert_rev-IsSortedRev :
        (x : A) (front : List A) → IsSortedRev front → IsSortedRev (insert_rev x front)
    unfolding insert_rev
    insert_rev-IsSortedRev x [] h = (tt, tt)
    insert_rev-IsSortedRev x (y ∷ front) (below, h) = elim (Bool-cases (is_neg (cmp y x))) [
      | inl moves ↦ rw moves (
        All-insert_rev (λ z. Before cmp z y) x front (order.flip y x moves) below,
        insert_rev-IsSortedRev x front h,
      )
      | inr stays ↦
          rw stays ((stays, All-map (λ z p. order.trans z y x p stays) front below), (below, h))
    ]

    sort_rev-IsSortedRev : (xs front : List A) → IsSortedRev front → IsSortedRev (sort_rev xs front)
    unfolding sort_rev
    sort_rev-IsSortedRev [] front h = h
    sort_rev-IsSortedRev (x ∷ xs) front h =
        sort_rev-IsSortedRev xs (insert_rev x front) (insert_rev-IsSortedRev x front h)

    unrev-IsSorted :
        (front rest : List A)
        → IsSortedRev front
        → All (λ y. All (Before cmp y) rest) front
        → IsSorted rest
        → IsSorted (unrev front rest)
    unrev-IsSorted [] rest h cross s = s
    unrev-IsSorted (x ∷ front) rest (below, h) (cx, cross) s =
        unrev-IsSorted front (x ∷ rest) h
          (All-zip (λ y. Before cmp y x) (λ y. All (Before cmp y) rest) front below cross) (cx, s)

    All-of_none : (front : List A) → All (λ y. All (Before cmp y) []) front
    All-of_none [] = tt
    All-of_none (x ∷ front) = (tt, All-of_none front)

    pub insort-IsSorted : (array : List A) → IsSorted (insort cmp array)
    insort-IsSorted array = rw (insort-sort_rev array) (
        unrev-IsSorted (sort_rev array []) [] (sort_rev-IsSortedRev array [] tt)
          (All-of_none (sort_rev array [])) tt)
