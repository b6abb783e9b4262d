-- ===== src/Sort/Perm.antt =====
-- The insertion sort moves units and neither loses nor doubles one.
use egg.Base.{List, [], ◌∷◌, ◌++◌, append-nil, Bool-cases, inl, inr}
use egg.Base.Int.{ℤ}
use mathlib.Core.List.{Perm, perm_middle}
use mathlib.Core.List.Perm
use egg.Compare.{is_neg}
use egg.Sort.{insort}
use egg.Sort.Insertion.{unrev, insert_rev, sort_rev, insort-sort_rev}

module _ {A : Type 0} where
  unrev-perm : (front rest : List A) → Perm (unrev front rest) (front ++ rest)
  unrev-perm [] rest = Perm.refl rest
  unrev-perm (x ∷ front) rest = Perm.trans (unrev-perm front (x ∷ rest)) (perm_middle front rest)

module _ {A : Type 0} (cmp : A → A → ℤ) where
  insert_rev-perm : (x : A) (front : List A) → Perm (insert_rev cmp x front) (x ∷ front)
  unfolding insert_rev
  insert_rev-perm x [] = Perm.refl (x ∷ [])
  insert_rev-perm x (y ∷ front) = elim (Bool-cases (is_neg (cmp y x))) [
    | inl moves ↦
        rw moves (Perm.trans (Perm.cons y (insert_rev-perm x front)) (Perm.swap x y front))
    | inr stays ↦ rw stays (Perm.refl (x ∷ y ∷ front))
  ]

  sort_rev-perm : (xs front : List A) → Perm (sort_rev cmp xs front) (xs ++ front)
  unfolding sort_rev
  sort_rev-perm [] front = Perm.refl front
  sort_rev-perm (x ∷ xs) front =
      Perm.trans (sort_rev-perm xs (insert_rev cmp x front))
        (Perm.trans (Perm.append_left xs (insert_rev-perm x front)) (perm_middle xs front))

  pub insort-perm : (array : List A) → Perm (insort cmp array) array
  insort-perm array = rw (insort-sort_rev cmp array) (
      Perm.trans (unrev-perm (sort_rev cmp array []) []) (
        rw (append-nil (sort_rev cmp array []))
          (rw (append-nil array) at (sort_rev-perm array []))))
