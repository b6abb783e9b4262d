-- ===== src/Sort/Swap.antt =====
-- A swap of two cells of the array.
use egg.Base.{
  ℕ, zero, suc, ◌<◌, ◌≡◌, ◌≢◌, refl, ap, ◌∙◌, some, List, [], ◌∷◌, length, length-set, get_or,
  get_elem?, set, ◌==◌, arith, Bool-cases, inl, inr,
}
use mathlib.Core.List.{Perm}
use mathlib.Core.List.Perm
use egg.Sort.{swap}

module _ {A : Type 0} where
  pub get_elem?-some : (a : List A) (i : ℕ) → i < length a → (x : A) × (get_elem? a i ≡ some x)
  get_elem?-some [] i h = absurd (omega arith)
  get_elem?-some (x ∷ a) zero h = (x, refl)
  get_elem?-some (x ∷ a) (suc i) h = get_elem?-some a i (omega arith)

  pub get_or-some : (a : List A) (i : ℕ) {x : A} (d : A) → get_elem? a i ≡ some x → get_or a i d ≡ x
  get_or-some [] i d e = cc
  get_or-some (y ∷ a) zero d e = cc
  get_or-some (y ∷ a) (suc i) d e = get_or-some a i d e

  pub get_or-set_ne :
      (a : List A) (i j : ℕ) (v d : A) → i ≢ j → get_or (set a i v) j d ≡ get_or a j d
  get_or-set_ne [] i j v d h = refl
  get_or-set_ne (x ∷ a) zero zero v d h = absurd (h refl)
  get_or-set_ne (x ∷ a) zero (suc j) v d h = refl
  get_or-set_ne (x ∷ a) (suc i) zero v d h = refl
  get_or-set_ne (x ∷ a) (suc i) (suc j) v d h = get_or-set_ne a i j v d (λ e. h (ap suc e))

  put-perm : (a : List A) (k : ℕ) (x y : A) → get_elem? a k ≡ some y → Perm (y ∷ set a k x) (x ∷ a)
  put-perm [] k x y e = cc
  put-perm (w ∷ a) zero x y e = let same : y ≡ w = cc in rw same (Perm.swap x w a)
  put-perm (w ∷ a) (suc k) x y e =
      Perm.trans (Perm.swap w y (set a k x))
        (Perm.trans (Perm.cons w (put-perm a k x y e)) (Perm.swap x w a))

  exchange-perm :
      (a : List A) (i j : ℕ) (x y : A)
      → get_elem? a i ≡ some x
      → get_elem? a j ≡ some y
      → Perm (set (set a i y) j x) a
  exchange-perm [] i j x y e f = cc
  exchange-perm (w ∷ a) zero zero x y e f = let same : x ≡ w = cc in rw same (Perm.refl (w ∷ a))
  exchange-perm (w ∷ a) zero (suc j) x y e f = let same : x ≡ w = cc in rw same (put-perm a j w y f)
  exchange-perm (w ∷ a) (suc i) zero x y e f = let same : y ≡ w = cc in rw same (put-perm a i w x e)
  exchange-perm (w ∷ a) (suc i) (suc j) x y e f = Perm.cons w (exchange-perm a i j x y e f)

  -- Inside the array a swap succeeds; it permutes the units, and leaves the other cells alone.
  pub swap_lem :
      (a : List A) (i j : ℕ)
      → i < length a
      → j < length a
      → (b : List A) × (swap a i j ≡ some b)
        × Perm b a
        × (length b ≡ length a)
        × ((k : ℕ) (d : A) → i ≢ k → j ≢ k → get_or b k d ≡ get_or a k d)
  unfolding swap
  swap_lem a i j hi hj = elim (Bool-cases (i == j)) [
    | inl same ↦ (a, rw same, Perm.refl a, refl, λ k d p q. refl)
    | inr differ ↦
        let (x, ex) = get_elem?-some a i hi in
        let (y, ey) = get_elem?-some a j hj in
        (
          set (set a i y) j x,
          rw (differ, ex, ey),
          exchange-perm a i j x y ex ey,
          length-set (set a i y) j x ∙ length-set a i y,
          λ k d p q. get_or-set_ne (set a i y) j k x d q ∙ get_or-set_ne a i k y d p,
        )
  ]
