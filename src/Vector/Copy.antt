-- ===== src/Vector/Copy.antt =====
-- Copies into an array that is given in parts.
use egg.Base.{
  ℕ, zero, suc, ◌+◌, ◌≤◌, ◌≡◌, refl, ap, sym, ◌∙◌, some, List, [], ◌∷◌, ◌++◌, ◌>>=◌, append_assoc,
  length, take, drop, take-append, drop-append, length-append, leb, leb-true, arith, Bool-cases,
  inl, inr,
}
use egg.Vector.{copy_at}

module _ {A : Type 0} where
  -- A copy over a part of as many cells.
  pub copy_at-part :
      (front old back units : List A) (at : ℕ)
      → at ≡ length front
      → length old ≡ length units
      → copy_at (front ++ (old ++ back)) at units ≡ some (front ++ (units ++ back))
  unfolding copy_at
  copy_at-part front old back units at e same =
      let whole = front ++ (old ++ back) in
      let fits : at + length units ≤ length whole =
        omega (arith, e, same, length-append front (old ++ back), length-append old back) in
      let behind : drop (at + length units) whole ≡ back =
        ap (drop (at + length units)) (sym (append_assoc front old back))
        ∙ drop-append (front ++ old) back (at + length units)
            (omega (arith, e, same, length-append front old)) in
      rw (leb-true fits, take-append front (old ++ back) at e, behind) refl

  take-behind :
      (front xs : List A) (n k : ℕ)
      → n ≡ length front + k
      → take n (front ++ xs) ≡ front ++ take k xs
  take-behind [] xs n k e = ap (λ m. take m xs) (omega (arith, e))
  take-behind (x ∷ front) xs zero k e = absurd (omega arith)
  take-behind (x ∷ front) xs (suc n) k e = ap (◌∷◌ x) (take-behind front xs n k (omega arith))

  drop-behind :
      (front xs : List A) (n k : ℕ) → n ≡ length front + k → drop n (front ++ xs) ≡ drop k xs
  drop-behind [] xs n k e = ap (λ m. drop m xs) (omega (arith, e))
  drop-behind (x ∷ front) xs zero k e = absurd (omega arith)
  drop-behind (x ∷ front) xs (suc n) k e = drop-behind front xs n k (omega arith)

  same_room :
      (front xs units : List A) (n k : ℕ)
      → n ≡ length front + k
      → leb (n + length units) (length (front ++ xs)) ≡ leb (k + length units) (length xs)
  same_room front xs units n k e = ground (arith, e, length-append front xs)

  -- A copy behind a front part leaves it alone.
  pub copy_at-behind :
      (front xs units : List A) (n k : ℕ)
      → n ≡ length front + k
      → copy_at (front ++ xs) n units ≡ (do ys ← copy_at xs k units; some (front ++ ys))
  unfolding copy_at
  copy_at-behind front xs units n k e = elim (Bool-cases (leb (k + length units) (length xs))) [
    | inl fits ↦
        rw
          (
            same_room front xs units n k e,
            fits,
            take-behind front xs n k e,
            drop-behind front xs (n + length units) (k + length units) (omega (arith, e)),
          )
          (ap some (append_assoc front (take k xs) (units ++ drop (k + length units) xs)))
    | inr too_long ↦ rw (same_room front xs units n k e, too_long) refl
  ]
