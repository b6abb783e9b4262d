-- ===== src/Repeat/Changes.antt =====
-- What `Uti_filter_repeat` leaves at the front: the first unit, and each that differs from the one
-- before it.
use egg.Base.{
  ℕ, suc, ◌+◌, ◌-◌, ◌≡◌, refl, ap, ◌∙◌, Bool, ◌||◌, some, List, [], ◌∷◌, ◌++◌, append_assoc, length,
  get_elem?, take, if◌then◌else◌, arith, Bool-cases, inl, inr, ◌*◌, ◌^◌, ◌≤◌, ◌<◌, fits-true,
}
use egg.Base.Int.{ℤ}
use egg.Compare.{is_neg, is_pos}
use egg.Repeat.{filter_loop, filter_repeat}
use egg.Repeat.Compact.{Split, Split-read, Split-skip, Split-move, take-Split}

module _ {A : Type 0} (cmp : A → A → ℤ) where
  abbrev differs : A → A → Bool
  differs x last = is_pos (cmp x last) || is_neg (cmp x last)

  -- The units that differ from the one before them; `last` stands before the first.
  abbrev pub changes : A → List A → List A
  changes last [] = []
  changes last (x ∷ xs) =
      if is_pos (cmp x last) || is_neg (cmp x last) then x ∷ changes x xs else changes x xs

  filter_loop_lem :
      (array done junk rest : List A) (kept last : A) (i_src i_dest : ℕ)
      → Split array done kept junk rest i_src i_dest
      → get_elem? array (i_src - 1) ≡ some last
      → (r : List A) × (n : ℕ) × (filter_loop cmp (length rest) i_src i_dest array ≡ some (r, n))
        × (take n r ≡ done ++ (kept ∷ changes last rest))
  unfolding filter_loop
  filter_loop_lem array done junk [] kept last i_src i_dest s e =
      (array, i_dest, refl, (take-Split s).0)
  filter_loop_lem array done junk (x ∷ rest) kept last i_src i_dest s e =
      elim (Bool-cases (differs x last)) [
        | inl new ↦
            let (array', w, (junk', s'), e') =
              Split-move array done junk rest kept x i_src i_dest s in
            let (r, n, q, front) =
              filter_loop_lem array' (done ++ (kept ∷ [])) junk' rest x x (i_src + 1) (i_dest + 1)
                s' (ap (get_elem? array') {x = i_src + 1 - 1} {y = i_src} (omega arith) ∙ e') in
            (
              r,
              n,
              rw (Split-read s, e, new, w) q,
              rw new (front ∙ append_assoc done (kept ∷ []) (x ∷ changes x rest)),
            )
        | inr same ↦
            let (r, n, q, front) =
              filter_loop_lem array done (junk ++ (x ∷ [])) rest kept x (i_src + 1) i_dest
                (Split-skip s)
                (ap (get_elem? array) {x = i_src + 1 - 1} {y = i_src} (omega arith)
                  ∙ Split-read s) in
            (r, n, rw (Split-read s, e, same) q, rw same front)
      ]

  -- For an array that is not empty, of at most 2 ^ 30 units and less than 2 ^ 32 bytes,
  -- `Uti_filter_repeat` stays inside it and ends; the units up to the count that it leaves are the first
  -- one and each that differs from the one before it, in order.
  pub filter_repeat_lem :
      (unit_sz : ℕ) (x : A) (xs : List A)
      → length (x ∷ xs) ≤ 2 ^ 30
      → length (x ∷ xs) * unit_sz < 2 ^ 32
      → (r : List A) × (n : ℕ) × (filter_repeat cmp unit_sz (x ∷ xs) ≡ some (r, n))
        × (take n r ≡ x ∷ changes x xs)
  unfolding filter_repeat
  filter_repeat_lem unit_sz x xs few small =
      let (r, n, q, front) =
        filter_loop_lem (x ∷ xs) [] [] xs x x 1 1
          (record { parts = refl; dest = omega arith; src = omega arith }) refl in
      (
        r,
        n,
        rw (fits-true unit_sz (length (x ∷ xs)) few small) (
            ap (λ k. filter_loop cmp k 1 1 (x ∷ xs)) {x = suc (length xs) - 1} {y = length xs}
              (omega arith)
            ∙ q),
        front,
      )
