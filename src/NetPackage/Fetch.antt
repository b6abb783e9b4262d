-- ===== src/NetPackage/Fetch.antt =====
-- The walks over a message find its units, in the order in which they were added.
use egg.Base.{
  ℕ, zero, suc, ◌+◌, ◌%◌, ◌^◌, ◌≤◌, ◌<◌, ◌≡◌, refl, ap, sym, ◌∙◌, true, false, none, some, List, [],
  ◌∷◌, ◌++◌, map, append_assoc, length, take, drop, take-append, drop-append, drop-drop,
  length-append, leb, lt→ltb, leb-true, arith,
}
use egg.Base.Bytes.{le_bytes, read_u32, read_u32-append}
use egg.NetPackage.{NetPackage, unit_header, unit_size, fetch_by_iter, fetch_loop, fetch}
use egg.NetPackage.Layout.{encoded, Holds, length-unit_header}

-- A message with a unit behind the bytes `pre`.
module _ (p : NetPackage) (pre rest : List ℕ) (ty : ℕ) (x : List ℕ)
    (e : p.bytes ≡ pre ++ ((unit_header ty (length x) ++ x) ++ rest)) where
  unit_size_lem : length x < 2 ^ 32 → unit_size p (length pre) ≡ some (length x)
  unfolding unit_size unit_header le_bytes
  unit_size_lem room =
      ap read_u32 (
        sym (drop-drop (length pre) 4 p.bytes)
        ∙ ap (λ l. drop 4 (drop (length pre) l)) e
        ∙ ap (drop 4) (drop-append pre ((unit_header ty (length x) ++ x) ++ rest) (length pre) refl)
        ∙ append_assoc (le_bytes 4 (length x)) x rest)
      ∙ read_u32-append (length x) (x ++ rest) room

  unit_bytes_lem : take (length x) (drop (length pre + 8) p.bytes) ≡ x
  unit_bytes_lem =
      ap (take (length x)) (
        sym (drop-drop (length pre) 8 p.bytes)
        ∙ ap (λ l. drop 8 (drop (length pre) l)) e
        ∙ ap (drop 8) (
            drop-append pre ((unit_header ty (length x) ++ x) ++ rest) (length pre) refl
            ∙ append_assoc (unit_header ty (length x)) x rest)
        ∙ drop-append (unit_header ty (length x)) (x ++ rest) 8
            (sym (length-unit_header ty (length x))))
      ∙ take-append x rest (length x) refl

-- The bytes at a place that a walk gives.
abbrev pub bytes_at : NetPackage → ℕ × ℕ → List ℕ
bytes_at p found = take (found.1) (drop (found.0) p.bytes)

length-encoded :
    (u : ℕ × List ℕ) (us : List (ℕ × List ℕ))
    → length (encoded (u ∷ us)) ≡ 8 + length (u.1) + length (encoded us)
length-encoded u us = omega (
  arith,
  length-append (unit_header (u.0) (length (u.1)) ++ (u.1)) (encoded us),
  length-append (unit_header (u.0) (length (u.1))) (u.1),
  length-unit_header (u.0) (length (u.1)),
)

fetch_loop_lem :
    (pairs iter : ℕ) (p : NetPackage) (pre behind : List ℕ) (us : List (ℕ × List ℕ))
    → p.bytes ≡ pre ++ (encoded us ++ behind)
    → iter ≡ length pre
    → p.e_size ≡ iter + length (encoded us)
    → p.e_size < 2 ^ 32
    → length us ≤ pairs
    → (found : List (ℕ × ℕ)) × (fetch_loop pairs p iter ≡ some found)
      × (map (bytes_at p) found ≡ map (λ (u : ℕ × List ℕ). u.1) us)
unfolding fetch_loop
fetch_loop_lem zero iter p pre behind [] e at used small enough = ([], refl, refl)
fetch_loop_lem zero iter p pre behind (u ∷ us) e at used small enough = absurd (omega arith)
fetch_loop_lem (suc pairs) iter p pre behind [] e at used small enough =
    ([], ground (arith, used), refl)
fetch_loop_lem (suc pairs) iter p pre behind ((ty, x) ∷ us) e at used small enough =
    let head = unit_header ty (length x) ++ x in
    let rest = encoded us ++ behind in
    let sizes : length (encoded ((ty, x) ∷ us)) ≡ 8 + length x + length (encoded us) =
      length-encoded (ty, x) us in
    let within : iter < p.e_size = omega (arith, used, sizes) in
    let here : p.bytes ≡ pre ++ (head ++ rest) =
      e ∙ ap (λ l. pre ++ l) (append_assoc head (encoded us) behind) in
    let size : unit_size p iter ≡ some (length x) =
      ap (unit_size p) at
      ∙ unit_size_lem p pre rest ty x here (omega (arith, used, sizes, small)) in
    let next : (iter + length x + 8) % 2 ^ 32 ≡ iter + length x + 8 =
      omega (arith, used, sizes, small) in
    let (found, r, same) =
      fetch_loop_lem pairs ((iter + length x + 8) % 2 ^ 32) p (pre ++ head) behind us
        (here ∙ sym (append_assoc pre head rest))
        (omega (
          arith,
          next,
          at,
          length-append pre head,
          length-append (unit_header ty (length x)) x,
          length-unit_header ty (length x),
        ))
        (omega (arith, next, used, sizes)) small (omega arith) in
    (
      (iter + 8, length x) ∷ found,
      rw (lt→ltb iter p.e_size within, size, r) refl,
      ap (λ b. b ∷ map (bytes_at p) found)
            (ap (λ k. take (length x) (drop (k + 8) p.bytes)) at
              ∙ unit_bytes_lem p pre rest ty x here)
          ∙ ap (◌∷◌ x) same,
    )

e_size_small : (p : NetPackage) (us : List (ℕ × List ℕ)) → Holds p us → p.e_size < 2 ^ 32
e_size_small p us h =
    omega (arith, h.used, h.block, h.small, ap length h.front, length-append (encoded us) h.behind)

encoded-two : (us vs : List (ℕ × List ℕ)) → encoded (us ++ vs) ≡ encoded us ++ encoded vs
encoded-two [] vs = refl
encoded-two (u ∷ us) vs =
    let head = unit_header (u.0) (length (u.1)) ++ (u.1) in
    ap (λ l. head ++ l) (encoded-two us vs) ∙ sym (append_assoc head (encoded us) (encoded vs))

iter_end :
    (p : NetPackage) (iter : ℕ) → p.e_size ≤ iter → fetch_by_iter p iter ≡ some (false, none, iter)
unfolding fetch_by_iter
iter_end p iter h = rw (leb-true {a = p.e_size} {b = iter} h) refl

gt→leb : (a b : ℕ) → b < a → leb a b ≡ false
gt→leb a b h = ground arith

iter_steps :
    (p : NetPackage) (iter size : ℕ)
    → iter < p.e_size
    → iter + 8 + size < 2 ^ 32
    → unit_size p iter ≡ some size
    → fetch_by_iter p iter ≡ some (true, some (iter + 8, size), iter + 8 + size)
unfolding fetch_by_iter
iter_steps p iter size within room e =
    rw (e, gt→leb p.e_size iter within)
      (ap (λ n. some (true, some (iter + 8, size), n)) {x = (iter + 8 + size) % 2 ^ 32}
        (omega arith))

-- In a message, `eggNetPackage_fetch_by_iter` at the offset of a unit returns `EGG_TRUE` with a place that
-- has the unit's bytes, and moves the offset behind the unit; at the end of the units it returns
-- `EGG_FALSE` and moves nothing.
pub fetch_by_iter_lem :
    (p : NetPackage) (front us : List (ℕ × List ℕ)) (u : ℕ × List ℕ)
    → Holds p (front ++ (u ∷ us))
    → ((place : ℕ × ℕ) × (fetch_by_iter p (length (encoded front))
          ≡ some (true, some place, length (encoded (front ++ (u ∷ [])))))
        × (bytes_at p place ≡ u.1))
      × (fetch_by_iter p p.e_size ≡ some (false, none, p.e_size))
fetch_by_iter_lem p front us (ty, x) h =
    let pre = encoded front in
    let head = unit_header ty (length x) ++ x in
    let rest = encoded us ++ h.behind in
    let here : p.bytes ≡ pre ++ (head ++ rest) =
      h.front
      ∙ ap (λ l. l ++ h.behind) (encoded-two front ((ty, x) ∷ us))
      ∙ append_assoc pre (head ++ encoded us) h.behind
      ∙ ap (λ l. pre ++ l) (append_assoc head (encoded us) h.behind) in
    let sizes : length (encoded ((ty, x) ∷ us)) ≡ 8 + length x + length (encoded us) =
      length-encoded (ty, x) us in
    let small = e_size_small p (front ++ ((ty, x) ∷ us)) h in
    let e_size : p.e_size ≡ length pre + (8 + length x + length (encoded us)) = omega (
      arith,
      h.used,
      ap length (encoded-two front ((ty, x) ∷ us)),
      length-append pre (encoded ((ty, x) ∷ us)),
      sizes,
    ) in
    let behind_unit : length pre + 8 + length x ≡ length (encoded (front ++ ((ty, x) ∷ []))) =
      omega (
        arith,
        ap length (encoded-two front ((ty, x) ∷ [])),
        length-append pre (encoded ((ty, x) ∷ [])),
        length-encoded (ty, x) [],
      ) in
    (
      (
        (length pre + 8, length x),
        iter_steps p (length pre) (length x) (omega (arith, e_size)) (omega (arith, e_size, small))
              (unit_size_lem p pre rest ty x here (omega (arith, e_size, small)))
            ∙ ap (λ n. some (true, some (length pre + 8, length x), n)) behind_unit,
        unit_bytes_lem p pre rest ty x here,
      ),
      iter_end p p.e_size (omega arith),
    )

-- For a message that holds some units, and a caller with room for them all, `eggNetPackage_fetch` stays
-- inside the block and returns `EGG_TRUE` with as many places; the bytes there are those of the units,
-- in order.
pub fetch_lem :
    (p : NetPackage) (us : List (ℕ × List ℕ)) (pairs : ℕ)
    → Holds p us
    → length us ≤ pairs
    → (found : List (ℕ × ℕ)) × (fetch p pairs ≡ some (true, found))
      × (map (bytes_at p) found ≡ map (λ (u : ℕ × List ℕ). u.1) us)
unfolding fetch
fetch_lem p us pairs h enough =
    let (found, e, same) =
      fetch_loop_lem pairs 0 p [] h.behind us h.front refl (omega (arith, h.used))
        (e_size_small p us h) enough in
    (found, rw e refl, same)
