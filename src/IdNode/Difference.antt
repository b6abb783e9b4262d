-- ===== src/IdNode/Difference.antt =====
-- `eggIdNode_merge_minus` keeps the nodes of the first list whose id is not in the second.
use egg.Base.{
  ℕ, zero, suc, ◌+◌, ◌<◌, ◌≡◌, refl, ap, sym, ◌∙◌, false, not, some, List, [], ◌∷◌, length, All,
  All-map, ltb, arith, tests, Bool-cases, inl, inr, ◌^◌, ◌≤◌,
}
use egg.IdNode.{IdNode, vector_result, minus_loop, merge_minus}
use egg.IdNode.Ids.{
  has_id, keep, Descends, DescendsStrictly, has_id-below, has_id-head, has_id-other, keep-same,
}
use egg.IdNode.Members.{length-keep, pushed-few}

-- The nodes of `xs` whose id does not stand in `ys`.
abbrev pub without : List IdNode → List IdNode → List IdNode
without xs ys = keep (λ x. not (has_id x.id ys)) xs

without-nil : (xs : List IdNode) → without xs [] ≡ xs
without-nil [] = refl
without-nil (x ∷ xs) = ap (◌∷◌ x) (without-nil xs)

-- A node of the second list above all of the first does not matter.
without-above :
    (d : IdNode) (xs ys : List IdNode)
    → All (λ y. y.id < d.id) xs
    → without xs (d ∷ ys) ≡ without xs ys
without-above d xs ys h =
    keep-same (λ x. not (has_id x.id (d ∷ ys))) (λ x. not (has_id x.id ys)) xs
      (All-map (λ x less. ap not (has_id-other x.id d ys less)) xs h)

minus_loop_lem :
    (fuel : ℕ) (src dest : List IdNode)
    → length src + length dest < fuel
    → DescendsStrictly src
    → Descends dest
    → minus_loop fuel src dest ≡ some (without src dest)
unfolding minus_loop
minus_loop_lem zero src dest hf ds dd = absurd (omega arith)
minus_loop_lem (suc fuel) [] dest hf ds dd = refl
minus_loop_lem (suc fuel) (s ∷ src) [] hf ds dd = rw (without-nil (s ∷ src)) refl
minus_loop_lem (suc fuel) (s ∷ src) (d ∷ dest) hf ds dd = elim (Bool-cases (ltb d.id s.id)) [
  | inl above ↦
      let less : d.id < s.id = omega tests in
      let absent : has_id s.id (d ∷ dest) ≡ false =
        has_id-below s.id (d ∷ dest) (less, All-map (λ y le. omega (arith, le, less)) dest dd.0) in
      rw (above, minus_loop_lem fuel src (d ∷ dest) (omega arith) ds.1 dd, absent) refl
  | inr le ↦ elim (Bool-cases (ltb s.id d.id)) [
    | inl below ↦
        let less : s.id < d.id = omega tests in
        rw (le, below)
          (minus_loop_lem fuel (s ∷ src) dest (omega arith) ds dd.1
            ∙ ap some (
                sym (
                  without-above d (s ∷ src) dest
                    (less, All-map (λ y k. omega (arith, k, less)) src ds.0))))
    | inr ge ↦
        let e : d.id ≡ s.id = ground arith in
        rw (le, ge, has_id-head s.id d dest e)
          (minus_loop_lem fuel src dest (omega arith) ds.1 dd.1
            ∙ ap some
                (sym (without-above d src dest (All-map (λ y k. omega (arith, k, e)) src ds.0))))
  ]
]

-- For a list of at most 2 ^ 26 nodes whose ids descend without a repeat and one whose ids descend,
-- neither of them empty, `eggIdNode_merge_minus` ends with the nodes of the first, in their order, whose id is not in the
-- second, and their count; the array is NULL where there is none.
pub merge_minus_lem :
    (src dest : List IdNode) (res_cnt : ℕ)
    → DescendsStrictly src
    → Descends dest
    → 0 < length src
    → 0 < length dest
    → length src ≤ 2 ^ 26
    → merge_minus src dest res_cnt ≡ some (vector_result (without src dest))
unfolding merge_minus
merge_minus_lem src dest res_cnt ds dd hs hd few =
    rw
      (
        minus_loop_lem (length src + length dest + 1) src dest (omega arith) ds dd,
        pushed-few (without src dest)
            (omega (arith, few, length-keep (λ x. not (has_id x.id dest)) src)),
      )
      (ground arith)
