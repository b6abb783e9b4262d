-- ===== src/IdNode/Intersection.antt =====
-- `eggIdNode_merge_and` keeps the nodes of both lists whose id stands in both.
use egg.Base.{
  ℕ, zero, suc, ◌+◌, ◌≤◌, ◌<◌, ◌≡◌, refl, ap, sym, ◌∙◌, Option, ◌⊎◌, none, some, List, [], ◌∷◌,
  ◌++◌, ◌>>=◌, append_assoc, length, All, All-map, All-append, ltb, arith, tests, Bool-cases, inl,
  inr, ◌^◌, length-append,
}
use mathlib.Core.List.{Perm, perm_middle}
use mathlib.Core.List.Perm
use egg.IdNode.{IdNode, equal_run, after_run, vector_result, and_loop, merge_and}
use egg.IdNode.Ids.{
  has_id, keep, Descends, has_id-below, has_id-head, has_id-other, has_id-run, keep-same, keep-All,
  keep-append, run-append, equal_run-ids, length-after_run, after_run-below, Descends-run,
}
use egg.IdNode.Members.{perm-length, length-keep, pushed-few}

-- The nodes of `xs` whose id stands in `ys`.
abbrev pub common : List IdNode → List IdNode → List IdNode
common xs ys = keep (λ x. has_id x.id ys) xs

-- What the join of two lists comes to.
record Joined (src dest : List IdNode) (r : Option (List IdNode)) : Type 0 where
  nodes : List IdNode
  returns : r ≡ some nodes
  perm : Perm nodes (common src dest ++ common dest src)
  descends : Descends nodes
  bounded : (b : ℕ) → All (λ y. y.id ≤ b) src → All (λ y. y.id ≤ b) dest → All (λ y. y.id ≤ b) nodes

-- A node above all of the other list leaves no trace.
common-above :
    (s : IdNode) (src dest : List IdNode)
    → All (λ y. y.id < s.id) dest
    → (common (s ∷ src) dest ≡ common src dest) × (common dest (s ∷ src) ≡ common dest src)
common-above s src dest h = (
  rw (has_id-below s.id dest h) refl,
  keep-same (λ x. has_id x.id (s ∷ src)) (λ x. has_id x.id src) dest
      (All-map (λ x less. has_id-other x.id s src less) dest h),
)

-- Of two lists that start with a run of the same id, the first keeps its run.
common-run :
    (id : ℕ) (d : IdNode) (run xs run' ys : List IdNode)
    → All (λ y. y.id ≡ id) run
    → All (λ y. y.id < id) xs
    → All (λ y. y.id ≡ id) (d ∷ run')
    → common (run ++ xs) ((d ∷ run') ++ ys) ≡ run ++ common xs ys
common-run id d run xs run' ys h below h' =
    let all = (d ∷ run') ++ ys in
    keep-append (λ x. has_id x.id all) run xs
    ∙ ap (λ l. l ++ common xs all)
        (keep-All (λ x. has_id x.id all) run
          (All-map (λ x e. has_id-head x.id d (run' ++ ys) (h'.0 ∙ sym e)) run h))
    ∙ ap (λ l. run ++ l)
        (keep-same (λ x. has_id x.id all) (λ x. has_id x.id ys) xs
          (All-map (λ x less. has_id-run id x.id (d ∷ run') ys h' less) xs below))

-- Two appended pairs, the parts taken in turn.
moved_front : {A : Type 0} (b c d : List A) → Perm (b ++ (c ++ d)) (c ++ (b ++ d))
moved_front [] c d = Perm.refl (c ++ d)
moved_front (x ∷ b) c d =
    Perm.trans (Perm.cons x (moved_front b c d)) (Perm.symm (perm_middle c (b ++ d)))

interleaved :
    {A : Type 0} (a b c d u v : List A) {r : List A}
    → u ≡ a ++ c
    → v ≡ b ++ d
    → Perm r (c ++ d)
    → Perm (a ++ (b ++ r)) (u ++ v)
interleaved a b c d u v eu ev p =
    rw (eu, ev, append_assoc a c (b ++ d))
      (Perm.append_left a (Perm.trans (Perm.append_left b p) (moved_front b c d)))

-- The steps of the loop: the first list, or the second, starts with the greater id; or both start with
-- the same.
Joined-src :
    (s : IdNode) (src dest : List IdNode) (r : Option (List IdNode))
    → All (λ y. y.id < s.id) dest
    → Joined src dest r
    → Joined (s ∷ src) dest r
Joined-src s src dest r h j = record {
  nodes = j.nodes;
  returns = j.returns;
  perm = rw ((common-above s src dest h).0, (common-above s src dest h).1) j.perm;
  descends = j.descends;
  bounded = λ b hs hd. j.bounded b hs.1 hd;
}

Joined-dest :
    (d : IdNode) (src dest : List IdNode) (r : Option (List IdNode))
    → All (λ y. y.id < d.id) src
    → Joined src dest r
    → Joined src (d ∷ dest) r
Joined-dest d src dest r h j = record {
  nodes = j.nodes;
  returns = j.returns;
  perm = rw ((common-above d dest src h).0, (common-above d dest src h).1) j.perm;
  descends = j.descends;
  bounded = λ b hs hd. j.bounded b hs hd.1;
}

Joined-both :
    (id : ℕ) (s d : IdNode) (src dest run run' xs ys : List IdNode) {r : Option (List IdNode)}
    → src ≡ run ++ xs
    → dest ≡ run' ++ ys
    → All (λ y. y.id ≡ id) (s ∷ run)
    → All (λ y. y.id ≡ id) (d ∷ run')
    → All (λ y. y.id < id) xs
    → All (λ y. y.id < id) ys
    → Joined xs ys r
    → Joined (s ∷ src) (d ∷ dest) (r >>= (λ rest. some ((s ∷ run) ++ ((d ∷ run') ++ rest))))
Joined-both id s d src dest run run' xs ys {r} es ed hs hd bs bd j =
    let below : All (λ y. y.id ≤ id) j.nodes =
      j.bounded id (All-map (λ y less. omega (arith, less)) xs bs)
        (All-map (λ y less. omega (arith, less)) ys bd) in
    let back = (d ∷ run') ++ j.nodes in
    let le : (l : List IdNode) → All (λ y. y.id ≡ id) l → All (λ y. y.id ≤ id) l =
      λ l h. All-map (λ y e. omega (arith, e)) l h in
    let below' : All (λ y. y.id ≤ id) back =
      All-append (λ y. y.id ≤ id) (d ∷ run') j.nodes (le (d ∷ run') hd) below in
    record {
      nodes = (s ∷ run) ++ back;
      returns = rw j.returns refl;
      perm =
          interleaved (s ∷ run) (d ∷ run') (common xs ys) (common ys xs)
            (common (s ∷ src) (d ∷ dest)) (common (d ∷ dest) (s ∷ src))
            (ap (λ l. common (s ∷ l) (d ∷ dest)) es
              ∙ ap (λ l. common (s ∷ (run ++ xs)) (d ∷ l)) ed
              ∙ common-run id d (s ∷ run) xs run' ys hs bs hd)
            (ap (λ l. common (d ∷ l) (s ∷ src)) ed
              ∙ ap (λ l. common (d ∷ (run' ++ ys)) (s ∷ l)) es
              ∙ common-run id s (d ∷ run') ys run xs hd bd hs)
            j.perm;
      descends =
          Descends-run id (s ∷ run) back hs below'
            (Descends-run id (d ∷ run') j.nodes hd below j.descends);
      bounded = λ b ks kd.
          All-map (λ y k. omega (arith, k, hs.0, ks.0)) ((s ∷ run) ++ back)
            (All-append (λ y. y.id ≤ id) (s ∷ run) back (le (s ∷ run) hs) below');
    }

common-nil : (xs : List IdNode) → common xs [] ≡ []
common-nil [] = refl
common-nil (x ∷ xs) = common-nil xs

Joined-end :
    (src dest : List IdNode) → common src dest ++ common dest src ≡ [] → Joined src dest (some [])
Joined-end src dest e = record {
  nodes = [];
  returns = refl;
  perm = rw e (Perm.refl []);
  descends = tt;
  bounded = λ b hs hd. tt;
}

below_head :
    (s d : IdNode) (dest : List IdNode)
    → d.id < s.id
    → All (λ y. y.id ≤ d.id) dest
    → All (λ y. y.id < s.id) (d ∷ dest)
below_head s d dest less h = (less, All-map (λ y le. omega (arith, le, less)) dest h)

and_loop_lem :
    (fuel : ℕ) (src dest : List IdNode)
    → length src + length dest < fuel
    → Descends src
    → Descends dest
    → Joined src dest (and_loop fuel src dest)
unfolding and_loop
and_loop_lem zero src dest hf ds dd = absurd (omega arith)
and_loop_lem (suc fuel) [] dest hf ds dd = Joined-end [] dest (common-nil dest)
and_loop_lem (suc fuel) (s ∷ src) [] hf ds dd =
    Joined-end (s ∷ src) [] (rw (common-nil (s ∷ src)) refl)
and_loop_lem (suc fuel) (s ∷ src) (d ∷ dest) hf ds dd = elim (Bool-cases (ltb d.id s.id)) [
  | inl above ↦ rw above (
      Joined-src s src (d ∷ dest) (and_loop fuel src (d ∷ dest))
        (below_head s d dest (omega tests) dd.0)
        (and_loop_lem fuel src (d ∷ dest) (omega arith) ds.1 dd))
  | inr le ↦ elim (Bool-cases (ltb s.id d.id)) [
    | inl below ↦
        rw (le, below)
          (Joined-dest d (s ∷ src) dest (and_loop fuel (s ∷ src) dest)
            (below_head d s src (omega tests) ds.0)
            (and_loop_lem fuel (s ∷ src) dest (omega arith) ds dd.1))
    | inr ge ↦
        let e : s.id ≡ d.id = ground arith in
        let hs : All (λ y. y.id ≤ d.id) src = All-map (λ y k. omega (arith, k, e)) src ds.0 in
        let hd : All (λ y. y.id ≤ s.id) dest = All-map (λ y k. omega (arith, k, e)) dest dd.0 in
        let (bs, ds') = after_run-below d.id src hs ds.1 in
        let (bd, dd') = after_run-below s.id dest hd dd.1 in
        rw (le, ge)
          (Joined-both d.id s d src dest (equal_run d.id src) (equal_run s.id dest)
            (after_run d.id src) (after_run s.id dest) (sym (run-append d.id src))
            (sym (run-append s.id dest)) (e, equal_run-ids d.id src)
            (refl, All-map (λ y k. k ∙ e) (equal_run s.id dest) (equal_run-ids s.id dest)) bs
            (All-map (λ y k. omega (arith, k, e)) (after_run s.id dest) bd)
            (and_loop_lem fuel (after_run d.id src) (after_run s.id dest)
              (omega (arith, length-after_run d.id src, length-after_run s.id dest)) ds' dd'))
  ]
]

-- The nodes of both lists with an id in both are no more than those of both lists.
pub length-common :
    (src dest : List IdNode)
    → length (common src dest ++ common dest src) ≤ length src + length dest
length-common src dest = omega (
  arith,
  length-append (common src dest) (common dest src),
  length-keep (λ z. has_id z.id dest) src,
  length-keep (λ z. has_id z.id src) dest,
)

and_steps :
    (src dest : List IdNode) (res_cnt : ℕ) (nodes : List IdNode)
    → 0 < length src
    → 0 < length dest
    → and_loop (length src + length dest + 1) src dest ≡ some nodes
    → length nodes ≤ 2 ^ 26
    → merge_and src dest res_cnt ≡ some (vector_result nodes)
unfolding merge_and
and_steps src dest res_cnt nodes hs hd e few = rw (e, pushed-few nodes few) (ground arith)

-- For two lists whose ids descend, neither of them empty, with at most 2 ^ 26 nodes in all,
-- `eggIdNode_merge_and` ends with an array and its size; its ids descend, and it holds, each as often as before, the nodes of either list whose id
-- stands in the other. Where there is none, the array is NULL and the size 0.
pub merge_and_lem :
    (src dest : List IdNode) (res_cnt : ℕ)
    → Descends src
    → Descends dest
    → 0 < length src
    → 0 < length dest
    → length src + length dest ≤ 2 ^ 26
    → (nodes : List IdNode) × (merge_and src dest res_cnt ≡ some (vector_result nodes))
      × Descends nodes
      × Perm nodes (common src dest ++ common dest src)
unfolding merge_and
merge_and_lem src dest res_cnt ds dd hs hd few =
    let j = and_loop_lem (length src + length dest + 1) src dest (omega arith) ds dd in
    let size : length j.nodes ≤ 2 ^ 26 =
      omega (arith, few, perm-length j.perm, length-common src dest) in
    (j.nodes, and_steps src dest res_cnt j.nodes hs hd j.returns size, j.descends, j.perm)

-- An empty list in either place: nothing is written to `*pResCnt`.
pub merge_and-nil :
    (src dest : List IdNode) (res_cnt : ℕ)
    → (length src ≡ 0) ⊎ (length dest ≡ 0)
    → merge_and src dest res_cnt ≡ some (none, res_cnt)
unfolding merge_and
merge_and-nil src dest res_cnt (inl e) = ground arith
merge_and-nil src dest res_cnt (inr e) = ground arith
