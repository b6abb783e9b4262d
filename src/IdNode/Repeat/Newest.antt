-- ===== src/IdNode/Repeat/Newest.antt =====
-- The loop over an array, against a pass over a list.
use egg.Base.{
  ℕ, suc, ◌+◌, ◌-◌, ◌≡◌, refl, ap, sym, ◌∙◌, Bool, true, false, ◌||◌, Option, some, List, [], ◌∷◌,
  ◌++◌, ◌>>=◌, append_assoc, append-nil, length, get_elem?, take, ltb, set, ◌==◌, if◌then◌else◌,
  arith, Bool-cases, inl, inr,
}
use egg.Compare.{is_neg, is_pos}
use egg.Repeat.{store}
use egg.Repeat.Compact.{
  Split, Split-read, Split-last, Split-skip, Split-set, Split-move, take-Split,
}
use egg.IdNode.{IdNode, cmp_id}
use egg.IdNode.Repeat.{repeat_loop, filter_repeat}

-- A node that is marked as invalid is left out.
abbrev pub valid_only : IdNode → List IdNode
valid_only x = if x.flag == 0 then [] else x ∷ []

-- The newest node of each run of ids, the first of them where several are as new.
abbrev pub newest : IdNode → List IdNode → List IdNode
newest cur [] = valid_only cur
newest cur (x ∷ xs) =
    if x.id == cur.id
    then newest (if ltb cur.time_stamp x.time_stamp then x else cur) xs
    else valid_only cur ++ newest x xs

cmp_id-test :
    (x last : IdNode)
    → (is_pos (cmp_id x last) || is_neg (cmp_id x last)) ≡ (if x.id == last.id then false else true)
unfolding cmp_id
cmp_id-test x last = ground arith

-- The end of the function, with the flag of the last node.
closing : List IdNode × ℕ → Option (Bool × List IdNode × ℕ)
closing r = do
  cur ← get_elem? (r.0) (r.1 - 1)
  some (true, r.0, if cur.flag == 0 then r.1 - 1 else r.1)

Filtered : Option (List IdNode × ℕ) → List IdNode → Type 0
unfolding closing
Filtered m result =
    (nodes : List IdNode) × (n : ℕ) × ((m >>= closing) ≡ some (true, nodes, n))
    × (take n nodes ≡ result)

Filtered-end :
    (nodes done junk : List IdNode) (cur : IdNode) (i_src i_dest : ℕ)
    → Split nodes done cur junk [] i_src i_dest
    → Filtered (some (nodes, i_dest)) (done ++ valid_only cur)
unfolding Filtered closing
Filtered-end nodes done junk cur i_src i_dest s = elim (Bool-cases (cur.flag == 0)) [
  | inl invalid ↦ (
    nodes,
    i_dest - 1,
    rw (Split-last s, invalid) refl,
    rw (invalid, append-nil done) ((take-Split s).1),
  )
  | inr valid ↦ (nodes, i_dest, rw (Split-last s, valid) refl, rw valid ((take-Split s).0))
]

-- The rounds of the loop, by what they do with the node that they read.
module _ (nodes : List IdNode) (i_src i_dest left : ℕ) (x last cur : IdNode)
    (reads : get_elem? nodes i_src ≡ some x) (before : get_elem? nodes (i_src - 1) ≡ some last)
    (front : get_elem? nodes (i_dest - 1) ≡ some cur) where
  round_moved :
      (nodes' : List IdNode) (dest : ℕ)
      → (x.id == last.id) ≡ false
      → (if cur.flag == 0 then i_dest - 1 else i_dest) ≡ dest
      → (if i_src == dest then some nodes else store nodes dest x) ≡ some nodes'
      → repeat_loop (suc left) i_src i_dest nodes ≡ repeat_loop left (i_src + 1) (dest + 1) nodes'
  unfolding repeat_loop
  round_moved nodes' dest other to stored =
      rw (reads, before, front, cmp_id-test x last, other, to, stored) refl

  round_newer :
      (nodes' : List IdNode)
      → (x.id == last.id) ≡ true
      → ltb cur.time_stamp x.time_stamp ≡ true
      → store nodes (i_dest - 1) x ≡ some nodes'
      → repeat_loop (suc left) i_src i_dest nodes ≡ repeat_loop left (i_src + 1) i_dest nodes'
  unfolding repeat_loop
  round_newer nodes' same newer stored =
      rw (reads, before, front, cmp_id-test x last, same, newer, stored) refl

  round_older :
      (x.id == last.id) ≡ true
      → ltb cur.time_stamp x.time_stamp ≡ false
      → repeat_loop (suc left) i_src i_dest nodes ≡ repeat_loop left (i_src + 1) i_dest nodes
  unfolding repeat_loop
  round_older same older = rw (reads, before, front, cmp_id-test x last, same, older) refl

-- The index of the next round, less 1.
next_before :
    (nodes : List IdNode) (i : ℕ) {x : IdNode}
    → get_elem? nodes i ≡ some x
    → get_elem? nodes (i + 1 - 1) ≡ some x
next_before nodes i e = ap (get_elem? nodes) {x = i + 1 - 1} {y = i} (omega arith) ∙ e

repeat_loop_lem :
    (nodes done junk rest : List IdNode) (cur last : IdNode) (i_src i_dest : ℕ)
    → Split nodes done cur junk rest i_src i_dest
    → get_elem? nodes (i_src - 1) ≡ some last
    → last.id ≡ cur.id
    → Filtered (repeat_loop (length rest) i_src i_dest nodes) (done ++ newest cur rest)
unfolding repeat_loop
repeat_loop_lem nodes done junk [] cur last i_src i_dest s e same =
    Filtered-end nodes done junk cur i_src i_dest s
repeat_loop_lem nodes done junk (x ∷ rest) cur last i_src i_dest s e same =
    let left = length rest in
    let (s1, e1, stored) = Split-set s x (i_dest - 1) (omega (arith, s.dest)) in
    let replaced = set nodes (i_dest - 1) x in
    let over : Filtered (repeat_loop left (i_src + 1) i_dest replaced) (done ++ newest x rest) =
      repeat_loop_lem replaced done (junk ++ (x ∷ [])) rest x x (i_src + 1) i_dest (Split-skip s1)
        (next_before replaced i_src e1) refl in
    elim (Bool-cases (x.id == cur.id)) [
      | inl equal ↦
          let again : (x.id == last.id) ≡ true = rw same equal in
          elim (Bool-cases (ltb cur.time_stamp x.time_stamp)) [
            | inl newer ↦
                rw
                  (round_newer nodes i_src i_dest left x last cur (Split-read s) e (Split-last s)
                    replaced again newer stored)
                  (rw (equal, newer) over)
            | inr older ↦
                rw
                  (round_older nodes i_src i_dest left x last cur (Split-read s) e (Split-last s)
                    again older)
                  (rw (equal, older)
                    (repeat_loop_lem nodes done (junk ++ (x ∷ [])) rest cur x (i_src + 1) i_dest
                      (Split-skip s) (next_before nodes i_src (Split-read s))
                      (ground (arith, equal))))
          ]
      | inr other ↦
          let apart : (x.id == last.id) ≡ false = rw same other in
          elim (Bool-cases (cur.flag == 0)) [
            | inl invalid ↦
                let ahead : (i_src == (i_dest - 1)) ≡ false = ground (arith, s.src, s.dest) in
                let back : i_dest - 1 + 1 ≡ i_dest = omega (arith, s.dest) in
                let step =
                  round_moved nodes i_src i_dest left x last cur (Split-read s) e (Split-last s)
                    replaced (i_dest - 1) apart (rw invalid refl) (rw (ahead) stored) in
                rw (step, back) (rw (other, invalid) over)
            | inr valid ↦
                let (array', w, (junk', s'), e') =
                  Split-move nodes done junk rest cur x i_src i_dest s in
                rw
                  (round_moved nodes i_src i_dest left x last cur (Split-read s) e (Split-last s)
                    array' i_dest apart (rw valid refl) w)
                  (rw (other, valid)
                    (rw (sym (append_assoc done (cur ∷ []) (newest x rest))) (
                      repeat_loop_lem array' (done ++ (cur ∷ [])) junk' rest x x (i_src + 1)
                        (i_dest + 1) s' (next_before array' i_src e') refl)))
          ]
    ]

-- For an array that is not empty, `eggIdNode_filter_repeat` stays inside it, ends and returns `EGG_TRUE`;
-- the nodes up to the count that it leaves are the newest node of each run of nodes with one id, the
-- first of those that are as new, less those that are marked as invalid.
pub filter_repeat-newest :
    (x : IdNode) (xs : List IdNode)
    → (nodes : List IdNode) × (n : ℕ) × (filter_repeat (x ∷ xs) ≡ some (true, nodes, n))
      × (take n nodes ≡ newest x xs)
unfolding filter_repeat Filtered closing
filter_repeat-newest x xs =
    let some_node : (suc (length xs) == 0) ≡ false = ground arith in
    let rounds : suc (length xs) - 1 ≡ length xs = omega arith in
    rw (some_node, rounds)
      (repeat_loop_lem (x ∷ xs) [] [] xs x x 1 1
        (record { parts = refl; dest = omega arith; src = omega arith }) refl refl)
