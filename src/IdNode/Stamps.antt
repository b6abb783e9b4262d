-- ===== src/IdNode/Stamps.antt =====
-- The time stamps that new nodes get, against those that merged nodes are set back to.
use egg.Base.{ℕ, ◌+◌, ◌%◌, ◌^◌, ◌≤◌, ◌<◌, ◌≡◌, refl, ap, List, [], ◌∷◌, map, length, All, arith}
use egg.IdNode.{IdNode, timestamp_loop, set_timestamp, reset_timestamp}

-- The stamps ascend from above `low`.
abbrev pub Ascends : ℕ → List IdNode → Type 0
Ascends low [] = Unit
Ascends low (x ∷ xs) = (low < x.time_stamp) × Ascends x.time_stamp xs

timestamp_loop_lem :
    (base idx low : ℕ) (nodes : List IdNode)
    → base + idx + length nodes < 2 ^ 32
    → low ≤ base + idx
    → Ascends low (timestamp_loop base idx nodes)
unfolding timestamp_loop
timestamp_loop_lem base idx low [] room h = tt
timestamp_loop_lem base idx low (x ∷ xs) room h = (
  omega arith,
  timestamp_loop_lem base (idx + 1) ((base + idx + 1) % 2 ^ 32) xs (omega arith) (omega arith),
)

timestamp_loop-ids :
    (base idx : ℕ) (nodes : List IdNode)
    → map (λ (x : IdNode). x.id) (timestamp_loop base idx nodes) ≡ map (λ (x : IdNode). x.id) nodes
unfolding timestamp_loop
timestamp_loop-ids base idx [] = refl
timestamp_loop-ids base idx (x ∷ xs) = ap (◌∷◌ x.id) (timestamp_loop-ids base (idx + 1) xs)

reset_below :
    (nodes : List IdNode)
    → All (λ y. y.time_stamp ≤ 64) (map (λ (x : IdNode). record x { time_stamp = 64 }) nodes)
reset_below [] = tt
reset_below (x ∷ xs) = (omega arith, reset_below xs)

-- With a base of 64 or more, and where the stamps do not wrap, `eggIdNode_set_timestamp` gives the nodes
-- stamps that ascend in the order of the list, the ids unchanged, all above what
-- `eggIdNode_reset_timestamp` leaves in any other list: a node added later is the newer one.
pub set_timestamp_newer :
    (old nodes : List IdNode) (base : ℕ)
    → 64 ≤ base
    → base + length nodes < 2 ^ 32
    → All (λ y. y.time_stamp ≤ 64) ((reset_timestamp old).1)
      × Ascends 64 ((set_timestamp nodes base).1)
      × (map (λ (x : IdNode). x.id) ((set_timestamp nodes base).1)
          ≡ map (λ (x : IdNode). x.id) nodes)
unfolding set_timestamp reset_timestamp
set_timestamp_newer old nodes base h room = (
  reset_below old,
  timestamp_loop_lem base 0 64 nodes (omega arith) (omega arith),
  timestamp_loop-ids base 0 nodes,
)
