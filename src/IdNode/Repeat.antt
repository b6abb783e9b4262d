-- ===== src/IdNode/Repeat.antt =====
-- egg3/src/storage/eggIdNode.c: `eggIdNode_filter_repeat` on nodes in the order of their ids keeps, at
-- the front of the array, the newest node of each id, unless that one is marked as invalid. `none` is
-- an access outside the array.
pub mod Newest
mod Runs
use egg.Base.{
  ℕ, zero, suc, ◌+◌, ◌-◌, Bool, true, false, ◌||◌, Option, none, some, List, [], ◌∷◌, ◌>>=◌, length,
  get_elem?, ltb, ◌==◌, if◌then◌else◌,
}
use egg.Compare.{is_neg, is_pos}
use egg.Repeat.{store}
use egg.IdNode.{IdNode, cmp_id}

-- `while (i_src < n_src_cnt)`, with `left` rounds to go.
pub repeat_loop : ℕ → ℕ → ℕ → List IdNode → Option (List IdNode × ℕ)
unfolding store cmp_id
repeat_loop zero i_src i_dest nodes = some (nodes, i_dest)
repeat_loop (suc left) i_src i_dest nodes = do
  x ← get_elem? nodes i_src
  last ← get_elem? nodes (i_src - 1)
  cur ← get_elem? nodes (i_dest - 1)
  let dest = (if cur.flag == 0 then i_dest - 1 else i_dest)
  let moved = (do
    nodes' ← (if i_src == dest then some nodes else store nodes dest x)
    repeat_loop left (i_src + 1) (dest + 1) nodes')
  let newer = (do nodes' ← store nodes (i_dest - 1) x; repeat_loop left (i_src + 1) i_dest nodes')
  let older = repeat_loop left (i_src + 1) i_dest nodes
  if is_pos (cmp_id x last) || is_neg (cmp_id x last)
      then moved
      else (if ltb cur.time_stamp x.time_stamp then newer else older)

-- The return value, the array and `*lpIdCnt`.
pub filter_repeat : List IdNode → Option (Bool × List IdNode × ℕ)
unfolding repeat_loop
filter_repeat nodes =
    let filtered = (do
      r ← repeat_loop (length nodes - 1) 1 1 nodes
      cur ← get_elem? (r.0) (r.1 - 1)
      some (true, r.0, if cur.flag == 0 then r.1 - 1 else r.1)) in
    if length nodes == 0 then some (false, nodes, 0) else filtered
