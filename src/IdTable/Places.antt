-- ===== src/IdTable/Places.antt =====
-- The table gives each document the place that was stored last for its number.
use egg.Base.{
  ℕ, suc, ◌+◌, ◌-◌, ◌%◌, ◌^◌, ◌≤◌, ◌<◌, ◌≡◌, ◌≢◌, refl, ap, sym, ◌∙◌, true, false, some, List, ◌∷◌,
  ◌++◌, length, set, get_elem?, length-set, length-append, get_elem?-set, get_elem?-set_other,
  get_elem?-front, ltb, lt→ltb, ◌==◌, arith, Bool-cases, inl, inr,
}
use egg.Base.Bytes.{zeros, zeros_size}
use egg.IdTable.{extend, map_id, update_off, get_off}
use egg.IdTable.Cells.{write_cells-one, write_cells-end}

-- A file with the nodes of `doc_cnt` documents, and room for `table_cnt`.
pub record IsTable (doc_cnt table_cnt : ℕ) (nodes file : List ℕ) : Type 0 where
  pub cells : file ≡ doc_cnt ∷ table_cnt ∷ nodes
  pub room : length nodes ≡ table_cnt
  pub used : doc_cnt ≤ table_cnt

module _ (doc_cnt table_cnt : ℕ) (nodes : List ℕ) where
  extend_lem :
      length nodes ≡ table_cnt
      → doc_cnt ≤ table_cnt
      → table_cnt + 16384 < 2 ^ 64
      → (table_cnt' : ℕ) × (nodes' : List ℕ) × (extend doc_cnt table_cnt
            (doc_cnt ∷ table_cnt ∷ nodes)
          ≡ some (doc_cnt ∷ table_cnt' ∷ nodes'))
        × (length nodes' ≡ table_cnt')
        × (doc_cnt < table_cnt')
        × ((i : ℕ) → i < doc_cnt → get_elem? nodes' i ≡ get_elem? nodes i)
  unfolding extend
  extend_lem room used small = elim (Bool-cases (doc_cnt == table_cnt)) [
    | inl full ↦
        let file = doc_cnt ∷ table_cnt ∷ nodes in
        let more = (table_cnt + 16384) % 2 ^ 64 in
        (
          more,
          nodes ++ zeros 16384,
          rw
              (
                full,
                write_cells-end file (zeros 16384) (table_cnt + 2) (omega (arith, room)),
                write_cells-one (file ++ zeros 16384) 1 more (omega arith),
              )
              refl,
          omega (arith, length-append nodes (zeros 16384), zeros_size 16384, room, small),
          omega (arith, used, small),
          λ i h. get_elem?-front nodes (zeros 16384) i (omega (arith, h, used, room)),
        )
    | inr free ↦ (table_cnt, nodes, rw free refl, room, ground arith, λ i h. refl)
  ]

-- The steps of `eggIdTable_map_id` behind the extension.
map_steps :
    (doc_cnt table_cnt table_cnt' doc_off : ℕ) (nodes nodes' : List ℕ)
    → extend doc_cnt table_cnt (doc_cnt ∷ table_cnt ∷ nodes) ≡ some (doc_cnt ∷ table_cnt' ∷ nodes')
    → doc_cnt < length nodes'
    → doc_cnt + 1 < 2 ^ 64
    → map_id (doc_cnt ∷ table_cnt ∷ nodes) doc_off
      ≡ some (doc_cnt + 1, (doc_cnt + 1) ∷ table_cnt' ∷ set nodes' doc_cnt doc_off)
unfolding map_id
map_steps doc_cnt table_cnt table_cnt' doc_off nodes nodes' e room small =
    let file = doc_cnt ∷ table_cnt' ∷ nodes' in
    let next = (doc_cnt + 1) % 2 ^ 64 in
    let same : next ≡ doc_cnt + 1 = omega arith in
    let stored : set file (doc_cnt + 2) doc_off
        ≡ doc_cnt ∷ table_cnt' ∷ set nodes' doc_cnt doc_off =
      ap (λ i. set file i doc_off) {x = doc_cnt + 2} {y = suc (suc doc_cnt)} (omega arith) in
    rw
      (
        e,
        write_cells-one file (doc_cnt + 2) doc_off (omega arith),
        stored,
        write_cells-one (doc_cnt ∷ table_cnt' ∷ set nodes' doc_cnt doc_off) 0 next (omega arith),
        same,
      )
      refl

get_off-stored :
    (doc_cnt table_cnt i : ℕ) (nodes : List ℕ)
    → i < doc_cnt
    → get_off (doc_cnt ∷ table_cnt ∷ nodes) (i + 1) ≡ get_elem? nodes i
unfolding get_off
get_off-stored doc_cnt table_cnt i nodes h =
    let within : ltb doc_cnt (i + 1) ≡ false = ground arith in
    rw within (
      ap (λ k. get_elem? (doc_cnt ∷ table_cnt ∷ nodes) k) {x = i + 1 + 1} {y = suc (suc i)}
        (omega arith))

get_off-above :
    (doc_cnt id : ℕ) (cells : List ℕ)
    → doc_cnt < id
    → get_off (doc_cnt ∷ cells) id ≡ some (2 ^ 64 - 2)
unfolding get_off
get_off-above doc_cnt id cells h = ground arith

update_steps :
    (doc_cnt table_cnt i doc_off : ℕ) (nodes : List ℕ)
    → i < doc_cnt
    → doc_cnt ≤ length nodes
    → update_off (doc_cnt ∷ table_cnt ∷ nodes) (i + 1) doc_off
      ≡ some (true, doc_cnt ∷ table_cnt ∷ set nodes i doc_off)
unfolding update_off
update_steps doc_cnt table_cnt i doc_off nodes h room =
    let within : ltb doc_cnt (i + 1) ≡ false = ground arith in
    let file = doc_cnt ∷ table_cnt ∷ nodes in
    rw (within, write_cells-one file (i + 1 + 1) doc_off (omega arith))
      (ap (λ k. some (true, set file k doc_off)) {x = i + 1 + 1} {y = suc (suc i)} (omega arith))

update_above :
    (doc_cnt id doc_off : ℕ) (cells : List ℕ)
    → doc_cnt < id
    → update_off (doc_cnt ∷ cells) id doc_off ≡ some (false, doc_cnt ∷ cells)
unfolding update_off
update_above doc_cnt id doc_off cells h = rw (lt→ltb doc_cnt id h) refl

zero_written :
    (doc_cnt table_cnt doc_off : ℕ) (nodes : List ℕ)
    → update_off (doc_cnt ∷ table_cnt ∷ nodes) 0 doc_off ≡ some (true, doc_cnt ∷ doc_off ∷ nodes)
unfolding update_off
zero_written doc_cnt table_cnt doc_off nodes =
    let within : ltb doc_cnt 0 ≡ false = ground arith in
    rw (within, write_cells-one (doc_cnt ∷ table_cnt ∷ nodes) 1 doc_off (omega arith)) refl

zero_read :
    (doc_cnt table_cnt : ℕ) (nodes : List ℕ)
    → get_off (doc_cnt ∷ table_cnt ∷ nodes) 0 ≡ some table_cnt
unfolding get_off
zero_read doc_cnt table_cnt nodes = ground arith

-- In a table with room for less than 2 ^ 64 - 16384 documents, `eggIdTable_map_id` writes no gap; it
-- returns the next number and leaves a table of one document more, in which this number has the place
-- that was given, each number before it the place it had, and each above it `TABLE_ID_OVERFLOW`.
pub map_id_lem :
    (doc_cnt table_cnt doc_off : ℕ) (nodes file : List ℕ)
    → IsTable doc_cnt table_cnt nodes file
    → table_cnt + 16384 < 2 ^ 64
    → (table_cnt' : ℕ) × (nodes' : List ℕ) × (file' : List ℕ) × (map_id file doc_off
        ≡ some (doc_cnt + 1, file'))
      × IsTable (doc_cnt + 1) table_cnt' nodes' file'
      × (get_off file' (doc_cnt + 1) ≡ some doc_off)
      × ((i : ℕ) → i < doc_cnt → get_off file' (i + 1) ≡ get_off file (i + 1))
      × ((id : ℕ) → doc_cnt + 1 < id → get_off file' id ≡ some (2 ^ 64 - 2))
map_id_lem doc_cnt table_cnt doc_off nodes file t small =
    let (table_cnt', nodes', e, room, free, kept) =
      extend_lem doc_cnt table_cnt nodes t.room t.used small in
    let within : doc_cnt < length nodes' = omega (arith, room, free) in
    let nodes'' = set nodes' doc_cnt doc_off in
    (
      table_cnt',
      nodes'',
      (doc_cnt + 1) ∷ table_cnt' ∷ nodes'',
      ap (λ f. map_id f doc_off) t.cells
          ∙ map_steps doc_cnt table_cnt table_cnt' doc_off nodes nodes' e within
              (omega (arith, t.used)),
      record {
        cells = refl;
        room = length-set nodes' doc_cnt doc_off ∙ room;
        used = omega (arith, free);
      },
      get_off-stored (doc_cnt + 1) table_cnt' doc_cnt nodes'' (omega arith)
          ∙ get_elem?-set nodes' doc_cnt doc_off within,
      λ i h.
          get_off-stored (doc_cnt + 1) table_cnt' i nodes'' (omega (arith, h))
          ∙ get_elem?-set_other nodes' doc_cnt i doc_off (λ q. omega (arith, q, h))
          ∙ kept i h
          ∙ sym (ap (λ f. get_off f (i + 1)) t.cells ∙ get_off-stored doc_cnt table_cnt i nodes h),
      λ id h. get_off-above (doc_cnt + 1) id (table_cnt' ∷ nodes'') h,
    )

-- For a number from 1 up to the count, `eggIdTable_update_off` returns `EGG_TRUE` and leaves a table in
-- which this number has the new place and every other number the place it had; for a number above the
-- count it returns `EGG_FALSE` and the table as it was.
pub update_off_lem :
    (doc_cnt table_cnt i doc_off : ℕ) (nodes file : List ℕ)
    → IsTable doc_cnt table_cnt nodes file
    → i < doc_cnt
    → ((nodes' : List ℕ) × (file' : List ℕ) × (update_off file (i + 1) doc_off ≡ some (true, file'))
        × IsTable doc_cnt table_cnt nodes' file'
        × (get_off file' (i + 1) ≡ some doc_off)
        × ((j : ℕ) → j < doc_cnt → i ≢ j → get_off file' (j + 1) ≡ get_off file (j + 1)))
      × ((id : ℕ) → doc_cnt < id → update_off file id doc_off ≡ some (false, file))
update_off_lem doc_cnt table_cnt i doc_off nodes file t h =
    let nodes' = set nodes i doc_off in
    let within : doc_cnt ≤ length nodes = omega (arith, t.room, t.used) in
    (
      (
        nodes',
        doc_cnt ∷ table_cnt ∷ nodes',
        ap (λ f. update_off f (i + 1) doc_off) t.cells
            ∙ update_steps doc_cnt table_cnt i doc_off nodes h within,
        record { cells = refl; room = length-set nodes i doc_off ∙ t.room; used = t.used },
        get_off-stored doc_cnt table_cnt i nodes' h
            ∙ get_elem?-set nodes i doc_off (omega (arith, within, h)),
        λ j k ne.
            get_off-stored doc_cnt table_cnt j nodes' k
            ∙ get_elem?-set_other nodes i j doc_off ne
            ∙ sym
                (ap (λ f. get_off f (j + 1)) t.cells ∙ get_off-stored doc_cnt table_cnt j nodes k),
      ),
      λ id k.
          ap (λ f. update_off f id doc_off) t.cells
          ∙ update_above doc_cnt id doc_off (table_cnt ∷ nodes) k
          ∙ ap (λ f. some (false, f)) (sym t.cells),
    )

-- The number 0 is taken for one of the table: `eggIdTable_update_off`
-- of 0 returns `EGG_TRUE` and overwrites `tableCnt`, and `eggIdTable_get_off` of 0 reads it.
pub update_off_zero :
    (doc_cnt table_cnt doc_off : ℕ) (nodes file : List ℕ)
    → IsTable doc_cnt table_cnt nodes file
    → (update_off file 0 doc_off ≡ some (true, doc_cnt ∷ doc_off ∷ nodes))
      × (get_off file 0 ≡ some table_cnt)
update_off_zero doc_cnt table_cnt doc_off nodes file t = (
  ap (λ f. update_off f 0 doc_off) t.cells ∙ zero_written doc_cnt table_cnt doc_off nodes,
  ap (λ f. get_off f 0) t.cells ∙ zero_read doc_cnt table_cnt nodes,
)
