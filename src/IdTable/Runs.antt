-- ===== src/IdTable/Runs.antt =====
-- The theorems at a concrete file: two documents, and room for three.
use egg.Base.{ℕ, ◌+◌, ◌-◌, ◌^◌, ◌<◌, ◌≡◌, ◌≢◌, refl, true, false, List, [], ◌∷◌, some, arith}
use egg.IdTable.{map_id, update_off, get_off}
use egg.IdTable.Places.{IsTable, map_id_lem, update_off_lem, update_off_zero}

abbrev places : List ℕ
places = 70 ∷ 85 ∷ 0 ∷ []

abbrev table_file : List ℕ
table_file = 2 ∷ 3 ∷ places

table_file-IsTable : IsTable 2 3 places table_file
table_file-IsTable = record { cells = refl; room = refl; used = omega arith }

map_id_lem_example :
    (table_cnt : ℕ) × (nodes : List ℕ) × (file : List ℕ) × (map_id table_file 99 ≡ some (3, file))
    × IsTable 3 table_cnt nodes file
    × (get_off file 3 ≡ some 99)
    × ((i : ℕ) → i < 2 → get_off file (i + 1) ≡ get_off table_file (i + 1))
    × ((id : ℕ) → 3 < id → get_off file id ≡ some (2 ^ 64 - 2))
map_id_lem_example = map_id_lem 2 3 99 places table_file table_file-IsTable (omega arith)

update_off_lem_example :
    ((nodes : List ℕ) × (file : List ℕ) × (update_off table_file 2 44 ≡ some (true, file))
      × IsTable 2 3 nodes file
      × (get_off file 2 ≡ some 44)
      × ((j : ℕ) → j < 2 → 1 ≢ j → get_off file (j + 1) ≡ get_off table_file (j + 1)))
    × ((id : ℕ) → 2 < id → update_off table_file id 44 ≡ some (false, table_file))
update_off_lem_example = update_off_lem 2 3 1 44 places table_file table_file-IsTable (omega arith)

update_off_zero_example :
    (update_off table_file 0 44 ≡ some (true, 2 ∷ 44 ∷ places)) × (get_off table_file 0 ≡ some 3)
update_off_zero_example = update_off_zero 2 3 44 places table_file table_file-IsTable
