-- ===== src/IdTable.antt =====
-- egg3/src/storage/eggIdTable.c and .h: the file that maps the number of a document to its place. The
-- file is its cells of 8 bytes: `docCnt` and `tableCnt` of the header, which is also mapped into memory,
-- and then the nodes. A byte offset of `(id - 1) * 8 + 16`, in 64 bits, is the cell `id + 1`. The file
-- locks are not modelled: a call runs alone. `none` is a read past the end, or a write past it that
-- leaves a gap.
pub mod Cells
pub mod Places
mod Runs
use egg.Base.{
  ℕ, ◌+◌, ◌-◌, ◌%◌, ◌^◌, Bool, true, false, Option, none, some, List, [], ◌∷◌, ◌++◌, ◌>>=◌, length,
  get_elem?, take, drop, ltb, leb, ◌==◌, if◌then◌else◌,
}
use egg.Base.Bytes.{zeros}

-- `EggFile_write` of whole cells.
pub write_cells : List ℕ → ℕ → List ℕ → Option (List ℕ)
write_cells file at cells =
    if leb at (length file)
    then some (take at file ++ (cells ++ drop (at + length cells) file))
    else none

-- `eggIdTable_new` leaves a file that is not empty as it is.
pub new : List ℕ → List ℕ
new file = if length file == 0 then 0 ∷ 16384 ∷ zeros 16384 else file

-- `if (docCnt == tableCnt)`: a block of nodes more at the end of the file.
pub extend : ℕ → ℕ → List ℕ → Option (List ℕ)
unfolding write_cells
extend doc_cnt table_cnt file =
    let extended = (do
      file' ← write_cells file (table_cnt + 2) (zeros 16384)
      write_cells file' 1 ((table_cnt + 16384) % 2 ^ 64 ∷ [])) in
    if doc_cnt == table_cnt then extended else some file

-- `eggIdTable_map_id`: the new number and the file. The byte offset `docCnt * 8 + 16` would wrap from
-- 2 ^ 61 - 2 documents on, behind the end of any file, whose offsets have 63 bits.
pub map_id : List ℕ → ℕ → Option (ℕ × List ℕ)
unfolding extend write_cells
map_id file doc_off = do
  doc_cnt ← get_elem? file 0
  table_cnt ← get_elem? file 1
  file1 ← extend doc_cnt table_cnt file
  file2 ← write_cells file1 (doc_cnt + 2) (doc_off ∷ [])
  file3 ← write_cells file2 0 ((doc_cnt + 1) % 2 ^ 64 ∷ [])
  some ((doc_cnt + 1) % 2 ^ 64, file3)

pub update_off : List ℕ → ℕ → ℕ → Option (Bool × List ℕ)
unfolding write_cells
update_off file id doc_off = do
  doc_cnt ← get_elem? file 0
  let written = (do file' ← write_cells file (id + 1) (doc_off ∷ []); some (true, file'))
  if ltb doc_cnt id then some (false, file) else written

-- `TABLE_ID_OVERFLOW` is -2 in 64 bits.
pub get_off : List ℕ → ℕ → Option ℕ
get_off file id = do
  doc_cnt ← get_elem? file 0
  if ltb doc_cnt id then some (2 ^ 64 - 2) else get_elem? file (id + 1)
