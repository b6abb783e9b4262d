-- ===== src/IdTable/Cells.antt =====
-- Writes of cells: one inside the file, and some at its end.
use egg.Base.{
  ℕ, suc, ◌+◌, ◌<◌, ◌≡◌, refl, ap, ◌∙◌, some, List, [], ◌∷◌, ◌++◌, append-nil, length, set, take,
  drop, take-all, drop-all, set-parts, leb-true, arith,
}
use egg.IdTable.{write_cells}

pub write_cells-one :
    (file : List ℕ) (i v : ℕ) → i < length file → write_cells file i (v ∷ []) ≡ some (set file i v)
unfolding write_cells
write_cells-one file i v h = rw (leb-true {a = i} {b = length file} (omega arith)) (
    ap some (
      ap (λ n. take i file ++ (v ∷ drop n file)) {x = i + 1} {y = suc i} (omega arith)
      ∙ set-parts file i v h))

pub write_cells-end :
    (file cells : List ℕ) (at : ℕ)
    → at ≡ length file
    → write_cells file at cells ≡ some (file ++ cells)
unfolding write_cells
write_cells-end file cells at e =
    rw
      (
        leb-true {a = at} {b = length file} (omega (arith, e)),
        take-all at file (omega (arith, e)),
        drop-all (at + length cells) file (omega (arith, e)),
        append-nil cells,
      )
      refl
