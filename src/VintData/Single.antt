-- ===== src/VintData/Single.antt =====
-- One value written into the buffer and read back from where it was written.
use egg.Base.{
  ◌>>=◌, ℕ, ◌+◌, ◌-◌, ◌^◌, ◌≤◌, ◌<◌, ◌≡◌, ◌∙◌, Option, some, List, ◌++◌, length, drop, append_assoc,
  sym, arith,
}
use mathlib.Core.Path.{subst}
use egg.Vint.{core_read_vint, core_write_vint, core_read_vlong, core_write_vlong}
use egg.Vint.Groups.{
  groups, groups-enough, length-groups, core_write_vint-groups, core_write_vlong-groups,
}
use egg.Vint.Read.{Reads, core_read_vint-groups, core_read_vlong-groups}
use egg.Vint.SignBit.{core_read_vlong-sign_bit}
use egg.VintData.{VintData, vint_write, vint_read}
use egg.VintData.Stream.{between, write_all-between, Reads-between}

module _ (front rest : List ℕ) where
  -- Read with `reader` from where `front` ends.
  abbrev pub from_front : (VintData → Option (ℕ × VintData)) → VintData → Option (ℕ × VintData)
  from_front reader d = reader (record d { len = length front })

  abbrev pub after : ℕ → VintData
  after v = between (front ++ groups 4 v) (drop (length (groups 4 v)) rest)

  write_vint :
      (v : ℕ)
      → v < 2 ^ 32
      → 5 ≤ length rest
      → core_write_vint vint_write v (between front rest) ≡ some (after v)
  write_vint v h room =
      core_write_vint-groups vint_write v (between front rest) h
      ∙ write_all-between (groups 4 v) front rest (omega (arith, length-groups 4 v))

  write_vlong :
      (v : ℕ)
      → v < 2 ^ 32
      → 5 ≤ length rest
      → core_write_vlong vint_write v (between front rest) ≡ some (after v)
  write_vlong v h room =
      core_write_vlong-groups vint_write v (between front rest) (omega arith)
      ∙ rw (groups-enough 4 9 v (omega arith) (omega arith))
          (write_all-between (groups 4 v) front rest (omega (arith, length-groups 4 v)))

  Reads-after :
      (v : ℕ) → Reads vint_read (record (after v) { len = length front }) (groups 4 v) (after v)
  Reads-after v =
      let tail = drop (length (groups 4 v)) rest in
      subst
        (λ bs. Reads vint_read (record { len = length front; bytes = bs }) (groups 4 v) (after v))
        (sym (append_assoc front (groups 4 v) tail)) (Reads-between (groups 4 v) front tail)

  -- A 32-bit value that the 32-bit writer puts behind `front`, into room for five bytes, is what the
  -- 32-bit reader returns from there, and the reader stops where the writer stopped.
  pub core_read_vint-core_write_vint :
      (v : ℕ)
      → v < 2 ^ 32
      → 5 ≤ length rest
      → (core_write_vint vint_write v (between front rest)
          >>= from_front (core_read_vint vint_read))
        ≡ some (v, after v)
  core_read_vint-core_write_vint v h room =
      rw (write_vint v h room) (core_read_vint-groups vint_read v _ (after v) h (Reads-after v))

  -- The 64-bit pair does the same on values below 2 ^ 31.
  pub core_read_vlong-core_write_vlong :
      (v : ℕ)
      → v < 2 ^ 31
      → 5 ≤ length rest
      → (core_write_vlong vint_write v (between front rest)
          >>= from_front (core_read_vlong vint_read))
        ≡ some (v, after v)
  core_read_vlong-core_write_vlong v h room =
      rw (write_vlong v (omega arith) room)
        (core_read_vlong-groups vint_read v _ (after v) h (Reads-after v))

  -- On a value from 2 ^ 31 on, below 2 ^ 32, the 64-bit pair returns another number: the value with
  -- its upper 32 bits set.
  pub core_read_vlong-core_write_vlong_sign :
      (v : ℕ)
      → 2 ^ 31 ≤ v
      → v < 2 ^ 32
      → 5 ≤ length rest
      → (core_write_vlong vint_write v (between front rest)
          >>= from_front (core_read_vlong vint_read))
        ≡ some (v + (2 ^ 64 - 2 ^ 32), after v)
  core_read_vlong-core_write_vlong_sign v lo hi room =
      rw (write_vlong v hi room)
        (core_read_vlong-sign_bit vint_read v _ (after v) lo hi (Reads-after v))
