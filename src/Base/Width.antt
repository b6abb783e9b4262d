-- ===== src/Base/Width.antt =====
-- Arrays that 32-bit arithmetic can walk over: a count that is an `int` (as are the indexes, and the sum
-- of two of them), and offsets `i * unitSz` that are 32-bit products.
use Prim.Native.Nat.{ℕ, ◌*◌, ◌^◌, ◌≤◌, ◌<◌}
use mathlib.Core.Path.{◌≡◌, refl}
use mathlib.Core.Bool.{Bool, true, ◌&&◌}
use egg.Base.Tests.{leb, ltb, leb-true, lt→ltb}

pub fits : ℕ → ℕ → Bool
fits unit_sz cnt = leb cnt (2 ^ 30) && ltb (cnt * unit_sz) (2 ^ 32)

pub fits-true : (unit_sz cnt : ℕ) → cnt ≤ 2 ^ 30 → cnt * unit_sz < 2 ^ 32 → fits unit_sz cnt ≡ true
unfolding fits
fits-true unit_sz cnt h k =
    rw (leb-true {a = cnt} {b = 2 ^ 30} h, lt→ltb (cnt * unit_sz) (2 ^ 32) k) refl
