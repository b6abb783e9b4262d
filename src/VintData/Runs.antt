-- ===== src/VintData/Runs.antt =====
-- Concrete runs, and the theorems at concrete inputs.
use egg.Base.{
  ◌>>=◌, ℕ, zero, suc, ◌+◌, ◌-◌, ◌^◌, ◌≡◌, refl, some, none, List, [], ◌∷◌, length, arith,
}
use egg.Vint.{core_read_vint, core_write_vint, core_read_vlong, core_write_vlong}
use egg.VintData.{vint_write, vint_read, itov_32, itov_64, vtoi_32, vtoi_64}
use egg.VintData.Stream.{between}
use egg.VintData.RoundTrip.{vtoi_32-itov_32, itov_32-overruns, vtoi_64-itov_64}
use egg.VintData.Single.{
  from_front, after, core_read_vint-core_write_vint, core_read_vlong-core_write_vlong_sign,
  core_read_vlong-core_write_vlong,
}

-- A block of zeros.
zeros : ℕ → List ℕ
zeros zero = []
zeros (suc n) = 0 ∷ zeros n

length-zeros : (n : ℕ) → length (zeros n) ≡ n
unfolding zeros
length-zeros zero = refl
length-zeros (suc n) = omega (arith, length-zeros n)

abbrev three_values : List ℕ
three_values = 5 ∷ 300 ∷ 70000 ∷ []

abbrev eight_free : List ℕ
eight_free = 0 ∷ 0 ∷ 0 ∷ 0 ∷ 0 ∷ 0 ∷ 0 ∷ 0 ∷ []

three_bytes :
    itov_32 zeros three_values
    ≡ some (record {
      len = 6;
      bytes = 5 ∷ 0xac ∷ 0x02 ∷ 0xf0 ∷ 0xa2 ∷ 0x04 ∷ 0 ∷ 0 ∷ 0 ∷ 0 ∷ 0 ∷ 0 ∷ [];
    })
unfolding itov_32 zeros core_write_vint
three_bytes = refl

vtoi_32-itov_32_example : (itov_32 zeros three_values >>= vtoi_32) ≡ some three_values
vtoi_32-itov_32_example =
    vtoi_32-itov_32 zeros length-zeros three_values (omega arith) (omega arith)

itov_32-overruns_example : itov_32 zeros (0xffff_ffff ∷ []) ≡ none
itov_32-overruns_example =
    itov_32-overruns zeros length-zeros (0xffff_ffff ∷ []) (omega arith) (omega arith) (omega arith)

vtoi_64-itov_64_example : (itov_64 zeros (0x1_0000_0002 ∷ 7 ∷ []) >>= vtoi_64) ≡ some (2 ∷ 7 ∷ [])
vtoi_64-itov_64_example = vtoi_64-itov_64 zeros length-zeros (0x1_0000_0002 ∷ 7 ∷ []) (omega arith)

core_read_vint-core_write_vint_example :
    (core_write_vint vint_write 300 (between (9 ∷ []) eight_free)
      >>= from_front (9 ∷ []) eight_free (core_read_vint vint_read))
    ≡ some (300, after (9 ∷ []) eight_free 300)
core_read_vint-core_write_vint_example =
    core_read_vint-core_write_vint (9 ∷ []) eight_free 300 (omega arith) (omega arith)

core_read_vlong-core_write_vlong_example :
    (core_write_vlong vint_write 300 (between (9 ∷ []) eight_free)
      >>= from_front (9 ∷ []) eight_free (core_read_vlong vint_read))
    ≡ some (300, after (9 ∷ []) eight_free 300)
core_read_vlong-core_write_vlong_example =
    core_read_vlong-core_write_vlong (9 ∷ []) eight_free 300 (omega arith) (omega arith)

core_read_vlong-core_write_vlong_sign_example :
    (core_write_vlong vint_write (2 ^ 31) (between (9 ∷ []) eight_free)
      >>= from_front (9 ∷ []) eight_free (core_read_vlong vint_read))
    ≡ some (2 ^ 31 + (2 ^ 64 - 2 ^ 32), after (9 ∷ []) eight_free (2 ^ 31))
core_read_vlong-core_write_vlong_sign_example =
    core_read_vlong-core_write_vlong_sign (9 ∷ []) eight_free (2 ^ 31) (omega arith) (omega arith)
      (omega arith)
