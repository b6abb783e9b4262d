-- ===== src/Vint/SignBit.antt =====
-- The 64-bit reader on values whose top bit is bit 31: `(u & 0x7F) << shift` is a shift of an `int`,
-- and the group that holds bit 31 comes back negative.
use egg.Base.{
  ℕ, ◌+◌, ◌-◌, ◌*◌, ◌/◌, ◌%◌, ◌^◌, ◌≤◌, ◌<◌, ◌≡◌, ◌∙◌, Option, some, List, [], ◌∷◌, bit_or, arith,
}
use egg.Base.Bits.{bit_and_seven_ones, bit_or_disjoint}
use egg.Vint.{sign_extend, core_read_vlong}
use egg.Vint.Groups.{groups}
use egg.Vint.Read.{Reads, read_loop_last, read_loop_more, read_inner}

abbrev four_more : ℕ → List ℕ
four_more v =
    (v % 128 + 128)
    ∷ (v / 128 % 128 + 128)
    ∷ (v / 128 / 128 % 128 + 128)
    ∷ (v / 128 / 128 / 128 % 128 + 128)
    ∷ v / 128 / 128 / 128 / 128
    ∷ []

groups-four_more : (v : ℕ) → 2 ^ 28 ≤ v → groups 4 v ≡ four_more v
unfolding groups
groups-four_more v h = ground arith

sign_extend_small : (x : ℕ) → x < 2 ^ 31 → sign_extend x ≡ x
unfolding sign_extend
sign_extend_small x h = ground arith

sign_extend_large : (x : ℕ) → 2 ^ 31 ≤ x → sign_extend x ≡ x + (2 ^ 64 - 2 ^ 32)
unfolding sign_extend
sign_extend_large x h = ground arith

-- The last group, `g`, holds bit 31.
join_top :
    (v g : ℕ)
    → v < 2 ^ 28
    → 8 ≤ g
    → g < 16
    → bit_or v (sign_extend (g % 128 * 2 ^ 28 % 2 ^ 32)) ≡ v + g * 2 ^ 28 + (2 ^ 64 - 2 ^ 32)
join_top v g h lo hi =
    let top : g % 128 * 2 ^ 28 % 2 ^ 32 ≡ g * 2 ^ 28 = omega arith in
    let widened : sign_extend (g * 2 ^ 28) ≡ (g + (2 ^ 36 - 16)) * 2 ^ 28 =
      omega (arith, sign_extend_large (g * 2 ^ 28) (omega arith)) in
    rw (top, widened, bit_or_disjoint 28 v (g + (2 ^ 36 - 16)) h) (omega arith)

module _ {S : Type 0} (read : S → Option (ℕ × S)) where
  four_more-sign_bit :
      (v : ℕ) (s t : S)
      → 2 ^ 31 ≤ v
      → v < 2 ^ 32
      → Reads read s (four_more v) t
      → core_read_vlong read s ≡ some (v + (2 ^ 64 - 2 ^ 32), t)
  unfolding core_read_vlong
  four_more-sign_bit v s t lo hi (s1, e1, (s2, e2, (s3, e3, (s4, e4, (s5, e5, done))))) =
      let low : (v % 128 + 128) % 128 ≡ v % 128 = omega arith in
      let v2 = v % 128 + v / 128 % 128 * 2 ^ 7 in
      let v3 = v2 + v / 128 / 128 % 128 * 2 ^ 14 in
      let v4 = v3 + v / 128 / 128 / 128 % 128 * 2 ^ 21 in
      let top = v / 128 / 128 / 128 / 128 in
      let whole : v4 + top * 2 ^ 28 + (2 ^ 64 - 2 ^ 32) ≡ v + (2 ^ 64 - 2 ^ 32) = omega arith in
      rw (e1, bit_and_seven_ones (v % 128 + 128), low)
        (read_inner read sign_extend (2 ^ 31) (omega arith) sign_extend_small 4 (v / 128)
            (v % 128 + 128) (v % 128) 7 s1 s2 (omega arith) (omega arith) (omega arith)
            (omega arith) (omega arith) e2
          ∙ read_inner read sign_extend (2 ^ 31) (omega arith) sign_extend_small 3 (v / 128 / 128)
              (v / 128 % 128 + 128) v2 14 s2 s3 (omega arith) (omega arith) (omega arith)
              (omega arith) (omega arith) e3
          ∙ read_inner read sign_extend (2 ^ 31) (omega arith) sign_extend_small 2
              (v / 128 / 128 / 128) (v / 128 / 128 % 128 + 128) v3 21 s3 s4 (omega arith)
              (omega arith) (omega arith) (omega arith) (omega arith) e4
          ∙ read_loop_more read sign_extend 1 (v / 128 / 128 / 128 % 128 + 128) v4 28 top s4 s5
              (omega arith) (omega arith) e5 (omega arith)
          ∙ rw (join_top v4 top (omega arith) (omega arith) (omega arith)) (
              read_loop_last read sign_extend 0 top (v4 + top * 2 ^ 28 + (2 ^ 64 - 2 ^ 32)) 35 s5
                (omega arith)
              ∙ cc (whole, done)))

  -- On the groups of a value from 2 ^ 31 on, below 2 ^ 32, the 64-bit reader returns the value with
  -- the upper 32 bits set.
  pub core_read_vlong-sign_bit :
      (v : ℕ) (s t : S)
      → 2 ^ 31 ≤ v
      → v < 2 ^ 32
      → Reads read s (groups 4 v) t
      → core_read_vlong read s ≡ some (v + (2 ^ 64 - 2 ^ 32), t)
  core_read_vlong-sign_bit v s t lo hi r =
      four_more-sign_bit v s t lo hi (rw (groups-four_more v (omega arith)) at r)
