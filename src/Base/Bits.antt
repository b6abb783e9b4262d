-- ===== src/Base/Bits.antt =====
-- The bit operations of C on unsigned values, as arithmetic.
use Prim.Native.Nat.{
  ℕ, zero, suc, ◌+◌, ◌-◌, ◌*◌, ◌/◌, ◌%◌, ◌^◌, ◌≤◌, ◌<◌, min, max, bit_and, bit_or, digits,
  bit_and-bitwise, bit_or-bitwise,
}
use mathlib.Core.Path.{◌≡◌, refl, ap, ◌∙◌}
use native.Mathlib.Nat.{pow-suc, one-le-pow}
use native.Mathlib.Omega.{arith}

-- The native operations recur on binary digits with fuel; more fuel than the number changes nothing.
-- (`half` is the fuel that the operation gives to the half of a number.)
module _ (z : ℕ → ℕ) (f : ℕ → ℕ → ℕ) where
  more_fuel : (x y half fuel : ℕ) → x ≤ half → x ≤ fuel → digits z f fuel x y ≡ digits z f half x y
  more_fuel zero y zero zero p q = refl
  more_fuel zero y zero (suc fuel) p q = refl
  more_fuel zero y (suc half) zero p q = refl
  more_fuel zero y (suc half) (suc fuel) p q = refl
  more_fuel (suc x) y zero fuel p q = absurd (omega arith)
  more_fuel (suc x) y (suc half) zero p q = absurd (omega arith)
  more_fuel (suc x) y (suc half) (suc fuel) p q =
      let below = more_fuel (suc x / 2) (y / 2) half fuel (omega arith) (omega arith) in
      ap (λ t. t * 2 + f (suc x % 2) (y % 2)) below

  half_fuel : (x y : ℕ) → digits z f x (suc x / 2) y ≡ digits z f (suc x / 2) (suc x / 2) y
  half_fuel x y = more_fuel (suc x / 2) y (suc x / 2) x (omega arith) (omega arith)

-- The lowest binary digit of an "or".
pub bit_or_low : (x y : ℕ) → bit_or x y ≡ max (x % 2) (y % 2) + 2 * bit_or (x / 2) (y / 2)
bit_or_low zero y = omega (arith, bit_or-bitwise 0 y, bit_or-bitwise 0 (y / 2))
bit_or_low (suc x) y =
    let whole = bit_or-bitwise (suc x) y in
    let half = bit_or-bitwise (suc x / 2) (y / 2) in
    omega (arith, whole, half, half_fuel (λ t. t) max x (y / 2))

-- The lowest binary digit of an "and".
pub bit_and_low : (x y : ℕ) → bit_and x y ≡ min (x % 2) (y % 2) + 2 * bit_and (x / 2) (y / 2)
bit_and_low zero y = omega (arith, bit_and-bitwise 0 y, bit_and-bitwise 0 (y / 2))
bit_and_low (suc x) y =
    let whole = bit_and-bitwise (suc x) y in
    let half = bit_and-bitwise (suc x / 2) (y / 2) in
    omega (arith, whole, half, half_fuel (λ t. 0) min x (y / 2))

doubled_shift : (b s : ℕ) → b * 2 ^ suc s ≡ b * 2 ^ s * 2
doubled_shift b s = omega (arith, ap (λ (t : ℕ). b * t) (pow-suc 2 s))

-- `a | (b << s)` is a sum where `a` fits the low `s` bits.
pub bit_or_disjoint : (s a b : ℕ) → a < 2 ^ s → bit_or a (b * 2 ^ s) ≡ a + b * 2 ^ s
bit_or_disjoint zero zero b h = omega (arith, bit_or-bitwise 0 (b * 2 ^ 0))
bit_or_disjoint zero (suc a) b h = absurd (omega arith)
bit_or_disjoint (suc s) a b h = ground (
  arith,
  pow-suc 2 s,
  doubled_shift b s,
  bit_or_low a (b * 2 ^ suc s),
  bit_or_disjoint s (a / 2) b (omega (arith, pow-suc 2 s)),
)

-- A mask of `k` ones keeps a number of `k` bits.
pub bit_and_ones : (k a : ℕ) → a < 2 ^ k → bit_and a (2 ^ k - 1) ≡ a
bit_and_ones zero zero h = refl
bit_and_ones zero (suc a) h = absurd (omega arith)
bit_and_ones (suc k) a h = ground (
  arith,
  pow-suc 2 k,
  one-le-pow k 2,
  bit_and_low a (2 ^ suc k - 1),
  bit_and_ones k (a / 2) (omega (arith, pow-suc 2 k)),
)

bit_and-zero_below : (n a : ℕ) → a ≤ n → bit_and a 0 ≡ 0
bit_and-zero_below n zero h = refl
bit_and-zero_below zero (suc a) h = absurd (omega arith)
bit_and-zero_below (suc n) (suc a) h =
    omega (arith, bit_and_low (suc a) 0, bit_and-zero_below n (suc a / 2) (omega arith))

bit_and_even : (a m : ℕ) → bit_and a (m * 2) ≡ bit_and (a / 2) m * 2
bit_and_even a m = ground (arith, bit_and_low a (m * 2))

regroup_2 : (t : ℕ) → t * 2 * 2 ≡ t * 4
regroup_2 t = omega arith

above_2 : (a m : ℕ) → bit_and a (m * 2 * 2) ≡ bit_and (a / 4) m * 4
above_2 a m =
    bit_and_even a (m * 2)
    ∙ ap (λ t. t * 2) (bit_and_even (a / 2) m)
    ∙ ap (λ d. bit_and d m * 2 * 2) {x = a / 2 / 2} {y = a / 4} (omega arith)
    ∙ regroup_2 (bit_and (a / 4) m)

regroup_3 : (t : ℕ) → t * 4 * 2 ≡ t * 8
regroup_3 t = omega arith

above_3 : (a m : ℕ) → bit_and a (m * 2 * 2 * 2) ≡ bit_and (a / 8) m * 8
above_3 a m =
    bit_and_even a (m * 2 * 2)
    ∙ ap (λ t. t * 2) (above_2 (a / 2) m)
    ∙ ap (λ d. bit_and d m * 4 * 2) {x = a / 2 / 4} {y = a / 8} (omega arith)
    ∙ regroup_3 (bit_and (a / 8) m)

regroup_4 : (t : ℕ) → t * 8 * 2 ≡ t * 16
regroup_4 t = omega arith

above_4 : (a m : ℕ) → bit_and a (m * 2 * 2 * 2 * 2) ≡ bit_and (a / 16) m * 16
above_4 a m =
    bit_and_even a (m * 2 * 2 * 2)
    ∙ ap (λ t. t * 2) (above_3 (a / 2) m)
    ∙ ap (λ d. bit_and d m * 8 * 2) {x = a / 2 / 8} {y = a / 16} (omega arith)
    ∙ regroup_4 (bit_and (a / 16) m)

regroup_5 : (t : ℕ) → t * 16 * 2 ≡ t * 32
regroup_5 t = omega arith

above_5 : (a m : ℕ) → bit_and a (m * 2 * 2 * 2 * 2 * 2) ≡ bit_and (a / 32) m * 32
above_5 a m =
    bit_and_even a (m * 2 * 2 * 2 * 2)
    ∙ ap (λ t. t * 2) (above_4 (a / 2) m)
    ∙ ap (λ d. bit_and d m * 16 * 2) {x = a / 2 / 16} {y = a / 32} (omega arith)
    ∙ regroup_5 (bit_and (a / 32) m)

regroup_6 : (t : ℕ) → t * 32 * 2 ≡ t * 64
regroup_6 t = omega arith

above_6 : (a m : ℕ) → bit_and a (m * 2 * 2 * 2 * 2 * 2 * 2) ≡ bit_and (a / 64) m * 64
above_6 a m =
    bit_and_even a (m * 2 * 2 * 2 * 2 * 2)
    ∙ ap (λ t. t * 2) (above_5 (a / 2) m)
    ∙ ap (λ d. bit_and d m * 32 * 2) {x = a / 2 / 32} {y = a / 64} (omega arith)
    ∙ regroup_6 (bit_and (a / 64) m)

regroup_7 : (t : ℕ) → t * 64 * 2 ≡ t * 128
regroup_7 t = omega arith

-- A mask with seven zeros below it looks at the bits from the seventh on.
pub bit_and_above_seven :
    (a m : ℕ) → bit_and a (m * 2 * 2 * 2 * 2 * 2 * 2 * 2) ≡ bit_and (a / 128) m * 128
bit_and_above_seven a m =
    bit_and_even a (m * 2 * 2 * 2 * 2 * 2 * 2)
    ∙ ap (λ t. t * 2) (above_6 (a / 2) m)
    ∙ ap (λ d. bit_and d m * 64 * 2) {x = a / 2 / 64} {y = a / 128} (omega arith)
    ∙ regroup_7 (bit_and (a / 128) m)

ones_1 : (a : ℕ) → bit_and a 1 ≡ a % 2
ones_1 a = omega (arith, bit_and_low a 1, bit_and-zero_below (a / 2) (a / 2) (omega arith))

ones_2 : (a : ℕ) → bit_and a 3 ≡ a % 4
ones_2 a = omega (arith, bit_and_low a 3, ones_1 (a / 2))

ones_3 : (a : ℕ) → bit_and a 7 ≡ a % 8
ones_3 a = omega (arith, bit_and_low a 7, ones_2 (a / 2))

ones_4 : (a : ℕ) → bit_and a 15 ≡ a % 16
ones_4 a = omega (arith, bit_and_low a 15, ones_3 (a / 2))

ones_5 : (a : ℕ) → bit_and a 31 ≡ a % 32
ones_5 a = omega (arith, bit_and_low a 31, ones_4 (a / 2))

ones_6 : (a : ℕ) → bit_and a 63 ≡ a % 64
ones_6 a = omega (arith, bit_and_low a 63, ones_5 (a / 2))

-- `a & 0x7f`
pub bit_and_seven_ones : (a : ℕ) → bit_and a 0x7f ≡ a % 128
bit_and_seven_ones a = omega (arith, bit_and_low a 0x7f, ones_6 (a / 2))
