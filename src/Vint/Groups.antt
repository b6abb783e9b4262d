-- ===== src/Vint/Groups.antt =====
-- What the two writers write: the groups of seven bits of the value, in plain arithmetic.
use egg.Base.{
  ◌>>=◌, ℕ, zero, suc, ◌+◌, ◌-◌, ◌*◌, ◌/◌, ◌%◌, ◌^◌, ◌≤◌, ◌<◌, ◌≡◌, Option, some, List, [], ◌∷◌,
  length, bit_and, bit_or, ltb, if◌then◌else◌, arith, refl, ap, sym, fun_ext, tests, false, ◌==◌,
  ◌∙◌, inl, inr, Bool-cases, Option-cases,
}
use egg.Base.Bits.{bit_and_seven_ones, bit_and_above_seven, bit_and_ones, bit_or_disjoint}
use native.Mathlib.Nat.{pow-suc, one-le-pow}
use egg.Vint.{write_loop, core_write_vint, core_write_vlong, high_mask32, high_mask64}

-- The groups of `v`, for `v` below 128 ^ (k + 1).
unfoldable pub groups : ℕ → ℕ → List ℕ
groups zero v = v ∷ []
groups (suc k) v =
    let rest = groups k (v / 128) in if ltb v 128 then v ∷ [] else (v % 128 + 128) ∷ rest

pub length-groups : (k v : ℕ) → (1 ≤ length (groups k v)) × (length (groups k v) ≤ k + 1)
unfolding groups
length-groups zero v = omega arith
length-groups (suc k) v = ground (arith, length-groups k (v / 128))

-- A value of `j + 1` groups takes no more bytes.
pub length-groups-le : (j k v : ℕ) → j ≤ k → v < 128 ^ suc j → length (groups k v) ≤ suc j
unfolding groups
length-groups-le j zero v h p = omega arith
length-groups-le zero (suc k) v h p = ground arith
length-groups-le (suc j) (suc k) v h p =
    ground
      (arith, length-groups-le j k (v / 128) (omega arith) (omega (arith, pow-suc 128 (suc j))))

-- Room for more groups than a value has changes nothing.
pub groups-enough : (j k v : ℕ) → j ≤ k → v < 128 ^ suc j → groups k v ≡ groups j v
unfolding groups
groups-enough zero zero v h p = refl
groups-enough zero (suc k) v h p = ground arith
groups-enough (suc j) zero v h p = absurd (omega arith)
groups-enough (suc j) (suc k) v h p =
    ground (arith, groups-enough j k (v / 128) (omega arith) (omega (arith, pow-suc 128 (suc j))))

-- A value that needs more than `k` groups takes more than `k` bytes.
pub lt-length-groups : (j k v : ℕ) → j ≤ k → 128 ^ j ≤ v → j < length (groups k v)
unfolding groups
lt-length-groups zero k v h p = ground (arith, length-groups k v)
lt-length-groups (suc j) zero v h p = absurd (omega arith)
lt-length-groups (suc j) (suc k) v h p = ground (
  arith,
  one-le-pow j 128,
  pow-suc 128 j,
  lt-length-groups j k (v / 128) (omega arith) (omega (arith, pow-suc 128 j)),
)

more_byte : (v : ℕ) → bit_or (bit_and v 0x7f) 0x80 % 256 ≡ v % 128 + 128
more_byte v = ground (arith, bit_and_seven_ones v, bit_or_disjoint 7 (v % 128) 1 (omega arith))

-- `v & ~0x7F` clears the low seven bits.
high_mask32_lem : (v : ℕ) → v < 2 ^ 32 → bit_and v high_mask32 ≡ v / 128 * 128
high_mask32_lem v h =
    bit_and_above_seven v (2 ^ 25 - 1) ∙ ap (λ t. t * 128) (bit_and_ones 25 (v / 128) (omega arith))

high_mask64_lem : (v : ℕ) → v < 2 ^ 64 → bit_and v high_mask64 ≡ v / 128 * 128
high_mask64_lem v h =
    bit_and_above_seven v (2 ^ 57 - 1) ∙ ap (λ t. t * 128) (bit_and_ones 57 (v / 128) (omega arith))

module _ {S : Type 0} (write : ℕ → S → Option S) where
  -- The callback on each byte in turn.
  unfoldable pub write_all : List ℕ → S → Option S
  write_all [] s = some s
  write_all (b ∷ bs) s = write b s >>= write_all bs

  write_all-single : (b : ℕ) (s : S) → write_all (b ∷ []) s ≡ write b s
  unfolding write_all
  write_all-single b s = elim (Option-cases (write b s)) [ inl e ↦ rw e | inr (t, e) ↦ rw e ]

  write_loop_last :
      (mask fuel v : ℕ) (s : S)
      → bit_and v mask ≡ v / 128 * 128
      → v < 128
      → write_loop write mask (suc fuel) v s ≡ write v s
  unfolding write_loop
  write_loop_last mask fuel v s e h = ground arith

  write_loop_more :
      (mask fuel v : ℕ) (s : S)
      → bit_and v mask ≡ v / 128 * 128
      → 128 ≤ v
      → write_loop write mask (suc fuel) v s
        ≡ (write (v % 128 + 128) s >>= write_loop write mask fuel (v / 128))
  unfolding write_loop
  write_loop_more mask fuel v s e h =
      let more : (bit_and v mask == 0) ≡ false = ground arith in rw (more, more_byte v)

  write_loop-groups :
      (mask bound : ℕ)
      → ((v : ℕ) → v < bound → bit_and v mask ≡ v / 128 * 128)
      → (k v : ℕ) (s : S) → v < bound
      → v < 128 ^ suc k
      → write_loop write mask (suc k) v s ≡ write_all (groups k v) s
  unfolding groups write_all
  write_loop-groups mask bound ok zero v s h small =
      write_loop_last mask 0 v s (ok v h) (omega arith) ∙ sym (write_all-single v s)
  write_loop-groups mask bound ok (suc k) v s h small = elim (Bool-cases (ltb v 128)) [
    | inl last ↦
        rw last
          (write_loop_last mask (suc k) v s (ok v h) (omega tests) ∙ sym (write_all-single v s))
    | inr more ↦ rw more (
        write_loop_more mask (suc k) v s (ok v h) (ground arith)
        ∙ ap (◌>>=◌ (write (v % 128 + 128) s)) (
            fun_ext (λ t.
              write_loop-groups mask bound ok k (v / 128) t (omega arith)
                (omega (arith, pow-suc 128 (suc k))))))
  ]

  -- The 32-bit writer hands the groups of its value to the callback, in order, and nothing else.
  pub core_write_vint-groups :
      (v : ℕ) (s : S) → v < 2 ^ 32 → core_write_vint write v s ≡ write_all (groups 4 v) s
  unfolding core_write_vint
  core_write_vint-groups v s h =
      write_loop-groups high_mask32 (2 ^ 32) high_mask32_lem 4 v s h (omega arith)

  -- So does the 64-bit writer.
  pub core_write_vlong-groups :
      (v : ℕ) (s : S) → v < 2 ^ 64 → core_write_vlong write v s ≡ write_all (groups 9 v) s
  unfolding core_write_vlong
  core_write_vlong-groups v s h =
      write_loop-groups high_mask64 (2 ^ 64) high_mask64_lem 9 v s h (omega arith)
