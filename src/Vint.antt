-- ===== src/Vint.antt =====
-- egg3/src/uti/VariantInteger.c: integers as bytes of seven bits, lowest group first, with the top
-- bit set on every byte but the last. A byte (`i8`) is its bit pattern, a number below 256.
-- The two callbacks and their `user_data` are a state `S` with a reader and a writer; `none` is a
-- fault of the callback, such as an access outside its buffer.
pub mod Groups
pub mod Read
pub mod SignBit
use egg.Base.{
  ◌>>=◌, ℕ, zero, suc, ◌+◌, ◌-◌, ◌*◌, ◌/◌, ◌%◌, ◌^◌, Bool, Option, none, some, bit_and, bit_or, ltb,
  ◌==◌, if◌then◌else◌,
}

-- `~0x7F`, an `int`, as the unsigned operand of 32 and of 64 bits that it is converted to.
abbrev pub high_mask32 : ℕ
high_mask32 = 2 ^ 32 - 128

abbrev pub high_mask64 : ℕ
high_mask64 = 2 ^ 64 - 128

module _ {S : Type 0} (write : ℕ → S → Option S) where
  -- `while ((v & ~0x7F) != 0) { ...; v >>= 7; }` and the last byte. `none` also if the fuel runs out.
  pub write_loop : ℕ → ℕ → ℕ → S → Option S
  write_loop mask zero v s = none
  write_loop mask (suc fuel) v s =
      let more = (do
        s' ← write (bit_or (bit_and v 0x7f) 0x80 % 256) s
        write_loop mask fuel (v / 128) s') in
      if bit_and v mask == 0 then write (v % 256) s else more

  -- A 32-bit value has at most 5 groups of seven bits, a 64-bit value at most 10.
  unfoldable pub core_write_vint : ℕ → S → Option S
  unfolding write_loop
  core_write_vint v s = write_loop high_mask32 5 v s

  unfoldable pub core_write_vlong : ℕ → S → Option S
  unfolding write_loop
  core_write_vlong v s = write_loop high_mask64 10 v s

-- `(u & 0x7F) << shift` is a shift of an `int`: its 32-bit pattern. A shift by 32 or more is undefined.
pub shl_int : ℕ → ℕ → Option ℕ
shl_int g shift = if ltb shift 32 then some (g * 2 ^ shift % 2 ^ 32) else none

-- The conversion of an `int` to `size64_t` repeats its sign bit.
pub sign_extend : ℕ → ℕ
sign_extend w = if ltb w (2 ^ 31) then w else w + (2 ^ 64 - 2 ^ 32)

module _ {S : Type 0} (read : S → Option (ℕ × S)) where
  -- `for (shift = 7; (u & 0x80) != 0; shift += 7) { u = read(); v |= ...; }`
  pub read_loop : (ℕ → ℕ) → ℕ → ℕ → ℕ → ℕ → S → Option (ℕ × S)
  unfolding shl_int
  read_loop widen zero u v shift s = none
  read_loop widen (suc fuel) u v shift s =
      let more = (do
        (u', s') ← read s
        part ← shl_int (bit_and u' 0x7f) shift
        read_loop widen fuel u' (bit_or v (widen part)) (shift + 7) s') in
      if bit_and u 0x80 == 0 then some (v, s) else more

  -- The rounds go by the shifts 7, 14, 21, 28 and 35, and the last of these faults if it shifts:
  -- 5 rounds are all that can be run.
  unfoldable pub core_read_vint : S → Option (ℕ × S)
  unfolding read_loop
  core_read_vint s = do (u, s') ← read s; read_loop (λ w. w) 5 u (bit_and u 0x7f) 7 s'

  unfoldable pub core_read_vlong : S → Option (ℕ × S)
  unfolding read_loop sign_extend
  core_read_vlong s = do (u, s') ← read s; read_loop sign_extend 5 u (bit_and u 0x7f) 7 s'
