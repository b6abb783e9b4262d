-- ===== src/Vint/Read.antt =====
-- What the two readers return on the groups of a value.
use egg.Base.{
  ◌>>=◌, ℕ, zero, suc, ◌+◌, ◌*◌, ◌/◌, ◌%◌, ◌^◌, ◌≤◌, ◌<◌, ◌≡◌, refl, ap, ◌∙◌, Bool, true, false,
  Option, some, List, [], ◌∷◌, bit_and, bit_or, ltb, ◌==◌, if◌then◌else◌, arith, tests, inl, inr,
  Bool-cases, lt→ltb,
}
use egg.Base.Bits.{bit_and_seven_ones, bit_or_disjoint}
use native.Mathlib.Nat.{pow-suc, mod-eq_of_lt, div-add-mod}
use native.Mathlib.Numerals.{towards_suc}
use egg.Vint.{shl_int, sign_extend, read_loop, core_read_vint, core_read_vlong}
use egg.Vint.Groups.{groups}

-- `u & 0x80` tells whether a byte has its top bit set: the test of all bytes, by evaluation.
holds_to : (ℕ → Bool) → ℕ → Bool
holds_to test zero = test 0
holds_to test (suc top) = if test (suc top) then holds_to test top else false

holds_to-at : (test : ℕ → Bool) (top u : ℕ) → u ≤ top → holds_to test top ≡ true → test u ≡ true
unfolding holds_to
holds_to-at test zero zero le h = h
holds_to-at test zero (suc u) le h = absurd (omega arith)
holds_to-at test (suc top) u le h = ground (arith, holds_to-at test top u)

abbrev top_bit_test : ℕ → Bool
top_bit_test u = bit_and u 0x80 == u / 128 * 128

all_bytes : holds_to top_bit_test 255 ≡ true
unfolding holds_to
all_bytes = refl

top_bit : (u : ℕ) → u < 256 → bit_and u 0x80 ≡ u / 128 * 128
top_bit u h = ground (arith, holds_to-at top_bit_test 255 u (omega arith) all_bytes)

group_part : (g p : ℕ) → g < 128 → g * p ≤ 127 * p
group_part g p h = grind arith

-- One group further up, a bit counts 128 times as much.
next_group : (shift : ℕ) → 128 * 2 ^ shift ≡ 2 ^ (shift + 7)
next_group shift = simp towards_suc (omega arith)

-- A value in place from `shift` on is its lowest group and the rest, each in its place.
groups_apart : (v shift : ℕ) → v / 128 * 2 ^ (shift + 7) + v % 128 * 2 ^ shift ≡ v * 2 ^ shift
groups_apart v shift =
    let rest = ap (λ (place : ℕ). v / 128 * place) (next_group shift) in
    let whole = ap (λ (all : ℕ). all * 2 ^ shift) (div-add-mod v 128) in omega (arith, rest, whole)

module _ {S : Type 0} (read : S → Option (ℕ × S)) where
  -- The callback yields these bytes in turn, and ends in the given state.
  abbrev pub Reads : S → List ℕ → S → Type 0
  Reads s [] t = s ≡ t
  Reads s (b ∷ bs) t = (s' : S) × (read s ≡ some (b, s')) × Reads s' bs t

  module _ (widen : ℕ → ℕ) where
    pub read_loop_last :
        (fuel u v shift : ℕ) (s : S)
        → u < 128
        → read_loop read widen (suc fuel) u v shift s ≡ some (v, s)
    unfolding read_loop
    read_loop_last fuel u v shift s h = ground (arith, top_bit u)

    pub read_loop_more :
        (fuel u v shift b : ℕ) (s s' : S)
        → 128 ≤ u
        → u < 256
        → read s ≡ some (b, s')
        → shift < 32
        → read_loop read widen (suc fuel) u v shift s
          ≡ read_loop read widen fuel b
              (bit_or v (widen (b % 128 * 2 ^ shift % 2 ^ 32)))
              (shift + 7)
              s'
    unfolding read_loop shl_int
    read_loop_more fuel u v shift b s s' lo hi e h =
        let more : (bit_and u 0x80 == 0) ≡ false = ground (arith, top_bit u) in
        rw (more, e, bit_and_seven_ones b, lt→ltb shift 32 h)

  module _ (widen : ℕ → ℕ) (bound : ℕ) (word : bound ≤ 2 ^ 32)
      (widen_ok : (x : ℕ) → x < bound → widen x ≡ x) where
    -- `v |= (u & 0x7F) << shift` adds the group, whose place in `v` is still free.
    join_group :
        (v g shift : ℕ)
        → v < 2 ^ shift
        → g * 2 ^ shift < bound
        → bit_or v (widen (g * 2 ^ shift % 2 ^ 32)) ≡ v + g * 2 ^ shift
    join_group v g shift free fits =
        rw (mod-eq_of_lt {n = g * 2 ^ shift} {m = 2 ^ 32} (omega arith), widen_ok _ fits)
          (bit_or_disjoint shift v g free)

    -- `w` is what is still to be read, and it counts from bit `shift` on.
    read_last :
        (fuel w u v shift : ℕ) (s s' : S)
        → 128 ≤ u
        → u < 256
        → v < 2 ^ shift
        → shift < 32
        → w < 128
        → v + w * 2 ^ shift < bound
        → read s ≡ some (w, s')
        → read_loop read widen (suc (suc fuel)) u v shift s ≡ some (v + w * 2 ^ shift, s')
    read_last fuel w u v shift s s' lo hi free small hw fits e =
        read_loop_more widen (suc fuel) u v shift w s s' lo hi e small
        ∙ rw (mod-eq_of_lt {n = w} {m = 128} hw, join_group v w shift free (omega arith))
            (read_loop_last widen fuel w (v + w * 2 ^ shift) (shift + 7) s' hw)

    pub read_inner :
        (fuel w u v shift : ℕ) (s s' : S)
        → 128 ≤ u
        → u < 256
        → v < 2 ^ shift
        → shift < 32
        → w % 128 * 2 ^ shift < bound
        → read s ≡ some (w % 128 + 128, s')
        → read_loop read widen (suc fuel) u v shift s
          ≡ read_loop read widen fuel (w % 128 + 128) (v + w % 128 * 2 ^ shift) (shift + 7) s'
    read_inner fuel w u v shift s s' lo hi free small fits e =
        let low : (w % 128 + 128) % 128 ≡ w % 128 = omega arith in
        read_loop_more widen fuel u v shift (w % 128 + 128) s s' lo hi e small
        ∙ rw (low, join_group v (w % 128) shift free fits)

    read_loop-groups :
        (k w u v shift : ℕ) (s t : S)
        → 128 ≤ u
        → u < 256
        → v < 2 ^ shift
        → shift + 7 * k ≤ 28
        → w < 128 ^ suc k
        → v + w * 2 ^ shift < bound
        → Reads s (groups k w) t
        → read_loop read widen (suc (suc k)) u v shift s ≡ some (v + w * 2 ^ shift, t)
    unfolding groups
    read_loop-groups zero w u v shift s t lo hi free room hw fits (s', e, done) =
        rw (← done) (read_last zero w u v shift s s' lo hi free (omega arith) (omega arith) fits e)
    read_loop-groups (suc k) w u v shift s t lo hi free room hw fits r =
        elim (Bool-cases (ltb w 128)) [
          | inl last ↦
              let r' : Reads s (w ∷ []) t = rw last at r in
              rw (← r'.2) (
                read_last (suc k) w u v shift s r'.0 lo hi free (omega arith) (omega tests) fits
                  r'.1)
          | inr more ↦
              let r' : Reads s ((w % 128 + 128) ∷ groups k (w / 128)) t = rw more at r in
              let v' = v + w % 128 * 2 ^ shift in
              let eq : v' + w / 128 * 2 ^ (shift + 7) ≡ v + w * 2 ^ shift =
                omega (arith, groups_apart w shift) in
              read_inner (suc (suc k)) w u v shift s r'.0 lo hi free (omega arith)
                (omega (arith, groups_apart w shift)) r'.1
              ∙ read_loop-groups k (w / 128) (w % 128 + 128) v' (shift + 7) r'.0 t (omega arith)
                  (omega arith)
                  (omega (arith, next_group shift, group_part (w % 128) (2 ^ shift) (omega arith)))
                  (omega arith) (omega (arith, pow-suc 128 (suc k))) (omega arith) r'.2
              ∙ ap (λ n. some (n, t)) eq
        ]

    -- The first byte and the loop, as both readers make them.
    read_first : S → Option (ℕ × S)
    read_first s = read s >>= λ (u, s'). read_loop read widen 5 u (bit_and u 0x7f) 7 s'

    read_first-groups :
        (v : ℕ) (s t : S) → v < bound → Reads s (groups 4 v) t → read_first s ≡ some (v, t)
    unfolding read_first groups
    read_first-groups v s t h r = elim (Bool-cases (ltb v 128)) [
      | inl last ↦
          let r' : Reads s (v ∷ []) t = rw last at r in
          let small : v % 128 ≡ v = omega tests in
          rw (r'.1, ← r'.2, bit_and_seven_ones v, small)
            (read_loop_last widen 4 v v 7 r'.0 (omega tests))
      | inr more ↦
          let r' : Reads s ((v % 128 + 128) ∷ groups 3 (v / 128)) t = rw more at r in
          let low : (v % 128 + 128) % 128 ≡ v % 128 = omega arith in
          rw (r'.1, bit_and_seven_ones (v % 128 + 128), low)
            (read_loop-groups 3 (v / 128) (v % 128 + 128) (v % 128) 7 r'.0 t (omega arith)
                (omega arith) (omega arith) (omega arith) (omega arith) (omega arith) r'.2
              ∙ ap (λ n. some (n, t)) (omega arith))
    ]

  -- On the groups of a 32-bit value the 32-bit reader returns the value, and reads no further.
  pub core_read_vint-groups :
      (v : ℕ) (s t : S) → v < 2 ^ 32 → Reads s (groups 4 v) t → core_read_vint read s ≡ some (v, t)
  unfolding core_read_vint read_first
  core_read_vint-groups v s t h r =
      read_first-groups (λ w. w) (2 ^ 32) (omega arith) (λ x h. refl) v s t h r

  sign_extend_small : (x : ℕ) → x < 2 ^ 31 → sign_extend x ≡ x
  unfolding sign_extend
  sign_extend_small x h = ground arith

  -- Below 2 ^ 31 the 64-bit reader does so too.
  pub core_read_vlong-groups :
      (v : ℕ) (s t : S) → v < 2 ^ 31 → Reads s (groups 4 v) t → core_read_vlong read s ≡ some (v, t)
  unfolding core_read_vlong read_first
  core_read_vlong-groups v s t h r =
      read_first-groups sign_extend (2 ^ 31) (omega arith) sign_extend_small v s t h r
