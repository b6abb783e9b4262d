-- ===== src/VintData/RoundTrip.antt =====
-- Arrays through the buffer and back, and the arrays that the buffer has no room for.
use egg.Base.{
  ◌>>=◌, ℕ, ◌*◌, ◌%◌, ◌^◌, ◌≤◌, ◌<◌, ◌≡◌, refl, ap, none, some, List, [], ◌∷◌, map, length, drop,
  arith, length-append, All, fun_ext, All-map, length-map, leb-true,
}
use egg.Vint.{core_write_vint}
use egg.Vint.Groups.{groups, lt-length-groups, length-groups-le}
use egg.VintData.{vint_write, itov_loop, itov_loop_64, itov_32, itov_64, vtoi_32, vtoi_64}
use egg.VintData.Stream.{
  encoded, itov_loop-between, itov_loop-none, vtoi_loop-between, length-le-encoded,
  length-encoded-le,
}

encoded_small : (xs : List ℕ) → All (λ x. x < 2 ^ 28) xs → length (encoded xs) ≤ 4 * length xs
unfolding encoded
encoded_small [] h = omega arith
encoded_small (x ∷ xs) (hx, hxs) = omega (
  arith,
  length-append (groups 4 x) (encoded xs),
  length-groups-le 3 4 x (omega arith) hx,
  encoded_small xs hxs,
)

encoded_large : (xs : List ℕ) → All (λ x. 2 ^ 28 ≤ x) xs → length xs * 5 ≤ length (encoded xs)
unfolding encoded
encoded_large [] h = omega arith
encoded_large (x ∷ xs) (hx, hxs) = omega (
  arith,
  length-append (groups 4 x) (encoded xs),
  lt-length-groups 4 4 x (omega arith) (omega arith),
  encoded_large xs hxs,
)

words : (xs : List ℕ) → All (λ x. x < 2 ^ 32) (map (λ x. x % 2 ^ 32) xs)
words [] = tt
words (x ∷ xs) = (omega arith, words xs)

module _ (alloc : ℕ → List ℕ) (alloc_size : (n : ℕ) → length (alloc n) ≡ n) where
  -- Where the bytes fit the block, the array comes back.
  vtoi_32-fits :
      (xs : List ℕ)
      → All (λ x. x < 2 ^ 32) xs
      → length (encoded xs) ≤ 4 * length xs
      → length xs ≤ 2 ^ 29
      → (itov_32 alloc xs >>= vtoi_32) ≡ some xs
  unfolding itov_32 vtoi_32
  vtoi_32-fits xs h room few =
      rw
        (
          leb-true {a = length xs} {b = 2 ^ 29} few,
          itov_loop-between xs [] (alloc (4 * length xs)) h
              (omega (arith, alloc_size (4 * length xs))),
        )
        (vtoi_loop-between xs [] (drop (length (encoded xs)) (alloc (4 * length xs))) []
          (length (encoded xs)) (length (encoded xs)) 4 h (length-le-encoded xs) refl (omega arith)
          (omega arith) (omega (arith, few)))

  -- An array of at most 2 ^ 29 values below 2 ^ 28 goes into the buffer that `Uti_itov_32` allocates, and
  -- `Uti_vtoi_32` gives it back.
  pub vtoi_32-itov_32 :
      (xs : List ℕ)
      → All (λ x. x < 2 ^ 28) xs
      → length xs ≤ 2 ^ 29
      → (itov_32 alloc xs >>= vtoi_32) ≡ some xs
  vtoi_32-itov_32 xs h few =
      vtoi_32-fits xs (All-map (λ x p. omega arith) xs h) (encoded_small xs h) few

  -- `Uti_itov_32` writes behind its block on every array, not empty and of at most 2 ^ 29 values, of 32-bit
  -- values from 2 ^ 28 on.
  pub itov_32-overruns :
      (xs : List ℕ)
      → 0 < length xs
      → length xs ≤ 2 ^ 29
      → All (λ x. (2 ^ 28 ≤ x) × (x < 2 ^ 32)) xs
      → itov_32 alloc xs ≡ none
  unfolding itov_32
  itov_32-overruns xs n few h = rw (leb-true {a = length xs} {b = 2 ^ 29} few) (
      itov_loop-none xs [] (alloc (4 * length xs)) (All-map (λ x p. p.1) xs h)
        (omega (arith, alloc_size (4 * length xs), encoded_large xs (All-map (λ x p. p.0) xs h))))

  itov_loop_64-map : (xs : List ℕ) → itov_loop_64 xs ≡ itov_loop (map (λ x. x % 2 ^ 32) xs)
  unfolding itov_loop itov_loop_64
  itov_loop_64-map [] = refl
  itov_loop_64-map (x ∷ xs) =
      fun_ext (λ d. ap (◌>>=◌ (core_write_vint vint_write (x % 2 ^ 32) d)) (itov_loop_64-map xs))

  -- On an array of at most 2 ^ 29 values the 64-bit pair does not overrun its block, and gives the array
  -- back with every value cut to 32 bits.
  pub vtoi_64-itov_64 :
      (xs : List ℕ)
      → length xs ≤ 2 ^ 29
      → (itov_64 alloc xs >>= vtoi_64) ≡ some (map (λ x. x % 2 ^ 32) xs)
  unfolding itov_64 vtoi_64
  vtoi_64-itov_64 xs few =
      let ys = map (λ x. x % 2 ^ 32) xs in
      rw
        (
          leb-true {a = length xs} {b = 2 ^ 29} few,
          itov_loop_64-map xs,
          itov_loop-between ys [] (alloc (8 * length xs)) (words xs) (
              omega (
                arith,
                alloc_size (8 * length xs),
                length-encoded-le ys,
                length-map xs (λ x. x % 2 ^ 32),
              )),
        )
        (vtoi_loop-between ys [] (drop (length (encoded ys)) (alloc (8 * length xs))) []
          (length (encoded ys)) (length (encoded ys)) 4 (words xs) (length-le-encoded ys) refl
          (omega arith) (omega arith) (omega (arith, few, length-map xs (λ x. x % 2 ^ 32))))
