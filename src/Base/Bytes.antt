-- ===== src/Base/Bytes.antt =====
-- Bytes in memory: little-endian words, reads of a count of bytes, strings that end with a 0.
use Prim.Native.Nat.{ℕ, zero, suc, ◌+◌, ◌*◌, ◌/◌, ◌%◌, ◌^◌, ◌<◌}
use mathlib.Core.Path.{◌≡◌, refl, ap, sym, ◌∙◌}
use mathlib.Core.Logic.{◌≢◌}
use mathlib.Core.Option.{Option, none, some}
use mathlib.Core.List.{List, [], ◌∷◌, ◌++◌}
use native.Mathlib.Omega.{arith}
use egg.Base.Tests.{leb, leb-true, ◌==◌, if◌then◌else◌, ◌>>=◌}
use egg.Base.Lists.{length, take, drop, take-append, length-append, All}

-- The value of bytes, least significant first, and the bytes of a word.
unfoldable pub le_value : List ℕ → ℕ
le_value [] = 0
le_value (b ∷ bs) = b + 256 * le_value bs

unfoldable pub le_bytes : ℕ → ℕ → List ℕ
le_bytes zero w = []
le_bytes (suc n) w = w % 256 ∷ le_bytes n (w / 256)

-- `n` bytes from the start; `none` is a read behind the end.
unfoldable pub read_bytes : ℕ → List ℕ → Option (List ℕ)
read_bytes n bytes = if leb n (length bytes) then some (take n bytes) else none

-- `*(size32_t *)buf`
unfoldable pub read_u32 : List ℕ → Option ℕ
unfolding read_bytes le_value
read_u32 bytes = do word ← read_bytes 4 bytes; some (le_value word)

-- The string up to the first 0; `none` is memory without one.
unfoldable pub c_string : List ℕ → Option (List ℕ)
c_string [] = none
c_string (b ∷ bytes) =
    let rest = (do chars ← c_string bytes; some (b ∷ chars)) in if b == 0 then some [] else rest

pub length-le_bytes : (n w : ℕ) → length (le_bytes n w) ≡ n
unfolding le_bytes
length-le_bytes zero w = refl
length-le_bytes (suc n) w = ap suc (length-le_bytes n (w / 256))

pub le_value-le_bytes_2 : (w : ℕ) → w < 2 ^ 16 → le_value (le_bytes 2 w) ≡ w
unfolding le_value le_bytes
le_value-le_bytes_2 w h = omega arith

pub le_value-le_bytes_4 : (w : ℕ) → w < 2 ^ 32 → le_value (le_bytes 4 w) ≡ w
unfolding le_value le_bytes
le_value-le_bytes_4 w h = omega arith

pub le_value-le_bytes_8 : (w : ℕ) → w < 2 ^ 64 → le_value (le_bytes 8 w) ≡ w
unfolding le_value le_bytes
le_value-le_bytes_8 w h = omega arith

pub read_bytes-append : (n : ℕ) (xs ys : List ℕ) → n ≡ length xs → read_bytes n (xs ++ ys) ≡ some xs
unfolding read_bytes
read_bytes-append n xs ys e =
    rw (leb-true {a = n} {b = length (xs ++ ys)} (omega (arith, length-append xs ys, e)))
      (ap some (take-append xs ys n e))

pub read_u32-append : (w : ℕ) (ys : List ℕ) → w < 2 ^ 32 → read_u32 (le_bytes 4 w ++ ys) ≡ some w
unfolding read_u32
read_u32-append w ys h =
    rw (read_bytes-append 4 (le_bytes 4 w) ys (sym (length-le_bytes 4 w)))
      (ap some (le_value-le_bytes_4 w h))

pub c_string-append :
    (chars ys : List ℕ) → All (λ c. c ≢ 0) chars → c_string (chars ++ (0 ∷ ys)) ≡ some chars
unfolding c_string
c_string-append [] ys h = refl
c_string-append (c ∷ chars) ys (h, hs) = rw (c_string-append chars ys hs) (ground arith)

-- A block that `memset` has cleared.
abbrev pub zeros : ℕ → List ℕ
zeros zero = []
zeros (suc n) = 0 ∷ zeros n

pub zeros_size : (n : ℕ) → length (zeros n) ≡ n
zeros_size zero = refl
zeros_size (suc n) = ap suc (zeros_size n)

pub zeros-split : (m n : ℕ) → zeros m ++ zeros n ≡ zeros (m + n)
zeros-split zero n = ap zeros {x = n} {y = 0 + n} (omega arith)
zeros-split (suc m) n =
    ap (◌∷◌ 0) (zeros-split m n) ∙ ap zeros {x = suc (m + n)} {y = suc m + n} (omega arith)

-- Behind a string and its end.
pub drop_past : (xs : List ℕ) (y : ℕ) (ys : List ℕ) → drop (length xs + 1) (xs ++ (y ∷ ys)) ≡ ys
drop_past [] y ys = refl
drop_past (x ∷ xs) y ys =
    ap (λ k. drop k ((x ∷ xs) ++ (y ∷ ys))) {x = suc (length xs) + 1} {y = suc (length xs + 1)}
      (omega arith)
    ∙ drop_past xs y ys
