-- ===== src/Delta/RoundTrip.antt =====
-- The differences give the numbers back, with the flag for their direction.
use egg.Base.{
  ℕ, ◌+◌, ◌-◌, ◌*◌, ◌%◌, ◌^◌, ◌≤◌, ◌<◌, ◌≡◌, refl, List, All, [], ◌∷◌, ltb, if◌then◌else◌, arith,
}
use egg.Delta.{change_relavalue_32, change_relavalue_64, change_absovalue_32, change_absovalue_64}

abbrev pub Ascends : ℕ → List ℕ → Type 0
Ascends prev [] = Unit
Ascends prev (x ∷ xs) = (prev ≤ x) × Ascends x xs

abbrev pub Descends : ℕ → List ℕ → Type 0
Descends prev [] = Unit
Descends prev (x ∷ xs) = (x ≤ prev) × Descends x xs

up_32 :
    (org : ℕ) (xs : List ℕ)
    → Ascends org xs
    → All (λ x. x < 2 ^ 32) xs
    → change_absovalue_32 org (change_relavalue_32 org xs) 1 ≡ xs
unfolding change_absovalue_32 change_relavalue_32
up_32 org [] h w = refl
up_32 org (x ∷ xs) (le, h) (small, w) =
    let same : (org + (if ltb x org then org - x else x - org) * 1) % 2 ^ 32 ≡ x = ground arith in
    rw (same, up_32 x xs h w)

down_32 :
    (org : ℕ) (xs : List ℕ)
    → org < 2 ^ 32
    → Descends org xs
    → change_absovalue_32 org (change_relavalue_32 org xs) (2 ^ 32 - 1) ≡ xs
unfolding change_absovalue_32 change_relavalue_32
down_32 org [] small h = refl
down_32 org (x ∷ xs) small (le, h) =
    let same : (org + (if ltb x org then org - x else x - org) * (2 ^ 32 - 1)) % 2 ^ 32 ≡ x =
      ground arith in
    rw (same, down_32 x xs (omega arith) h)

up_64 :
    (org : ℕ) (xs : List ℕ)
    → Ascends org xs
    → All (λ x. x < 2 ^ 64) xs
    → change_absovalue_64 org (change_relavalue_64 org xs) 1 ≡ xs
unfolding change_absovalue_64 change_relavalue_64
up_64 org [] h w = refl
up_64 org (x ∷ xs) (le, h) (small, w) =
    let same : (org + (if ltb x org then org - x else x - org) * 1) % 2 ^ 64 ≡ x = ground arith in
    rw (same, up_64 x xs h w)

down_64 :
    (org : ℕ) (xs : List ℕ)
    → org < 2 ^ 64
    → Descends org xs
    → change_absovalue_64 org (change_relavalue_64 org xs) (2 ^ 64 - 1) ≡ xs
unfolding change_absovalue_64 change_relavalue_64
down_64 org [] small h = refl
down_64 org (x ∷ xs) small (le, h) =
    let same : (org + (if ltb x org then org - x else x - org) * (2 ^ 64 - 1)) % 2 ^ 64 ≡ x =
      ground arith in
    rw (same, down_64 x xs (omega arith) h)

-- Numbers of the type that ascend from `org` come back from their differences with flag 1, at 32 and
-- at 64 bits.
pub change_absovalue-ascending :
    (org : ℕ) (xs ys : List ℕ)
    → Ascends org xs
    → All (λ x. x < 2 ^ 32) xs
    → Ascends org ys
    → All (λ y. y < 2 ^ 64) ys
    → (change_absovalue_32 org (change_relavalue_32 org xs) 1 ≡ xs)
      × (change_absovalue_64 org (change_relavalue_64 org ys) 1 ≡ ys)
change_absovalue-ascending org xs ys h w k v = (up_32 org xs h w, up_64 org ys k v)

-- Numbers that descend from `org`, itself of the type, come back with flag -1.
pub change_absovalue-descending :
    (org32 org64 : ℕ) (xs ys : List ℕ)
    → org32 < 2 ^ 32
    → Descends org32 xs
    → org64 < 2 ^ 64
    → Descends org64 ys
    → (change_absovalue_32 org32 (change_relavalue_32 org32 xs) (2 ^ 32 - 1) ≡ xs)
      × (change_absovalue_64 org64 (change_relavalue_64 org64 ys) (2 ^ 64 - 1) ≡ ys)
change_absovalue-descending org32 org64 xs ys s h t k = (down_32 org32 xs s h, down_64 org64 ys t k)
