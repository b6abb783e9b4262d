-- ===== src/IdNode/Members.antt =====
-- Which ids the lists hold that the sorts, joins and filters of id nodes make of one another.
use egg.Base.{
  ℕ, suc, ◌≤◌, ◌≡◌, refl, ap, ◌∙◌, Bool, ◌&&◌, ◌||◌, List, [], ◌∷◌, ◌++◌, length, All, arith,
  Bool-cases, inl, inr, ◌^◌, some, leb-true,
}
use mathlib.Core.Logic.{∥∥₁_elim}
use mathlib.Core.Bool.{Bool-set}
use mathlib.Core.List.{Perm, Permᴰ}
use native.Mathlib.Nat.{ℕ_set}
use egg.Compare.{is_neg, is_pos}
use egg.Repeat.Changes.{changes}
use egg.IdNode.{IdNode, cmp_id, pushed}
use egg.IdNode.Ids.{has_id, keep, Descends}

permuted-length : {A : Type 0} {xs ys : List A} → Permᴰ xs ys → length xs ≡ length ys
permuted-length Permᴰ.nil = refl
permuted-length (Permᴰ.cons e p) = ap suc (permuted-length p)
permuted-length (Permᴰ.swap e f) = refl
permuted-length (Permᴰ.trans p q) = permuted-length p ∙ permuted-length q

pub perm-length : {A : Type 0} {xs ys : List A} → Perm xs ys → length xs ≡ length ys
perm-length p = ∥∥₁_elim p (ℕ_set _ _) (λ d. permuted-length d)

permuted-has_id : (id : ℕ) {xs ys : List IdNode} → Permᴰ xs ys → has_id id xs ≡ has_id id ys
permuted-has_id id Permᴰ.nil = refl
permuted-has_id id (Permᴰ.cons {a} {b} e p) = rw (e, permuted-has_id id p) refl
permuted-has_id id (Permᴰ.swap {a} {b} {a'} {b'} {l} e f) = rw (e, f) (ground arith)
permuted-has_id id (Permᴰ.trans p q) = permuted-has_id id p ∙ permuted-has_id id q

pub perm-has_id : (id : ℕ) {xs ys : List IdNode} → Perm xs ys → has_id id xs ≡ has_id id ys
perm-has_id id p = ∥∥₁_elim p (Bool-set _ _) (λ d. permuted-has_id id d)

pub has_id-append :
    (id : ℕ) (xs ys : List IdNode) → has_id id (xs ++ ys) ≡ (has_id id xs || has_id id ys)
has_id-append id [] ys = refl
has_id-append id (x ∷ xs) ys = ground (arith, has_id-append id xs ys)

-- The nodes whose id stands in another list hold the ids of both.
pub has_id-keep :
    (id : ℕ) (xs ys : List IdNode)
    → has_id id (keep (λ x. has_id x.id ys) xs) ≡ (has_id id xs && has_id id ys)
has_id-keep id [] ys = refl
has_id-keep id (x ∷ xs) ys =
    let same : x.id ≡ id → has_id x.id ys ≡ has_id id ys = λ e. ap (λ i. has_id i ys) e in
    elim (Bool-cases (has_id x.id ys)) [
      | inl h ↦ rw h (ground (arith, has_id-keep id xs ys, same, h))
      | inr h ↦ rw h (ground (arith, has_id-keep id xs ys, same, h))
    ]

pub length-keep : (p : IdNode → Bool) (xs : List IdNode) → length (keep p xs) ≤ length xs
length-keep p [] = omega arith
length-keep p (x ∷ xs) = ground (arith, length-keep p xs)

-- What `Uti_filter_repeat` leaves out has the id of the node before it.
pub has_id-changes :
    (id : ℕ) (x : IdNode) (xs : List IdNode)
    → has_id id (x ∷ changes cmp_id x xs) ≡ has_id id (x ∷ xs)
unfolding cmp_id
has_id-changes id x [] = refl
has_id-changes id x (y ∷ xs) = ground (arith, has_id-changes id y xs)

pub length-changes : (x : IdNode) (xs : List IdNode) → length (changes cmp_id x xs) ≤ length xs
length-changes x [] = omega arith
length-changes x (y ∷ xs) = ground (arith, length-changes y xs)

changes-below :
    (b : ℕ) (x : IdNode) (xs : List IdNode)
    → All (λ y. y.id ≤ b) xs
    → All (λ y. y.id ≤ b) (changes cmp_id x xs)
changes-below b x [] h = tt
changes-below b x (y ∷ xs) (h, k) = elim (Bool-cases (is_pos (cmp_id y x) || is_neg (cmp_id y x))) [
  | inl e ↦ rw e (h, changes-below b y xs k)
  | inr e ↦ rw e (changes-below b y xs k)
]

pub Descends-changes :
    (x : IdNode) (xs : List IdNode) → Descends (x ∷ xs) → Descends (x ∷ changes cmp_id x xs)
Descends-changes x [] d = d
Descends-changes x (y ∷ xs) ((h, hs), (k, ks)) =
    let below = changes-below x.id y xs hs in
    let rest = Descends-changes y xs (k, ks) in
    elim (Bool-cases (is_pos (cmp_id y x) || is_neg (cmp_id y x))) [
      | inl e ↦ rw e ((h, below), rest)
      | inr e ↦ rw e (below, rest.1)
    ]

-- A result that is not too long for its vector.
pub pushed-few : (nodes : List IdNode) → length nodes ≤ 2 ^ 26 → pushed nodes ≡ some nodes
unfolding pushed
pushed-few nodes few = rw (leb-true {a = length nodes} {b = 2 ^ 26} few) refl
