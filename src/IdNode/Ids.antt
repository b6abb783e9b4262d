-- ===== src/IdNode/Ids.antt =====
-- The ids that a list of nodes holds, as the joins of egg3/src/storage/eggIdNode.c compare them.
use egg.Base.{
  ℕ, ◌≤◌, ◌<◌, ◌≡◌, refl, ap, ◌∙◌, Bool, true, false, ◌||◌, List, [], ◌∷◌, ◌++◌, length, All,
  All-map, All-append, ◌==◌, if◌then◌else◌, arith, Bool-cases, inl, inr,
}
use egg.IdNode.{IdNode, equal_run, after_run}

abbrev pub has_id : ℕ → List IdNode → Bool
has_id id [] = false
has_id id (x ∷ xs) = (x.id == id) || has_id id xs

-- The nodes that pass a test, in their order.
abbrev pub keep : (IdNode → Bool) → List IdNode → List IdNode
keep test [] = []
keep test (x ∷ xs) = if test x then x ∷ keep test xs else keep test xs

-- No id is above one before it, and with each id once.
abbrev pub Descends : List IdNode → Type 0
Descends [] = Unit
Descends (x ∷ xs) = All (λ y. y.id ≤ x.id) xs × Descends xs

abbrev pub DescendsStrictly : List IdNode → Type 0
DescendsStrictly [] = Unit
DescendsStrictly (x ∷ xs) = All (λ y. y.id < x.id) xs × DescendsStrictly xs

pub has_id-below : (id : ℕ) (xs : List IdNode) → All (λ y. y.id < id) xs → has_id id xs ≡ false
has_id-below id [] h = refl
has_id-below id (x ∷ xs) (h, k) = ground (arith, has_id-below id xs k)

pub has_id-head : (id : ℕ) (x : IdNode) (xs : List IdNode) → x.id ≡ id → has_id id (x ∷ xs) ≡ true
has_id-head id x xs e = ground arith

pub has_id-other :
    (id : ℕ) (x : IdNode) (xs : List IdNode) → id < x.id → has_id id (x ∷ xs) ≡ has_id id xs
has_id-other id x xs h = ground arith

-- Nodes of another id do not matter.
pub has_id-run :
    (id i : ℕ) (run xs : List IdNode)
    → All (λ y. y.id ≡ id) run
    → i < id
    → has_id i (run ++ xs) ≡ has_id i xs
has_id-run id i [] xs h less = refl
has_id-run id i (x ∷ run) xs (e, h) less =
    has_id-other i x (run ++ xs) (omega (arith, e)) ∙ has_id-run id i run xs h less

pub keep-same :
    (p q : IdNode → Bool) (xs : List IdNode) → All (λ x. p x ≡ q x) xs → keep p xs ≡ keep q xs
keep-same p q [] h = refl
keep-same p q (x ∷ xs) (e, h) = rw (e, keep-same p q xs h) refl

pub keep-All : (p : IdNode → Bool) (xs : List IdNode) → All (λ x. p x ≡ true) xs → keep p xs ≡ xs
keep-All p [] h = refl
keep-All p (x ∷ xs) (e, h) = rw (e, keep-All p xs h) refl

pub keep-append :
    (p : IdNode → Bool) (xs ys : List IdNode) → keep p (xs ++ ys) ≡ keep p xs ++ keep p ys
keep-append p [] ys = refl
keep-append p (x ∷ xs) ys = elim (Bool-cases (p x)) [
  | inl h ↦ rw (h, keep-append p xs ys) refl
  | inr h ↦ rw h (keep-append p xs ys)
]

-- A run of one id and what stands behind it.
pub run-append : (id : ℕ) (xs : List IdNode) → equal_run id xs ++ after_run id xs ≡ xs
unfolding equal_run after_run
run-append id [] = refl
run-append id (x ∷ xs) = elim (Bool-cases (x.id == id)) [
  | inl h ↦ rw h (ap (◌∷◌ x) (run-append id xs))
  | inr h ↦ rw h refl
]

pub equal_run-ids : (id : ℕ) (xs : List IdNode) → All (λ y. y.id ≡ id) (equal_run id xs)
unfolding equal_run
equal_run-ids id [] = tt
equal_run-ids id (x ∷ xs) = elim (Bool-cases (x.id == id)) [
  | inl h ↦ rw h (ground arith, equal_run-ids id xs)
  | inr h ↦ rw h tt
]

pub length-after_run : (id : ℕ) (xs : List IdNode) → length (after_run id xs) ≤ length xs
unfolding after_run
length-after_run id [] = omega arith
length-after_run id (x ∷ xs) = elim (Bool-cases (x.id == id)) [
  | inl h ↦ rw h (omega (arith, length-after_run id xs))
  | inr h ↦ rw h (omega arith)
]

pub after_run-below :
    (id : ℕ) (xs : List IdNode)
    → All (λ y. y.id ≤ id) xs
    → Descends xs
    → All (λ y. y.id < id) (after_run id xs) × Descends (after_run id xs)
unfolding after_run
after_run-below id [] h d = (tt, tt)
after_run-below id (x ∷ xs) (h, hs) (d, ds) = elim (Bool-cases (x.id == id)) [
  | inl e ↦ rw e (after_run-below id xs hs ds)
  | inr e ↦
      let less : x.id < id = ground arith in
      rw e ((less, All-map (λ y le. omega (arith, less, le)) xs d), (d, ds))
]

pub Descends-run :
    (id : ℕ) (run xs : List IdNode)
    → All (λ y. y.id ≡ id) run
    → All (λ y. y.id ≤ id) xs
    → Descends xs
    → Descends (run ++ xs)
Descends-run id [] xs h below d = d
Descends-run id (x ∷ run) xs (e, h) below d = (
  All-append (λ y. y.id ≤ x.id) run xs (All-map (λ y k. omega (arith, k, e)) run h)
      (All-map (λ y k. omega (arith, k, e)) xs below),
  Descends-run id run xs h below d,
)
