-- ===== src/FieldKey/Matching.antt =====
-- `eggFieldKey_equal` compares lists as sets of nodes of the same count.
use egg.Base.{
  ℕ, ◌≡◌, ◌↔◌, refl, ap, sym, ◌∙◌, Bool, true, false, ◌&&◌, List, [], ◌∷◌, some, length, take,
  take-all, All, ◌==◌, if◌then◌else◌, arith, Bool-cases, inl, inr,
}
use mathlib.Core.Bool.{Bool-set, false≢true}
use mathlib.Core.Logic.{∥∥₁_elim, ∥∥₁_prop}
use mathlib.Core.List.{Mem, mem-cons_self, mem-cons_of_mem, eq-or-mem_of_mem-cons, not-mem-nil}
use egg.FieldKey.{FieldKey, dup_node, dup, bytes_eq, same_key, find_same, all_found, equal}
use egg.FieldKey.Stream.{IsNode, read_bytes-all}

and_split : (a b : Bool) → (a && b) ≡ true → (a ≡ true) × (b ≡ true)
and_split a b h = ground arith

pub bytes_eq-true : (xs ys : List ℕ) → bytes_eq xs ys ≡ true → xs ≡ ys
unfolding bytes_eq
bytes_eq-true [] [] h = refl
bytes_eq-true [] (y ∷ ys) h = ground arith
bytes_eq-true (x ∷ xs) [] h = ground arith
bytes_eq-true (x ∷ xs) (y ∷ ys) h =
    let e = and_split (x == y) (bytes_eq xs ys) h in
    let first : x ≡ y = ground arith in rw (first, bytes_eq-true xs ys (e.1)) refl

pub bytes_eq_refl : (xs : List ℕ) → bytes_eq xs xs ≡ true
unfolding bytes_eq
bytes_eq_refl [] = refl
bytes_eq_refl (x ∷ xs) = rw (bytes_eq_refl xs) (ground arith)

make : List ℕ → ℕ → List ℕ → FieldKey
make field_name key_sz key = record { field_name = field_name; key_sz = key_sz; key = key }

fields_eq :
    (p q : FieldKey) → p.field_name ≡ q.field_name → p.key_sz ≡ q.key_sz → p.key ≡ q.key → p ≡ q
unfolding make
fields_eq p q names sizes keys =
    ap (λ n. make n p.key_sz p.key) {x = p.field_name} {y = q.field_name} names
    ∙ ap (λ n. make q.field_name n p.key) {x = p.key_sz} {y = q.key_sz} sizes
    ∙ ap (make q.field_name q.key_sz) {x = p.key} {y = q.key} keys

-- Of nodes as they are made, those are the same that agree in all fields.
same_key-true : (p q : FieldKey) → IsNode p → IsNode q → same_key p q ≡ true → p ≡ q
unfolding same_key
same_key-true p q vp vq h =
    let names =
      and_split (bytes_eq q.field_name p.field_name)
        ((q.key_sz == p.key_sz) && bytes_eq (take q.key_sz q.key) (take q.key_sz p.key)) h in
    let keys =
      and_split (q.key_sz == p.key_sz) (bytes_eq (take q.key_sz q.key) (take q.key_sz p.key))
        (names.1) in
    let sizes : q.key_sz ≡ p.key_sz = ground arith in
    fields_eq p q (sym (bytes_eq-true q.field_name p.field_name (names.0))) (sym sizes) (
      sym (take-all q.key_sz p.key (omega (arith, vp.block, sizes)))
      ∙ sym (bytes_eq-true (take q.key_sz q.key) (take q.key_sz p.key) (keys.1))
      ∙ take-all q.key_sz q.key (omega (arith, vq.block)))

same_key_refl : (p : FieldKey) → same_key p p ≡ true
unfolding same_key
same_key_refl p =
    rw (bytes_eq_refl p.field_name, bytes_eq_refl (take p.key_sz p.key)) (ground arith)

find_same-Mem :
    (p : FieldKey) (qs : List FieldKey)
    → IsNode p
    → All IsNode qs
    → find_same p qs ≡ true
    → Mem p qs
unfolding find_same
find_same-Mem p [] vp h e = ground arith
find_same-Mem p (q ∷ qs) vp (vq, vqs) e = elim (Bool-cases (same_key p q)) [
  | inl same ↦ rw (same_key-true p q vp vq same) mem-cons_self
  | inr other ↦ mem-cons_of_mem q (find_same-Mem p qs vp vqs (rw other at e))
]

if_true : (b : Bool) → (if b then true else true) ≡ true
if_true true = refl
if_true false = refl

dup_lem : (nodes : List FieldKey) → All IsNode nodes → dup nodes ≡ some nodes
unfolding dup dup_node
dup_lem [] h = refl
dup_lem (node ∷ nodes) (v, vs) =
    rw (read_bytes-all node.key_sz node.key v.block, dup_lem nodes vs) refl

Mem-find_same : (p : FieldKey) (qs : List FieldKey) → Mem p qs → find_same p qs ≡ true
unfolding find_same
Mem-find_same p [] m = absurd (not-mem-nil m)
Mem-find_same p (q ∷ qs) m =
    ∥∥₁_elim (eq-or-mem_of_mem-cons m) (Bool-set (find_same p (q ∷ qs)) true) (λ d. elim d [
      | inl e ↦ rw (← e, same_key_refl p) refl
      | inr m' ↦ rw (Mem-find_same p qs m') (if_true (same_key p q))
    ])

all_found-Mem :
    (ps qs : List FieldKey)
    → All IsNode ps
    → All IsNode qs
    → all_found ps qs ≡ true
    → (p : FieldKey) → Mem p ps
    → Mem p qs
unfolding all_found
all_found-Mem [] qs hp hq e p m = absurd (not-mem-nil m)
all_found-Mem (x ∷ ps) qs (v, vs) hq e p m = elim (Bool-cases (find_same x qs)) [
  | inl found ↦ ∥∥₁_elim (eq-or-mem_of_mem-cons m) ∥∥₁_prop (λ d. elim d [
    | inl same ↦ rw same (find_same-Mem x qs v hq found)
    | inr m' ↦ all_found-Mem ps qs vs hq (rw found at e) p m'
  ])
  | inr missing ↦ absurd (false≢true (rw missing at e))
]

Mem-all_found :
    (ps qs : List FieldKey) → ((p : FieldKey) → Mem p ps → Mem p qs) → all_found ps qs ≡ true
unfolding all_found
Mem-all_found [] qs h = refl
Mem-all_found (x ∷ ps) qs h =
    rw (Mem-find_same x qs (h x mem-cons_self))
      (Mem-all_found ps qs (λ p m. h p (mem-cons_of_mem x m)))

guard_iff : (n m : ℕ) (b : Bool) → ((if n == m then b else false) ≡ true) ↔ ((n ≡ m) × (b ≡ true))
guard_iff n m b = ground arith

-- For nodes as `eggFieldKey_new` makes them, `eggFieldKey_equal` returns `EGG_TRUE` exactly if the two
-- lists have as many nodes and each node of the first is in the second; NULL is an empty list.
pub equal_lem :
    (ps qs : List FieldKey)
    → All IsNode ps
    → All IsNode qs
    → (equal ps qs ≡ true) ↔ ((length ps ≡ length qs) × ((p : FieldKey) → Mem p ps → Mem p qs))
unfolding equal
equal_lem [] [] hp hq = (λ e. (refl, λ p m. m), λ r. refl)
equal_lem [] (q ∷ qs) hp hq = (λ e. absurd (false≢true e), λ r. absurd (omega (arith, r.0)))
equal_lem (p ∷ ps) [] hp hq = (λ e. absurd (false≢true e), λ r. absurd (omega (arith, r.0)))
equal_lem (p ∷ ps) (q ∷ qs) hp hq =
    let found = all_found (p ∷ ps) (q ∷ qs) in
    let guard = guard_iff (length (p ∷ ps)) (length (q ∷ qs)) found in
    (
      λ e. ((guard.0 e).0, all_found-Mem (p ∷ ps) (q ∷ qs) hp hq ((guard.0 e).1)),
      λ r. guard.1 (r.0, Mem-all_found (p ∷ ps) (q ∷ qs) (r.1)),
    )

-- `eggFieldKey_dup` of nodes as `eggFieldKey_new` makes them returns nodes with the same fields, which
-- `eggFieldKey_equal` takes for equal to the first.
pub equal-dup :
    (nodes : List FieldKey)
    → All IsNode nodes
    → (copy : List FieldKey) × (dup nodes ≡ some copy) × (copy ≡ nodes) × (equal nodes copy ≡ true)
equal-dup nodes h = (nodes, dup_lem nodes h, refl, (equal_lem nodes nodes h h).1 (refl, λ p m. m))
