-- ===== src/Sort/Quick.antt =====
-- The quicksort of `Uti_sedgesort` ends, stays inside the array and permutes it; with the insertion
-- sort behind it the result is sorted.
use egg.Base.{
  ◌>>=◌, ℕ, zero, suc, ◌+◌, ◌-◌, ◌*◌, ◌/◌, ◌^◌, ◌≤◌, ◌<◌, ◌≡◌, refl, ap, ◌∙◌, false, Option, some,
  List, [], ◌∷◌, length, get_or, get_elem?, ltb, ◌==◌, arith, tests, fits-true, Bool-cases, inl,
  inr, true,
}
use egg.Base.Int.{ℤ}
use mathlib.Core.List.{Perm}
use mathlib.Core.List.Perm
use egg.Compare.{is_neg, IsOrder}
use egg.Sort.{swap, scan_up, scan_down, partition_loop, swap_pivot, quickersort, insort, sedgesort}
use egg.Sort.Insertion.{IsSorted, insort-IsSorted}
use egg.Sort.Perm.{insort-perm}
use egg.Sort.Swap.{swap_lem, get_elem?-some, get_or-some}

swap_pivot-pos :
    {A : Type 0} (a : List A) (lower j : ℕ) → 0 < j → swap_pivot a lower j ≡ swap a lower (j - 1)
unfolding swap_pivot
swap_pivot-pos a lower zero h = absurd (omega arith)
swap_pivot-pos a lower (suc j) h = ap (swap a lower) (omega arith)

-- What a call of the partition loop on `a`, from `lower` to before `end`, comes to.
record Parted {A : Type 0} (a : List A) (lower end : ℕ) (r : Option (List A × ℕ × ℕ)) : Type 0 where
  array : List A
  i : ℕ
  j : ℕ
  returns : r ≡ some (array, i, j)
  perm : Perm array a
  same_length : length array ≡ length a
  i_low : lower < i
  i_high : i ≤ end
  j_low : lower < j
  j_high : j ≤ end

-- A call that returns a permutation of `a`.
record Permuted {A : Type 0} (a : List A) (r : Option (List A)) : Type 0 where
  array : List A
  returns : r ≡ some array
  perm : Perm array a
  same_length : length array ≡ length a

module _ {A : Type 0} where
  -- The rules of sequence for the two.
  Permuted-bind :
      (a : List A) {m : Option (List A)} (f : List A → Option (List A))
      → Permuted a m
      → ((b : List A) → length b ≡ length a → Permuted b (f b))
      → Permuted a (m >>= f)
  Permuted-bind a f p next =
      let q = next p.array p.same_length in
      record {
        array = q.array;
        returns = rw p.returns q.returns;
        perm = Perm.trans q.perm p.perm;
        same_length = q.same_length ∙ p.same_length;
      }

  Parted-bind :
      (a : List A) (lower end : ℕ) {m : Option (List A × ℕ × ℕ)}
      (f : List A × ℕ × ℕ → Option (List A))
      → Parted a lower end m
      → ((b : List A) (i j : ℕ)
          → length b ≡ length a
          → lower < i
          → i ≤ end
          → lower < j
          → j ≤ end
          → Permuted b (f (b, i, j)))
      → Permuted a (m >>= f)
  Parted-bind a lower end f p next =
      let q = next p.array p.i p.j p.same_length p.i_low p.i_high p.j_low p.j_high in
      record {
        array = q.array;
        returns = rw p.returns q.returns;
        perm = Perm.trans q.perm p.perm;
        same_length = q.same_length ∙ p.same_length;
      }

  swap-Permuted : (a : List A) (i j : ℕ) → i < length a → j < length a → Permuted a (swap a i j)
  swap-Permuted a i j hi hj =
      let (b, r, p, l, _) = swap_lem a i j hi hj in
      record { array = b; returns = r; perm = p; same_length = l }

module _ {A : Type 0} (cmp : A → A → ℤ) where
  scan_up_bounds :
      (pivot : A) (a : List A) (n i : ℕ)
      → (i ≤ scan_up cmp pivot a n i) × (scan_up cmp pivot a n i ≤ i + n)
  unfolding scan_up
  scan_up_bounds pivot a zero i = omega arith
  scan_up_bounds pivot a (suc n) i = ground (arith, scan_up_bounds pivot a n (i + 1))

  scan_down-le : (pivot : A) (a : List A) (j : ℕ) → scan_down cmp pivot a j ≤ j
  unfolding scan_down
  scan_down-le pivot a zero = omega arith
  scan_down-le pivot a (suc j) = ground (arith, scan_down-le pivot a j)

  IsSorted-nothing : (a : List A) → length a ≡ 0 → IsSorted cmp a
  IsSorted-nothing [] e = tt
  IsSorted-nothing (x ∷ a) e = absurd (omega arith)

  module _ (order : IsOrder cmp) where
    not_before_self : (x : A) → is_neg (cmp x x) ≡ false
    not_before_self x = elim (Bool-cases (is_neg (cmp x x))) [
      | inl less ↦ order.flip x x less
      | inr same ↦ same
    ]

    -- The scan from above stops at the pivot at the latest.
    lt-scan_down :
        (pivot : A) (a : List A) (lower j : ℕ)
        → get_or a lower pivot ≡ pivot
        → lower < j
        → lower < scan_down cmp pivot a j
    unfolding scan_down
    lt-scan_down pivot a lower zero e h = absurd (omega arith)
    lt-scan_down pivot a lower (suc j) e h = elim (Bool-cases (lower == j)) [
      | inl here ↦
          let same : lower ≡ j = ground arith in rw (← same, e, not_before_self pivot) (omega arith)
      | inr above ↦ ground (arith, lt-scan_down pivot a lower j e)
    ]

    partition_loop_lem :
        (fuel : ℕ) (pivot : A) (end lower i j : ℕ) (a : List A)
        → lower ≤ i
        → i < end
        → lower < j
        → j ≤ end
        → end ≤ length a
        → j < fuel
        → get_or a lower pivot ≡ pivot
        → Parted a lower end (partition_loop cmp fuel pivot end i j a)
    unfolding partition_loop
    partition_loop_lem zero pivot end lower i j a hl hi hj hje room hf e = absurd (omega arith)
    partition_loop_lem (suc fuel) pivot end lower i j a hl hi hj hje room hf e =
        let i1 = scan_up cmp pivot a (end - (i + 1)) (i + 1) in
        let j1 = scan_down cmp pivot a j in
        let (up, up') = scan_up_bounds pivot a (end - (i + 1)) (i + 1) in
        let down = scan_down-le pivot a j in
        let down' = lt-scan_down pivot a lower j e hj in
        elim (Bool-cases (ltb i1 j1)) [
          | inl more ↦
              let before : i1 < j1 = omega tests in
              let (b, swapped, p, same, kept) =
                swap_lem a i1 (j1 - 1) (omega arith) (omega arith) in
              let later =
                partition_loop_lem fuel pivot end lower i1 (j1 - 1) b (omega arith) (omega arith)
                  (omega arith) (omega arith) (omega arith) (omega arith)
                  (kept lower pivot (λ q. omega arith) (λ q. omega arith) ∙ e) in
              record {
                array = later.array;
                i = later.i;
                j = later.j;
                returns = rw (more, swapped) later.returns;
                perm = Perm.trans later.perm p;
                same_length = later.same_length ∙ same;
                i_low = later.i_low;
                i_high = later.i_high;
                j_low = later.j_low;
                j_high = later.j_high;
              }
          | inr stop ↦ record {
            array = a;
            i = i1;
            j = j1;
            returns = rw stop;
            perm = Perm.refl a;
            same_length = refl;
            i_low = omega arith;
            i_high = omega arith;
            j_low = down';
            j_high = omega arith;
          }
        ]

    abbrev Recursion : ℕ → Type 0
    Recursion fuel =
        (lower end : ℕ) (a : List A)
        → lower ≤ end
        → end < fuel + lower
        → end ≤ length a
        → length a ≤ 2 ^ 30
        → Permuted a (quickersort cmp fuel lower end a)

    quickersort_sides :
        (fuel : ℕ)
        → Recursion fuel
        → (lower end i j : ℕ) (a : List A) → end < suc fuel + lower
        → end ≤ length a
        → length a ≤ 2 ^ 30
        → lower < i
        → i ≤ end
        → lower < j
        → j ≤ end
        → Permuted a (do
          a3 ← swap_pivot a lower j
          a4 ← quickersort cmp fuel lower (j - 1) a3
          quickersort cmp fuel i end a4)
    quickersort_sides fuel ih lower end i j a hf room few il ih' jl jh =
        rw (swap_pivot-pos a lower j (omega arith)) (
          Permuted-bind a _ (swap-Permuted a lower (j - 1) (omega arith) (omega arith)) λ a3 l3.
            Permuted-bind a3 _
              (ih lower (j - 1) a3 (omega arith) (omega arith) (omega arith) (omega arith))
              λ a4 l4. ih i end a4 ih' (omega arith) (omega arith) (omega arith))

    quickersort_long :
        (fuel : ℕ)
        → Recursion fuel
        → (lower end : ℕ) (a : List A) → end < suc fuel + lower
        → end ≤ length a
        → length a ≤ 2 ^ 30
        → lower < end
        → Permuted a (do
          pivot ← get_elem? a lower
          (a2, i, j) ← partition_loop cmp (end + 1) pivot end lower end a
          a3 ← swap_pivot a2 lower j
          a4 ← quickersort cmp fuel lower (j - 1) a3
          quickersort cmp fuel i end a4)
    quickersort_long fuel ih lower end a hf room few wide =
        let (pivot, rp) = get_elem?-some a lower (omega arith) in
        rw rp (
          Parted-bind a lower end _
            (partition_loop_lem (end + 1) pivot end lower lower end a (omega arith) wide wide
              (omega arith) room (omega arith) (get_or-some a lower pivot rp))
            λ b i j l il ih' jl jh.
              quickersort_sides fuel ih lower end i j b hf (omega arith) (omega arith) il ih' jl jh)

    quickersort_lem : (fuel : ℕ) → Recursion fuel
    unfolding quickersort
    quickersort_lem zero lower end a le hf room few = absurd (omega arith)
    quickersort_lem (suc fuel) lower end a le hf room few =
        elim (Bool-cases (ltb (lower + 16) end)) [
          | inl long ↦
              let wide : lower + 16 < end = omega tests in
              let narrow : ltb (end - 1 + lower) (2 ^ 31) ≡ true = ground arith in
              rw (long, narrow)
                (Permuted-bind a _
                  (swap-Permuted a lower ((end - 1 + lower) / 2) (omega arith) (omega arith))
                  λ b l.
                    quickersort_long fuel (quickersort_lem fuel) lower end b hf (omega arith)
                      (omega arith) (omega arith))
          | inr short ↦
              rw short
                (record { array = a; returns = refl; perm = Perm.refl a; same_length = refl })
        ]

    -- For a comparison that is an order, and an array of at most 2 ^ 30 units and less than 2 ^ 32 bytes,
    -- `Uti_sedgesort` ends without an access outside the array, and returns a permutation of the array in
    -- which every unit may stand before each unit after it.
    pub sedgesort_sorts :
        (unit_sz : ℕ) (a : List A)
        → length a ≤ 2 ^ 30
        → length a * unit_sz < 2 ^ 32
        → (b : List A) × (sedgesort cmp unit_sz a ≡ some b) × IsSorted cmp b × Perm b a
    unfolding sedgesort
    sedgesort_sorts unit_sz a few small = elim (Bool-cases (length a == 0)) [
      | inl nothing ↦ (a, rw nothing, IsSorted-nothing a (ground arith), Perm.refl a)
      | inr units ↦
          let quick =
            quickersort_lem (length a + 1) 0 (length a) a (omega arith) (omega arith) (omega arith)
              few in
          (
            insort cmp quick.array,
            rw (units, fits-true unit_sz (length a) few small, quick.returns),
            insort-IsSorted cmp order quick.array,
            Perm.trans (insort-perm cmp quick.array) quick.perm,
          )
    ]
