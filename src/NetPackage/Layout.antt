-- ===== src/NetPackage/Layout.antt =====
-- Adding a unit puts its header and its bytes behind the units that are there.
use egg.Base.{
  ℕ, zero, suc, ◌+◌, ◌-◌, ◌%◌, ◌^◌, ◌≤◌, ◌<◌, ◌≡◌, refl, ap, sym, ◌∙◌, some, List, [], ◌∷◌, ◌++◌,
  append_assoc, append-nil, length, take, drop, take-append, take-all, take-front, take-drop,
  length-take, length-append, ltb, ◌==◌, if◌then◌else◌, arith, tests, Bool-cases, inl, inr,
}
use egg.Base.Bytes.{le_bytes, length-le_bytes}
use egg.Vector.{copy_at}
use egg.Vector.Grow.{copy_at_lem}
use egg.FieldKey.Stream.{read_bytes-all}
use egg.NetPackage.{NetPackage, unit_header, grow_size, new, add}

-- The units of a message, each with its type, as they stand in memory.
abbrev pub encoded : List (ℕ × List ℕ) → List ℕ
encoded [] = []
encoded (u ∷ us) = (unit_header (u.0) (length (u.1)) ++ (u.1)) ++ encoded us

-- A message that holds the units, with its sizes those of the block.
pub record Holds (p : NetPackage) (us : List (ℕ × List ℕ)) : Type 0 where
  pub behind : List ℕ
  pub front : p.bytes ≡ encoded us ++ behind
  pub used : p.e_size ≡ length (encoded us)
  pub block : length p.bytes ≡ p.a_size
  pub positive : 0 < p.a_size
  pub small : p.a_size ≤ 2 ^ 31

pub length-unit_header : (ty size : ℕ) → length (unit_header ty size) ≡ 8
unfolding unit_header
length-unit_header ty size = omega (
  arith,
  length-append (le_bytes 2 ty) (0 ∷ 0 ∷ le_bytes 4 size),
  length-le_bytes 2 ty,
  length-le_bytes 4 size,
)

encoded-append :
    (us : List (ℕ × List ℕ)) (u : ℕ × List ℕ)
    → encoded (us ++ (u ∷ [])) ≡ (encoded us ++ unit_header (u.0) (length (u.1))) ++ (u.1)
encoded-append [] u = append-nil (unit_header (u.0) (length (u.1)) ++ (u.1))
encoded-append (x ∷ us) u =
    let head = unit_header (x.0) (length (x.1)) ++ (x.1) in
    let header = unit_header (u.0) (length (u.1)) in
    ap (λ l. head ++ l) (encoded-append us u)
    ∙ sym (append_assoc head (encoded us ++ header) (u.1))
    ∙ ap (λ l. l ++ (u.1)) (sym (append_assoc head (encoded us) header))

grow_size_lem :
    (fuel need a : ℕ)
    → 0 < a
    → a ≤ 2 ^ 31
    → need ≤ 2 ^ 30
    → need - a < fuel
    → (c : ℕ) × (grow_size fuel need a ≡ some c) × (need ≤ c) × (a ≤ c) × (c ≤ 2 ^ 31)
unfolding grow_size
grow_size_lem zero need a pos small room hf = absurd (omega arith)
grow_size_lem (suc fuel) need a pos small room hf = elim (Bool-cases (ltb a need)) [
  | inl more ↦
      let less : a < need = omega tests in
      let (c, r, enough, above, bound) =
        grow_size_lem fuel need ((a + a) % 2 ^ 32) (omega arith) (omega arith) room (omega arith) in
      (c, rw more r, enough, omega arith, bound)
  | inr enough ↦ (a, rw enough refl, ground arith, omega arith, small)
]

-- A message from what its block holds up to `e_size`.
Holds-made :
    (p : NetPackage) (us : List (ℕ × List ℕ))
    → take p.e_size p.bytes ≡ encoded us
    → p.e_size ≤ p.a_size
    → length p.bytes ≡ p.a_size
    → 0 < p.a_size
    → p.a_size ≤ 2 ^ 31
    → Holds p us
Holds-made p us e le block pos small = record {
  behind = drop p.e_size p.bytes;
  front = sym (take-drop p.e_size p.bytes) ∙ ap (λ l. l ++ drop p.e_size p.bytes) e;
  used = omega (arith, ap length e, length-take p.e_size p.bytes, le, block);
  block = block;
  positive = pos;
  small = small;
}

-- The block of the new size starts with the bytes of the old one.
module _ (alloc : ℕ → List ℕ) (alloc_size : (n : ℕ) → length (alloc n) ≡ n) where
  pub new_lem : (op : ℕ) → Holds (new alloc op) []
  unfolding new
  new_lem op = record {
    behind = alloc 4096;
    front = refl;
    used = refl;
    block = alloc_size 4096;
    positive = omega arith;
    small = omega arith;
  }

  grown_block :
      (bytes : List ℕ) (old size at : ℕ)
      → length bytes ≡ old
      → old ≤ size
      → at ≤ old
      → (block : List ℕ) × ((if size == old then bytes else take size bytes ++ alloc (size - old))
          ≡ block)
        × (length block ≡ size)
        × (take at block ≡ take at bytes)
  grown_block bytes old size at e le within = elim (Bool-cases (size == old)) [
    | inl same ↦ (bytes, rw same refl, ground arith, refl)
    | inr more ↦
        let kept : take size bytes ≡ bytes = take-all size bytes (omega (arith, e, le)) in
        let back = alloc (size - old) in
        (
          take size bytes ++ back,
          rw more refl,
          omega (
            arith,
            ap length kept,
            length-append (take size bytes) back,
            alloc_size (size - old),
            e,
            le,
          ),
          ap (λ l. take at (l ++ back)) kept ∙ take-front at bytes back (omega (arith, e, within)),
        )
  ]

  -- The steps of an addition in a row, without and with bytes.
  add_bare :
      (p : NetPackage) (ty a_size : ℕ) (block headed : List ℕ)
      → grow_size (p.e_size + 8 + 0 + 1) (p.e_size + 8 + 0) p.a_size ≡ some a_size
      → (if a_size == p.a_size then p.bytes else take a_size p.bytes ++ alloc (a_size - p.a_size))
        ≡ block
      → copy_at block p.e_size (unit_header ty 0) ≡ some headed
      → add alloc p (some []) 0 ty
        ≡ some (record p { e_size = (p.e_size + 8) % 2 ^ 32; a_size = a_size; bytes = headed })
  unfolding add
  add_bare p ty a_size block headed grown same written = rw (grown, same, written) refl

  add_filled :
      (p : NetPackage) (ty a_size x : ℕ) (xs block headed full : List ℕ)
      → grow_size (p.e_size + 8 + length (x ∷ xs) + 1) (p.e_size + 8 + length (x ∷ xs)) p.a_size
        ≡ some a_size
      → (if a_size == p.a_size then p.bytes else take a_size p.bytes ++ alloc (a_size - p.a_size))
        ≡ block
      → copy_at block p.e_size (unit_header ty (length (x ∷ xs))) ≡ some headed
      → copy_at headed ((p.e_size + 8) % 2 ^ 32) (x ∷ xs) ≡ some full
      → add alloc p (some (x ∷ xs)) (length (x ∷ xs)) ty
        ≡ some (record p {
          e_size = ((p.e_size + 8) % 2 ^ 32 + length (x ∷ xs)) % 2 ^ 32;
          a_size = a_size;
          bytes = full;
        })
  unfolding add
  add_filled p ty a_size x xs block headed full grown same written written' =
      rw (grown, same, written, read_bytes-all (length (x ∷ xs)) (x ∷ xs) refl, written')
        (ground arith)

  -- What the steps up to the unit's header come to.
  record Headed (p : NetPackage) (us : List (ℕ × List ℕ)) (size ty : ℕ) : Type 0 where
    a_size : ℕ
    block : List ℕ
    headed : List ℕ
    grown : grow_size (p.e_size + 8 + size + 1) (p.e_size + 8 + size) p.a_size ≡ some a_size
    same :
        (if a_size == p.a_size then p.bytes else take a_size p.bytes ++ alloc (a_size - p.a_size))
        ≡ block
    written : copy_at block p.e_size (unit_header ty size) ≡ some headed
    same_length : length headed ≡ a_size
    front : take (p.e_size + 8) headed ≡ encoded us ++ unit_header ty size
    enough : p.e_size + 8 + size ≤ a_size
    bound : a_size ≤ 2 ^ 31

  headed_lem :
      (p : NetPackage) (us : List (ℕ × List ℕ)) (size ty : ℕ)
      → Holds p us
      → p.e_size + 8 + size ≤ 2 ^ 30
      → Headed p us size ty
  headed_lem p us size ty h room =
      let need = p.e_size + 8 + size in
      let header = unit_header ty size in
      let (a_size, grown, enough, above, bound) =
        grow_size_lem (need + 1) need p.a_size h.positive h.small room (omega arith) in
      let used : p.e_size ≤ p.a_size =
        omega (arith, h.used, h.block, ap length h.front, length-append (encoded us) h.behind) in
      let (block, same, block_size, kept) =
        grown_block p.bytes p.a_size a_size p.e_size h.block above used in
      let (headed, written, headed_size, front) =
        copy_at_lem block p.e_size header
          (omega (arith, length-unit_header ty size, block_size, enough)) in
      record {
        a_size = a_size;
        block = block;
        headed = headed;
        grown = grown;
        same = same;
        written = written;
        same_length = headed_size ∙ block_size;
        front =
            ap (λ n. take n headed) {x = p.e_size + 8} {y = p.e_size + length header}
              (omega (arith, length-unit_header ty size))
            ∙ front
            ∙ ap (λ l. l ++ header)
                (kept
                  ∙ ap (take p.e_size) h.front
                  ∙ take-append (encoded us) h.behind p.e_size h.used);
        enough = enough;
        bound = bound;
      }

  -- Where a message holds some units, and up to 2 ^ 30 bytes come together, `eggNetPackage_add` stays
  -- inside its block and returns a message that holds these units and the new one behind them.
  pub add_lem :
      (p : NetPackage) (us : List (ℕ × List ℕ)) (source : List ℕ) (ty : ℕ)
      → Holds p us
      → p.e_size + 8 + length source ≤ 2 ^ 30
      → (p' : NetPackage) × (add alloc p (some source) (length source) ty ≡ some p')
        × Holds p' (us ++ ((ty, source) ∷ []))
  add_lem p us [] ty h room =
      let r = headed_lem p us 0 ty h room in
      let p' = record p { e_size = (p.e_size + 8) % 2 ^ 32; a_size = r.a_size; bytes = r.headed } in
      let e_size : (p.e_size + 8) % 2 ^ 32 ≡ p.e_size + 8 = omega (arith, room) in
      (
        p',
        add_bare p ty r.a_size r.block r.headed r.grown r.same r.written,
        Holds-made p' (us ++ ((ty, []) ∷ []))
            (ap (λ n. take n r.headed) e_size
              ∙ r.front
              ∙ sym (append-nil (encoded us ++ unit_header ty 0))
              ∙ sym (encoded-append us (ty, [])))
            (omega (arith, e_size, r.enough)) r.same_length (omega (arith, r.enough)) r.bound,
      )
  add_lem p us (x ∷ xs) ty h room =
      let size = length (x ∷ xs) in
      let r = headed_lem p us size ty h room in
      let header_end : (p.e_size + 8) % 2 ^ 32 ≡ p.e_size + 8 = omega (arith, room) in
      let e_size : ((p.e_size + 8) % 2 ^ 32 + size) % 2 ^ 32 ≡ p.e_size + 8 + size =
        omega (arith, room) in
      let (full, written, full_size, front) =
        copy_at_lem r.headed ((p.e_size + 8) % 2 ^ 32) (x ∷ xs)
          (omega (arith, header_end, r.same_length, r.enough)) in
      let p' = record p {
        e_size = ((p.e_size + 8) % 2 ^ 32 + size) % 2 ^ 32;
        a_size = r.a_size;
        bytes = full;
      } in
      (
        p',
        add_filled p ty r.a_size x xs r.block r.headed full r.grown r.same r.written written,
        Holds-made p' (us ++ ((ty, x ∷ xs) ∷ []))
            (ap (λ n. take n full) {y = (p.e_size + 8) % 2 ^ 32 + size}
                (omega (arith, e_size, header_end))
              ∙ front
              ∙ ap (λ l. l ++ (x ∷ xs)) (ap (λ n. take n r.headed) header_end ∙ r.front)
              ∙ sym (encoded-append us (ty, x ∷ xs)))
            (omega (arith, e_size, r.enough)) (full_size ∙ r.same_length) (omega (arith, r.enough))
            r.bound,
      )
