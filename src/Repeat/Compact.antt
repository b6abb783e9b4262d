-- ===== src/Repeat/Compact.antt =====
-- An array whose front is compacted: what is done, the last unit of it, what has been read since, and
-- what is to be read.
use egg.Base.{
  ℕ, zero, suc, ◌+◌, ◌-◌, ◌<◌, ◌≡◌, refl, ap, sym, ◌∙◌, true, false, some, List, [], ◌∷◌, ◌++◌,
  append_assoc, length, get_elem?, set, length-append, set-append, get_elem?-set_other, lt→ltb,
  take, take-append, ◌==◌, if◌then◌else◌, arith,
}
use egg.Repeat.{store}

module _ {A : Type 0} where
  pub get_elem?-behind :
      (front : List A) (x : A) (rest : List A) (i : ℕ)
      → i ≡ length front
      → get_elem? (front ++ (x ∷ rest)) i ≡ some x
  get_elem?-behind [] x rest zero e = refl
  get_elem?-behind [] x rest (suc i) e = absurd (omega arith)
  get_elem?-behind (y ∷ front) x rest zero e = absurd (omega arith)
  get_elem?-behind (y ∷ front) x rest (suc i) e = get_elem?-behind front x rest i (omega arith)

  pub store-in :
      (array : List A) (i : ℕ) (x : A) → i < length array → store array i x ≡ some (set array i x)
  unfolding store
  store-in array i x h = rw (lt→ltb i (length array) h) refl

  -- The array, with the two indices.
  pub record Split (array done : List A) (last : A) (junk rest : List A) (i_src i_dest : ℕ)
      : Type 0 where
    pub parts : array ≡ done ++ (last ∷ (junk ++ rest))
    pub dest : i_dest ≡ length done + 1
    pub src : i_src ≡ length done + 1 + length junk

  pub snoc-cons : (xs : List A) (x : A) (ys : List A) → xs ++ (x ∷ ys) ≡ (xs ++ (x ∷ [])) ++ ys
  snoc-cons xs x ys = sym (append_assoc xs (x ∷ []) ys)

  pub Split-last :
      {array done junk rest : List A} {last : A} {i_src i_dest : ℕ}
      → Split array done last junk rest i_src i_dest
      → get_elem? array (i_dest - 1) ≡ some last
  Split-last {array} {done} {junk} {rest} {last} {i_src} {i_dest} s =
      ap (λ l. get_elem? l (i_dest - 1)) s.parts
      ∙ get_elem?-behind done last (junk ++ rest) (i_dest - 1) (omega (arith, s.dest))

  module _ {array done junk rest : List A} {last x : A} {i_src i_dest : ℕ}
      (s : Split array done last junk (x ∷ rest) i_src i_dest) where
    pub Split-read : get_elem? array i_src ≡ some x
    Split-read =
        ap (λ l. get_elem? l i_src) (s.parts ∙ sym (append_assoc done (last ∷ junk) (x ∷ rest)))
        ∙ get_elem?-behind (done ++ (last ∷ junk)) x rest i_src
            (omega (arith, s.src, length-append done (last ∷ junk)))

    -- The unit that is read joins what has been read.
    pub Split-skip : Split array done last (junk ++ (x ∷ [])) rest (i_src + 1) i_dest
    Split-skip = record {
      parts = s.parts ∙ ap (λ l. done ++ (last ∷ l)) (snoc-cons junk x rest);
      dest = s.dest;
      src = omega (arith, s.src, length-append junk (x ∷ []));
    }

    -- A write over the last unit.
    pub Split-set :
        (y : A) (k : ℕ)
        → k ≡ length done
        → Split (set array k y) done y junk (x ∷ rest) i_src i_dest
          × (get_elem? (set array k y) i_src ≡ some x)
          × (store array k y ≡ some (set array k y))
    Split-set y k e = (
      record {
        parts =
            ap (λ l. set l k y) s.parts
            ∙ set-append done (last ∷ (junk ++ (x ∷ rest))) k 0 y (omega (arith, e));
        dest = s.dest;
        src = s.src;
      },
      get_elem?-set_other array k i_src y (λ q. omega (arith, q, e, s.src)) ∙ Split-read,
      store-in array k y
          (omega (arith, e, ap length s.parts, length-append done (last ∷ (junk ++ (x ∷ rest))))),
    )

  -- The unit that is read becomes the last one: without a write where nothing stands between.
  abbrev pub Moved : List A → List A → A → List A → ℕ → ℕ → Type 0
  Moved array done x rest i_src i_dest =
      (array' : List A) × ((if i_src == i_dest then some array else store array i_dest x)
        ≡ some array')
      × ((junk : List A) × Split array' done x junk rest (i_src + 1) (i_dest + 1))
      × (get_elem? array' i_src ≡ some x)

  pub Split-move :
      (array done junk rest : List A) (last x : A) (i_src i_dest : ℕ)
      → Split array done last junk (x ∷ rest) i_src i_dest
      → Moved array (done ++ (last ∷ [])) x rest i_src i_dest
  Split-move array done [] rest last x i_src i_dest s =
      let same : (i_src == i_dest) ≡ true = ground (arith, s.src, s.dest) in
      (
        array,
        rw same refl,
        (
          [],
          record {
            parts = s.parts ∙ snoc-cons done last (x ∷ rest);
            dest = omega (arith, s.dest, length-append done (last ∷ []));
            src = omega (arith, s.src, length-append done (last ∷ []));
          },
        ),
        Split-read s,
      )
  Split-move array done (j ∷ junk) rest last x i_src i_dest s =
      let apart : (i_src == i_dest) ≡ false = ground (arith, s.src, s.dest) in
      let front = done ++ (last ∷ []) in
      let behind = junk ++ (x ∷ rest) in
      let whole : array ≡ front ++ (j ∷ behind) = s.parts ∙ snoc-cons done last (j ∷ behind) in
      let size : length front ≡ length done + 1 = omega (arith, length-append done (last ∷ [])) in
      (
        set array i_dest x,
        rw apart (
            store-in array i_dest x
              (omega (arith, s.dest, size, ap length whole, length-append front (j ∷ behind)))),
        (
          junk ++ (x ∷ []),
          record {
            parts =
                ap (λ l. set l i_dest x) whole
                ∙ set-append front (j ∷ behind) i_dest 0 x (omega (arith, s.dest, size))
                ∙ ap (λ l. front ++ (x ∷ l)) (snoc-cons junk x rest);
            dest = omega (arith, s.dest, size);
            src = omega (arith, s.src, size, length-append junk (x ∷ []));
          },
        ),
        get_elem?-set_other array i_dest i_src x (λ q. omega (arith, q, s.src, s.dest))
            ∙ Split-read s,
      )

  -- In the end the front is what is done, with or without the last unit.
  pub take-Split :
      {array done junk : List A} {last : A} {i_src i_dest : ℕ}
      → Split array done last junk [] i_src i_dest
      → (take i_dest array ≡ done ++ (last ∷ [])) × (take (i_dest - 1) array ≡ done)
  take-Split {array} {done} {junk} {last} {i_src} {i_dest} s =
      let whole : array ≡ (done ++ (last ∷ [])) ++ (junk ++ []) =
        s.parts ∙ snoc-cons done last (junk ++ []) in
      (
        ap (take i_dest) whole
            ∙ take-append (done ++ (last ∷ [])) (junk ++ []) i_dest
                (omega (arith, s.dest, length-append done (last ∷ []))),
        ap (take (i_dest - 1)) s.parts
            ∙ take-append done (last ∷ (junk ++ [])) (i_dest - 1) (omega (arith, s.dest)),
      )
