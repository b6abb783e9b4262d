-- ===== src/Document/Lookup.antt =====
-- Fields by their names.
use egg.Base.{
  ℕ, zero, suc, ◌-◌, ◌^◌, ◌≤◌, ◌<◌, ◌≡◌, refl, ap, ◌∙◌, true, false, some, none, List, [], ◌∷◌,
  ◌++◌, length, length-append, take, arith, All,
}
use egg.Field.{Field, set_value}
use egg.Field.Values.{IsField, set_value_block}
use egg.Document.{
  Document, named, field_loop, get_field, set_loop, set_doc, remove_loop, remove_field_byname,
}

-- The count is that of the list.
abbrev pub IsDocument : Document → Type 0
IsDocument d = d.count ≡ length d.fields

-- No field has the name.
abbrev pub NoneNamed : List ℕ → List Field → Type 0
NoneNamed name fields = All (λ f. named name f ≡ false) fields

-- The first field of a name, between those in front of it, which have other names, and the others.
pub record FirstNamed (name : List ℕ) (d : Document) (front : List Field) (f : Field)
    (back : List Field) : Type 0 where
  pub document : IsDocument d
  pub parts : d.fields ≡ front ++ (f ∷ back)
  pub others : NoneNamed name front
  pub is_named : named name f ≡ true

module _ (name : List ℕ) (f : Field) (back : List Field) (is_named : named name f ≡ true) where
  field_loop-found :
      (front : List Field) (count : ℕ)
      → NoneNamed name front
      → count ≡ length (front ++ (f ∷ back))
      → field_loop count name (front ++ (f ∷ back)) ≡ some (f ∷ back)
  unfolding field_loop
  field_loop-found front zero h e = absurd (omega (arith, e, length-append front (f ∷ back)))
  field_loop-found [] (suc count) h e = rw is_named refl
  field_loop-found (x ∷ front) (suc count) (other, h) e =
      rw other (field_loop-found front count h (omega (arith, e)))

  remove_loop-found :
      (front : List Field) (count : ℕ)
      → NoneNamed name front
      → count ≡ length (front ++ (f ∷ back))
      → remove_loop count name (front ++ (f ∷ back)) ≡ some (some f, front ++ back)
  unfolding remove_loop
  remove_loop-found front zero h e = absurd (omega (arith, e, length-append front (f ∷ back)))
  remove_loop-found [] (suc count) h e = rw is_named refl
  remove_loop-found (x ∷ front) (suc count) (other, h) e =
      rw (other, remove_loop-found front count h (omega (arith, e))) refl

  module _ (alloc : ℕ → List ℕ) (value : List ℕ) (size : ℕ) (g : Field)
      (made : set_value alloc f value size ≡ some (true, g)) where
    set_loop-found :
        (front : List Field) (count : ℕ)
        → NoneNamed name front
        → count ≡ length (front ++ (f ∷ back))
        → set_loop alloc count name value size (front ++ (f ∷ back))
          ≡ some (true, front ++ (g ∷ back))
    unfolding set_loop
    set_loop-found front zero h e = absurd (omega (arith, e, length-append front (f ∷ back)))
    set_loop-found [] (suc count) h e = rw (is_named, made) refl
    set_loop-found (x ∷ front) (suc count) (other, h) e =
        rw (other, set_loop-found front count h (omega (arith, e))) refl

module _ (name : List ℕ) where
  field_loop-none :
      (fields : List Field) (count : ℕ)
      → NoneNamed name fields
      → count ≡ length fields
      → field_loop count name fields ≡ some []
  unfolding field_loop
  field_loop-none fields zero h e = refl
  field_loop-none [] (suc count) h e = absurd (omega (arith, e))
  field_loop-none (x ∷ fields) (suc count) (other, h) e =
      rw other (field_loop-none fields count h (omega (arith, e)))

  remove_loop-none :
      (fields : List Field) (count : ℕ)
      → NoneNamed name fields
      → count ≡ length fields
      → remove_loop count name fields ≡ some (none, fields)
  unfolding remove_loop
  remove_loop-none fields zero h e = refl
  remove_loop-none [] (suc count) h e = absurd (omega (arith, e))
  remove_loop-none (x ∷ fields) (suc count) (other, h) e =
      rw (other, remove_loop-none fields count h (omega (arith, e))) refl

  set_loop-none :
      (alloc : ℕ → List ℕ) (value : List ℕ) (size : ℕ) (fields : List Field) (count : ℕ)
      → NoneNamed name fields
      → count ≡ length fields
      → set_loop alloc count name value size fields ≡ some (false, fields)
  unfolding set_loop
  set_loop-none alloc value size fields zero h e = refl
  set_loop-none alloc value size [] (suc count) h e = absurd (omega (arith, e))
  set_loop-none alloc value size (x ∷ fields) (suc count) (other, h) e =
      rw (other, set_loop-none alloc value size fields count h (omega (arith, e))) refl

-- In a document without a field of the name, `eggDocument_get_field` and
-- `eggDocument_remove_field_byname` return NULL and `eggDocument_set_doc` returns `EGG_FALSE`; the document
-- stays as it is.
pub unnamed_lem :
    (alloc : ℕ → List ℕ) (d : Document) (name value : List ℕ) (size : ℕ)
    → IsDocument d
    → NoneNamed name d.fields
    → (get_field d (some name) ≡ some [])
      × (set_doc alloc d (some name) value size ≡ some (false, d))
      × (remove_field_byname d (some name) ≡ some (none, d))
unfolding get_field set_doc remove_field_byname
unnamed_lem alloc d name value size h others = (
  field_loop-none name d.fields d.count others h,
  rw (set_loop-none name alloc value size d.fields d.count others h) refl,
  rw (remove_loop-none name d.fields d.count others h) refl,
)

-- For the first field of a name, in a document whose count is that of its list, and a value of `size`
-- bytes: `eggDocument_get_field` gives it, `eggDocument_set_doc` changes its block, which then begins with
-- the value, and the size, and nothing else of it or in the document, `eggDocument_remove_field_byname` returns it and leaves the fields before and behind it,
-- with the count of the shorter list.
pub named_lem :
    (alloc : ℕ → List ℕ) (alloc_size : (n : ℕ) → length (alloc n) ≡ n) (d : Document)
    (name : List ℕ) (front : List Field) (f : Field) (back : List Field) (value : List ℕ) (size : ℕ)
    → FirstNamed name d front f back
    → IsField f
    → size ≤ length value
    → size < 2 ^ 32
    → (get_field d (some name) ≡ some (f ∷ back))
      × ((buf : List ℕ) × (set_doc alloc d (some name) value size
            ≡ some
                (true, record d { fields = front ++ (record f { buf = buf; size = size } ∷ back) }))
          × (take size buf ≡ take size value))
      × (remove_field_byname d (some name)
          ≡ some (some f, record d { fields = front ++ back; count = length (front ++ back) }))
unfolding get_field set_doc remove_field_byname
named_lem alloc alloc_size d name front f back value size h field given small =
    let (buf, made, shown, g_field) =
      set_value_block alloc alloc_size f value size field given small in
    let g : Field = record f { buf = buf; size = size } in
    let count : d.count ≡ length (front ++ (f ∷ back)) = h.document ∙ ap length h.parts in
    let shorter : d.count - 1 ≡ length (front ++ back) =
      omega (arith, count, length-append front (f ∷ back), length-append front back) in
    (
      ap (field_loop d.count name) h.parts
          ∙ field_loop-found name f back h.is_named front d.count h.others count,
      (
        buf,
        rw
            (
              h.parts,
              set_loop-found name f back h.is_named alloc value size g made front d.count h.others
                  count,
            )
            refl,
        shown,
      ),
      rw (h.parts, remove_loop-found name f back h.is_named front d.count h.others count, shorter)
          refl,
    )
