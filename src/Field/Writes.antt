-- ===== src/Field/Writes.antt =====
-- The copies of `eggField_serialization` in a row.
use egg.Base.{
  ℕ, ◌+◌, ◌^◌, ◌<◌, ◌≡◌, refl, ap, sym, ◌∙◌, Bool, true, false, some, List, [], ◌++◌, ◌>>=◌, length,
  length-append, append_assoc, append-nil, if◌then◌else◌, arith,
}
use egg.Base.Bytes.{zeros, zeros_size, zeros-split}
use egg.Field.{put_last, put_bytes}
use egg.Field.Node.{node_of, put_last-node, put_bytes-node}

-- The strings and the value, written one behind the other into a body that is cleared.
module _ (size type : ℕ) (name analyzer tail value : List ℕ)
    (short : 8 + length name + length analyzer + length tail < 2 ^ 16) where
  abbrev cleared : List ℕ
  cleared = zeros (length tail) ++ zeros (length value)

  abbrev strings : List ℕ
  strings = (name ++ analyzer) ++ tail

  put_name :
      put_bytes
        (node_of size type 8 (zeros (length name) ++ (zeros (length analyzer) ++ cleared)))
        name
      ≡ some (node_of size type (8 + length name) (name ++ (zeros (length analyzer) ++ cleared)))
  put_name =
      put_bytes-node size type 8 (8 + length name) [] (zeros (length name))
        (zeros (length analyzer) ++ cleared) name refl refl (omega arith) (zeros_size (length name))

  put_analyzer :
      put_bytes
        (node_of size type (8 + length name) (name ++ (zeros (length analyzer) ++ cleared)))
        analyzer
      ≡ some (node_of size type (8 + length name + length analyzer) ((name ++ analyzer) ++ cleared))
  put_analyzer =
      put_bytes-node size type (8 + length name) (8 + length name + length analyzer) name
        (zeros (length analyzer)) cleared analyzer refl refl (omega arith)
        (zeros_size (length analyzer))
      ∙ ap (λ l. some (node_of size type (8 + length name + length analyzer) l))
          (sym (append_assoc name analyzer cleared))

  put_tail :
      put_bytes
        (node_of size type (8 + length name + length analyzer) ((name ++ analyzer) ++ cleared))
        tail
      ≡ some (
          node_of size type
            (8 + length name + length analyzer + length tail)
            (strings ++ zeros (length value)))
  put_tail =
      put_bytes-node size type (8 + length name + length analyzer)
        (8 + length name + length analyzer + length tail) (name ++ analyzer) (zeros (length tail))
        (zeros (length value)) tail (omega (arith, length-append name analyzer)) refl short
        (zeros_size (length tail))
      ∙ ap (λ l. some (node_of size type (8 + length name + length analyzer + length tail) l))
          (sym (append_assoc (name ++ analyzer) tail (zeros (length value))))

  put_value :
      put_last
        (node_of size type
          (8 + length name + length analyzer + length tail)
          (strings ++ zeros (length value)))
        value
      ≡ some
          (node_of size type (8 + length name + length analyzer + length tail) (strings ++ value))
  put_value =
      ap
        (λ l.
          put_last
            (node_of size type (8 + length name + length analyzer + length tail) (strings ++ l))
            value)
        (sym (append-nil (zeros (length value))))
      ∙ put_last-node size type (8 + length name + length analyzer + length tail) strings
          (zeros (length value)) [] value
          (omega (arith, length-append (name ++ analyzer) tail, length-append name analyzer)) short
          (zeros_size (length value))
      ∙ ap
          (λ l.
            some
              (node_of size type (8 + length name + length analyzer + length tail) (strings ++ l)))
          (append-nil value)

  zeros_apart :
      zeros (length name + length analyzer + length tail + length value)
      ≡ zeros (length name) ++ (zeros (length analyzer) ++ cleared)
  zeros_apart = sym (
      ap (λ l. zeros (length name) ++ (zeros (length analyzer) ++ l))
        (zeros-split (length tail) (length value))
      ∙ ap (λ l. zeros (length name) ++ l)
          (zeros-split (length analyzer) (length tail + length value))
      ∙ zeros-split (length name) (length analyzer + (length tail + length value))
      ∙ ap zeros {x = length name + (length analyzer + (length tail + length value))}
          {y = length name + length analyzer + length tail + length value} (omega arith))

  -- All the writes of `eggField_serialization`, with the tail or without one.
  pub put_all :
      (has_tail : Bool)
      → (has_tail ≡ false → tail ≡ [])
      → (do
        node ← some (
            node_of size type 8
              (zeros (length name + length analyzer + length tail + length value)))
        named ← put_bytes node name
        analyzed ← put_bytes named analyzer
        ready ← (if has_tail then put_bytes analyzed tail else some analyzed)
        put_last ready value)
        ≡ some
            (node_of size type (8 + length name + length analyzer + length tail) (strings ++ value))
  put_all true e = rw (zeros_apart, put_name, put_analyzer, put_tail) put_value
  put_all false e =
      let no_tail : tail ≡ [] = e refl in
      let cleared_tail : zeros (length tail) ≡ tail =
        ap (λ t. zeros (length t)) no_tail ∙ sym no_tail in
      let body : (name ++ analyzer) ++ cleared ≡ strings ++ zeros (length value) =
        ap (λ t. (name ++ analyzer) ++ (t ++ zeros (length value))) cleared_tail
        ∙ sym (append_assoc (name ++ analyzer) tail (zeros (length value))) in
      let here = 8 + length name + length analyzer in
      let there : here ≡ here + length tail = omega (arith, ap length no_tail) in
      let unmoved : node_of size type here ((name ++ analyzer) ++ cleared)
          ≡ node_of size type (here + length tail) (strings ++ zeros (length value)) =
        ap (node_of size type here) body
        ∙ ap (λ o. node_of size type o (strings ++ zeros (length value))) there in
      rw (zeros_apart, put_name, put_analyzer) (ap (λ n. put_last n value) unmoved ∙ put_value)
