-- ===== src/Query/RoundTrip.antt =====
-- What `eggQuery_serialise` of egg3/src/search/eggQuery.c writes, `eggQuery_unserialise` reads back.
use egg.Base.{
  ℕ, suc, ◌+◌, ◌-◌, ◌*◌, ◌^◌, ◌<◌, ◌≡◌, refl, ap, sym, ◌∙◌, Option, some, List, [], ◌∷◌, ◌++◌,
  append_assoc, append-nil, length, length-append, All, arith, lt→ltb,
}
use egg.Base.Bytes.{le_bytes, length-le_bytes, zeros, zeros_size}
use egg.Vector.Grow.{copy_at-whole}
use egg.IdNode.{IdNode}
use egg.FieldKey.Stream.{IsNode, size_of, buffer, length-buffer, serialise_lem}
use egg.Query.{Ask, Join, Key, Held, Query, Tokenizer, ask, held, join, analyze_record}
use egg.Query.Stored.{
  ask_opt, join_opt, key_bytes, key_record_sz, node_bytes, record_bytes, record_sz, tree_sz,
  tree_bytes, serialise, next_record, both_parts, unserialise_internal, unserialise, asking,
  holding, joining,
}
use egg.Query.Readers.{IsKey, length-key_bytes}
use egg.Query.Records.{ask_reads, join_reads, held_reads, IsImage, nodes_at-node_bytes}
use egg.Query.Evaluate.{split}

module _ (image : IdNode → List ℕ) (alloc : ℕ → List ℕ)
    (alloc_size : (n : ℕ) → length (alloc n) ≡ n) (node_value : List ℕ → IdNode) where
  -- A query that can be stored: keys and names as the constructors make them, images that are read
  -- back, and records below 2 ^ 31 bytes.
  abbrev pub Storable : Query → Type 0
  Storable (ask a key boost) = IsKey key × (key_record_sz key < 2 ^ 31)
  Storable (held h boost) =
      All IsNode h.field_key
      × All (IsImage node_value image) h.id_nodes
      × (2 + (size_of h.field_key + 8) + 36 * length h.id_nodes < 2 ^ 31)
  Storable (join o boost p q) = Storable p × Storable q

  -- The bytes of a tree, and what is read from them in front of others.
  record Written (tokenize : Tokenizer) (q : Query) : Type 0 where
    bytes : List ℕ
    dumped : tree_bytes image alloc q ≡ some bytes
    sized : tree_sz image alloc q ≡ some (length bytes)
    reads :
        (fuel : ℕ) (rest : List ℕ)
        → length bytes < fuel
        → unserialise_internal node_value tokenize fuel (bytes ++ rest)
          ≡ some (some (split tokenize q), rest)

  module _ (tokenize : Tokenizer) where
    read_ask :
        (fuel : ℕ) (query rest : List ℕ) (a : Ask) (key : Key) (boost : ℕ)
        → next_record node_value query ≡ some (some (asking a key boost), rest)
        → unserialise_internal node_value tokenize (suc fuel) query
          ≡ some (some (analyze_record tokenize (ask a key boost)), rest)
    unfolding unserialise_internal
    read_ask fuel query rest a key boost e = rw e refl

    read_held :
        (fuel : ℕ) (query rest : List ℕ) (h : Held) (boost : ℕ)
        → next_record node_value query ≡ some (some (holding h boost), rest)
        → unserialise_internal node_value tokenize (suc fuel) query
          ≡ some (some (held h boost), rest)
    unfolding unserialise_internal
    read_held fuel query rest h boost e = rw e refl

    read_join :
        (fuel : ℕ) (query₁ query₂ query₃ rest : List ℕ) (o : Join) (boost : ℕ) (p q : Query)
        → next_record node_value query₁ ≡ some (some (joining o boost), query₂)
        → unserialise_internal node_value tokenize fuel query₂ ≡ some (some p, query₃)
        → unserialise_internal node_value tokenize fuel query₃ ≡ some (some q, rest)
        → unserialise_internal node_value tokenize (suc fuel) query₁
          ≡ some (some (join o boost p q), rest)
    unfolding unserialise_internal both_parts
    read_join fuel query₁ query₂ query₃ rest o boost p q e f g = rw (e, f, g) refl

    body_shape :
        (xs ys : List ℕ) (boost : ℕ) (rest : List ℕ)
        → (xs ++ (ys ++ (boost ∷ []))) ++ rest ≡ xs ++ (ys ++ (boost ∷ rest))
    body_shape xs ys boost rest =
        append_assoc xs (ys ++ (boost ∷ [])) rest ∙ ap (◌++◌ xs) (append_assoc ys (boost ∷ []) rest)

    -- To read with fuel left, behind the words of a record's front.
    read_front :
        (fuel : ℕ) (front kind body rest : List ℕ) (r : Option (Option Query × List ℕ))
        → 0 < fuel
        → unserialise_internal node_value tokenize
            (suc (fuel - 1))
            (front ++ (kind ++ (body ++ rest)))
          ≡ r
        → unserialise_internal node_value tokenize fuel ((front ++ (kind ++ body)) ++ rest) ≡ r
    read_front fuel front kind body rest r some_left e =
        let shape : (front ++ (kind ++ body)) ++ rest ≡ front ++ (kind ++ (body ++ rest)) =
          append_assoc front (kind ++ body) rest ∙ ap (◌++◌ front) (append_assoc kind body rest) in
        let left : fuel ≡ suc (fuel - 1) = omega arith in
        ap (unserialise_internal node_value tokenize fuel) shape
        ∙ ap (λ n. unserialise_internal node_value tokenize n (front ++ (kind ++ (body ++ rest))))
            left
        ∙ e

    front_size :
        (sz opt : ℕ) (body : List ℕ)
        → length (le_bytes 4 sz ++ (le_bytes 2 opt ++ body)) ≡ 6 + length body
    front_size sz opt body = simp (length-append, length-le_bytes) (omega arith)

    Written-ask :
        (a : Ask) (key : Key) (boost : ℕ)
        → IsKey key
        → key_record_sz key < 2 ^ 31
        → Written tokenize (ask a key boost)
    unfolding tree_bytes tree_sz record_bytes record_sz
    Written-ask a key boost h small =
        let body = key_bytes key boost in
        let size = front_size (key_record_sz key) (ask_opt a) body in
        record {
          bytes = le_bytes 4 (key_record_sz key) ++ (le_bytes 2 (ask_opt a) ++ body);
          dumped = refl;
          sized = ap some (omega (arith, size, length-key_bytes key boost));
          reads = λ fuel rest enough.
              read_front fuel (le_bytes 4 (key_record_sz key)) (le_bytes 2 (ask_opt a)) body rest _
                (omega (arith, enough, size))
                (read_ask (fuel - 1) _ rest a key boost
                  (ask_reads node_value a key boost rest h small));
        }

    Written-held :
        (h : Held) (boost : ℕ) → Storable (held h boost) → Written tokenize (held h boost)
    unfolding tree_bytes tree_sz record_bytes record_sz
    Written-held h boost (keys, images, small) =
        let sz = size_of h.field_key + 8 in
        let serialised = serialise_lem alloc alloc_size h.field_key keys (omega (arith, small)) in
        let keys_bytes = buffer sz h.field_key [] in
        let nodes_bytes = node_bytes image h.id_nodes in
        let body = keys_bytes ++ (nodes_bytes ++ (boost ∷ [])) in
        let len = (nodes_at-node_bytes node_value image h.id_nodes images).1 in
        let size = front_size (2 + sz + 36 * length h.id_nodes) 0 body in
        let parts = length-append keys_bytes (nodes_bytes ++ (boost ∷ [])) in
        let last = length-append nodes_bytes (boost ∷ []) in
        record {
          bytes = le_bytes 4 (2 + sz + 36 * length h.id_nodes) ++ (le_bytes 2 0 ++ body);
          dumped = rw serialised refl;
          sized =
              rw serialised (
                ap some (omega (arith, size, parts, last, len, length-buffer sz h.field_key keys)));
          reads = λ fuel rest enough.
              read_front fuel (le_bytes 4 (2 + sz + 36 * length h.id_nodes)) (le_bytes 2 0) body
                rest _ (omega (arith, enough, size))
                (ap
                    (λ xs.
                      unserialise_internal node_value tokenize (suc (fuel - 1))
                        (le_bytes 4 (2 + sz + 36 * length h.id_nodes) ++ (le_bytes 2 0 ++ xs)))
                    (body_shape keys_bytes nodes_bytes boost rest)
                  ∙ read_held (fuel - 1) _ rest h boost
                      (held_reads node_value image h boost rest keys images small));
        }

    joined_bytes :
        (front kind : List ℕ) (boost : ℕ) (xs ys rest : List ℕ)
        → ((front ++ (kind ++ (boost ∷ []))) ++ (xs ++ ys)) ++ rest
          ≡ (front ++ (kind ++ (boost ∷ []))) ++ (xs ++ (ys ++ rest))
    joined_bytes front kind boost xs ys rest =
        append_assoc (front ++ (kind ++ (boost ∷ []))) (xs ++ ys) rest
        ∙ ap (◌++◌ (front ++ (kind ++ (boost ∷ [])))) (append_assoc xs ys rest)

    Written-join :
        (o : Join) (boost : ℕ) (p q : Query)
        → Written tokenize p
        → Written tokenize q
        → Written tokenize (join o boost p q)
    unfolding tree_bytes tree_sz record_bytes record_sz
    Written-join o boost p q wp wq =
        let front = le_bytes 4 2 in
        let kind = le_bytes 2 (join_opt o) in
        let head = front ++ (kind ++ (boost ∷ [])) in
        let size : length head ≡ 7 = front_size 2 (join_opt o) (boost ∷ []) in
        let whole = length-append head (wp.bytes ++ wq.bytes) in
        let parts = length-append wp.bytes wq.bytes in
        record {
          bytes = head ++ (wp.bytes ++ wq.bytes);
          dumped = rw (wp.dumped, wq.dumped) refl;
          sized = rw (wp.sized, wq.sized) (ap some (omega (arith, whole, parts, size)));
          reads = λ fuel rest enough.
              ap (unserialise_internal node_value tokenize fuel)
                (joined_bytes front kind boost wp.bytes wq.bytes rest)
              ∙ read_front fuel front kind (boost ∷ []) (wp.bytes ++ (wq.bytes ++ rest)) _
                  (omega (arith, enough))
                  (read_join (fuel - 1) _ (wp.bytes ++ (wq.bytes ++ rest)) (wq.bytes ++ rest) rest o
                    boost (split tokenize p) (split tokenize q)
                    (join_reads node_value o boost (wp.bytes ++ (wq.bytes ++ rest)))
                    (wp.reads (fuel - 1) (wq.bytes ++ rest)
                      (omega (arith, enough, whole, parts, size)))
                    (wq.reads (fuel - 1) rest (omega (arith, enough, whole, parts, size))));
        }

    written : (q : Query) → Storable q → Written tokenize q
    written (ask a key boost) (h, small) = Written-ask a key boost h small
    written (held h boost) stored = Written-held h boost stored
    written (join o boost p q) (hp, hq) = Written-join o boost p q (written p hp) (written q hq)

    serialise_steps :
        (q : Query) (bytes : List ℕ)
        → tree_bytes image alloc q ≡ some bytes
        → tree_sz image alloc q ≡ some (length bytes)
        → length bytes < 2 ^ 31
        → serialise image alloc (some q) ≡ some (some (bytes, length bytes))
    unfolding serialise
    serialise_steps q bytes e f small =
        rw
          (
            e,
            f,
            copy_at-whole (zeros (length bytes)) bytes (sym (zeros_size (length bytes))),
            lt→ltb (length bytes) (2 ^ 31) small,
          )
          refl

    unserialise_steps :
        (bytes : List ℕ) (q : Query)
        → unserialise_internal node_value tokenize (length bytes + 1) bytes ≡ some (some q, [])
        → length bytes < 2 ^ 31
        → unserialise node_value tokenize bytes ≡ some (some q)
    unfolding unserialise
    unserialise_steps bytes q e small = rw (lt→ltb (length bytes) (2 ^ 31) small, e) refl

    -- For a query whose names hold no 0 and are not empty where they may be NULL, whose keys are below
    -- 2 ^ 16 bytes, whose field keys are as `eggFieldKey_new` makes them, whose nodes' images are read
    -- back, and whose stored form is below 2 ^ 31 bytes, `eggQuery_serialise` stays inside its buffer and
    -- fills it, and `eggQuery_unserialise` of the buffer gives the query back with its texts split into
    -- words by the analyzers.
    pub unserialise-serialise_query :
        (q : Query) (sz : ℕ)
        → Storable q
        → tree_sz image alloc q ≡ some sz
        → sz < 2 ^ 31
        → (buf : List ℕ) × (serialise image alloc (some q) ≡ some (some (buf, length buf)))
          × (tree_bytes image alloc q ≡ some buf)
          × (unserialise node_value tokenize buf ≡ some (some (split tokenize q)))
    unserialise-serialise_query q sz stored sized small =
        let w = written q stored in
        let fits : length w.bytes < 2 ^ 31 = ground (arith, sym w.sized ∙ sized) in
        (
          w.bytes,
          serialise_steps q w.bytes w.dumped w.sized fits,
          w.dumped,
          unserialise_steps w.bytes (split tokenize q)
              (ap (unserialise_internal node_value tokenize (length w.bytes + 1))
                  (sym (append-nil w.bytes))
                ∙ w.reads (length w.bytes + 1) [] (omega arith))
              fits,
        )
