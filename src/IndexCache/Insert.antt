-- ===== src/IndexCache/Insert.antt =====
-- A cache as the lists of nodes that its keys hold.
use egg.Base.{
  ℕ, zero, suc, ◌+◌, ◌%◌, ◌^◌, ◌<◌, ◌≡◌, ◌≢◌, refl, ap, sym, ◌∙◌, true, false, Option, none, some,
  ◌⊎◌, List, [], ◌∷◌, ◌++◌, length, take, set, get_elem?, get_elem?-front, get_elem?-set,
  get_elem?-set_other, length-take, ◌==◌, if◌then◌else◌, arith, Bool-cases, Option-cases, inl, inr,
}
use egg.Repeat.Compact.{get_elem?-behind}
use egg.Vector.{Vector, vector_create, vector_push}
use egg.Vector.Push.{IsVector, vector_create_lem, vector_push_lem}
use egg.IndexCache.{CacheKey, hash_equal, HashTable, IndexCache, val_fetch, insert, copy_key}
use egg.IndexCache.Keys.{hash_equal_common, IsWhole, copy_key-whole}
use egg.IdNode.{idnode_sz}

abbrev at_pointer : {A : Type 0} → Option (Vector A) → List A
at_pointer none = []
at_pointer (some v) = val_fetch v

abbrev pub pointed : {A : Type 0} → List (Vector A) → Option ℕ → List A
pointed store none = []
pointed store (some ptr) = at_pointer (get_elem? store ptr)

get_elem?-inside :
    {A : Type 0} (xs : List A) (i : ℕ) (x : A) → get_elem? xs i ≡ some x → i < length xs
get_elem?-inside [] i x e = absurd (ground arith)
get_elem?-inside (y ∷ xs) zero x e = omega arith
get_elem?-inside (y ∷ xs) (suc i) x e = omega (arith, get_elem?-inside xs i x e)

module _ {A : Type 0} (h : HashTable CacheKey ℕ hash_equal) where
  -- What `eggIndexCacheVal_fetch` shows of the vector that `eggIndexCache_lookup` finds.
  abbrev pub nodes_of : IndexCache A h.Table → CacheKey → List A
  nodes_of c key = pointed c.store (h.hash_lookup c.table key)

  -- Each key points to a vector, and keys that differ to vectors that differ.
  pub record IsCache (c : IndexCache A h.Table) : Type 0 where
    pub vectors :
        (k : CacheKey) (ptr : ℕ)
        → h.hash_lookup c.table k ≡ some ptr
        → (v : Vector A) × (get_elem? c.store ptr ≡ some v) × IsVector v
    pub apart :
        (k k' : CacheKey) (ptr : ℕ)
        → hash_equal k k' ≡ false
        → h.hash_lookup c.table k ≡ some ptr
        → h.hash_lookup c.table k' ≡ some ptr
        → ⊥

  -- A first node makes a vector behind the others.
  module _ (c : IndexCache A h.Table) (valid : IsCache c) (key : CacheKey)
      (is_new : h.hash_lookup c.table key ≡ none) (v : Vector A) (v_valid : IsVector v)
      (cnt size : ℕ) where
    abbrev grown : IndexCache A h.Table
    grown = record {
      table = h.hash_insert c.table key (length c.store);
      a_cnt = cnt;
      a_size = size;
      store = c.store ++ (v ∷ []);
    }

    old_inside :
        (k : CacheKey) (ptr : ℕ) → h.hash_lookup c.table k ≡ some ptr → ptr < length c.store
    old_inside k ptr e =
        let (w, found, w_valid) = valid.vectors k ptr e in get_elem?-inside c.store ptr w found

    -- A key of the new table is the new one, or points to an old vector.
    grown_lookup :
        (k : CacheKey) (ptr : ℕ)
        → h.hash_lookup grown.table k ≡ some ptr
        → ((hash_equal key k ≡ true) × (ptr ≡ length c.store))
          ⊎ ((hash_equal key k ≡ false) × (h.hash_lookup c.table k ≡ some ptr))
    grown_lookup k ptr e = elim (Bool-cases (hash_equal key k)) [
      | inl same ↦
          inl (same, ground (arith, sym (h.lookup-insert c.table key k (length c.store) same) ∙ e))
      | inr other ↦
          inr (other, sym (h.lookup-insert_other c.table key k (length c.store) other) ∙ e)
    ]

    grown-IsCache : IsCache grown
    grown-IsCache = record {
      vectors = λ k ptr e. elim (grown_lookup k ptr e) [
        | inl (same, last) ↦ (v, get_elem?-behind c.store v [] ptr last, v_valid)
        | inr (other, old) ↦
            let (w, found, w_valid) = valid.vectors k ptr old in
            (w, get_elem?-front c.store (v ∷ []) ptr (old_inside k ptr old) ∙ found, w_valid)
      ];
      apart = λ k k' ptr other e e'. elim (grown_lookup k ptr e) [
        | inl (same, last) ↦ elim (grown_lookup k' ptr e') [
          | inl (same', last') ↦ ground (arith, hash_equal_common key k k' same same')
          | inr (other', old') ↦ omega (arith, old_inside k' ptr old')
        ]
        | inr (other1, old) ↦ elim (grown_lookup k' ptr e') [
          | inl (same', last') ↦ omega (arith, old_inside k ptr old)
          | inr (other', old') ↦ valid.apart k k' ptr other old old'
        ]
      ];
    }

    grown-nodes :
        (k : CacheKey) → nodes_of grown k ≡ (if hash_equal key k then val_fetch v else nodes_of c k)
    grown-nodes k = elim (Bool-cases (hash_equal key k)) [
      | inl same ↦
          rw (h.lookup-insert c.table key k (length c.store) same, same)
            (ap at_pointer (get_elem?-behind c.store v [] (length c.store) refl))
      | inr other ↦ elim (Option-cases (h.hash_lookup c.table k)) [
        | inl none_there ↦
            rw (h.lookup-insert_other c.table key k (length c.store) other, other, none_there) refl
        | inr (ptr, there) ↦
            rw (h.lookup-insert_other c.table key k (length c.store) other, other, there)
              (ap at_pointer (get_elem?-front c.store (v ∷ []) ptr (old_inside k ptr there)))
      ]
    ]

  -- A node more goes into the vector that the key points to.
  module _ (c : IndexCache A h.Table) (valid : IsCache c) (key : CacheKey) (at : ℕ)
      (there : h.hash_lookup c.table key ≡ some at) (v : Vector A) (v_valid : IsVector v)
      (size : ℕ) where
    abbrev changed : IndexCache A h.Table
    changed = record c { a_size = size; store = set c.store at v }

    at_inside : at < length c.store
    at_inside =
        let (w, found, w_valid) = valid.vectors key at there in get_elem?-inside c.store at w found

    changed_vectors :
        (ptr : ℕ) (w : Vector A)
        → get_elem? c.store ptr ≡ some w
        → IsVector w
        → (u : Vector A) × (get_elem? (set c.store at v) ptr ≡ some u) × IsVector u
    changed_vectors ptr w found w_valid = elim (Bool-cases (at == ptr)) [
      | inl same ↦
          let e : at ≡ ptr = ground arith in
          (
            v,
            ap (get_elem? (set c.store at v)) (sym e) ∙ get_elem?-set c.store at v at_inside,
            v_valid,
          )
      | inr other ↦ (w, get_elem?-set_other c.store at ptr v (λ e. ground arith) ∙ found, w_valid)
    ]

    changed-IsCache : IsCache changed
    changed-IsCache = record {
      vectors = λ k ptr e.
          let (w, found, w_valid) = valid.vectors k ptr e in changed_vectors ptr w found w_valid;
      apart = valid.apart;
    }

    changed-nodes :
        (k : CacheKey)
        → nodes_of changed k ≡ (if hash_equal key k then val_fetch v else nodes_of c k)
    changed-nodes k = elim (Bool-cases (hash_equal key k)) [
      | inl same ↦
          rw (← h.lookup-equal c.table key k same, there, same)
            (ap at_pointer (get_elem?-set c.store at v at_inside))
      | inr other ↦ elim (Option-cases (h.hash_lookup c.table k)) [
        | inl none_there ↦ rw (other, none_there) refl
        | inr (ptr, points) ↦
            let away : at ≢ ptr =
              λ e. valid.apart key k ptr other (there ∙ ap (λ n. some n) e) points in
            rw (other, points) (ap at_pointer (get_elem?-set_other c.store at ptr v away))
      ]
    ]

  module _ (alloc : ℕ → List A) (val_sz : ℕ) where
    insert-first :
        (c : IndexCache A h.Table) (key : CacheKey) (node : A) (v : Vector A)
        → h.hash_lookup c.table key ≡ none
        → vector_push alloc idnode_sz vector_create (node ∷ []) ≡ some (true, v)
        → copy_key key ≡ some key
        → insert h alloc val_sz c key node
          ≡ some (record {
            table = h.hash_insert c.table key (length c.store);
            a_cnt = (c.a_cnt + 1) % 2 ^ 32;
            a_size = ((c.a_size + val_sz) % 2 ^ 32 + idnode_sz) % 2 ^ 32;
            store = c.store ++ (v ∷ []);
          })
    unfolding insert
    insert-first c key node v is_new pushed copied = rw (is_new, pushed, copied) refl

    insert-more :
        (c : IndexCache A h.Table) (key : CacheKey) (node : A) (at : ℕ) (w v : Vector A)
        → h.hash_lookup c.table key ≡ some at
        → get_elem? c.store at ≡ some w
        → vector_push alloc idnode_sz w (node ∷ []) ≡ some (true, v)
        → insert h alloc val_sz c key node
          ≡ some (record c { a_size = (c.a_size + idnode_sz) % 2 ^ 32; store = set c.store at v })
    unfolding insert
    insert-more c key node at w v there found pushed = rw (there, found, pushed) refl

    module _ (alloc_size : (n : ℕ) → length (alloc n) ≡ n) where
      -- In a cache whose keys point to vectors of their own, and for a whole key with less than 2 ^ 25 nodes,
      -- `eggIndexCache_insert` puts the node behind those that are found under the key or one that
      -- `egg_hash_equal` holds for it, leaves what is found under the other keys, and the cache stays such.
      pub insert_lem :
          (c : IndexCache A h.Table) (key : CacheKey) (node : A)
          → IsCache c
          → IsWhole key
          → length (nodes_of c key) < 2 ^ 25
          → (c' : IndexCache A h.Table) × (insert h alloc val_sz c key node ≡ some c')
            × IsCache c'
            × ((k : CacheKey)
                → nodes_of c' k
                  ≡ (if hash_equal key k then nodes_of c key ++ (node ∷ []) else nodes_of c k))
      insert_lem c key node valid whole_key few = elim (Option-cases (h.hash_lookup c.table key)) [
        | inl is_new ↦
            let (created, none_yet, blank) = vector_create_lem {A = A} in
            let (v, pushed, v_valid, shown) =
              vector_push_lem alloc alloc_size idnode_sz vector_create node [] created
                (omega (arith, none_yet)) (omega (arith, none_yet)) in
            let whole : val_fetch v ≡ nodes_of c key ++ (node ∷ []) =
              shown
              ∙ ap (λ l. take (vector_create {A = A}).e_count l ++ (node ∷ [])) blank
              ∙ ap (λ n. take n [] ++ (node ∷ [])) none_yet
              ∙ ap (λ o. pointed c.store o ++ (node ∷ [])) (sym is_new) in
            let cnt = (c.a_cnt + 1) % 2 ^ 32 in
            let size = ((c.a_size + val_sz) % 2 ^ 32 + idnode_sz) % 2 ^ 32 in
            (
              grown c valid key is_new v v_valid cnt size,
              insert-first c key node v is_new pushed (copy_key-whole key whole_key),
              grown-IsCache c valid key is_new v v_valid cnt size,
              λ k.
                  grown-nodes c valid key is_new v v_valid cnt size k
                  ∙ ap (λ l. if hash_equal key k then l else nodes_of c k) whole,
            )
        | inr (at, there) ↦
            let (w, found, w_valid) = valid.vectors key at there in
            let held : nodes_of c key ≡ val_fetch w =
              ap (pointed c.store) there ∙ ap at_pointer found in
            let used : w.e_count ≡ length (nodes_of c key) =
              omega (
                arith,
                ap length held,
                length-take w.e_count w.cells,
                w_valid.used,
                w_valid.block,
              ) in
            let (v, pushed, v_valid, shown) =
              vector_push_lem alloc alloc_size idnode_sz w node [] w_valid
                (omega (arith, used, few)) (omega (arith, used, few)) in
            let whole : val_fetch v ≡ nodes_of c key ++ (node ∷ []) =
              shown ∙ ap (λ l. l ++ (node ∷ [])) (sym held) in
            let size = (c.a_size + idnode_sz) % 2 ^ 32 in
            (
              changed c valid key at there v v_valid size,
              insert-more c key node at w v there found pushed,
              changed-IsCache c valid key at there v v_valid size,
              λ k.
                  changed-nodes c valid key at there v v_valid size k
                  ∙ ap (λ l. if hash_equal key k then l else nodes_of c k) whole,
            )
      ]
