-- ===== src/IndexCache/Sequence.antt =====
-- A sequence of insertions into a new cache.
use egg.Base.{ℕ, Option, some, List, [], ◌∷◌, ◌>>=◌, if◌then◌else◌, arith}
use egg.IndexCache.{CacheKey, hash_equal, HashTable, IndexCache, new, insert}
use egg.IndexCache.Insert.{IsCache}

-- The nodes of the items whose key is equal, in their order.
abbrev pub of_key : {A : Type 0} → CacheKey → List (CacheKey × A) → List A
of_key k [] = []
of_key k (item ∷ items) =
    if hash_equal (item.0) k then (item.1) ∷ of_key k items else of_key k items

module _ {A : Type 0} (h : HashTable CacheKey ℕ hash_equal) (alloc : ℕ → List A) (val_sz : ℕ) where
  -- One `eggIndexCache_insert` after the other.
  pub insert_all : IndexCache A h.Table → List (CacheKey × A) → Option (IndexCache A h.Table)
  insert_all c [] = some c
  insert_all c (item ∷ items) = do
    c' ← insert h alloc val_sz c (item.0) (item.1)
    insert_all c' items

  pub new-IsCache : IsCache h (new h alloc val_sz)
  new-IsCache = record {
    vectors = λ k ptr e. ground (arith, h.lookup-new k);
    apart = λ k k' ptr other e e'. ground (arith, h.lookup-new k);
  }
