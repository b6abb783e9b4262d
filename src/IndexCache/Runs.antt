-- ===== src/IndexCache/Runs.antt =====
-- The theorems at a concrete cache, with an association list as the hash table.
use egg.Base.{ℕ, ◌≡◌, refl, true, Option, none, some, List, [], ◌∷◌, if◌then◌else◌}
use egg.IndexCache.{CacheKey, hash_equal, HashTable, IndexCache}
use egg.FieldKey.{bytes_eq}
use egg.IndexCache.Keys.{hash_equal-same}
use egg.IndexCache.Sequence.{of_key}

abbrev assoc_lookup : List (CacheKey × ℕ) → CacheKey → Option ℕ
assoc_lookup [] k = none
assoc_lookup (entry ∷ t) k = if hash_equal (entry.0) k then some (entry.1) else assoc_lookup t k

assoc_lookup-equal :
    (t : List (CacheKey × ℕ)) (k k' : CacheKey)
    → hash_equal k k' ≡ true
    → assoc_lookup t k ≡ assoc_lookup t k'
assoc_lookup-equal [] k k' h = refl
assoc_lookup-equal (entry ∷ t) k k' h =
    rw (hash_equal-same (entry.0) k k' h, assoc_lookup-equal t k k' h) refl

abbrev assoc : HashTable CacheKey ℕ hash_equal
assoc = record {
  Table = List (CacheKey × ℕ);
  table_new = [];
  hash_lookup = assoc_lookup;
  hash_insert = λ t k v. (k, v) ∷ t;
  lookup-new = λ k. refl;
  lookup-equal = assoc_lookup-equal;
  lookup-insert = λ t k k' v e. rw e refl;
  lookup-insert_other = λ t k k' v e. rw e refl;
}

abbrev key_of : ℕ → CacheKey
key_of char = record { size = 10; type = 1; mask = 1; life_cycle = 1; bytes = char ∷ 0 ∷ [] }

abbrev three_items : List (CacheKey × ℕ)
three_items = (key_of 97, 11) ∷ (key_of 98, 12) ∷ (key_of 97, 13) ∷ []

-- The key is found with both of its nodes.
of_key-three : of_key (key_of 97) three_items ≡ 11 ∷ 13 ∷ []
unfolding hash_equal bytes_eq
of_key-three = refl
