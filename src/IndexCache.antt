-- ===== src/IndexCache.antt =====
-- egg3/src/index/eggIndexCache.c and egg3/src/eggIndexCache.h: the nodes of the documents that hold a key,
-- before they are written to the index. A `GHashTable` maps a key to the pointer of a vector, which lies in
-- a store and grows where it lies: a pointer is an index into the store. `none` is an access outside,
-- or a vector whose bytes leave 32 bits.
pub mod Keys
pub mod Insert
pub mod Sequence
mod Runs
use egg.Base.{
  ℕ, ◌+◌, ◌-◌, ◌%◌, ◌^◌, ◌≡◌, Bool, true, false, Option, none, some, List, [], ◌∷◌, ◌++◌, ◌>>=◌,
  length, take, set, get_elem?, ◌==◌, if◌then◌else◌, ltb,
}
use egg.Base.Bytes.{read_bytes}
use egg.FieldKey.{bytes_eq}
use egg.Vector.{Vector, vector_create, vector_push}
use egg.IdNode.{idnode_sz}

-- `struct eggIndexCacheKey`, of 8 bytes, with the bytes behind it.
pub record CacheKey : Type 0 where
  pub size : ℕ
  pub type : ℕ
  pub mask : ℕ
  pub life_cycle : ℕ
  pub bytes : List ℕ

pub key_new : ℕ → ℕ → List ℕ → ℕ → Option CacheKey
key_new type mask key sz = do
  bytes ← read_bytes sz key
  some (record {
    size = (8 + sz + 1) % 2 ^ 16;
    type = type;
    mask = mask;
    life_cycle = 1;
    bytes = bytes ++ (0 ∷ []);
  })

-- `size - sizeof(EGGINDEXCACHEKEY)`, a `size_t`: of a size below 8 it is longer than any block.
abbrev pub behind_header : ℕ → ℕ
behind_header size = (size + 2 ^ 64 - 8) % 2 ^ 64

-- `egg_hash_equal`; of a block that ends before the count all is compared.
unfoldable pub hash_equal : CacheKey → CacheKey → Bool
unfolding bytes_eq
hash_equal key1 key2 =
    if key2.size == key1.size
    then if key2.mask == key1.mask
      then bytes_eq (take (behind_header key2.size) key1.bytes)
          (take (behind_header key2.size) key2.bytes)
      else false
    else false

-- What the cache uses of `GHashTable`, for keys that `equal` makes one key: glib's documentation of
-- `g_hash_table_new`, `_lookup` and `_insert`.
pub record HashTable (K V : Type 0) (equal : K → K → Bool) : Type 1 where
  pub Table : Type 0
  pub table_new : Table
  pub hash_lookup : Table → K → Option V
  pub hash_insert : Table → K → V → Table
  pub lookup-new : (k : K) → hash_lookup table_new k ≡ none
  pub lookup-equal : (t : Table) (k k' : K) → equal k k' ≡ true → hash_lookup t k ≡ hash_lookup t k'
  pub lookup-insert :
      (t : Table) (k k' : K) (v : V)
      → equal k k' ≡ true
      → hash_lookup (hash_insert t k v) k' ≡ some v
  pub lookup-insert_other :
      (t : Table) (k k' : K) (v : V)
      → equal k k' ≡ false
      → hash_lookup (hash_insert t k v) k' ≡ hash_lookup t k'

-- `struct eggIndexCache`, with the store of the vectors.
pub record IndexCache (A Table : Type 0) : Type 0 where
  pub table : Table
  pub a_cnt : ℕ
  pub a_size : ℕ
  pub store : List (Vector A)

module _ {A : Type 0} (alloc : ℕ → List A) where
  -- `eggIndexCacheVal_add`: the store, and the pointer that is returned.
  pub val_add : List (Vector A) → Option ℕ → A → Option (List (Vector A) × ℕ)
  val_add store none node = do
    r ← vector_push alloc idnode_sz vector_create (node ∷ [])
    some (store ++ ((r.1) ∷ []), length store)
  val_add store (some ptr) node = do
    v ← get_elem? store ptr
    r ← vector_push alloc idnode_sz v (node ∷ [])
    some (set store ptr (r.1), ptr)

-- `eggIndexCacheVal_fetch`: `Uti_vector_data`, as many as `Uti_vector_count`.
abbrev pub val_fetch : {A : Type 0} → Vector A → List A
val_fetch v = take v.e_count v.cells

-- `malloc(size)` and `memcpy` of the key: its header and what lies behind it.
unfoldable pub copy_key : CacheKey → Option CacheKey
copy_key key =
    let copy = (do
      bytes ← read_bytes (key.size - 8) key.bytes
      some (record key { bytes = bytes })) in
    if ltb key.size 8 then none else copy

-- `val_sz` is `sizeof(EGGINDEXCACHEVAL)`.
module _ {A : Type 0} (h : HashTable CacheKey ℕ hash_equal) (alloc : ℕ → List A) (val_sz : ℕ) where
  abbrev pub new : IndexCache A h.Table
  new = record { table = h.table_new; a_cnt = 0; a_size = 0; store = [] }

  -- The table after the vector has been changed; a new key is copied.
  abbrev entered :
      IndexCache A h.Table
      → CacheKey
      → Option ℕ
      → List (Vector A) × ℕ
      → Option (IndexCache A h.Table)
  entered c key none (store, ptr) = do
    copy ← copy_key key
    some (record c {
      table = h.hash_insert c.table copy ptr;
      a_cnt = (c.a_cnt + 1) % 2 ^ 32;
      a_size = (c.a_size + val_sz) % 2 ^ 32;
      store = store;
    })
  entered c key (some found) (store, ptr) = some (record c { store = store })

  pub insert : IndexCache A h.Table → CacheKey → A → Option (IndexCache A h.Table)
  unfolding val_add copy_key
  insert c key node = do
    r ← val_add alloc c.store (h.hash_lookup c.table key) node
    c' ← entered c key (h.hash_lookup c.table key) r
    some (record c' { a_size = (c'.a_size + idnode_sz) % 2 ^ 32 })

  abbrev pub lookup : IndexCache A h.Table → CacheKey → Option ℕ
  lookup c key = h.hash_lookup c.table key
