-- ===== src/IndexCache/Keys.antt =====
-- `egg_hash_equal` makes keys one key as an equality does.
use egg.Base.{
  ◌≡◌, refl, ap, sym, ◌∙◌, true, take, ◌==◌, arith, Bool-cases, inl, inr, ◌+◌, ◌-◌, false, some,
  length, ltb, take-all,
}
use egg.FieldKey.{bytes_eq}
use egg.FieldKey.Matching.{bytes_eq-true, bytes_eq_refl}
use egg.IndexCache.{CacheKey, hash_equal, behind_header, copy_key}
use egg.Field.Values.{read_bytes-inside}

pub record SameKey (k k' : CacheKey) : Type 0 where
  pub size : k'.size ≡ k.size
  pub mask : k'.mask ≡ k.mask
  pub bytes : take (behind_header k'.size) k.bytes ≡ take (behind_header k'.size) k'.bytes

hash_equal-true : (k k' : CacheKey) → hash_equal k k' ≡ true → SameKey k k'
unfolding hash_equal
hash_equal-true k k' h = elim (Bool-cases (k'.size == k.size)) [
  | inl e ↦ elim (Bool-cases (k'.mask == k.mask)) [
    | inl e' ↦
        let same : bytes_eq (take (behind_header k'.size) k.bytes)
              (take (behind_header k'.size) k'.bytes)
            ≡ true =
          ground arith in
        record {
          size = ground arith;
          mask = ground arith;
          bytes =
              bytes_eq-true (take (behind_header k'.size) k.bytes)
                (take (behind_header k'.size) k'.bytes) same;
        }
    | inr e' ↦ absurd (ground arith)
  ]
  | inr e ↦ absurd (ground arith)
]

pub hash_equal_refl : (k : CacheKey) → hash_equal k k ≡ true
unfolding hash_equal
hash_equal_refl k = ground (arith, bytes_eq_refl (take (behind_header k.size) k.bytes))

-- Keys that are equal compare in the same way with any key.
pub hash_equal-same :
    (j k k' : CacheKey) → hash_equal k k' ≡ true → hash_equal j k ≡ hash_equal j k'
unfolding hash_equal
hash_equal-same j k k' h =
    let s = hash_equal-true k k' h in
    let bytes : take (behind_header k.size) k.bytes ≡ take (behind_header k.size) k'.bytes =
      ap (λ n. take (behind_header n) k.bytes) (sym s.size)
      ∙ s.bytes
      ∙ ap (λ n. take (behind_header n) k'.bytes) s.size in
    rw (s.size, s.mask, bytes) refl

pub hash_equal_sym : (k k' : CacheKey) → hash_equal k k' ≡ true → hash_equal k' k ≡ true
hash_equal_sym k k' h = hash_equal-same k' k k' h ∙ hash_equal_refl k'

-- Two keys that equal a third are equal.
pub hash_equal_common :
    (k k1 k2 : CacheKey) → hash_equal k k1 ≡ true → hash_equal k k2 ≡ true → hash_equal k1 k2 ≡ true
hash_equal_common k k1 k2 h1 h2 = sym (hash_equal-same k1 k k2 h2) ∙ hash_equal_sym k k1 h1

-- A key with the bytes that its size counts, as `eggIndexCacheKey_new` makes it of a short text.
abbrev pub IsWhole : CacheKey → Type 0
IsWhole k = k.size ≡ 8 + length k.bytes

pub copy_key-whole : (k : CacheKey) → IsWhole k → copy_key k ≡ some k
unfolding copy_key
copy_key-whole k h =
    let long : ltb k.size 8 ≡ false = ground arith in
    rw (long, read_bytes-inside (k.size - 8) k.bytes (omega arith))
      (ap (λ bytes. some (record k { bytes = bytes }))
        (take-all (k.size - 8) k.bytes (omega arith)))
