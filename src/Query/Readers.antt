-- ===== src/Query/Readers.antt =====
-- The readers of stored queries give back what was written, in front of other bytes.
use egg.Base.{
  ℕ, ◌+◌, ◌^◌, ◌<◌, ◌≡◌, ◌≢◌, refl, ap, sym, false, Option, none, some, List, [], ◌∷◌, ◌++◌,
  append_assoc, length, length-append, drop-append, All, ◌==◌, arith,
}
use egg.Base.Bytes.{
  le_bytes, length-le_bytes, le_value-le_bytes_2, read_bytes-append, c_string-append, drop_past,
}
use egg.Query.{Ask, Join, Key, range, term, phrase, term_or, or, and, and_phrase, minus}
use egg.Query.Stored.{
  ask_opt, join_opt, ask_kind, join_kind, data_kind, kind_of, name_bytes, key_bytes, name_sz,
  key_record_sz, read_u16, read_str, read_block, read_name, read_byte, read_key,
}

pub read_u16-append : (w : ℕ) (ys : List ℕ) → w < 2 ^ 16 → read_u16 (le_bytes 2 w ++ ys) ≡ some w
unfolding read_u16
read_u16-append w ys h =
    rw (read_bytes-append 2 (le_bytes 2 w) ys (sym (length-le_bytes 2 w)))
      (ap some (le_value-le_bytes_2 w h))

pub read_str-append :
    (chars ys : List ℕ) → All (λ c. c ≢ 0) chars → read_str (chars ++ (0 ∷ ys)) ≡ some (chars, ys)
unfolding read_str
read_str-append chars ys h = rw (c_string-append chars ys h, drop_past chars 0 ys) refl

pub read_block-append :
    (xs ys : List ℕ)
    → length xs < 2 ^ 16
    → read_block (le_bytes 2 (length xs) ++ (xs ++ ys)) ≡ some (xs, ys)
unfolding read_block
read_block-append xs ys h =
    rw
      (
        read_u16-append (length xs) (xs ++ ys) h,
        drop-append (le_bytes 2 (length xs)) (xs ++ ys) 2 (sym (length-le_bytes 2 (length xs))),
        read_bytes-append (length xs) xs ys refl,
        drop-append xs ys (length xs) refl,
      )
      refl

-- A name as the constructors of queries make it: NULL, or not empty and without a 0.
abbrev pub IsName : Option (List ℕ) → Type 0
IsName none = Unit
IsName (some []) = ⊥
IsName (some (c ∷ chars)) = All (λ d. d ≢ 0) (c ∷ chars)

pub read_name-append :
    (name : Option (List ℕ)) (ys : List ℕ)
    → IsName name
    → read_name (name_bytes name ++ ys) ≡ some (name, ys)
unfolding read_name name_bytes
read_name-append none ys h = refl
read_name-append (some []) ys h = absurd h
read_name-append (some (c ∷ chars)) ys h =
    let other : (c == 0) ≡ false = ground (arith, h.0) in
    rw (append_assoc chars (0 ∷ []) ys, other, read_str-append (c ∷ chars) ys h) refl

pub length-name_bytes : (name : Option (List ℕ)) → length (name_bytes name) ≡ name_sz name
unfolding name_bytes name_sz
length-name_bytes none = refl
length-name_bytes (some chars) = length-append chars (0 ∷ [])

-- What a node may ask for.
pub record IsKey (key : Key) : Type 0 where
  pub field_chars : All (λ c. c ≢ 0) key.field_name
  pub key1_small : length key.key1 < 2 ^ 16
  pub key2_small : length key.key2 < 2 ^ 16
  pub analyzer : IsName key.analyzer_name
  pub dict : IsName key.dict_name

key_shape :
    (name k1 k2 an dn : List ℕ) (n1 n2 : List ℕ) (boost : ℕ) (ys : List ℕ)
    → (name ++ (0 ∷ (n1 ++ (k1 ++ (n2 ++ (k2 ++ (an ++ (dn ++ (boost ∷ []))))))))) ++ ys
      ≡ name ++ (0 ∷ (n1 ++ (k1 ++ (n2 ++ (k2 ++ (an ++ (dn ++ (boost ∷ ys))))))))
key_shape name k1 k2 an dn n1 n2 boost ys = simp append_assoc

pub read_key-append :
    (key : Key) (boost : ℕ) (ys : List ℕ)
    → IsKey key
    → read_key (key_bytes key boost ++ ys) ≡ some (key, boost, ys)
unfolding read_key key_bytes read_byte
read_key-append key boost ys h =
    let n1 = le_bytes 2 (length key.key1) in
    let n2 = le_bytes 2 (length key.key2) in
    let an = name_bytes key.analyzer_name in
    let dn = name_bytes key.dict_name in
    rw
      (
        key_shape key.field_name key.key1 key.key2 an dn n1 n2 boost ys,
        read_str-append key.field_name _ h.field_chars,
        read_block-append key.key1 _ h.key1_small,
        read_block-append key.key2 _ h.key2_small,
        read_name-append key.analyzer_name _ h.analyzer,
        read_name-append key.dict_name _ h.dict,
      )
      refl

pub length-key_bytes :
    (key : Key) (boost : ℕ) → length (key_bytes key boost) + 2 ≡ key_record_sz key + 1
unfolding key_bytes key_record_sz
length-key_bytes key boost = simp (length-append, length-le_bytes, length-name_bytes) (omega arith)

pub kind_of-ask : (a : Ask) → (kind_of (ask_opt a) ≡ some (ask_kind a)) × (ask_opt a < 2 ^ 16)
unfolding kind_of ask_opt
kind_of-ask range = (refl, omega arith)
kind_of-ask term = (refl, omega arith)
kind_of-ask phrase = (refl, omega arith)
kind_of-ask term_or = (refl, omega arith)

pub kind_of-join : (o : Join) → (kind_of (join_opt o) ≡ some (join_kind o)) × (join_opt o < 2 ^ 16)
unfolding kind_of join_opt
kind_of-join or = (refl, omega arith)
kind_of-join and = (refl, omega arith)
kind_of-join and_phrase = (refl, omega arith)
kind_of-join minus = (refl, omega arith)

pub kind_of-data : kind_of 0 ≡ some data_kind
unfolding kind_of
kind_of-data = refl
