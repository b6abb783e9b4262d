-- ===== src/Field/Node.antt =====
-- The header of the node of a field, and the copies behind it.
use egg.Base.{
  ℕ, ◌+◌, ◌%◌, ◌^◌, ◌<◌, ◌≡◌, refl, ap, sym, ◌∙◌, some, List, [], ◌++◌, length, drop-append,
  length-append, append_assoc, arith,
}
use egg.Base.Bytes.{
  le_bytes, zeros, zeros-split, length-le_bytes, le_value-le_bytes_2, read_bytes-append,
}
use egg.Vector.{copy_at}
use egg.Vector.Copy.{copy_at-part}
use egg.Field.{read_off, put_last, put_bytes, node_header}

-- The header, then the bytes behind it.
abbrev pub node_of : ℕ → ℕ → ℕ → List ℕ → List ℕ
node_of size type off body = (le_bytes 4 size ++ le_bytes 2 type) ++ (le_bytes 2 off ++ body)

pub header_size : (size type : ℕ) → length (le_bytes 4 size ++ le_bytes 2 type) ≡ 6
header_size size type = omega (
  arith,
  length-append (le_bytes 4 size) (le_bytes 2 type),
  length-le_bytes 4 size,
  length-le_bytes 2 type,
)

read_off-node :
    (size type off : ℕ) (body : List ℕ)
    → off < 2 ^ 16
    → read_off (node_of size type off body) ≡ some off
read_off-node size type off body small =
    rw
      (
        drop-append (le_bytes 4 size ++ le_bytes 2 type) (le_bytes 2 off ++ body) 6
            (sym (header_size size type)),
        read_bytes-append 2 (le_bytes 2 off) body (sym (length-le_bytes 2 off)),
        le_value-le_bytes_2 off small,
      )
      refl

-- What lies in front of a part of the body is in front of the part.
node_parts :
    (size type off : ℕ) (front rest : List ℕ)
    → node_of size type off (front ++ rest)
      ≡ (((le_bytes 4 size ++ le_bytes 2 type) ++ le_bytes 2 off) ++ front) ++ rest
node_parts size type off front rest =
    let head = le_bytes 4 size ++ le_bytes 2 type in
    sym (append_assoc head (le_bytes 2 off) (front ++ rest))
    ∙ sym (append_assoc (head ++ le_bytes 2 off) front rest)

pub put_last-node :
    (size type off : ℕ) (front old back bytes : List ℕ)
    → off ≡ 8 + length front
    → off < 2 ^ 16
    → length old ≡ length bytes
    → put_last (node_of size type off (front ++ (old ++ back))) bytes
      ≡ some (node_of size type off (front ++ (bytes ++ back)))
unfolding put_last
put_last-node size type off front old back bytes e small same =
    let head = le_bytes 4 size ++ le_bytes 2 type in
    let place : off ≡ length ((head ++ le_bytes 2 off) ++ front) = omega (
      arith,
      e,
      header_size size type,
      length-le_bytes 2 off,
      length-append head (le_bytes 2 off),
      length-append (head ++ le_bytes 2 off) front,
    ) in
    rw (read_off-node size type off (front ++ (old ++ back)) small) (
      ap (λ l. copy_at l off bytes) (node_parts size type off front (old ++ back))
      ∙ copy_at-part ((head ++ le_bytes 2 off) ++ front) old back bytes off place same
      ∙ ap some (sym (node_parts size type off front (bytes ++ back))))

pub put_bytes-node :
    (size type off off' : ℕ) (front old back bytes : List ℕ)
    → off ≡ 8 + length front
    → off' ≡ off + length bytes
    → off' < 2 ^ 16
    → length old ≡ length bytes
    → put_bytes (node_of size type off (front ++ (old ++ back))) bytes
      ≡ some (node_of size type off' (front ++ (bytes ++ back)))
unfolding put_bytes
put_bytes-node size type off off' front old back bytes e e' small same =
    let next : (off + length bytes) % 2 ^ 16 ≡ off' = omega (arith, e') in
    rw
      (
        put_last-node size type off front old back bytes e (omega (arith, e')) same,
        read_off-node size type off (front ++ (bytes ++ back)) (omega (arith, e')),
        next,
      )
      (copy_at-part (le_bytes 4 size ++ le_bytes 2 type) (le_bytes 2 off) (front ++ (bytes ++ back))
        (le_bytes 2 off') 6 (sym (header_size size type))
        (length-le_bytes 2 off ∙ sym (length-le_bytes 2 off')))

zeros_of : (size k : ℕ) → size ≡ 8 + k → zeros size ≡ zeros 4 ++ (zeros 2 ++ (zeros 2 ++ zeros k))
zeros_of size k e = sym (
    ap (λ l. zeros 4 ++ (zeros 2 ++ l)) (zeros-split 2 k)
    ∙ ap (λ l. zeros 4 ++ l) (zeros-split 2 (2 + k))
    ∙ zeros-split 4 (2 + (2 + k))
    ∙ ap zeros {x = 4 + (2 + (2 + k))} {y = size} (omega (arith, e)))

pub node_header-node :
    (size type k : ℕ) → size ≡ 8 + k → node_header size type ≡ some (node_of size type 8 (zeros k))
unfolding node_header
node_header-node size type k e =
    let word = le_bytes 4 size in
    rw
      (
        zeros_of size k e,
        copy_at-part [] (zeros 4) (zeros 2 ++ (zeros 2 ++ zeros k)) word 0 refl
            (sym (length-le_bytes 4 size)),
        copy_at-part word (zeros 2) (zeros 2 ++ zeros k) (le_bytes 2 type) 4
            (sym (length-le_bytes 4 size)) (sym (length-le_bytes 2 type)),
      )
      (ap (λ l. copy_at l 6 (le_bytes 2 8))
          (sym (append_assoc word (le_bytes 2 type) (zeros 2 ++ zeros k)))
        ∙ copy_at-part (word ++ le_bytes 2 type) (zeros 2) (zeros k) (le_bytes 2 8) 6
            (sym (header_size size type)) (sym (length-le_bytes 2 8)))
