-- ===== src/Document/Header.antt =====
-- The words that `eggDocument_serialization` writes in front of the fields.
use egg.Base.{
  ℕ, ◌+◌, ◌≤◌, ◌≡◌, refl, ap, sym, ◌∙◌, some, List, [], ◌∷◌, ◌++◌, append_assoc, length,
  length-append, length-take, length-drop, take, drop, take-drop, drop-append, arith,
}
use egg.Base.Bytes.{le_bytes, length-le_bytes}
use egg.Vector.{copy_at}
use egg.Vector.Copy.{copy_at-part, copy_at-behind}
use egg.Document.{node_header}

-- A block in two parts, the first of `n` bytes.
cut :
    (n : ℕ) (xs : List ℕ)
    → n ≤ length xs
    → (a : List ℕ) × (b : List ℕ) × (xs ≡ a ++ b) × (length a ≡ n) × (length b + n ≡ length xs)
cut n xs h = (
  take n xs,
  drop n xs,
  sym (take-drop n xs),
  omega (arith, length-take n xs),
  omega (arith, length-drop n xs),
)

-- The header with the bytes that are not written.
abbrev pub header_of : ℕ → ℕ → ℕ → List ℕ → List ℕ → List ℕ
header_of count size weight pad rest =
    (2 ∷ []) ++ (pad ++ (le_bytes 4 size ++ (le_bytes 4 count ++ (le_bytes 4 weight ++ rest))))

put_words :
    (count size weight : ℕ) (a b c d e rest : List ℕ)
    → length a ≡ 1
    → length b ≡ 3
    → length c ≡ 4
    → length d ≡ 4
    → length e ≡ 4
    → node_header (a ++ (b ++ (c ++ (d ++ (e ++ rest))))) count size weight
      ≡ some (header_of count size weight b rest)
unfolding node_header
put_words count size weight a b c d e rest ha hb hc hd he =
    let counted : copy_at (a ++ (b ++ (c ++ (d ++ (e ++ rest))))) 8 (le_bytes 4 count)
        ≡ some (a ++ (b ++ (c ++ (le_bytes 4 count ++ (e ++ rest))))) =
      rw
        (
          copy_at-behind a (b ++ (c ++ (d ++ (e ++ rest)))) (le_bytes 4 count) 8 7
              (omega (arith, ha)),
          copy_at-behind b (c ++ (d ++ (e ++ rest))) (le_bytes 4 count) 7 4 (omega (arith, hb)),
          copy_at-part c d (e ++ rest) (le_bytes 4 count) 4 (sym hc)
              (hd ∙ sym (length-le_bytes 4 count)),
        )
        refl in
    let typed =
      copy_at-part [] a (b ++ (c ++ (le_bytes 4 count ++ (e ++ rest)))) (2 ∷ []) 0 refl ha in
    let sized : copy_at ((2 ∷ []) ++ (b ++ (c ++ (le_bytes 4 count ++ (e ++ rest))))) 4
          (le_bytes 4 size)
        ≡ some ((2 ∷ []) ++ (b ++ (le_bytes 4 size ++ (le_bytes 4 count ++ (e ++ rest))))) =
      rw
        (
          copy_at-behind (2 ∷ []) (b ++ (c ++ (le_bytes 4 count ++ (e ++ rest)))) (le_bytes 4 size)
              4 3 (omega arith),
          copy_at-part b c (le_bytes 4 count ++ (e ++ rest)) (le_bytes 4 size) 3 (sym hb)
              (hc ∙ sym (length-le_bytes 4 size)),
        )
        refl in
    let weighed : copy_at
          ((2 ∷ []) ++ (b ++ (le_bytes 4 size ++ (le_bytes 4 count ++ (e ++ rest))))) 12
          (le_bytes 4 weight)
        ≡ some (header_of count size weight b rest) =
      rw
        (
          copy_at-behind (2 ∷ []) (b ++ (le_bytes 4 size ++ (le_bytes 4 count ++ (e ++ rest))))
              (le_bytes 4 weight) 12 11 (omega arith),
          copy_at-behind b (le_bytes 4 size ++ (le_bytes 4 count ++ (e ++ rest)))
              (le_bytes 4 weight) 11 8 (omega (arith, hb)),
          copy_at-behind (le_bytes 4 size) (le_bytes 4 count ++ (e ++ rest)) (le_bytes 4 weight) 8 4
              (omega (arith, length-le_bytes 4 size)),
          copy_at-part (le_bytes 4 count) e rest (le_bytes 4 weight) 4
              (sym (length-le_bytes 4 count)) (he ∙ sym (length-le_bytes 4 weight)),
        )
        refl in
    rw (counted, typed, sized) weighed

pub node_header_lem :
    (block : List ℕ) (count size weight : ℕ)
    → 16 ≤ length block
    → (pad : List ℕ) × (rest : List ℕ) × (node_header block count size weight
        ≡ some (header_of count size weight pad rest))
      × (length pad ≡ 3)
      × (length rest + 16 ≡ length block)
node_header_lem block count size weight room =
    let (a, x, e0, ha, hx) = cut 1 block (omega (arith, room)) in
    let (b, y, e1, hb, hy) = cut 3 x (omega (arith, room, hx)) in
    let (c, z, e2, hc, hz) = cut 4 y (omega (arith, room, hx, hy)) in
    let (d, u, e3, hd, hu) = cut 4 z (omega (arith, room, hx, hy, hz)) in
    let (e, rest, e4, he, hr) = cut 4 u (omega (arith, room, hx, hy, hz, hu)) in
    let whole : block ≡ a ++ (b ++ (c ++ (d ++ (e ++ rest)))) =
      e0
      ∙ ap (λ l. a ++ l)
          (e1 ∙ ap (λ l. b ++ l) (e2 ∙ ap (λ l. c ++ l) (e3 ∙ ap (λ l. d ++ l) e4))) in
    (
      b,
      rest,
      ap (λ l. node_header l count size weight) whole
          ∙ put_words count size weight a b c d e rest ha hb hc hd he,
      hb,
      omega (arith, hx, hy, hz, hu, hr),
    )

pub header_split :
    (count size weight : ℕ) (pad last body : List ℕ)
    → header_of count size weight pad (last ++ body) ≡ header_of count size weight pad last ++ body
header_split count size weight pad last body =
    let words = le_bytes 4 count ++ (le_bytes 4 weight ++ last) in
    ap (λ l. (2 ∷ []) ++ (pad ++ (le_bytes 4 size ++ (le_bytes 4 count ++ l))))
      (sym (append_assoc (le_bytes 4 weight) last body))
    ∙ ap (λ l. (2 ∷ []) ++ (pad ++ (le_bytes 4 size ++ l)))
        (sym (append_assoc (le_bytes 4 count) (le_bytes 4 weight ++ last) body))
    ∙ ap (λ l. (2 ∷ []) ++ (pad ++ l)) (sym (append_assoc (le_bytes 4 size) words body))
    ∙ ap (λ l. (2 ∷ []) ++ l) (sym (append_assoc pad (le_bytes 4 size ++ words) body))

pub length-header_of :
    (count size weight : ℕ) (pad last : List ℕ)
    → length pad ≡ 3
    → length (header_of count size weight pad last) ≡ 16 + length last
length-header_of count size weight pad last hp = omega (
  arith,
  hp,
  length-append pad (le_bytes 4 size ++ (le_bytes 4 count ++ (le_bytes 4 weight ++ last))),
  length-append (le_bytes 4 size) (le_bytes 4 count ++ (le_bytes 4 weight ++ last)),
  length-append (le_bytes 4 count) (le_bytes 4 weight ++ last),
  length-append (le_bytes 4 weight) last,
  length-le_bytes 4 size,
  length-le_bytes 4 count,
  length-le_bytes 4 weight,
)

-- The words at their places.
pub header_reads :
    (count size weight : ℕ) (pad last body : List ℕ)
    → length pad ≡ 3
    → length last ≡ 4
    → let node = header_of count size weight pad (last ++ body) in
      (drop 8 node ≡ le_bytes 4 count ++ (le_bytes 4 weight ++ (last ++ body)))
      × (drop 12 node ≡ le_bytes 4 weight ++ (last ++ body))
      × (drop 20 node ≡ body)
unfolding le_bytes
header_reads count size weight [] last body e e' = absurd (omega (arith, e))
header_reads count size weight (p ∷ []) last body e e' = absurd (omega (arith, e))
header_reads count size weight (p ∷ q ∷ []) last body e e' = absurd (omega (arith, e))
header_reads count size weight (p ∷ q ∷ r ∷ []) last body e e' =
    (refl, refl, drop-append last body 4 (sym e'))
header_reads count size weight (p ∷ q ∷ r ∷ t ∷ pad) last body e e' = absurd (omega (arith, e))
