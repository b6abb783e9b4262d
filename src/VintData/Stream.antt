-- ===== src/VintData/Stream.antt =====
-- The buffer as a stream: what runs of reads and writes do to it.
use egg.Base.{
  ℕ, zero, suc, ◌+◌, ◌*◌, ◌^◌, ◌≤◌, ◌<◌, ◌≡◌, ap, sym, ◌∙◌, none, some, List, [], ◌∷◌, ◌++◌, length,
  drop, if◌then◌else◌, arith, tests, length-append, get_or-append, set-append, append_assoc,
  append-nil, All, lt→ltb, leb, ==_iff, ◌==◌, false, inl, inr, Bool-cases, length-drop, drop-drop,
}
use egg.Vint.{core_write_vint, core_read_vint}
use egg.Vint.Groups.{groups, write_all, core_write_vint-groups, length-groups}
use egg.Vint.Read.{Reads, core_read_vint-groups}
use egg.VintData.{VintData, vint_write, vint_read, itov_loop, vtoi_loop}

-- The buffer whose position stands between `front` and `rest`.
abbrev pub between : List ℕ → List ℕ → VintData
between front rest = record { len = length front; bytes = front ++ rest }

between_step :
    (front : List ℕ) (b : ℕ) (rest : List ℕ)
    → VintData.len (between (front ++ b ∷ []) rest) ≡ length front + 1
between_step front b rest = omega (arith, length-append front (b ∷ []))

vint_write-between :
    (b : ℕ) (front : List ℕ) (r : ℕ) (rest : List ℕ)
    → vint_write b (between front (r ∷ rest)) ≡ some (between (front ++ b ∷ []) rest)
unfolding vint_write
vint_write-between b front r rest = ground (
  arith,
  length-append front (r ∷ rest),
  length-append front (b ∷ []),
  set-append front (r ∷ rest) (length front) 0 b,
  append_assoc front (b ∷ []) rest,
)

vint_write-full : (b : ℕ) (front : List ℕ) → vint_write b (between front []) ≡ none
unfolding vint_write
vint_write-full b front = ground (arith, append-nil front)

vint_read-between :
    (b : ℕ) (front rest : List ℕ)
    → vint_read (between front (b ∷ rest)) ≡ some (b, between (front ++ b ∷ []) rest)
unfolding vint_read
vint_read-between b front rest = ground (
  arith,
  length-append front (b ∷ rest),
  length-append front (b ∷ []),
  get_or-append front (b ∷ rest) (length front) 0 0,
  append_assoc front (b ∷ []) rest,
)

-- The writes succeed as long as there is room.
pub write_all-between :
    (bs front rest : List ℕ)
    → length bs ≤ length rest
    → write_all vint_write bs (between front rest)
      ≡ some (between (front ++ bs) (drop (length bs) rest))
unfolding write_all
write_all-between [] front rest h = rw append-nil
write_all-between (b ∷ bs) front [] h = absurd (omega arith)
write_all-between (b ∷ bs) front (r ∷ rest) h = rw (vint_write-between b front r rest) (
    write_all-between bs (front ++ b ∷ []) rest (omega arith) ∙ rw (append_assoc front (b ∷ []) bs))

-- They fault where the room runs out.
pub write_all-none :
    (bs front rest : List ℕ)
    → length rest < length bs
    → write_all vint_write bs (between front rest) ≡ none
unfolding write_all
write_all-none [] front rest h = absurd (omega arith)
write_all-none (b ∷ bs) front [] h = rw (vint_write-full b front)
write_all-none (b ∷ bs) front (r ∷ rest) h =
    rw (vint_write-between b front r rest) (write_all-none bs (front ++ b ∷ []) rest (omega arith))

pub Reads-between :
    (bs front rest : List ℕ)
    → Reads vint_read (between front (bs ++ rest)) bs (between (front ++ bs) rest)
Reads-between [] front rest = rw append-nil
Reads-between (b ∷ bs) front rest = (
  between (front ++ b ∷ []) (bs ++ rest),
  vint_read-between b front (bs ++ rest),
  rw (append_assoc front (b ∷ []) bs) at (Reads-between bs (front ++ b ∷ []) rest),
)

-- The bytes that stand for an array of 32-bit values.
unfoldable pub encoded : List ℕ → List ℕ
encoded [] = []
encoded (x ∷ xs) = groups 4 x ++ encoded xs

pub length-le-encoded : (xs : List ℕ) → length xs ≤ length (encoded xs)
unfolding encoded
length-le-encoded [] = omega arith
length-le-encoded (x ∷ xs) =
    omega (arith, length-append (groups 4 x) (encoded xs), length-groups 4 x, length-le-encoded xs)

pub length-encoded-le : (xs : List ℕ) → length (encoded xs) ≤ 5 * length xs
unfolding encoded
length-encoded-le [] = omega arith
length-encoded-le (x ∷ xs) =
    omega (arith, length-append (groups 4 x) (encoded xs), length-groups 4 x, length-encoded-le xs)

write_groups :
    (x : ℕ) (front rest : List ℕ)
    → x < 2 ^ 32
    → length (groups 4 x) ≤ length rest
    → core_write_vint vint_write x (between front rest)
      ≡ some (between (front ++ groups 4 x) (drop (length (groups 4 x)) rest))
write_groups x front rest h room =
    core_write_vint-groups vint_write x (between front rest) h
    ∙ write_all-between (groups 4 x) front rest room

pub itov_loop-between :
    (xs front rest : List ℕ)
    → All (λ x. x < 2 ^ 32) xs
    → length (encoded xs) ≤ length rest
    → itov_loop xs (between front rest)
      ≡ some (between (front ++ encoded xs) (drop (length (encoded xs)) rest))
unfolding itov_loop encoded
itov_loop-between [] front rest h room = rw append-nil
itov_loop-between (x ∷ xs) front rest (hx, hxs) room =
    let len = length-append (groups 4 x) (encoded xs) in
    rw (write_groups x front rest hx (omega (arith, len))) (
      itov_loop-between xs (front ++ groups 4 x) (drop (length (groups 4 x)) rest) hxs
        (omega (arith, len, length-drop (length (groups 4 x)) rest))
      ∙ rw (append_assoc front, drop-drop (length (groups 4 x)) (length (encoded xs)) rest, len))

pub itov_loop-none :
    (xs front rest : List ℕ)
    → All (λ x. x < 2 ^ 32) xs
    → length rest < length (encoded xs)
    → itov_loop xs (between front rest) ≡ none
unfolding itov_loop encoded
itov_loop-none [] front rest h full = absurd (omega arith)
itov_loop-none (x ∷ xs) front rest (hx, hxs) full =
    let len = length-append (groups 4 x) (encoded xs) in
    elim (Bool-cases (leb (length (groups 4 x)) (length rest))) [
      | inl room ↦ rw (write_groups x front rest hx (omega tests)) (
          itov_loop-none xs (front ++ groups 4 x) (drop (length (groups 4 x)) rest) hxs
            (omega (tests, len, length-drop (length (groups 4 x)) rest)))
      | inr over ↦ rw (
        core_write_vint-groups vint_write x (between front rest) hx,
        write_all-none (groups 4 x) front rest (ground arith),
      )
    ]

vtoi_loop_done :
    (fuel max room : ℕ) (d : VintData) (out : List ℕ)
    → d.len ≡ max
    → vtoi_loop fuel max room d out ≡ some out
unfolding vtoi_loop
vtoi_loop_done zero max room d out e = rw ((==_iff d.len max).1 e)
vtoi_loop_done (suc fuel) max room d out e = rw ((==_iff d.len max).1 e)

vtoi_loop_step :
    (fuel max room : ℕ) (d d' : VintData) (out : List ℕ) (v : ℕ)
    → d.len < max
    → core_read_vint vint_read d ≡ some (v, d')
    → length out < room
    → room < 2 ^ 31
    → length out < 2 ^ 29
    → vtoi_loop (suc fuel) max room d out
      ≡ vtoi_loop fuel max
          (if leb room (length (out ++ v ∷ [])) then room + room else room)
          d'
          (out ++ v ∷ [])
unfolding vtoi_loop
vtoi_loop_step fuel max room d d' out v h e free small few =
    let more : (d.len == max) ≡ false = ground arith in
    let room' = if leb room (length (out ++ v ∷ [])) then room + room else room in
    let fit : room' < 2 ^ 31 = ground (arith, length-append out (v ∷ [])) in
    rw (more, e, lt→ltb (length out) room free, lt→ltb room' (2 ^ 31) fit)

pub vtoi_loop-between :
    (xs front rest out : List ℕ) (fuel max room : ℕ)
    → All (λ x. x < 2 ^ 32) xs
    → length xs ≤ fuel
    → max ≡ length (front ++ encoded xs)
    → length out < room
    → room < 2 ^ 31
    → length out + length xs ≤ 2 ^ 29
    → vtoi_loop fuel max room (between front (encoded xs ++ rest)) out ≡ some (out ++ xs)
unfolding encoded
vtoi_loop-between [] front rest out fuel max room h hf e hc small few =
    vtoi_loop_done fuel max room (between front rest) out (sym (e ∙ ap length (append-nil front)))
    ∙ ap some (sym (append-nil out))
vtoi_loop-between (x ∷ xs) front rest out zero max room h hf e hc small few = absurd (omega arith)
vtoi_loop-between (x ∷ xs) front rest out (suc fuel) max room (hx, hxs) hf e hc small few =
    let read = Reads-between (groups 4 x) front (encoded xs ++ rest) in
    rw (append_assoc (groups 4 x) (encoded xs) rest) (
      vtoi_loop_step fuel max room (between front (groups 4 x ++ (encoded xs ++ rest)))
        (between (front ++ groups 4 x) (encoded xs ++ rest)) out x
        (omega (
          arith,
          e,
          length-append front (groups 4 x ++ encoded xs),
          length-append (groups 4 x) (encoded xs),
          length-groups 4 x,
        ))
        (core_read_vint-groups vint_read x _ _ hx read) hc small (omega arith)
      ∙ vtoi_loop-between xs (front ++ groups 4 x) rest (out ++ x ∷ []) fuel max
          (if leb room (length (out ++ x ∷ [])) then room + room else room) hxs (omega arith)
          (e ∙ ap length (sym (append_assoc front (groups 4 x) (encoded xs))))
          (ground (arith, length-append out (x ∷ [])))
          (ground (arith, few, length-append out (x ∷ [])))
          (omega (arith, few, length-append out (x ∷ [])))
      ∙ ap some (append_assoc out (x ∷ []) xs))
