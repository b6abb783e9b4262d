-- ===== src/Query/Equal.antt =====
-- egg3/src/search/eggQuery.c: `eggQuery_equal` of two queries that share no memory. Of two arrays of
-- nodes it would copy the second over the first and call them unequal, which is so of any two arrays
-- that are not empty; no claim is made of queries that hold nodes.
use egg.Base.{
  ℕ, ◌≡◌, refl, ap, sym, ◌∙◌, ◌↔◌, Bool, true, false, ◌&&◌, Option, none, some, List, length, ◌==◌,
  if◌then◌else◌, arith,
}
use egg.FieldKey.{bytes_eq}
use egg.FieldKey
use egg.FieldKey.Matching.{bytes_eq-true, bytes_eq_refl}
use egg.Query.{
  Ask, Join, Key, Held, Query, range, term, phrase, term_or, or, and, and_phrase, minus, ask, held,
  join,
}
use egg.Query.Stored.{ask_opt, join_opt}

-- Two names that may be NULL.
unfoldable pub name_eq : Option (List ℕ) → Option (List ℕ) → Bool
name_eq none none = true
name_eq none (some ys) = false
name_eq (some xs) none = false
name_eq (some xs) (some ys) = bytes_eq xs ys

-- The tests of two nodes that ask, in their order.
unfoldable pub key_eq : Key → Key → Bool
unfolding name_eq
key_eq k l =
    bytes_eq k.field_name l.field_name
    && (((length k.key1 == length l.key1) && bytes_eq k.key1 l.key1)
        && (((length k.key2 == length l.key2) && bytes_eq k.key2 l.key2)
            && (name_eq k.analyzer_name l.analyzer_name && name_eq k.dict_name l.dict_name)))

-- The tests of two nodes that hold nodes.
unfoldable pub held_eq : Held → Held → Bool
held_eq h1 h2 =
    if length h1.id_nodes == length h2.id_nodes
    then (if length h1.id_nodes == 0 then FieldKey.equal h1.field_key h2.field_key else false)
    else false

pub query_equal : Query → Query → Bool
unfolding key_eq held_eq ask_opt join_opt
query_equal (ask a k b) (ask a' l b') = (b == b') && ((ask_opt a == ask_opt a') && key_eq k l)
query_equal (held h1 b) (held h2 b') = (b == b') && held_eq h1 h2
query_equal (join o b p q) (join o' b' p' q') =
    (b == b') && ((join_opt o == join_opt o') && (query_equal p p' && query_equal q q'))
query_equal (ask a k b) q = false
query_equal (held h b) q = false
query_equal (join o b p q) r = false

-- A query that holds no nodes.
abbrev pub IsUnheld : Query → Type 0
IsUnheld (ask a k b) = Unit
IsUnheld (held h b) = ⊥
IsUnheld (join o b p q) = IsUnheld p × IsUnheld q

and_split : (a b : Bool) → (a && b) ≡ true → (a ≡ true) × (b ≡ true)
and_split a b h = ground arith

name_eq-true : (m n : Option (List ℕ)) → name_eq m n ≡ true → m ≡ n
unfolding name_eq
name_eq-true none none h = refl
name_eq-true none (some ys) h = absurd (cc)
name_eq-true (some xs) none h = absurd (cc)
name_eq-true (some xs) (some ys) h = ap some (bytes_eq-true xs ys h)

name_eq_refl : (m : Option (List ℕ)) → name_eq m m ≡ true
unfolding name_eq
name_eq_refl none = refl
name_eq_refl (some xs) = bytes_eq_refl xs

key_eq-true : (k l : Key) → key_eq k l ≡ true → k ≡ l
unfolding key_eq
key_eq-true k l h =
    let (names, h₁) = and_split (bytes_eq k.field_name l.field_name) _ h in
    let (first, h₂) = and_split ((length k.key1 == length l.key1) && bytes_eq k.key1 l.key1) _ h₁ in
    let (second, h₃) =
      and_split ((length k.key2 == length l.key2) && bytes_eq k.key2 l.key2) _ h₂ in
    let (analyzers, dicts) = and_split (name_eq k.analyzer_name l.analyzer_name) _ h₃ in
    let e₁ = bytes_eq-true k.field_name l.field_name names in
    let e₂ = bytes_eq-true k.key1 l.key1 ((and_split _ (bytes_eq k.key1 l.key1) first).1) in
    let e₃ = bytes_eq-true k.key2 l.key2 ((and_split _ (bytes_eq k.key2 l.key2) second).1) in
    let e₄ = name_eq-true k.analyzer_name l.analyzer_name analyzers in
    let e₅ = name_eq-true k.dict_name l.dict_name dicts in
    λ i. record {
      field_name = e₁ i;
      key1 = e₂ i;
      key2 = e₃ i;
      analyzer_name = e₄ i;
      dict_name = e₅ i;
    }

key_eq_refl : (k : Key) → key_eq k k ≡ true
unfolding key_eq
key_eq_refl k =
    rw
      (
        bytes_eq_refl k.field_name,
        bytes_eq_refl k.key1,
        bytes_eq_refl k.key2,
        name_eq_refl k.analyzer_name,
        name_eq_refl k.dict_name,
      )
      (ground arith)

ask_value : ℕ → Ask
ask_value opt =
    if opt == 2 then range else if opt == 3 then term else if opt == 4 then phrase else term_or

ask_value-ask_opt : (a : Ask) → ask_value (ask_opt a) ≡ a
unfolding ask_value ask_opt
ask_value-ask_opt range = refl
ask_value-ask_opt term = refl
ask_value-ask_opt phrase = refl
ask_value-ask_opt term_or = refl

join_value : ℕ → Join
join_value opt =
    if opt == 16 then or else if opt == 17 then and else if opt == 18 then and_phrase else minus

join_value-join_opt : (o : Join) → join_value (join_opt o) ≡ o
unfolding join_value join_opt
join_value-join_opt or = refl
join_value-join_opt and = refl
join_value-join_opt and_phrase = refl
join_value-join_opt minus = refl

ask_opt-injective : (a b : Ask) → ask_opt a ≡ ask_opt b → a ≡ b
ask_opt-injective a b e = sym (ask_value-ask_opt a) ∙ ap ask_value e ∙ ask_value-ask_opt b

join_opt-injective : (o o' : Join) → join_opt o ≡ join_opt o' → o ≡ o'
join_opt-injective o o' e = sym (join_value-join_opt o) ∙ ap join_value e ∙ join_value-join_opt o'

==-true : (m n : ℕ) → (m == n) ≡ true → m ≡ n
==-true m n h = ground arith

query_equal-true : (q r : Query) → IsUnheld q → query_equal q r ≡ true → q ≡ r
unfolding query_equal
query_equal-true (ask a k b) (ask a' l b') u h =
    let (boosts, h₁) = and_split (b == b') _ h in
    let (opts, keys) = and_split (ask_opt a == ask_opt a') _ h₁ in
    let e₁ = ask_opt-injective a a' (==-true _ _ opts) in
    let e₂ = key_eq-true k l keys in let e₃ = ==-true b b' boosts in λ i. ask (e₁ i) (e₂ i) (e₃ i)
query_equal-true (ask a k b) (held h' b') u h = absurd (cc)
query_equal-true (ask a k b) (join o b' p q) u h = absurd (cc)
query_equal-true (held h' b) r u h = absurd u
query_equal-true (join o b p q) (ask a k b') u h = absurd (cc)
query_equal-true (join o b p q) (held h' b') u h = absurd (cc)
query_equal-true (join o b p q) (join o' b' p' q') (up, uq) h =
    let (boosts, h₁) = and_split (b == b') _ h in
    let (opts, h₂) = and_split (join_opt o == join_opt o') _ h₁ in
    let (firsts, seconds) = and_split (query_equal p p') _ h₂ in
    let e₁ = join_opt-injective o o' (==-true _ _ opts) in
    let e₂ = ==-true b b' boosts in
    let e₃ = query_equal-true p p' up firsts in
    let e₄ = query_equal-true q q' uq seconds in λ i. join (e₁ i) (e₂ i) (e₃ i) (e₄ i)

query_equal_refl : (q : Query) → IsUnheld q → query_equal q q ≡ true
unfolding query_equal
query_equal_refl (ask a k b) u = rw (key_eq_refl k) (ground arith)
query_equal_refl (held h b) u = absurd u
query_equal_refl (join o b p q) (up, uq) =
    rw (query_equal_refl p up, query_equal_refl q uq) (ground arith)

-- Of a query that holds no nodes and one in other memory, `eggQuery_equal` says that they are equal
-- exactly if they are the same tree: each node of the same kind, with the same boost, field, keys,
-- analyzer and dictionary.
pub query_equal_lem : (q r : Query) → IsUnheld q → (query_equal q r ≡ true) ↔ (q ≡ r)
query_equal_lem q r u =
    (query_equal-true q r u, λ e. ap (query_equal q) (sym e) ∙ query_equal_refl q u)
