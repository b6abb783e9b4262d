-- ===== src/Query/Boolean.antt =====
-- A query of terms, ranges, AND and OR finds the documents that its formula describes.
use egg.Base.{
  ℕ, ◌+◌, ◌^◌, ◌≤◌, ◌<◌, ◌≡◌, refl, ap, ◌∙◌, Bool, true, false, ◌&&◌, ◌||◌, some, List, [], ◌∷◌,
  ◌++◌, ◌>>=◌, length, Bool-cases, inl, inr, arith,
}
use egg.FieldKey
use egg.IdNode.{IdNode}
use egg.IdNode.Ids.{has_id, Descends}
use egg.Query.{
  Ask, Join, Key, Held, Query, Tokenizer, ask, held, join, range, term, phrase, term_or, or, and,
  and_phrase, minus,
}
use egg.Query.Expression.{
  Node, asks, joins, list_of, copied_key, merge, join_held, is_end_of_andphrase, key_asked,
}
use egg.Query.Search.{is_range, sort_range, nodes_found, search_with_query}
use egg.Query.Evaluate.{answer, evaluate, split, ask_count, starts_with_ask, search_lem}
use egg.Query.Ranges.{sort_range_lem}
use egg.Query.Joins.{Ordered, merge-or, merge-and}

-- The formula of a query: whether a document is one that it asks for.
abbrev pub satisfies : (Node → List IdNode) → Query → ℕ → Bool
satisfies query_documents (ask a key boost) id =
    has_id id (query_documents (asks a (copied_key a key)))
satisfies query_documents (held h boost) id = has_id id h.id_nodes
satisfies query_documents (join and boost p q) id =
    satisfies query_documents p id && satisfies query_documents q id
satisfies query_documents (join o boost p q) id =
    satisfies query_documents p id || satisfies query_documents q id

-- How many nodes the index finds for all parts of a query.
abbrev pub found_count : (Node → List IdNode) → Query → ℕ
found_count query_documents (ask a key boost) = length (query_documents (asks a (copied_key a key)))
found_count query_documents (held h boost) = length h.id_nodes
found_count query_documents (join o boost p q) =
    found_count query_documents p + found_count query_documents q

-- A query without MINUS, phrases of several words, and nodes that it holds already.
abbrev pub IsBoolean : Query → Type 0
IsBoolean (ask a key boost) = Unit
IsBoolean (held h boost) = ⊥
IsBoolean (join or boost p q) = IsBoolean p × IsBoolean q
IsBoolean (join and boost p q) = IsBoolean p × IsBoolean q
IsBoolean (join o boost p q) = ⊥

key_asked-some :
    (a : Ask) (key : Key)
    → (field_key : List FieldKey.FieldKey) × (key_asked a key ≡ some field_key)
unfolding key_asked
key_asked-some range key = ([], refl)
key_asked-some term key = FieldKey.new-some key.field_name key.key1
key_asked-some phrase key = FieldKey.new-some key.field_name key.key1
key_asked-some term_or key = FieldKey.new-some key.field_name key.key1

module _ (query_documents : Node → List IdNode)
    (by_id : (node : Node) → is_range node ≡ false → Descends (query_documents node)) where
  found_range :
      (node : Node)
      → is_range node ≡ true
      → nodes_found query_documents node ≡ sort_range (query_documents node)
  unfolding nodes_found
  found_range node h = rw h refl

  found_other :
      (node : Node)
      → is_range node ≡ false
      → nodes_found query_documents node ≡ some (query_documents node)
  unfolding nodes_found
  found_other node h = rw h refl

  nodes_found_lem :
      (node : Node)
      → length (query_documents node) ≤ 2 ^ 26
      → (nodes : List IdNode) × (nodes_found query_documents node ≡ some nodes)
        × Ordered nodes (λ id. has_id id (query_documents node)) (length (query_documents node))
  nodes_found_lem node room = elim (Bool-cases (is_range node)) [
    | inl h ↦
        let (sorted, e, ordered) = sort_range_lem (query_documents node) room in
        (sorted, found_range node h ∙ e, ordered)
    | inr h ↦ (
      query_documents node,
      found_other node h,
      record { descends = by_id node h; members = λ id. refl; few = omega arith },
    )
  ]

  answer_lem :
      (a : Ask) (key : Key)
      → length (query_documents (asks a key)) ≤ 2 ^ 26
      → (h : Held) × (answer query_documents a key ≡ some h)
        × Ordered h.id_nodes
            (λ id. has_id id (query_documents (asks a key)))
            (length (query_documents (asks a key)))
  unfolding answer
  answer_lem a key room =
      let (nodes, e, ordered) = nodes_found_lem (asks a key) room in
      let (field_key, f) = key_asked-some a key in
      (record { field_key = field_key; id_nodes = nodes }, rw (e, f) refl, ordered)

  joined :
      (o : Join) (boost : ℕ) (p q : Query) (after : List Node) (h1 h2 : Held) (nodes : List IdNode)
      → evaluate query_documents p (list_of q ++ (joins o ∷ after)) ≡ some h1
      → evaluate query_documents q (joins o ∷ after) ≡ some h2
      → merge o h1.id_nodes h2.id_nodes (is_end_of_andphrase after) ≡ some nodes
      → evaluate query_documents (join o boost p q) after
        ≡ some (record { field_key = FieldKey.append h1.field_key h2.field_key; id_nodes = nodes })
  unfolding evaluate join_held
  joined o boost p q after h1 h2 nodes e f g = rw (e, f, g) refl

  evaluate-ask :
      (a : Ask) (key : Key) (boost : ℕ) (after : List Node)
      → evaluate query_documents (ask a key boost) after
        ≡ answer query_documents a (copied_key a key)
  unfolding evaluate
  evaluate-ask a key boost after = refl

  evaluate_lem :
      (q : Query) (after : List Node)
      → IsBoolean q
      → found_count query_documents q ≤ 2 ^ 26
      → (h : Held) × (evaluate query_documents q after ≡ some h)
        × Ordered h.id_nodes (satisfies query_documents q) (found_count query_documents q)
  evaluate_lem (ask a key boost) after bool room =
      let (h, e, ordered) = answer_lem a (copied_key a key) room in
      (h, evaluate-ask a key boost after ∙ e, ordered)
  evaluate_lem (held h boost) after bool room = absurd bool
  evaluate_lem (join or boost p q) after (bp, bq) room =
      let (h1, e, o1) = evaluate_lem p (list_of q ++ (joins or ∷ after)) bp (omega arith) in
      let (h2, f, o2) = evaluate_lem q (joins or ∷ after) bq (omega arith) in
      let (nodes, g, o) =
        merge-or h1.id_nodes h2.id_nodes (is_end_of_andphrase after)
          (omega (arith, o1.few, o2.few)) in
      (
        _,
        joined or boost p q after h1 h2 nodes e f g,
        record {
          descends = o.descends;
          members = λ id. o.members id ∙ rw (o1.members id, o2.members id) refl;
          few = omega (arith, o.few, o1.few, o2.few);
        },
      )
  evaluate_lem (join and boost p q) after (bp, bq) room =
      let (h1, e, o1) = evaluate_lem p (list_of q ++ (joins and ∷ after)) bp (omega arith) in
      let (h2, f, o2) = evaluate_lem q (joins and ∷ after) bq (omega arith) in
      let (nodes, g, o) =
        merge-and h1.id_nodes h2.id_nodes (is_end_of_andphrase after) o1.descends o2.descends
          (omega (arith, o1.few, o2.few)) in
      (
        _,
        joined and boost p q after h1 h2 nodes e f g,
        record {
          descends = o.descends;
          members = λ id. o.members id ∙ rw (o1.members id, o2.members id) refl;
          few = omega (arith, o.few, o1.few, o2.few);
        },
      )
  evaluate_lem (join and_phrase boost p q) after bool room = absurd bool
  evaluate_lem (join minus boost p q) after bool room = absurd bool

  IsBoolean-first : (q : Query) → IsBoolean q → starts_with_ask q ≡ true
  IsBoolean-first (ask a key boost) h = refl
  IsBoolean-first (held h boost) bool = absurd bool
  IsBoolean-first (join or boost p q) (h, k) = IsBoolean-first p h
  IsBoolean-first (join and boost p q) (h, k) = IsBoolean-first p h
  IsBoolean-first (join and_phrase boost p q) bool = absurd bool
  IsBoolean-first (join minus boost p q) bool = absurd bool

  -- Let a query, with its texts split into words, be of terms, single words of phrases and ranges, joined
  -- by AND and OR, let the index give the nodes of what is not a range in the order of their ids, and
  -- find at most 2 ^ 26 nodes for all parts together. Given one round more than the query asks the
  -- index, `eggIndexSearcher_search_with_query_local` ends; the collector gets nodes whose ids descend,
  -- and a document is among them exactly if it satisfies the query's formula.
  pub search_boolean :
      (tokenize : Tokenizer) (q : Query) (fuel : ℕ)
      → IsBoolean (split tokenize q)
      → found_count query_documents (split tokenize q) ≤ 2 ^ 26
      → ask_count (split tokenize q) < fuel
      → (nodes : List IdNode) × (field_key : List FieldKey.FieldKey) × (search_with_query
            query_documents tokenize fuel
            (some q)
          ≡ some (nodes, some field_key))
        × Descends nodes
        × ((id : ℕ) → has_id id nodes ≡ satisfies query_documents (split tokenize q) id)
  search_boolean tokenize q fuel bool room enough =
      let (h, e, ordered) = evaluate_lem (split tokenize q) [] bool room in
      (
        h.id_nodes,
        h.field_key,
        search_lem query_documents tokenize q fuel enough (IsBoolean-first (split tokenize q) bool)
            ∙ ap (λ v. v >>= λ (x : Held). some (x.id_nodes, some x.field_key)) e,
        ordered.descends,
        ordered.members,
      )
