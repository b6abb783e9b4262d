-- ===== src/Query/Evaluate.antt =====
-- The search of egg3/src/interface/eggIndexSearcherLocal.c evaluates the tree of a query.
use egg.Base.{
  ℕ, suc, ◌+◌, ◌-◌, fun_ext, ◌<◌, ◌≡◌, refl, ap, sym, ◌∙◌, Bool, true, false, Option, none, some,
  List, [], ◌∷◌, ◌++◌, append_assoc, append-nil, ◌>>=◌, Option-cases, inl, inr, arith,
}
use egg.IdNode.{IdNode}
use egg.Query.{Ask, Join, Key, Held, Query, Tokenizer, ask, held, join, analyze_record}
use egg.Query.Expression.{
  Node, Expression, asks, holds, joins, copied_key, list_of, init_exp_internal, init_exp,
  final_parts, first_node, is_end_of_andphrase, join_held, join_before, last_node, walk, key_asked,
  next_exp, single_held, finalize_exp,
}
use egg.Query.Search.{is_held, nodes_found, search_loop, search_with_query}

-- How often a query asks the index.
abbrev pub ask_count : Query → ℕ
ask_count (ask a key boost) = 1
ask_count (held h boost) = 0
ask_count (join o boost p q) = ask_count p + ask_count q

-- The query whose texts are split into words.
abbrev pub split : Tokenizer → Query → Query
split tokenize (ask a key boost) = analyze_record tokenize (ask a key boost)
split tokenize (held h boost) = held h boost
split tokenize (join o boost p q) = join o boost (split tokenize p) (split tokenize q)

abbrev pub starts_with_ask : Query → Bool
starts_with_ask (ask a key boost) = true
starts_with_ask (held h boost) = false
starts_with_ask (join o boost p q) = starts_with_ask p

init-split :
    (tokenize : Tokenizer) (q : Query) → init_exp_internal tokenize q ≡ list_of (split tokenize q)
unfolding init_exp_internal list_of
init-split tokenize (ask a key boost) = refl
init-split tokenize (held h boost) = refl
init-split tokenize (join o boost p q) = rw (init-split tokenize p, init-split tokenize q) refl

list_of-first :
    (t : Query)
    → starts_with_ask t ≡ true
    → (a : Ask) × (key : Key) × (rest : List Node) × (list_of t ≡ asks a key ∷ rest)
unfolding list_of
list_of-first (ask a key boost) h = (a, copied_key a key, [], refl)
list_of-first (held x boost) h = absurd (cc)
list_of-first (join o boost p q) h =
    let (a, key, rest, e) = list_of-first p h in
    (a, key, rest ++ (list_of q ++ (joins o ∷ [])), rw e refl)

abbrev single : Held → Expression
single h = record { before = []; node = holds h; after = [] }

bind_assoc :
    {A B C : Type 0} (o : Option A) (f : A → Option B) (g : B → Option C)
    → ((o >>= f) >>= g) ≡ (o >>= λ a. f a >>= g)
bind_assoc none f g = refl
bind_assoc (some a) f g = refl

module _ (query_documents : Node → List IdNode) where
  -- What a node that asks comes to.
  unfoldable pub answer : Ask → Key → Option Held
  answer a key = do
    nodes ← nodes_found query_documents (asks a key)
    field_key ← key_asked a key
    some (record { field_key = field_key; id_nodes = nodes })

  -- The value of a query, in front of the nodes that follow it in an expression.
  unfoldable pub evaluate : Query → List Node → Option Held
  unfolding answer
  evaluate (ask a key boost) after = answer a (copied_key a key)
  evaluate (held h boost) after = some h
  evaluate (join o boost p q) after = do
    h1 ← evaluate p (list_of q ++ (joins o ∷ after))
    h2 ← evaluate q (joins o ∷ after)
    join_held o h1 h2 (is_end_of_andphrase after)

  -- The search goes on from the nodes in front and those behind.
  go_on : ℕ → List Node → List Node → Option (Option Expression)
  go_on fuel before after = walk before after >>= λ e. search_loop query_documents fuel (some e)

  go_on-ask :
      (fuel : ℕ) (before after : List Node) (a : Ask) (key : Key)
      → go_on (suc fuel) before (asks a key ∷ after)
        ≡ (answer a key >>= λ h. go_on fuel (holds h ∷ before) after)
  unfolding go_on walk search_loop answer is_held next_exp
  go_on-ask fuel before after a key =
      elim (Option-cases (nodes_found query_documents (asks a key))) [
        | inl e ↦ rw e refl
        | inr (nodes, e) ↦ elim (Option-cases (key_asked a key)) [
          | inl f ↦ rw (e, f) refl
          | inr (field_key, f) ↦ rw (e, f) (bind_assoc (walk _ after) _ _)
        ]
      ]

  go_on-join :
      (fuel : ℕ) (before after : List Node) (o : Join) (h1 h2 : Held)
      → go_on fuel (holds h2 ∷ holds h1 ∷ before) (joins o ∷ after) ≡ (
          join_held o h1 h2 (is_end_of_andphrase after) >>= λ h.
          go_on fuel (holds h ∷ before) after)
  unfolding go_on walk join_before
  go_on-join fuel before after o h1 h2 =
      elim (Option-cases (join_held o h1 h2 (is_end_of_andphrase after))) [
        | inl e ↦ rw e refl
        | inr (h, e) ↦ rw e refl
      ]

  go_on-held :
      (fuel : ℕ) (before after : List Node) (h : Held)
      → go_on fuel before (holds h ∷ after) ≡ go_on fuel (holds h ∷ before) after
  unfolding go_on walk
  go_on-held fuel before after h = refl

  list_shape :
      (xs ys : List Node) (x : Node) (after : List Node)
      → (xs ++ (ys ++ (x ∷ []))) ++ after ≡ xs ++ (ys ++ (x ∷ after))
  list_shape xs ys x after =
      append_assoc xs (ys ++ (x ∷ [])) after ∙ ap (◌++◌ xs) (append_assoc ys (x ∷ []) after)

  -- The nodes of a query, wherever they stand, leave its value in their place.
  go_on-list :
      (q : Query) (fuel : ℕ) (before after : List Node)
      → go_on (ask_count q + fuel) before (list_of q ++ after)
        ≡ (evaluate q after >>= λ h. go_on fuel (holds h ∷ before) after)
  unfolding list_of evaluate
  go_on-list (ask a key boost) fuel before after =
      ap (λ n. go_on n before (asks a (copied_key a key) ∷ after)) {x = 1 + fuel} {y = suc fuel}
        (omega arith)
      ∙ go_on-ask fuel before after a (copied_key a key)
  go_on-list (held h boost) fuel before after =
      ap (λ n. go_on n before (holds h ∷ after)) {x = 0 + fuel} {y = fuel} (omega arith)
      ∙ go_on-held fuel before after h
  go_on-list (join o boost p q) fuel before after =
      let after_q = joins o ∷ after in
      let shape = list_shape (list_of p) (list_of q) (joins o) after in
      let fuels : ask_count p + ask_count q + fuel ≡ ask_count p + (ask_count q + fuel) =
        omega arith in
      rw (shape, fuels, go_on-list p (ask_count q + fuel) before (list_of q ++ after_q))
        (elim (Option-cases (evaluate p (list_of q ++ after_q))) [
          | inl e ↦ rw e refl
          | inr (h1, e) ↦
              rw (e, go_on-list q fuel (holds h1 ∷ before) after_q)
                (elim (Option-cases (evaluate q after_q)) [
                  | inl f ↦ rw f refl
                  | inr (h2, f) ↦ rw f (go_on-join fuel before after o h1 h2)
                ])
        ])

  go_on-end : (fuel : ℕ) (h : Held) → go_on (suc fuel) (holds h ∷ []) [] ≡ some (some (single h))
  unfolding go_on walk last_node search_loop is_held
  go_on-end fuel h = refl

  search_first :
      (fuel : ℕ) (t : Query)
      → starts_with_ask t ≡ true
      → search_loop query_documents fuel (first_node (list_of t)) ≡ go_on fuel [] (list_of t)
  unfolding go_on walk first_node
  search_first fuel t h = let (a, key, rest, e) = list_of-first t h in rw e refl

  search_value :
      (t : Query) (fuel : ℕ)
      → ask_count t < fuel
      → starts_with_ask t ≡ true
      → search_loop query_documents fuel (first_node (list_of t))
        ≡ (evaluate t [] >>= λ h. some (some (single h)))
  search_value t fuel enough first =
      let left : fuel ≡ ask_count t + suc (fuel - ask_count t - 1) = omega arith in
      search_first fuel t first
      ∙ ap (λ xs. go_on fuel [] xs) (sym (append-nil (list_of t)))
      ∙ ap (λ n. go_on n [] (list_of t ++ [])) left
      ∙ go_on-list t (suc (fuel - ask_count t - 1)) [] []
      ∙ ap (λ f. evaluate t [] >>= f) (fun_ext (go_on-end (fuel - ask_count t - 1)))

  -- `eggIndexSearcher_search_with_query_local`, given one round more than the query with its texts split
  -- asks the index, evaluates the tree: for a query whose first node asks, the collector gets the nodes
  -- and keys of its value, and there is no result exactly if the tree has no value.
  pub search_lem :
      (tokenize : Tokenizer) (q : Query) (fuel : ℕ)
      → ask_count (split tokenize q) < fuel
      → starts_with_ask (split tokenize q) ≡ true
      → search_with_query query_documents tokenize fuel (some q)
        ≡ (evaluate (split tokenize q) [] >>= λ h. some (h.id_nodes, some h.field_key))
  unfolding search_with_query init_exp finalize_exp single_held final_parts
  search_lem tokenize q fuel enough first =
      rw (init-split tokenize q, search_value (split tokenize q) fuel enough first)
        (bind_assoc (evaluate (split tokenize q) []) _ _)
