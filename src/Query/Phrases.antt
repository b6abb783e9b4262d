-- ===== src/Query/Phrases.antt =====
-- When egg3/src/search/eggQuery.c asks of the words of a phrase that they follow one another.
use egg.Base.{
  ℕ, ◌<◌, ◌≡◌, refl, append_assoc, fun_ext, ap, ◌∙◌, Bool, true, false, not, ◌&&◌, Option, some,
  List, [], ◌∷◌, ◌++◌, ◌>>=◌, if◌then◌else◌, Bool-cases, inl, inr, arith,
}
use egg.IdNode.{IdNode}
use egg.Query.{
  Ask, Join, Held, Query, Tokenizer, ask, held, join, range, term, phrase, term_or, or, and,
  and_phrase, minus,
}
use egg.Query.Expression.{Node, joins, copied_key, list_of, is_end_of_andphrase, merge, join_held}
use egg.Query.Search.{search_with_query}
use egg.Query.Evaluate.{answer, evaluate, split, ask_count, starts_with_ask, search_lem}

abbrev pub is_phrase : Join → Bool
is_phrase and_phrase = true
is_phrase or = false
is_phrase and = false
is_phrase minus = false

-- Words that are joined to a phrase, and a query whose first node asks for a word of one.
abbrev pub is_chain : Query → Bool
is_chain (ask a key boost) = false
is_chain (held h boost) = false
is_chain (join o boost p q) = is_phrase o

abbrev pub is_word : Ask → Bool
is_word phrase = true
is_word range = false
is_word term = false
is_word term_or = false

abbrev pub starts_phrase : Query → Bool
starts_phrase (ask a key boost) = is_word a
starts_phrase (held h boost) = false
starts_phrase (join o boost p q) = starts_phrase p

-- No phrase of several words stands in front of a query that starts with a phrase, unless that one
-- belongs to it.
abbrev pub separated : Query → Bool
separated (ask a key boost) = true
separated (held h boost) = true
separated (join o boost p q) =
    separated p
    && (separated q
        && (if is_chain p
            then (if is_phrase o then starts_phrase q else not (starts_phrase q))
            else true))

module _ (query_documents : Node → List IdNode) where
  -- The value of a query where each phrase is tested as a whole: `whole` says whether the phrase that the
  -- query may be is not a part of a longer one.
  pub value : Bool → Query → Option Held
  value whole (ask a key boost) = answer query_documents a (copied_key a key)
  value whole (held h boost) = some h
  value whole (join o boost p q) = do
    h1 ← value (not (is_phrase o)) p
    h2 ← value (not (is_phrase o)) q
    join_held o h1 h2 whole

  join_held-other :
      (o : Join) (h1 h2 : Held) (b c : Bool)
      → is_phrase o ≡ false
      → join_held o h1 h2 b ≡ join_held o h1 h2 c
  unfolding join_held merge
  join_held-other or h1 h2 b c e = refl
  join_held-other and h1 h2 b c e = refl
  join_held-other and_phrase h1 h2 b c e = absurd (cc)
  join_held-other minus h1 h2 b c e = refl

  -- What is not a phrase of several words does not depend on what follows.
  value-other : (q : Query) (b c : Bool) → is_chain q ≡ false → value b q ≡ value c q
  unfolding value
  value-other (ask a key boost) b c e = refl
  value-other (held h boost) b c e = refl
  value-other (join o boost p q) b c e =
      ap (λ f. value (not (is_phrase o)) p >>= f)
        (fun_ext λ h1.
          ap (λ f. value (not (is_phrase o)) q >>= f) (fun_ext λ h2. join_held-other o h1 h2 b c e))

  end-list :
      (q : Query) (after : List Node)
      → is_end_of_andphrase (list_of q ++ after) ≡ not (starts_phrase q)
  unfolding is_end_of_andphrase list_of
  end-list (ask range key boost) after = refl
  end-list (ask term key boost) after = refl
  end-list (ask phrase key boost) after = refl
  end-list (ask term_or key boost) after = refl
  end-list (held h boost) after = refl
  end-list (join o boost p q) after =
      rw (append_assoc (list_of p) (list_of q ++ (joins o ∷ [])) after) (end-list p _)

  end-join :
      (o : Join) (after : List Node) → is_end_of_andphrase (joins o ∷ after) ≡ not (is_phrase o)
  unfolding is_end_of_andphrase
  end-join or after = refl
  end-join and after = refl
  end-join and_phrase after = refl
  end-join minus after = refl

  left_value :
      (o : Join) (boost : ℕ) (p q : Query)
      → separated (join o boost p q) ≡ true
      → value (not (starts_phrase q)) p ≡ value (not (is_phrase o)) p
  left_value o boost p q h = elim (Bool-cases (is_chain p)) [
    | inl c ↦ ap (λ b. value (not b) p) (ground (arith, h, c))
    | inr c ↦ value-other p (not (starts_phrase q)) (not (is_phrase o)) c
  ]

  evaluate-value :
      (q : Query) (after : List Node)
      → separated q ≡ true
      → evaluate query_documents q after ≡ value (is_end_of_andphrase after) q
  unfolding evaluate value
  evaluate-value (ask a key boost) after h = refl
  evaluate-value (held h boost) after s = refl
  evaluate-value (join o boost p q) after h =
      let after_q = joins o ∷ after in
      let left : evaluate query_documents p (list_of q ++ after_q) ≡ value (not (is_phrase o)) p =
        evaluate-value p (list_of q ++ after_q) (ground (arith, h))
        ∙ ap (λ b. value b p) (end-list q after_q)
        ∙ left_value o boost p q h in
      let right : evaluate query_documents q after_q ≡ value (not (is_phrase o)) q =
        evaluate-value q after_q (ground (arith, h)) ∙ ap (λ b. value b q) (end-join o after) in
      rw (left, right) refl

  -- A query whose phrases are separated is evaluated with each phrase tested as a whole.
  pub evaluate-separated :
      (q : Query) → separated q ≡ true → evaluate query_documents q [] ≡ value true q
  unfolding is_end_of_andphrase
  evaluate-separated q h = evaluate-value q [] h

  -- `eggIndexSearcher_search_with_query_local`, given one round more than the query with its texts split
  -- asks the index, for a query whose first node asks: if no phrase of several words stands in front of a
  -- query that starts with a phrase of which it is not a part, and no such phrase is continued by what is
  -- not one, the collector gets the nodes and keys of the tree, with the test whether words follow one
  -- another made once for each whole phrase; there is no result exactly if the tree has no such value.
  pub search_separated :
      (tokenize : Tokenizer) (q : Query) (fuel : ℕ)
      → ask_count (split tokenize q) < fuel
      → starts_with_ask (split tokenize q) ≡ true
      → separated (split tokenize q) ≡ true
      → search_with_query query_documents tokenize fuel (some q)
        ≡ (value true (split tokenize q) >>= λ h. some (h.id_nodes, some h.field_key))
  search_separated tokenize q fuel enough first apart =
      search_lem query_documents tokenize q fuel enough first
      ∙ ap (λ v. v >>= λ (h : Held). some (h.id_nodes, some h.field_key))
          (evaluate-separated (split tokenize q) apart)
