-- ===== src/Query/Search.antt =====
-- egg3/src/interface/eggIndexSearcherLocal.c: `eggIndexSearcher_search_with_query_local` as far as it
-- evaluates a query: it asks the index for the nodes of each part and hands them to the expression. The
-- index reader (eggIndexReader_query_documents_local) is a parameter, the nodes that it finds for a
-- node of the expression; what the collector is told on the way is left out.
use egg.Base.{
  ℕ, zero, suc, Bool, true, false, Option, none, some, List, ◌>>=◌, length, take, ◌==◌,
  if◌then◌else◌,
}
use egg.Sort.{sedgesort}
use egg.Repeat.{filter_repeat}
use egg.FieldKey.{FieldKey}
use egg.IdNode.{IdNode, idnode_sz, cmp_id}
use egg.Query.{Query, Tokenizer, range}
use egg.Query.Expression.{Node, Expression, asks, holds, joins, next_exp, init_exp, finalize_exp}

-- `Uti_sedgesort` and `Uti_filter_repeat` of the nodes of a range, which stand in another order.
unfoldable pub sort_range : List IdNode → Option (List IdNode)
sort_range nodes =
    let sorted = (do
      by_id ← sedgesort cmp_id idnode_sz nodes
      r ← filter_repeat cmp_id idnode_sz by_id
      some (take (r.1) (r.0))) in
    if length nodes == 0 then some nodes else sorted

unfoldable pub is_range : Node → Bool
is_range (asks range key) = true
is_range (asks a key) = false
is_range (holds h) = false
is_range (joins o) = false

-- `lp_query_exp->opt`, which is 0 where a node holds nodes.
unfoldable pub is_held : Node → Bool
is_held (asks a key) = false
is_held (holds h) = true
is_held (joins o) = false

module _ (query_documents : Node → List IdNode) where
  unfoldable pub nodes_found : Node → Option (List IdNode)
  unfolding is_range sort_range
  nodes_found node =
      if is_range node then sort_range (query_documents node) else some (query_documents node)

  -- `while (lp_query_exp && lp_query_exp->opt)`
  unfoldable pub search_loop : ℕ → Option Expression → Option (Option Expression)
  unfolding is_held nodes_found
  search_loop zero exp = none
  search_loop (suc fuel) none = some none
  search_loop (suc fuel) (some e) =
      let round = (do
        nodes ← nodes_found e.node
        exp ← next_exp (some e) nodes
        search_loop fuel exp) in
      if is_held e.node then some (some e) else round

  -- The nodes and the keys that the collector gets.
  unfoldable pub search_with_query :
      Tokenizer → ℕ → Option Query → Option (List IdNode × Option (List FieldKey))
  unfolding search_loop
  search_with_query tokenize fuel q = do
    exp ← search_loop fuel (init_exp tokenize q)
    some (finalize_exp exp)
