-- ===== src/Query/Runs.antt =====
-- The theorems at concrete queries.
use egg.Base.{
  ℕ, zero, suc, ◌≡◌, ◌↔◌, refl, true, false, Option, none, some, List, [], ◌∷◌, ◌>>=◌, length,
  arith,
}
use egg.Base.Int.{pos}
use egg.FieldKey.{FieldKey}
use egg.IdNode.{IdNode}
use egg.IdNode.Ids.{has_id, Descends}
use egg.Query.{
  Key, Query, Tokenizer, ask, held, join, term, phrase, or, and, text_key, keyword_chars, tokens_of,
  join_of, join_tokens, split_text, analyze_record,
}
use egg.Query.Expression.{copied_key, Node, asks, holds, joins}
use egg.Query.Search.{is_range, search_with_query}
use egg.Query.Evaluate.{evaluate, split, search_lem}
use egg.Base.Bytes.{zeros, zeros_size}
use egg.Query.Stored.{
  key_record_sz, name_sz, tree_bytes, serialise, unserialise, tree_sz, record_sz,
}
use egg.Query.Readers.{IsKey}
use egg.Query.Parser.{parse_expression}
use egg.Query.Parser.Chain.{op_char, chain_format, chain_args, chain_value, parse_chain}
use egg.Query.Parser.Chain
use egg.Query.Equal.{query_equal, query_equal_lem}
use egg.Query.RoundTrip.{Storable, unserialise-serialise_query}
use egg.Query.Boolean.{satisfies, search_boolean}
use egg.Query.Phrases.{value, search_separated}
use egg.FieldKey.Stream.{serialise_lem}

abbrev node : ℕ → IdNode
node id = record {
  id = id;
  weight = pos 0;
  key_cnt = 1;
  mask = 1;
  time_stamp = 0;
  flag = 1;
  boost = 0;
  reservd = [];
  pos = [];
}

-- An index whose keys of one byte stand in three documents, and longer ones in two.
abbrev nodes_by_size : ℕ → List IdNode
nodes_by_size zero = []
nodes_by_size (suc zero) = node 9 ∷ node 7 ∷ node 4 ∷ []
nodes_by_size (suc (suc n)) = node 8 ∷ node 7 ∷ []

abbrev index : Node → List IdNode
index (asks a key) = nodes_by_size (length key.key1)
index (holds h) = []
index (joins o) = []

nodes_by_size-Descends : (n : ℕ) → Descends (nodes_by_size n)
nodes_by_size-Descends zero = tt
nodes_by_size-Descends (suc zero) =
    ((omega arith, (omega arith, tt)), ((omega arith, tt), (tt, tt)))
nodes_by_size-Descends (suc (suc n)) = ((omega arith, tt), (tt, tt))

index-Descends : (x : Node) → is_range x ≡ false → Descends (index x)
index-Descends (asks a key) h = nodes_by_size-Descends (length key.key1)
index-Descends (holds x) h = tt
index-Descends (joins o) h = tt

-- An analyzer that splits every text into the words "a" and "bc".
abbrev two_words : Tokenizer
two_words name dict text = some ((97 ∷ []) ∷ (98 ∷ 99 ∷ []) ∷ [])

abbrev text : List ℕ → Option (List ℕ) → Key
text key1 analyzer_name = record {
  field_name = 116 ∷ [];
  key1 = key1;
  key2 = [];
  analyzer_name = analyzer_name;
  dict_name = none;
}

-- (words of "a bc") OR ("x" AND "xy")
abbrev boolean_query : Query
boolean_query =
    join or 0 (ask term (text (97 ∷ 32 ∷ 98 ∷ 99 ∷ []) (some (99 ∷ []))) 0)
      (join and 0 (ask term (text (120 ∷ []) none) 0) (ask term (text (120 ∷ 121 ∷ []) none) 0))

-- "x" AND the phrase "a bc"
abbrev phrase_query : Query
phrase_query =
    join and 0 (ask term (text (120 ∷ []) none) 0)
      (ask phrase (text (97 ∷ 32 ∷ 98 ∷ 99 ∷ []) (some (99 ∷ []))) 0)

abbrev word : ℕ → Query
word c = ask phrase (text (c ∷ []) none) 0

search_boolean_example :
    (nodes : List IdNode) × (field_key : List FieldKey) × (search_with_query index two_words 5
        (some boolean_query)
      ≡ some (nodes, some field_key))
    × Descends nodes
    × ((id : ℕ) → has_id id nodes ≡ satisfies index (split two_words boolean_query) id)
unfolding text_key keyword_chars tokens_of join_of join_tokens split_text analyze_record copied_key
search_boolean_example =
    search_boolean index index-Descends two_words boolean_query 5 ((tt, tt), (tt, tt)) (omega arith)
      (omega arith)

search_lem_example : search_with_query index two_words 4 (some phrase_query) ≡ (
    evaluate index (split two_words phrase_query) [] >>= λ h. some (h.id_nodes, some h.field_key))
unfolding text_key keyword_chars tokens_of join_of join_tokens split_text analyze_record
search_lem_example = search_lem index two_words phrase_query 4 (omega arith) refl

search_separated_example :
    search_with_query index two_words 4 (some phrase_query)
    ≡ (value index true (split two_words phrase_query) >>= λ h. some (h.id_nodes, some h.field_key))
unfolding text_key keyword_chars tokens_of join_of join_tokens split_text analyze_record
search_separated_example = search_separated index two_words phrase_query 4 (omega arith) refl refl

abbrev held_keys : List FieldKey
held_keys = record { field_name = 116 ∷ []; key_sz = 1; key = 9 ∷ [] } ∷ []

-- ("x" AND the field keys and the node of an earlier search), stored with images of zeros.
abbrev held_query : Query
held_query =
    join and 0 (ask term (text (120 ∷ []) none) 0)
      (held (record { field_key = held_keys; id_nodes = node 7 ∷ [] }) 1)

abbrev image : IdNode → List ℕ
image x = zeros 36

abbrev node_7 : List ℕ → IdNode
node_7 bytes = node 7

text-IsKey : IsKey (text (120 ∷ []) none)
text-IsKey = record {
  field_chars = ((λ e. omega (arith, e)), tt);
  key1_small = omega arith;
  key2_small = omega arith;
  analyzer = tt;
  dict = tt;
}

held_query-Storable : Storable image zeros zeros_size node_7 held_query
unfolding key_record_sz name_sz
held_query-Storable = (
  (text-IsKey, omega arith),
  (
    (record { chars = ((λ e. omega (arith, e)), tt); block = refl; small = omega arith }, tt),
    ((zeros_size 36, refl), tt),
    omega arith,
  ),
)

held_query-size : tree_sz image zeros held_query ≡ some 81
unfolding tree_sz record_sz key_record_sz name_sz
held_query-size =
    rw (serialise_lem zeros zeros_size held_keys (held_query-Storable.1.0) (omega arith)) refl

unserialise-serialise_query_example :
    (buf : List ℕ) × (serialise image zeros (some held_query) ≡ some (some (buf, length buf)))
    × (tree_bytes image zeros held_query ≡ some buf)
    × (unserialise node_7 two_words buf ≡ some (some (split two_words held_query)))
unserialise-serialise_query_example =
    unserialise-serialise_query image zeros zeros_size node_7 two_words held_query 81
      held_query-Storable held_query-size (omega arith)

-- "query|query&query"
abbrev three_queries : Chain.Chain
three_queries = (true, some (word 98)) ∷ (false, some (word 99)) ∷ []

parse_chain_example :
    parse_expression
      (Chain.word (chain_format three_queries))
      (some (word 97) ∷ chain_args three_queries)
    ≡ some (chain_value (some (word 97)) three_queries)
parse_chain_example = parse_chain (some (word 97)) three_queries

query_equal_lem_example :
    (query_equal boolean_query phrase_query ≡ true) ↔ (boolean_query ≡ phrase_query)
query_equal_lem_example = query_equal_lem boolean_query phrase_query (tt, (tt, tt))
