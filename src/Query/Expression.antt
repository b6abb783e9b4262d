-- ===== src/Query/Expression.antt =====
-- egg3/src/search/eggQuery.c: the expression of a query, a doubly linked list of its nodes in the order
-- of evaluation, each operation behind its operands. It is walked to the next node that asks the index;
-- behind it then stand held nodes only. The list from a node on is the node, the list in front of it,
-- the nearest first, and the list behind it. `none` is the use of a node that is not there or does not
-- hold what is read.
use egg.Base.{
  ℕ, Bool, true, false, Option, none, some, List, [], ◌∷◌, ◌++◌, ◌>>=◌, ◌&&◌, ◌==◌, length, take,
  if◌then◌else◌,
}
use egg.FieldKey
use egg.IdNode.{IdNode, merge_or, merge_and, merge_minus}
use egg.IdNode.Continuation.{filter_by_continuation}
use egg.Query.{
  Ask, Join, Key, Held, Query, Tokenizer, range, phrase, or, and, and_phrase, minus, ask, held,
  join, analyze_record,
}

pub data Node : Type 0 where
  asks : Ask → Key → Node
  holds : Held → Node
  joins : Join → Node

-- `hQueryExp` as a pointer into its list.
pub record Expression : Type 0 where
  pub before : List Node
  pub node : Node
  pub after : List Node

-- The part of a node that asks which its copy takes over.
unfoldable pub copied_key : Ask → Key → Key
copied_key range key = record key { analyzer_name = none; dict_name = none }
copied_key a key = record key { key2 = []; analyzer_name = none; dict_name = none }

-- `eggQuery_init_exp_internal` on a tree whose texts are split; `eggQueryList_appendList` is `++`.
unfoldable pub list_of : Query → List Node
unfolding copied_key
list_of (ask a key boost) = asks a (copied_key a key) ∷ []
list_of (held h boost) = holds h ∷ []
list_of (join o boost p q) = list_of p ++ (list_of q ++ (joins o ∷ []))

-- The same, which splits the texts on its way. What a text was split into has no analyzer left, so
-- that it is not split again.
unfoldable pub init_exp_internal : Tokenizer → Query → List Node
unfolding analyze_record list_of
init_exp_internal tokenize (ask a key boost) = list_of (analyze_record tokenize (ask a key boost))
init_exp_internal tokenize (held h boost) = holds h ∷ []
init_exp_internal tokenize (join o boost p q) =
    init_exp_internal tokenize p ++ (init_exp_internal tokenize q ++ (joins o ∷ []))

unfoldable pub first_node : List Node → Option Expression
first_node [] = none
first_node (x ∷ xs) = some (record { before = []; node = x; after = xs })

unfoldable pub init_exp : Tokenizer → Option Query → Option Expression
unfolding init_exp_internal first_node
init_exp tokenize none = none
init_exp tokenize (some q) = first_node (init_exp_internal tokenize q)

-- `eggQueryList_is_end_of_andphrase`, from the list behind the node.
unfoldable pub is_end_of_andphrase : List Node → Bool
is_end_of_andphrase [] = true
is_end_of_andphrase (joins and_phrase ∷ after) = false
is_end_of_andphrase (asks phrase key ∷ after) = false
is_end_of_andphrase (x ∷ after) = true

-- The nodes of an array as far as they are counted.
unfoldable pub counted_nodes : Option (List IdNode) × ℕ → List IdNode
counted_nodes (none, cnt) = []
counted_nodes (some nodes, cnt) = take cnt nodes

-- The two parts of a branch of `eggQuery_next_exp` that differ: the nodes of an operation.
unfoldable pub merge : Join → List IdNode → List IdNode → Bool → Option (List IdNode)
unfolding counted_nodes
merge or xs ys end = do r ← merge_or xs ys 0; some (counted_nodes r)
merge and xs ys end = do r ← merge_and xs ys 0; some (counted_nodes r)
merge and_phrase xs ys end = do
  r ← merge_and xs ys 0
  let filtered = (do f ← filter_by_continuation (counted_nodes r); some (f.1))
  if end then filtered else some (counted_nodes r)
merge minus xs ys end = do r ← merge_minus xs ys 0; some (counted_nodes r)

-- What takes the place of the two nodes in front of an operation.
unfoldable pub join_held : Join → Held → Held → Bool → Option Held
unfolding merge
join_held o h1 h2 end = do
  nodes ← merge o h1.id_nodes h2.id_nodes end
  some (record { field_key = FieldKey.append h1.field_key h2.field_key; id_nodes = nodes })

-- One operation, on the nodes in front of it.
unfoldable pub join_before : Join → List Node → Bool → Option (List Node)
unfolding join_held
join_before o (holds h2 ∷ holds h1 ∷ before) end = do
  h ← join_held o h1 h2 end
  some (holds h ∷ before)
join_before o before end = none

-- The last node, where the walk ends.
unfoldable pub last_node : List Node → Option Expression
last_node [] = none
last_node (x ∷ before) = some (record { before = before; node = x; after = [] })

-- `while (nextQuery)`: `hQuery` is the first of the nodes in front.
unfoldable pub walk : List Node → List Node → Option Expression
unfolding last_node join_before is_end_of_andphrase
walk before [] = last_node before
walk before (holds h ∷ after) = walk (holds h ∷ before) after
walk before (joins o ∷ after) = do
  before' ← join_before o before (is_end_of_andphrase after)
  walk before' after
walk before (asks a key ∷ after) =
    some (record { before = before; node = asks a key; after = after })

-- The key of a node that was asked.
unfoldable pub key_asked : Ask → Key → Option (List FieldKey.FieldKey)
key_asked range key = some []
key_asked a key = FieldKey.new (some key.field_name) (some key.key1) (length key.key1)

unfoldable pub next_exp : Option Expression → List IdNode → Option (Option Expression)
unfolding key_asked walk
next_exp none last_result = some none
next_exp (some e) last_result = elim e.node [
  | asks a key ↦ do
    field_key ← key_asked a key
    e' ← walk (holds (record { field_key = field_key; id_nodes = last_result }) ∷ e.before) e.after
    some (some e')
  | holds h ↦ some (some e)
  | joins o ↦ some (some (record e { node = holds (record { field_key = []; id_nodes = [] }) }))
]

-- What `eggQuery_finalize_exp` finds in a list of one node that holds nodes; `none` is a wrong use.
unfoldable pub single_held : Expression → Option Held
single_held e = elim e.node [
  | asks a key ↦ none
  | holds h ↦ if length e.before == 0 && length e.after == 0 then some h else none
  | joins o ↦ none
]

-- The nodes and `*hhFieldKey`, which a wrong use leaves as it was: `none`.
unfoldable pub final_parts : Option Held → List IdNode × Option (List FieldKey.FieldKey)
final_parts none = ([], none)
final_parts (some h) = (h.id_nodes, some h.field_key)

unfoldable pub finalize_exp : Option Expression → List IdNode × Option (List FieldKey.FieldKey)
unfolding single_held final_parts
finalize_exp none = ([], some [])
finalize_exp (some e) = final_parts (single_held e)
