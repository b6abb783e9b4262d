-- ===== src/Query/Parser.antt =====
-- egg3/src/search/eggQuery.c: `eggQuery_parse_expression`, which builds a query from a format such as
-- "query&(query|query)" and the queries for its words. The strings in between hold characters and, behind
-- the mark "0x", the 8 bytes of a pointer, which are one item here. `none` is an access outside an array,
-- a query that the caller did not pass, or text behind "0x" that is taken for a pointer.
pub mod Chain
use egg.Base.{
  ℕ, zero, suc, ◌+◌, ◌-◌, Bool, true, false, ◌&&◌, ◌||◌, Option, none, some, List, [], ◌∷◌, ◌++◌,
  ◌>>=◌, take, ltb, leb, ◌==◌, if◌then◌else◌,
}
use egg.FieldKey.{bytes_eq}
use egg.Query.{Query, query_and, query_or}

pub data Item : Type 0 where
  char : ℕ → Item
  object : Option Query → Item

-- `eggLogicOpSet`: the characters with an entry, and the two priorities.
unfoldable pub is_op : ℕ → Bool
is_op c = (c == 38) || ((c == 124) || ((c == 40) || (c == 41)))

unfoldable pub op_in : ℕ → ℕ
op_in c = if c == 40 then 1 else if c == 41 then 8 else 3

unfoldable pub op_out : ℕ → ℕ
op_out c = if c == 40 then 8 else if c == 41 then 1 else 2

-- `strcasestr(..., "query")` at one place.
unfoldable pub lower : ℕ → ℕ
lower c = if leb 65 c && leb c 90 then c + 32 else c

unfoldable pub lowered : List ℕ → List ℕ
unfolding lower
lowered [] = []
lowered (c ∷ chars) = lower c ∷ lowered chars

unfoldable pub at_query : List ℕ → Bool
unfolding lowered bytes_eq
at_query chars = bytes_eq (lowered (take 5 chars)) (113 ∷ 117 ∷ 101 ∷ 114 ∷ 121 ∷ [])

-- The string that the format becomes; the next `skip` characters belong to the word "query".
unfoldable pub infix_of : ℕ → List ℕ → List (Option Query) → Option (List Item)
unfolding at_query
infix_of skip [] args = some []
infix_of (suc skip) (c ∷ format) args = infix_of skip format args
infix_of zero (c ∷ format) [] =
    let rest = (do items ← infix_of zero format []; some (char c ∷ items)) in
    if at_query (c ∷ format) then none else rest
infix_of zero (c ∷ format) (q ∷ args) =
    let word = (do items ← infix_of 4 format args; some (object q ∷ items)) in
    let rest = (do items ← infix_of zero format (q ∷ args); some (char c ∷ items)) in
    if at_query (c ∷ format) then word else rest

-- `while (op_sign_pos > -1)` in front of an operator: what is popped, and what stays.
unfoldable pub popped : ℕ → List ℕ → List Item
unfolding op_in op_out
popped c [] = []
popped c (top ∷ stack) =
    let rest = char top ∷ popped c stack in if ltb (op_out c) (op_in top) then rest else []

unfoldable pub kept : ℕ → List ℕ → List ℕ
unfolding op_in op_out
kept c [] = []
kept c (top ∷ stack) =
    let rest = kept c stack in if ltb (op_out c) (op_in top) then rest else top ∷ stack

unfoldable pub all_popped : List ℕ → List Item
all_popped [] = []
all_popped (top ∷ stack) = char top ∷ all_popped stack

-- A character that is no operator: `some none` for NULL, and `none` for a pointer read from text.
unfoldable pub other_char : ℕ → List Item → Option (Option (List Item))
other_char c [] = some none
other_char c (char d ∷ items) = if (c == 48) && (d == 120) then none else some none
other_char c (object q ∷ items) = some none

-- The rest of the walk behind an operator or an object, with what was written before.
unfoldable pub appended : List Item → Option (Option (List Item)) → Option (Option (List Item))
appended items none = none
appended items (some none) = some none
appended items (some (some suffix)) = some (some (items ++ suffix))

-- `eggQuery_infix_to_suffix` from `p_infix_iter` on, with the operators on the stack.
unfoldable pub infix_to_suffix : List ℕ → List Item → Option (Option (List Item))
unfolding is_op popped kept all_popped other_char appended
infix_to_suffix stack [] = some (some (all_popped stack))
infix_to_suffix stack (object q ∷ items) = appended (object q ∷ []) (infix_to_suffix stack items)
infix_to_suffix stack (char c ∷ items) =
    let op = appended (popped c stack) (infix_to_suffix (c ∷ kept c stack) items) in
    if leb 128 c then none else if is_op c then op else other_char c items

-- `get_result_by_logic` on the objects, the last one first.
unfoldable pub result_by_logic : ℕ → List (Option Query) → Option (List (Option Query))
result_by_logic op (q ∷ p ∷ objects) =
    if op == 38
    then some (query_and p q ∷ objects)
    else if op == 124
    then some (query_or p q ∷ objects)
    else some (q ∷ p ∷ objects)
result_by_logic op (q ∷ []) = if (op == 38) || (op == 124) then none else some (q ∷ [])
result_by_logic op [] = if (op == 38) || (op == 124) then none else some []

-- `eggQuery_suffix_to_result`; the suffix holds operators and objects only.
unfoldable pub suffix_to_result : List (Option Query) → List Item → Option (Option Query)
unfolding result_by_logic
suffix_to_result (q ∷ []) [] = some q
suffix_to_result (q ∷ p ∷ objects) [] = some none
suffix_to_result [] [] = some none
suffix_to_result objects (object q ∷ items) = suffix_to_result (q ∷ objects) items
suffix_to_result objects (char c ∷ items) = do
  objects' ← result_by_logic c objects
  suffix_to_result objects' items

-- NULL for a suffix is read as a string, which ends the process.
unfoldable pub result_of : Option (Option (List Item)) → Option (Option Query)
unfolding suffix_to_result
result_of none = none
result_of (some none) = none
result_of (some (some suffix)) = suffix_to_result [] suffix

pub parse_expression : List ℕ → List (Option Query) → Option (Option Query)
unfolding infix_of infix_to_suffix result_of
parse_expression format args = do
  items ← infix_of zero format args
  result_of (infix_to_suffix [] items)
