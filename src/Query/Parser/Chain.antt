-- ===== src/Query/Parser/Chain.antt =====
-- A format without brackets joins its queries from the left.
use egg.Base.{ℕ, zero, ◌≡◌, refl, Bool, true, false, Option, some, List, [], ◌∷◌, ◌>>=◌}
use egg.FieldKey.{bytes_eq}
use egg.Query.{Query, query_and, query_or}
use egg.Query.Parser.{
  Item, char, object, is_op, op_in, op_out, lower, lowered, at_query, infix_of, popped, kept,
  all_popped, appended, infix_to_suffix, result_by_logic, suffix_to_result, result_of,
  parse_expression,
}

-- What follows the first query of a chain: `true` for `|` and `false` for `&`, with a query.
abbrev pub Chain : Type 0
Chain = List (Bool × Option Query)

abbrev pub op_char : Bool → ℕ
op_char true = 124
op_char false = 38

abbrev pub word : List ℕ → List ℕ
word rest = 113 ∷ 117 ∷ 101 ∷ 114 ∷ 121 ∷ rest

-- "query", then `|query` or `&query` for each part.
abbrev pub chain_format : Chain → List ℕ
chain_format [] = []
chain_format ((b, q) ∷ ms) = op_char b ∷ word (chain_format ms)

abbrev pub chain_args : Chain → List (Option Query)
chain_args [] = []
chain_args ((b, q) ∷ ms) = q ∷ chain_args ms

-- The value, from the left.
abbrev pub chain_value : Option Query → Chain → Option Query
chain_value p [] = p
chain_value p ((true, q) ∷ ms) = chain_value (query_or p q) ms
chain_value p ((false, q) ∷ ms) = chain_value (query_and p q) ms

chain_items : Chain → List Item
chain_items [] = []
chain_items ((b, q) ∷ ms) = char (op_char b) ∷ object q ∷ chain_items ms

chain_suffix : Bool → Option Query → Chain → List Item
chain_suffix b q [] = object q ∷ char (op_char b) ∷ []
chain_suffix b q ((b', q') ∷ ms) = object q ∷ char (op_char b) ∷ chain_suffix b' q' ms

infix_of-word :
    (q : Option Query) (rest : List ℕ) (args : List (Option Query))
    → infix_of zero (word rest) (q ∷ args)
      ≡ (infix_of zero rest args >>= λ items. some (object q ∷ items))
unfolding infix_of at_query lowered lower bytes_eq
infix_of-word q rest args = refl

infix_of-op :
    (b : Bool) (rest : List ℕ) (args : List (Option Query))
    → infix_of zero (op_char b ∷ rest) args
      ≡ (infix_of zero rest args >>= λ items. some (char (op_char b) ∷ items))
unfolding infix_of at_query lowered lower bytes_eq
infix_of-op true rest [] = refl
infix_of-op false rest [] = refl
infix_of-op true rest (q ∷ args) = refl
infix_of-op false rest (q ∷ args) = refl

infix_of-chain :
    (ms : Chain) → infix_of zero (chain_format ms) (chain_args ms) ≡ some (chain_items ms)
unfolding chain_items
infix_of-chain [] = unfold infix_of in refl
infix_of-chain ((b, q) ∷ ms) =
    rw
      (
        infix_of-op b (word (chain_format ms)) (q ∷ chain_args ms),
        infix_of-word q (chain_format ms) (chain_args ms),
        infix_of-chain ms,
      )
      refl

suffix_of-chain :
    (b : Bool) (q : Option Query) (ms : Chain)
    → infix_to_suffix (op_char b ∷ []) (object q ∷ chain_items ms)
      ≡ some (some (chain_suffix b q ms))
unfolding infix_to_suffix chain_items chain_suffix popped kept all_popped appended is_op op_in
    op_out
suffix_of-chain true q [] = refl
suffix_of-chain false q [] = refl
suffix_of-chain true q ((true, q') ∷ ms) = rw (suffix_of-chain true q' ms) refl
suffix_of-chain true q ((false, q') ∷ ms) = rw (suffix_of-chain false q' ms) refl
suffix_of-chain false q ((true, q') ∷ ms) = rw (suffix_of-chain true q' ms) refl
suffix_of-chain false q ((false, q') ∷ ms) = rw (suffix_of-chain false q' ms) refl

suffix_of-first :
    (p : Option Query) (b : Bool) (q : Option Query) (ms : Chain)
    → infix_to_suffix [] (object p ∷ chain_items ((b, q) ∷ ms))
      ≡ some (some (object p ∷ chain_suffix b q ms))
unfolding infix_to_suffix chain_items popped kept appended is_op op_in op_out
suffix_of-first p true q ms = rw (suffix_of-chain true q ms) refl
suffix_of-first p false q ms = rw (suffix_of-chain false q ms) refl

result_of-chain :
    (p : Option Query) (b : Bool) (q : Option Query) (ms : Chain)
    → suffix_to_result (p ∷ []) (chain_suffix b q ms) ≡ some (chain_value p ((b, q) ∷ ms))
unfolding suffix_to_result result_by_logic chain_suffix
result_of-chain p true q [] = refl
result_of-chain p false q [] = refl
result_of-chain p true q ((b, q') ∷ ms) = result_of-chain (query_or p q) b q' ms
result_of-chain p false q ((b, q') ∷ ms) = result_of-chain (query_and p q) b q' ms

result_of-items :
    (p : Option Query) (ms : Chain)
    → result_of (infix_to_suffix [] (object p ∷ chain_items ms)) ≡ some (chain_value p ms)
unfolding result_of suffix_to_result
result_of-items p [] = unfold infix_to_suffix chain_items all_popped appended in refl
result_of-items p ((b, q) ∷ ms) = rw (suffix_of-first p b q ms) (result_of-chain p b q ms)

-- For a format of the word "query" and any number of parts `&query` or `|query` behind it, with a query
-- for each word, `eggQuery_parse_expression` joins the queries from the left, `&` by `eggQuery_and` and
-- `|` by `eggQuery_or`, neither of them before the other.
pub parse_chain :
    (p : Option Query) (ms : Chain)
    → parse_expression (word (chain_format ms)) (p ∷ chain_args ms) ≡ some (chain_value p ms)
unfolding parse_expression
parse_chain p ms =
    rw (infix_of-word p (chain_format ms) (chain_args ms), infix_of-chain ms) (result_of-items p ms)
