-- ===== src/Query.antt =====
-- egg3/src/search/eggQuery.c: queries. A tree of `struct eggQuery` is a value of `Query`: a node asks
-- the index, holds nodes already (EGGQUERYOPT_DATA) or joins two queries. A block with its size is the
-- list of its bytes, an array of nodes with its count the list of its nodes, NULL with 0 the empty one.
-- A query that may be NULL is an `Option`. A name is its characters without the 0 behind them.
pub mod Expression
pub mod Search
pub mod Evaluate
pub mod Phrases
pub mod Ranges
pub mod Joins
pub mod Boolean
pub mod Stored
pub mod Readers
pub mod Records
pub mod RoundTrip
pub mod Parser
pub mod Equal
mod Runs
use egg.Base.{
  ℕ, zero, suc, Bool, true, false, ◌&&◌, Option, none, some, List, [], ◌∷◌, length, take, drop, ltb,
  ◌==◌, if◌then◌else◌,
}
use egg.FieldKey.{FieldKey, bytes_eq}
use egg.IdNode.{IdNode}

-- EGGQUERYOPT_RANGE, TERM, PHRASE and TERMOR; EGGQUERYOPT_OR, AND, ANDPHRASE and MINUS.
pub data Ask : Type 0 where
  range term phrase term_or : Ask

pub data Join : Type 0 where
  or and and_phrase minus : Join

-- What a node asks for, the first part of the union.
pub record Key : Type 0 where
  pub field_name : List ℕ
  pub key1 : List ℕ
  pub key2 : List ℕ
  pub analyzer_name : Option (List ℕ)
  pub dict_name : Option (List ℕ)

-- What a node holds, the second part of it.
pub record Held : Type 0 where
  pub field_key : List FieldKey
  pub id_nodes : List IdNode

pub data Query : Type 0 where
  ask : Ask → Key → ℕ → Query
  held : Held → ℕ → Query
  join : Join → ℕ → Query → Query → Query

-- `!analyzerName || !analyzerName[0]`
pub name_given : Option (List ℕ) → Option (List ℕ)
name_given none = none
name_given (some []) = none
name_given (some (c ∷ chars)) = some (c ∷ chars)

pub text_key : List ℕ → List ℕ → Option (List ℕ) → Key
text_key field_name key1 analyzer_name = record {
  field_name = field_name;
  key1 = key1;
  key2 = [];
  analyzer_name = analyzer_name;
  dict_name = none;
}

pub new_string : List ℕ → Option (List ℕ) → Option (List ℕ) → Option Query
unfolding name_given text_key
new_string field_name none analyzer_name = none
new_string field_name (some []) analyzer_name = none
new_string field_name (some (c ∷ chars)) analyzer_name =
    let keyword = c ∷ chars in
    let name = name_given analyzer_name in
    if ltb 3 (length keyword) && bytes_eq (take 3 keyword) (36 ∷ 36 ∷ 36 ∷ [])
    then some (ask term_or (text_key field_name (drop 3 keyword) name) 0)
    else some (ask term (text_key field_name keyword name) 0)

pub new_phrase : List ℕ → Option (List ℕ) → Option (List ℕ) → Option Query
unfolding name_given text_key
new_phrase field_name none analyzer_name = none
new_phrase field_name (some []) analyzer_name = none
new_phrase field_name (some (c ∷ chars)) analyzer_name =
    some (ask phrase (text_key field_name (c ∷ chars) (name_given analyzer_name)) 0)

-- `eggQuery_and`, `eggQuery_and_phrase`: NULL as soon as one of the two is.
pub query_and : Option Query → Option Query → Option Query
query_and none q = none
query_and (some p) none = none
query_and (some p) (some q) = some (join and 0 p q)

pub query_and_phrase : Option Query → Option Query → Option Query
query_and_phrase none q = none
query_and_phrase (some p) none = none
query_and_phrase (some p) (some q) = some (join and_phrase 0 p q)

pub query_or : Option Query → Option Query → Option Query
query_or none q = q
query_or (some p) none = some p
query_or (some p) (some q) = some (join or 0 p q)

pub query_minus : Option Query → Option Query → Option Query
query_minus none q = none
query_minus (some p) none = some p
query_minus (some p) (some q) = some (join minus 0 p q)

pub boost_preference : Option Query → ℕ → Option Query
boost_preference none boost = none
boost_preference (some (ask a key b)) boost = some (ask a key boost)
boost_preference (some (held h b)) boost = some (held h boost)
boost_preference (some (join o b p q)) boost = some (join o boost p q)

pub set_key_dict : List ℕ → Key → Key
set_key_dict dict_name key = elim key.analyzer_name [
  | none ↦ key
  | some name ↦ record key { dict_name = some dict_name }
]

-- `eggQuery_set_dictname` for a name that is not empty; otherwise nothing changes.
pub set_dictname : Query → List ℕ → Query
unfolding set_key_dict
set_dictname q [] = q
set_dictname (ask a key boost) (c ∷ chars) = ask a (set_key_dict (c ∷ chars) key) boost
set_dictname (held h boost) (c ∷ chars) = held h boost
set_dictname (join o boost p q) (c ∷ chars) =
    join o boost (set_dictname p (c ∷ chars)) (set_dictname q (c ∷ chars))

-- The text up to the first 0, which is put behind it if it has none.
pub keyword_chars : List ℕ → List ℕ
keyword_chars [] = []
keyword_chars (c ∷ chars) = let rest = c ∷ keyword_chars chars in if c == 0 then [] else rest

-- The operation that joins the words of one text.
pub join_of : Ask → Join
join_of phrase = and_phrase
join_of term = and
join_of term_or = or
join_of range = and

-- `while (*p)`: each further word becomes the second part of a new root.
pub join_tokens : Ask → List ℕ → ℕ → Query → List (List ℕ) → Query
unfolding join_of text_key
join_tokens a field_name boost root [] = root
join_tokens a field_name boost root (token ∷ tokens) =
    join_tokens a field_name boost
      (join (join_of a) boost root (ask a (text_key field_name token none) boost)) tokens

-- The plugins that split a text into words: for the analyzer of a name, `none` if there is none, the
-- words of a text by a dictionary.
abbrev pub Tokenizer : Type 0
Tokenizer = List ℕ → Option (List ℕ) → List ℕ → Option (List (List ℕ))

-- `eggAnalyzer_get` and `AnalyzeString`; without an analyzer's name there is no analyzer.
pub tokens_of : Tokenizer → Key → Option (List (List ℕ))
unfolding keyword_chars
tokens_of tokenize key = elim key.analyzer_name [
  | none ↦ none
  | some name ↦ tokenize name key.dict_name (keyword_chars key.key1)
]

pub split_text : Ask → Key → ℕ → Option (List (List ℕ)) → Query
unfolding join_tokens text_key
split_text a key boost none = ask a (record key { analyzer_name = none; dict_name = none }) boost
split_text a key boost (some []) =
    ask a (record key { analyzer_name = none; dict_name = none }) boost
split_text a key boost (some (token ∷ tokens)) =
    join_tokens a key.field_name boost (ask a (text_key key.field_name token none) boost) tokens

-- `analyzeQueryRecord` on what is not NULL.
pub analyze_record : Tokenizer → Query → Query
unfolding tokens_of split_text
analyze_record tokenize (ask range key boost) = ask range key boost
analyze_record tokenize (ask a key boost) =
    if length key.key1 == 0
    then ask a key boost
    else split_text a key boost (tokens_of tokenize key)
analyze_record tokenize (held h boost) = held h boost
analyze_record tokenize (join o boost p q) = join o boost p q
