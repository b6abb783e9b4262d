-- ===== src/Lib.antt =====
-- A verification library for the search engine egg3: the containers, sorts, searches, codecs and
-- stored formats on which its index and its queries stand.
--
-- The parts, and the files that model them (a file A.antt has its children in the folder A):
--   Base        shared names: tests, lists as C arrays, integers, bit operations, bytes in memory.
--   Compare     what a sort or a search may assume of a comparison function, and why the comparisons
--               of this program meet it. It is the contract between Sort and ScoreDoc or IdNode.
--   Vint        egg3/src/uti/VariantInteger.c: integers of one to five (ten) bytes. core_write_vint,
--               core_write_vlong, core_read_vint, core_read_vlong; the byte callbacks are parameters.
--   VintData    egg3/src/uti/Utility.c: the buffer behind these callbacks (VintWrite, VintRead) and the
--               streams of integers, Uti_itov_32, Uti_itov_64, Uti_vtoi_32, Uti_vtoi_64.
--   Delta       egg3/src/uti/Utility.c: Uti_change_relavalue_32 and _64, Uti_change_absovalue_32 and _64.
--   Sort        egg3/src/uti/Utility.c: Uti_insort, uti_quickersort, Uti_sedgesort.
--   Search      egg3/src/uti/Utility.c: Uti_binary_lookup, Uti_binary_searchleft, Uti_binary_searchright.
--   Vector      egg3/src/uti/Utility.c: Uti_vector_create, Uti_vector_push, Uti_memchunk_create,
--               Uti_memchunk_push.
--   ScoreDoc    egg3/src/search/eggScoreDoc.c: the comparisons of scored documents, which the sorts take.
--   IdNode      egg3/src/storage/eggIdNode.c: the nodes that say which document holds a key. The joins
--               eggIdNode_merge_or (a call of Uti_sedgesort), eggIdNode_merge_and and
--               eggIdNode_merge_minus, by which a query combines its parts; time stamps and boost.
--   FieldKey    egg3/src/search/eggFieldKey.c: lists of field names and keys: eggFieldKey_new, _append,
--               _dup, _equal, _serialise, _unserialise.
--   NetPackage  egg3/src/net/eggNetPackage.c: messages of units: eggNetPackage_new, _add, _fetch,
--               _fetch_by_iter and the sizes.
--   IdTable     egg3/src/storage/eggIdTable.c: the file from document numbers to places:
--               eggIdTable_new, _map_id, _update_off, _get_off.
--   Field       egg3/src/interface/eggField.c: eggField_new, _dup, _set_value, _append_value, the values'
--               compression, and the stored form, eggField_serialization and eggField_unserialization.
--   Document    egg3/src/interface/eggDocument.c: the list of a document's fields, eggDocument_add,
--               _get_field, _get_doc, _set_doc, _remove_field_byname, and its stored form, which is made of
--               those of its fields, eggDocument_serialization and eggDocument_unserialization.
--   IndexCache  egg3/src/index/eggIndexCache.c: eggIndexCacheKey_new, egg_hash_equal, eggIndexCacheVal_add and
--               _fetch, eggIndexCache_insert and _lookup. glib's hash table is an interface, a record of its
--               operations and laws; the vectors are those of Vector.
--   Similarity  egg3/src/similarity/eggSimilarScore.c: whether the words of a phrase follow one another,
--               egg_word_continuation and similar_word_with_continuation. IdNode.Continuation is
--               eggIdNode_filter_by_continuation, which asks this of each document of a phrase.
--   Query       egg3/src/search/eggQuery.c: queries. Expression is the list that a search walks,
--               eggQuery_init_exp, _next_exp and _finalize_exp; Search the search that walks it, of
--               egg3/src/interface/eggIndexSearcherLocal.c; Stored is eggQuery_serialise and
--               _unserialise; Parser is eggQuery_parse_expression; Equal is eggQuery_equal.
--   Repeat      egg3/src/uti/Utility.c: Uti_filter_repeat. Its view of an array whose front is compacted
--               also serves IdNode.Repeat, eggIdNode_filter_repeat of egg3/src/storage/eggIdNode.c.
--   ThreadPool  egg3/src/uti/eggThreadPool.c: eggThreadPool_init, _add_work, _destroy and tpool_thread, what
--               each does while it holds the lock, and a step relation of the threads around the pool
--               with their waits, broadcasts and signals.
--
-- Numbers are native; a 32-bit or 64-bit quantity has its wrap-around written out, or its overflow
-- gives `none`: so it is with the sum of two indexes, with the offset of a unit in an array that is
-- sorted, searched or thinned out (Base.Width), with the bytes of a vector and with the `int` sizes of
-- stored queries, and the theorems bound the sizes accordingly. An array or a block of memory is a
-- list, a pointer that walks over it is what lies from there on, and an access outside gives `none`.
-- What malloc or realloc returns in fresh memory is a parameter, of which only the size is assumed. A
-- loop whose end is not structural has fuel: the number of bytes left for the codecs, the length of
-- the array for sorts and searches, the size that is needed for the loops that double an array, the
-- nodes of both lists for the joins, the parts of a query that ask the index and one more for its
-- search, the bytes and one more for a stored query, the entries for the walks over a phrase. The
-- theorems give these bounds to the loops and state that a result is returned, so that the fuel is
-- shown to be enough.
--
-- How the parts meet: ScoreDoc and IdNode give the sorts their comparisons, IdNode joins its lists by
-- Sort, IdNode.Repeat and Repeat share one view of an array, Document stores its fields by Field, and
-- IndexCache keeps its nodes in a Vector each, in a store where a vector changes under its pointer. A
-- Query keeps its keys as FieldKeys and writes them as these are stored; its search sorts the nodes of a
-- range by Sort and Repeat, joins them by IdNode, and filters those of a phrase by Similarity. What the
-- index reader finds, how an analyzer splits a text and the image of a node in memory are parameters. The
-- threads of ThreadPool take one step at a time, each what one of them does while it holds the lock or
-- the wake-up of a waiting one, spurious ones included; nothing orders the steps of different threads,
-- and no number of threads or steps is fixed.
--
-- Not modelled: freeing of memory, locks of files, printing, floating-point scores (a `double` is a
-- parameter with its `<`), the null-pointer tests of handles, bzip2 (a parameter of Field), the generated
-- configuration parser, the network and thread code of readers, writers and searchers, what a collector
-- is told while a query is searched, the constructors that make a query of a range or a sentence, index
-- views and collectors.
pub mod Base
pub mod Vint
pub mod VintData
pub mod Compare
pub mod ScoreDoc
pub mod Sort
pub mod Search
pub mod Delta
pub mod Vector
pub mod IdNode
pub mod FieldKey
pub mod NetPackage
pub mod IdTable
pub mod Repeat
pub mod ThreadPool
pub mod Field
pub mod Document
pub mod IndexCache
pub mod Similarity
pub mod Query
