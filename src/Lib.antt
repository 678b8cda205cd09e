-- ===== src/Lib.antt =====
-- mdb-embedded: the core of the embedded engine, rust/smongo-engine.
--
-- The engine keeps documents in tables of bytes, finds them by query documents and changes them by
-- update documents. This library models eight of its parts, each a module:
--
-- * Paths (rust/smongo-engine/src/paths.rs): dot-notation paths. `get_value`, `field_exists`,
--   `set_value` and `unset_value` are the source's functions; the query and the update call them.
-- * Storage (rust/smongo-engine/src/storage/mod.rs and memory.rs): the tables and the cursors.
--   Storage.Memory has the backend's and the session's methods, Storage.Cursor the cursor's. The
--   state of a call is `Opened`, one cursor beside the tables that it shares; the mutex is its
--   `poisoned` flag. An index past the end is the result `panic`.
-- * Query (rust/smongo-engine/src/query/mod.rs): `eval_query` and its operators. Query.Compare is
--   the order of BSON values, Query.Operators the operators that do not recur, and Query the
--   evaluator itself. The thread's cache of compiled patterns is left out, as it changes no answer.
-- * Update (rust/smongo-engine/src/update/mod.rs): `apply_update` and its operators, on fields and
--   numbers (Update.Fields), on arrays (Update.Arrays) and through `arrayFilters`
--   (Update.Positional). A function that changes a `&mut Document` returns the new document; callers
--   drop the document after an error.
-- * Aggregation (rust/smongo-engine/src/aggregation/mod.rs, stages.rs and accumulators.rs): the
--   pipeline. Aggregation.Stages and its children have the stages, once over lists of documents and
--   once over streams, Aggregation.Pipeline the loop over the stages, Aggregation.Groups
--   `$group` and `$sortByCount`, and Aggregation.Accumulators and Aggregation.Totals the
--   accumulators of a group. The `HashMap` of the groups is the list of its entries by key, and
--   `order` the order in which it gives them. A stream is the list of what its
--   iterator gives, errors in their places. `evaluate` stands for the evaluator of expressions,
--   `size` for the length of a document's BSON, `select_nth` for `select_nth_unstable_by` and
--   `other` for the stages that have no definition here; the loop runs without an index context and
--   without disk use.
-- * Index (rust/smongo-engine/src/index/mod.rs, prefix_index.rs and bitmap_index.rs): the kinds of
--   index and their key patterns, and in Index.Keys the bytes of B-tree keys: `extract_index_key`,
--   their decoding and their truncation. Index.Bitmap has the bitmap index. A collation is its
--   `index_key_bytes`; `from_utf8` and the test of a text's characters in the decoding are
--   parameters.
-- * Planner (rust/smongo-engine/src/planner/mod.rs): the plans. Planner.Candidates has the plan that
--   one index offers, the body of the planner's loop, and Planner.Plan the choice among them.
--   Planning a `$or` plans its branches, which may hold another `$or`: the fuel of `plan_query_full`
--   bounds how deep. `geo_plan` stands for the plans over 2dsphere indexes.
-- * Collection (rust/smongo-engine/src/collection/mod.rs, crud.rs, indexes.rs, exec.rs and
--   transactions.rs): documents and the entries of their indexes over the in-memory backend. The
--   state of a call is `Store`, the session's tables with the cached list of indexes and the number
--   of ObjectIds made; `Action` passes it along and stops at an error. Collection.Session has the
--   shared methods and the loop over a cursor, Collection.Indexes one index, Collection.Catalog all
--   of a collection's indexes, Collection.Crud the operations on documents, and Collection.Find the
--   scans and seeks. `Services` has what these take from elsewhere: serialization, ObjectIds, the
--   oplog's rows, schemas, collations, geometry and tokens.
--
-- Std models what these parts take from Rust's standard library: BTreeMap as a list in the order of
-- its keys, `slice::binary_search_by` as the loop that halves, a stable `sort_by`. Prelude has the
-- tests on numbers, the signed integers with their casts, lists and the functions on `str`.
--
-- What the source takes from other crates and from the machine is a record of parameters,
-- Bson.Externals: the map operations of `bson::Document`, `==` of Bson, arithmetic and comparison of
-- doubles (a double is its bit pattern), regular expressions, the clock, and the engine's `$expr`,
-- `$text` and geospatial tests. Where a theorem needs their documented behaviour it says so by a
-- record of laws: Bson.IsMap, Aggregation.Merging.IsIndexMap, Query.Order.IsDual,
-- Query.Doubles.IsFloatOrder, Update.Numbers.IsIeee, Index.Order.IsExact, Planner.Bounds.IsOrdered
-- and Std.Sorting.IsSelection.
-- Sample is one concrete choice, for which the laws are proved and on which the examples in the
-- Tests modules run.
--
-- Bounds: `i32` and `i64` are integers whose wrap-around is written out where the source casts
-- them; `usize` has 64 bits. Every function recurs on its data, but for the binary search, whose
-- fuel is the length of the slice, and the reading loop of Storage.Scan, whose fuel is one more
-- than the number of rows, the loops of the collection, whose fuel is taken from the table's rows
-- and with which they run to their end, and planning, whose fuel is one more than the depth of the
-- branches.
--
-- Not modelled: the redb and OPFS backends, which adapt other stores to the same interface; the
-- choice of a plan by `find` with its covering, bitmap, text and vector scans, views and TTL; the
-- other pipeline stages, oplog and schema, which are built on the parts above; and the bindings for
-- Python, C, Node and WASM.
pub mod Prelude
pub mod Bson
pub mod Collection
pub mod Std
pub mod Storage
pub mod Query
pub mod Aggregation
pub mod Index
pub mod Planner
pub mod Update
pub mod Sample
pub mod Paths
