-- ===== src/Aggregation/Stages.antt =====
-- rust/smongo-engine/src/aggregation/stages.rs: the stages that treat one document at a time, in the
-- form that takes a list and in the form that takes a stream.
-- A stream is the list of what its iterator gives, errors in their places. `evaluate` is the
-- evaluator of expressions.
pub mod Match
pub mod Unwind
pub mod Project
pub mod Rewrite
pub mod Redact
pub mod Sort
use mdb_embedded.Prelude.{
  ℕ, ℤ, ◌+◌, Option, none, some, List, [], ◌∷◌, map, length, take, drop, as_usize, as_i32, pos,
  String,
}
use mdb_embedded.Bson.{
  Bson, string, int32, int64, Document, end, Error, message, message_text, Result, ok, err, panic,
  ◌>>=◌, Externals,
}

-- `DocStream`
abbrev pub DocStream : Type 0
DocStream = List (Result Document)

-- `docs.into_iter().map(Ok)`
abbrev pub of_docs : List Document → DocStream
of_docs = map ok

-- `stream.collect::<Result<Vec<_>, _>>()`, which stops at the first error.
unfoldable pub collect : DocStream → Result (List Document)
collect [] = ok []
collect (result ∷ input) = do doc ← result; docs ← collect input; ok (doc ∷ docs)

abbrev pub or_err {ℓ} : {A : Type ℓ} → String → Option A → Result A
or_err text none = err (message text)
or_err text (some a) = ok a

-- `v.as_i64().or_else(|| v.as_i32())`
abbrev pub as_int : Bson → Option ℤ
as_int (int64 n) = some n
as_int (int32 n) = some n
as_int _ = none

-- `v.as_document()`
abbrev pub as_document : Bson → Option Document
as_document (Bson.document d) = some d
as_document _ = none

unfoldable pub stage_limit : List Document → Bson → Result (List Document)
stage_limit docs limit = do
  n ← or_err "$limit requires number" (as_int limit)
  ok (take (as_usize n) docs)

unfoldable pub stage_skip : List Document → Bson → Result (List Document)
stage_skip docs skip = do
  n ← or_err "$skip requires number" (as_int skip)
  ok (drop (as_usize n) docs)

unfoldable pub stage_limit_stream : DocStream → Bson → Result DocStream
stage_limit_stream input limit = do
  n ← or_err "$limit requires number" (as_int limit)
  ok (take (as_usize n) input)

unfoldable pub stage_skip_stream : DocStream → Bson → Result DocStream
stage_skip_stream input skip = do
  n ← or_err "$skip requires number" (as_int skip)
  ok (drop (as_usize n) input)

-- The sum of the estimated sizes against the limit; `size` is the length of a document's BSON.
abbrev pub total_bytes : (Document → ℕ) → List Document → ℕ
total_bytes size [] = 0
total_bytes size (doc ∷ docs) = size doc + total_bytes size docs
