-- ===== src/Aggregation/Stages/Match.antt =====
-- rust/smongo-engine/src/aggregation/stages.rs: `$match`; and
-- rust/smongo-engine/src/aggregation/mod.rs: the merging of the leading `$match` stages.
use mdb_embedded.Prelude.{
  str_eq, Bool, false, ◌||◌, Option, none, some, List, [], ◌∷◌, if◌then◌else◌,
}
use mdb_embedded.Bson.{
  Bson, array, document, nil, cons, Document, end, field, Result, ok, err, panic, ◌>>=◌, unwrap_or,
  Externals,
}
use mdb_embedded.Query.{eval_query}
use mdb_embedded.Aggregation.Stages.{DocStream, or_err, as_document}

module _ (ext : Externals) where
  unfoldable pub keep_matching : List Document → Document → Result (List Document)
  keep_matching [] filter_doc = ok []
  keep_matching (doc ∷ docs) filter_doc = do
    hit ← unwrap_or false (eval_query ext doc filter_doc)
    rest ← keep_matching docs filter_doc
    ok (if hit then doc ∷ rest else rest)

  unfoldable pub stage_match : List Document → Bson → Result (List Document)
  stage_match docs filter = do
    filter_doc ← or_err "$match requires document" (as_document filter)
    keep_matching docs filter_doc

  -- What the stream gives in the place of one result, before the rest.
  unfoldable pub match_one : Document → Result Document → DocStream → DocStream
  match_one filter_doc (ok doc) rest = elim (eval_query ext doc filter_doc) [
    | ok hit ↦ if hit then ok doc ∷ rest else rest
    | err e ↦ err e ∷ rest
    | panic ↦ panic ∷ rest
  ]
  match_one filter_doc other rest = other ∷ rest

  unfoldable pub match_each : DocStream → Document → DocStream
  unfolding match_one
  match_each [] filter_doc = []
  match_each (result ∷ input) filter_doc = match_one filter_doc result (match_each input filter_doc)

  unfoldable pub stage_match_stream : DocStream → Bson → Result DocStream
  stage_match_stream input filter = do
    filter_doc ← or_err "$match requires document" (as_document filter)
    ok (match_each input filter_doc)

  unfoldable pub has_overlap : Document → Document → Bool
  has_overlap a end = false
  has_overlap a (field k v b) = ext.contains_key a k || has_overlap a b

  unfoldable pub insert_all : Document → Document → Document
  insert_all merged end = merged
  insert_all merged (field k v b) = insert_all (ext.insert merged k v) b

  unfoldable pub merge_match_filters : Document → Document → Document
  unfolding has_overlap insert_all
  merge_match_filters a b =
      if has_overlap a b
      then ext.insert end "$and" (array (cons (document a) (cons (document b) nil)))
      else insert_all a b

  -- The filter of a stage whose first key is `$match` with a document, by the key.
  unfoldable pub leading_match : Document → Option Document
  leading_match end = none
  leading_match (field name v stage) =
      if str_eq name "$match"
      then elim (ext.get (field name v stage) "$match") [
        | some (document filter) ↦ some filter
        | _ ↦ none
      ]
      else none

  abbrev pub merged_with : Option Document → Document → Document
  merged_with none filter = filter
  merged_with (some prev) filter = merge_match_filters prev filter

  unfoldable pub optimize_from :
      Option Document → List Document → record { 0 : Option Document; 1 : List Document }
  optimize_from merged_filter [] = (merged_filter, [])
  optimize_from merged_filter (stage ∷ pipeline) = elim (leading_match stage) [
    | none ↦ (merged_filter, stage ∷ pipeline)
    | some filter ↦ optimize_from (some (merged_with merged_filter filter)) pipeline
  ]

  unfoldable pub optimize_pipeline :
      List Document → record { 0 : Option Document; 1 : List Document }
  optimize_pipeline pipeline = optimize_from none pipeline
