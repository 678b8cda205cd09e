-- ===== src/Aggregation/Stages/Rewrite.antt =====
-- rust/smongo-engine/src/aggregation/stages.rs: `$addFields`, `$unset`, `$replaceRoot` and `$count`.
use mdb_embedded.Prelude.{pos, as_i32, length, String, Option, none, some, List, [], ◌∷◌, map}
use mdb_embedded.Bson.{
  Bson, string, array, document, int32, Items, nil, cons, Document, end, field, message, Result, ok,
  err, ◌>>=◌, unwrap_or, Externals,
}
use mdb_embedded.Paths.{set_value, unset_value}
use mdb_embedded.Aggregation.Stages.{DocStream, or_err, as_document}

-- `as_str`
abbrev str_of : Bson → Option String
str_of (string s) = some s
str_of _ = none

-- `filter_map` of `as_str` over an array.
abbrev pub strings_of : Items → List String
strings_of nil = []
strings_of (cons (string s) rest) = s ∷ strings_of rest
strings_of (cons _ rest) = strings_of rest

unfoldable pub unset_fields : Bson → Result (List String)
unset_fields (string s) = ok (s ∷ [])
unset_fields (array arr) = ok (strings_of arr)
unset_fields _ = err (message "$unset requires string or array")

-- `results.push` of what each document becomes, up to the first error.
unfoldable pub map_docs : (Document → Result Document) → List Document → Result (List Document)
map_docs change [] = ok []
map_docs change (doc ∷ docs) = do
  new_doc ← change doc
  results ← map_docs change docs
  ok (new_doc ∷ results)

-- `input.map(move |result| { let doc = result?; … })`
abbrev pub map_stream : (Document → Result Document) → DocStream → DocStream
map_stream change = map λ result. result >>= change

module _ (ext : Externals) where
  unfoldable pub unset_each : List String → Document → Result Document
  unset_each [] doc = ok doc
  unset_each (name ∷ names) doc = do
    new_doc ← unwrap_or doc (unset_value ext doc name)
    unset_each names new_doc

  unfoldable pub stage_unset : List Document → Bson → Result (List Document)
  stage_unset docs spec = do names ← unset_fields spec; map_docs (unset_each names) docs

  unfoldable pub stage_unset_stream : DocStream → Bson → Result DocStream
  stage_unset_stream input spec = do
    names ← unset_fields spec
    ok (map_stream (unset_each names) input)

  unfoldable pub stage_count : List Document → Bson → Result (List Document)
  stage_count docs field_name = do
    name ← or_err "$count requires string" (str_of field_name)
    ok (ext.insert end name (int32 (as_i32 (pos (length docs)))) ∷ [])

module _ (ext : Externals) (evaluate : Document → Bson → Result Bson) where
  -- The loop that evaluates against the document as it came and writes into a copy.
  unfoldable pub add_each_field : Document → Document → Document → Result Document
  add_each_field doc new_doc end = ok new_doc
  add_each_field doc new_doc (field name expr fields) = do
    val ← evaluate doc expr
    new_doc' ← unwrap_or new_doc (set_value ext new_doc name val)
    add_each_field doc new_doc' fields

  unfoldable pub stage_add_fields : List Document → Bson → Result (List Document)
  stage_add_fields docs fields_spec = do
    fields ← or_err "$addFields requires document" (as_document fields_spec)
    map_docs (λ doc. add_each_field doc doc fields) docs

  -- The stream evaluates every field first.
  unfoldable pub evaluate_fields :
      Document → Document → Result (List (record { 0 : String; 1 : Bson }))
  evaluate_fields doc end = ok []
  evaluate_fields doc (field name expr fields) = do
    val ← evaluate doc expr
    rest ← evaluate_fields doc fields
    ok ((name, val) ∷ rest)

  unfoldable pub set_evaluated : List (record { 0 : String; 1 : Bson }) → Document → Result Document
  set_evaluated [] doc = ok doc
  set_evaluated ((name, val) ∷ evaluated) doc = do
    doc' ← unwrap_or doc (set_value ext doc name val)
    set_evaluated evaluated doc'

  unfoldable pub add_fields_to : Document → Document → Result Document
  unfolding evaluate_fields set_evaluated
  add_fields_to fields doc = do evaluated ← evaluate_fields doc fields; set_evaluated evaluated doc

  unfoldable pub stage_add_fields_stream : DocStream → Bson → Result DocStream
  stage_add_fields_stream input fields_spec = do
    fields ← or_err "$addFields requires document" (as_document fields_spec)
    ok (map_stream (add_fields_to fields) input)

  unfoldable pub new_root_expr : Bson → Bson
  new_root_expr (document d) = elim (ext.get d "newRoot") [ none ↦ document d | some e ↦ e ]
  new_root_expr spec = spec

  abbrev root_of : Bson → Result Document
  root_of (document d) = ok d
  root_of _ = err (message "$replaceRoot expression must evaluate to a document")

  unfoldable pub replace_root : Bson → Document → Result Document
  replace_root expr doc = evaluate doc expr >>= root_of

  unfoldable pub stage_replace_root : List Document → Bson → Result (List Document)
  stage_replace_root docs spec = map_docs (replace_root (new_root_expr spec)) docs

  unfoldable pub stage_replace_root_stream : DocStream → Bson → Result DocStream
  stage_replace_root_stream input spec = ok (map_stream (replace_root (new_root_expr spec)) input)
