-- ===== src/Aggregation/Stages/Project.antt =====
-- rust/smongo-engine/src/aggregation/stages.rs: `$project`.
use mdb_embedded.Prelude.{
  pos, compare_ℤ, is_eq, String, str_eq, Bool, true, false, not, ◌&&◌, ◌||◌, none, some, List, [],
  ◌∷◌, if◌then◌else◌,
}
use mdb_embedded.Bson.{
  Bson, boolean, int32, int64, Document, end, field, Result, ok, ◌>>=◌, Externals,
}
use mdb_embedded.Paths.{get_value}
use mdb_embedded.Aggregation.Stages.{DocStream, or_err, as_document}
use mdb_embedded.Aggregation.Stages.Rewrite.{map_docs, map_stream}

-- `Bson::Int32(0) | Bson::Int64(0) | Bson::Boolean(false)`
abbrev pub is_excluding : Bson → Bool
is_excluding (int32 n) = is_eq (compare_ℤ n (pos 0))
is_excluding (int64 n) = is_eq (compare_ℤ n (pos 0))
is_excluding (boolean b) = not b
is_excluding _ = false

-- `Bson::Int32(1) | Bson::Int64(1) | Bson::Boolean(true)`
abbrev pub is_including : Bson → Bool
is_including (int32 n) = is_eq (compare_ℤ n (pos 1))
is_including (int64 n) = is_eq (compare_ℤ n (pos 1))
is_including (boolean b) = b
is_including _ = false

unfoldable pub has_exclusion : Document → Bool
has_exclusion end = false
has_exclusion (field k v rest) = (not (str_eq k "_id") && is_excluding v) || has_exclusion rest

module _ (ext : Externals) (evaluate : Document → Bson → Result Bson) where
  unfoldable pub id_excluded : Document → Bool
  id_excluded proj_doc = elim (ext.get proj_doc "_id") [ none ↦ false | some v ↦ is_excluding v ]

  abbrev drop_id : Document → Document → Document
  drop_id proj_doc nd = if id_excluded proj_doc then ext.remove nd "_id" else nd

  -- The batch form of an exclusion: the fields in their order.
  unfoldable pub exclude_each : Document → Document → Document → Result Document
  exclude_each doc nd end = ok nd
  exclude_each doc nd (field k value rest) = elim (str_eq k "_id") [
    | true ↦ exclude_each doc nd rest
    | false ↦ elim (is_excluding value) [
      | true ↦ exclude_each doc (ext.remove nd k) rest
      | false ↦ (do val ← evaluate doc value; exclude_each doc (ext.insert nd k val) rest)
    ]
  ]

  unfoldable pub include_each : Document → Document → Document → Result Document
  include_each doc nd end = ok nd
  include_each doc nd (field k value rest) = elim (str_eq k "_id") [
    | true ↦ include_each doc nd rest
    | false ↦ elim (is_including value) [
      | true ↦
          include_each doc
            (elim (get_value ext doc k) [ none ↦ nd | some val ↦ ext.insert nd k val ]) rest
      | false ↦ (do val ← evaluate doc value; include_each doc (ext.insert nd k val) rest)
    ]
  ]

  -- The new document of an inclusion starts with the `_id`, unless that is excluded.
  unfoldable pub start_inclusion : Document → Document → Document
  start_inclusion proj_doc doc =
      if id_excluded proj_doc
      then end
      else elim (ext.get doc "_id") [ none ↦ end | some id ↦ ext.insert end "_id" id ]

  unfoldable pub project_doc : Document → Document → Result Document
  unfolding exclude_each include_each start_inclusion
  project_doc proj_doc doc =
      if has_exclusion proj_doc
      then exclude_each doc doc proj_doc >>= (λ nd. ok (drop_id proj_doc nd))
      else include_each doc (start_inclusion proj_doc doc) proj_doc

  unfoldable pub stage_project : List Document → Bson → Result (List Document)
  stage_project docs projection = do
    proj_doc ← or_err "$project requires document" (as_document projection)
    map_docs (project_doc proj_doc) docs

  -- The stream form of an exclusion: it evaluates, then removes, then inserts.
  unfoldable pub compute_each :
      Document → Document → Result (List (record { 0 : String; 1 : Bson }))
  compute_each doc end = ok []
  compute_each doc (field k value rest) = elim (str_eq k "_id" || is_excluding value) [
    | true ↦ compute_each doc rest
    | false ↦ (do
      val ← evaluate doc value
      computed ← compute_each doc rest
      ok ((k, val) ∷ computed))
  ]

  unfoldable pub remove_each : Document → Document → Document
  remove_each nd end = nd
  remove_each nd (field k value rest) =
      remove_each (if not (str_eq k "_id") && is_excluding value then ext.remove nd k else nd) rest

  unfoldable pub insert_computed : Document → List (record { 0 : String; 1 : Bson }) → Document
  insert_computed nd [] = nd
  insert_computed nd ((k, val) ∷ computed) = insert_computed (ext.insert nd k val) computed

  unfoldable pub project_doc_stream : Document → Document → Result Document
  unfolding compute_each remove_each insert_computed include_each start_inclusion
  project_doc_stream proj_doc doc =
      if has_exclusion proj_doc
      then compute_each doc proj_doc >>= (λ computed.
        ok (drop_id proj_doc (insert_computed (remove_each doc proj_doc) computed)))
      else include_each doc (start_inclusion proj_doc doc) proj_doc

  unfoldable pub stage_project_stream : DocStream → Bson → Result DocStream
  stage_project_stream input projection = do
    proj_doc ← or_err "$project requires document" (as_document projection)
    ok (map_stream (project_doc_stream proj_doc) input)
