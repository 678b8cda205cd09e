-- ===== src/Collection/Crud.antt =====
-- rust/smongo-engine/src/collection/crud.rs: the insertion, update, removal and count of documents.
use mdb_embedded.Prelude.{
  ℕ, ◌+◌, ◌==◌, Bool, true, false, ◌&&◌, Option, none, some, List, [], ◌∷◌, if◌then◌else◌,
}
use mdb_embedded.Bson.{Bson, document, null, Document, end, Externals}
use mdb_embedded.Storage.Memory.{MemCursor}
use mdb_embedded.Storage.Cursor.{insert, update, remove, set_key_str, set_value_raw}
use mdb_embedded.Update.{apply_update, apply_update_for_upsert}
use mdb_embedded.Collection.{
  CollectionResult, update_error, missing_id_error, Collection, Services, Action, ◌>>=◌, ◌>>◌, pure,
  fail, raise, on_cursor, Flow, stop, go,
}
use mdb_embedded.Collection.Documents.{
  extract_equality_fields, extract_id_string, doc_top_level_changed,
}
use mdb_embedded.Collection.Session.{
  with_batched_write, over_table, object_id_new, ensure_id, validate_doc, serialize_document,
  read_document, matches, append_oplog_if_enabled, cursor,
}
use mdb_embedded.Collection.Catalog.{insert_into_indexes, remove_from_indexes, update_in_indexes}

pub record UpdateResult : Type 0 where
  pub matched_count : ℕ
  pub modified_count : ℕ
  pub upserted_id : Option Bson

pub record UpdateOptions : Type 0 where
  pub upsert : Bool
  pub internal : Bool

abbrev pub no_update : UpdateResult
no_update = record { matched_count = 0; modified_count = 0; upserted_id = none }

module _ (ext : Externals) (svc : Services) (col : Collection) where
  -- The row of a document that has its `_id`, its index entries and its oplog row.
  unfoldable pub write_document : Document → Bson → Bool → Action Unit
  unfolding insert_into_indexes serialize_document cursor append_oplog_if_enabled
  write_document doc id internal =
      insert_into_indexes ext svc col doc >> serialize_document svc doc >>= (λ doc_bytes.
        (λ s. (extract_id_string ext svc doc, s)) >>= (λ key_str.
          on_cursor (set_value_raw doc_bytes (set_key_str key_str (cursor svc col))) insert
          >> append_oplog_if_enabled svc col "insert" id (some doc) internal none))

  unfoldable pub insert_one_inner : Document → Bool → Action Bson
  unfolding ensure_id validate_doc write_document
  insert_one_inner doc internal = ensure_id svc ext doc >>= (λ named.
      validate_doc svc col named.1 >> write_document named.1 named.0 internal >> pure named.0)

  unfoldable pub insert_one_with_options : Document → Bool → Action Bson
  unfolding with_batched_write insert_one_inner
  insert_one_with_options doc internal = with_batched_write (insert_one_inner doc internal)

  unfoldable pub insert_one : Document → Action Bson
  unfolding insert_one_with_options
  insert_one doc = insert_one_with_options doc false

  -- The ids and the documents with them, before the transaction.
  unfoldable pub prepare : List Document → Action (List (Bson × Document))
  unfolding ensure_id validate_doc
  prepare [] s = (CollectionResult.ok [], s)
  prepare (doc ∷ docs) s =
      (ensure_id svc ext doc >>= (λ named.
          validate_doc svc col named.1 >> prepare docs >>= (λ rest. pure (named ∷ rest))))
        s

  abbrev or_null : Option Bson → Bson
  or_null none = null
  or_null (some v) = v

  unfoldable pub write_each : List (Bson × Document) → Bool → Action Unit
  unfolding write_document
  write_each [] internal s = (CollectionResult.ok tt, s)
  write_each ((id, doc) ∷ docs) internal s =
      (write_document doc (or_null (ext.get doc "_id")) internal >> write_each docs internal) s

  abbrev ids_of : List (Bson × Document) → List Bson
  ids_of [] = []
  ids_of ((id, doc) ∷ docs) = id ∷ ids_of docs

  unfoldable pub insert_many_with_options : List Document → Bool → Action (List Bson)
  unfolding prepare with_batched_write write_each
  insert_many_with_options docs internal =
      prepare docs
      >>= (λ named. with_batched_write (write_each named internal >> pure (ids_of named)))

  unfoldable pub insert_many : List Document → Action (List Bson)
  unfolding insert_many_with_options
  insert_many docs = insert_many_with_options docs false

  -- `ok_or(CollectionError::MissingIdError)?`
  abbrev pub id_or_error : Option Bson → Action Bson
  id_or_error none = fail missing_id_error
  id_or_error (some id) = pure id

  -- The changed document over the row that the cursor is at, and the cursor.
  unfoldable pub replace_row :
      MemCursor → Document → Document → Document → Bool → Action (Unit {0} × MemCursor)
  unfolding update_in_indexes serialize_document doc_top_level_changed append_oplog_if_enabled
  replace_row c original_doc doc update_doc internal =
      update_in_indexes ext svc col original_doc doc
      >> serialize_document svc doc
      >>= (λ updated_bytes. on_cursor (set_value_raw updated_bytes c) update >>= (λ done.
          id_or_error (ext.get doc "_id") >>= (λ id.
            append_oplog_if_enabled svc col "update" id (some update_doc) internal
              (some (doc_top_level_changed ext original_doc doc))
            >> pure done)))

  -- One matching document: whether it changed, and the cursor.
  unfoldable pub update_row : MemCursor → Document → Document → Bool → Action (Bool × MemCursor)
  unfolding replace_row
  update_row c original_doc update_doc internal =
      raise update_error (apply_update ext original_doc update_doc) >>= (λ doc.
        if ext.beq (document doc) (document original_doc)
        then pure (false, c)
        else replace_row c original_doc doc update_doc internal >>= (λ done. pure (true, done.1)))

  abbrev pub counted : UpdateResult → Bool → UpdateResult
  counted r changed = record r {
    matched_count = r.matched_count + 1;
    modified_count = if changed then r.modified_count + 1 else r.modified_count;
  }

  unfoldable pub update_one_round :
      Document → Document → Bool → MemCursor → UpdateResult → Action (Flow UpdateResult)
  unfolding read_document matches update_row
  update_one_round filter update_doc internal c r = read_document svc ext c >>= (λ doc.
      matches svc ext doc filter >>= (λ hit.
        if hit
        then update_row c doc update_doc internal >>= (λ done. pure (stop (counted r done.0)))
        else pure (go c r)))

  unfoldable pub update_many_round :
      Document → Document → Bool → MemCursor → UpdateResult → Action (Flow UpdateResult)
  unfolding read_document matches update_row
  update_many_round filter update_doc internal c r = read_document svc ext c >>= (λ doc.
      matches svc ext doc filter >>= (λ hit.
        if hit
        then update_row c doc update_doc internal >>= (λ done. pure (go done.1 (counted r done.0)))
        else pure (go c r)))

  -- `new_doc` with an `_id`.
  abbrev with_new_id : Document → Action Document
  with_new_id doc =
      if ext.contains_key doc "_id"
      then pure doc
      else object_id_new svc >>= (λ id. pure (ext.insert doc "_id" id))

  unfoldable pub upsert_document : Document → Document → Bool → Action UpdateResult
  unfolding extract_equality_fields object_id_new insert_one_inner
  upsert_document filter update_doc internal =
      with_new_id (extract_equality_fields ext filter) >>= (λ named.
        raise update_error (apply_update_for_upsert ext named update_doc) >>= (λ new_doc.
          insert_one_inner new_doc internal
          >> pure (record no_update { upserted_id = some (or_null (ext.get new_doc "_id")) })))

  abbrev or_upsert : Document → Document → UpdateOptions → UpdateResult → Action UpdateResult
  or_upsert filter update_doc options r =
      if r.matched_count == 0 && options.upsert
      then upsert_document filter update_doc options.internal
      else pure r

  unfoldable pub update_one_inner : Document → Document → UpdateOptions → Action UpdateResult
  unfolding over_table update_one_round upsert_document
  update_one_inner filter update_doc options =
      over_table col.table_name (update_one_round filter update_doc options.internal) no_update
      >>= or_upsert filter update_doc options

  unfoldable pub update_many_inner : Document → Document → UpdateOptions → Action UpdateResult
  unfolding over_table update_many_round upsert_document
  update_many_inner filter update_doc options =
      over_table col.table_name (update_many_round filter update_doc options.internal) no_update
      >>= or_upsert filter update_doc options

  unfoldable pub update_one_with_options : Document → Document → UpdateOptions → Action UpdateResult
  unfolding with_batched_write update_one_inner
  update_one_with_options filter update_doc options =
      with_batched_write (update_one_inner filter update_doc options)

  unfoldable pub update_many_with_options :
      Document → Document → UpdateOptions → Action UpdateResult
  unfolding with_batched_write update_many_inner
  update_many_with_options filter update_doc options =
      with_batched_write (update_many_inner filter update_doc options)

  -- One matching document and its row.
  unfoldable pub delete_row : MemCursor → Document → Bool → Action (Unit {0} × MemCursor)
  unfolding remove_from_indexes append_oplog_if_enabled
  delete_row c doc internal = id_or_error (ext.get doc "_id") >>= (λ id.
      remove_from_indexes ext svc col doc
      >> on_cursor c remove
      >>= (λ done. append_oplog_if_enabled svc col "delete" id none internal none >> pure done))

  unfoldable pub delete_one_round : Document → Bool → MemCursor → ℕ → Action (Flow ℕ)
  unfolding read_document matches delete_row
  delete_one_round filter internal c n = read_document svc ext c >>= (λ doc.
      matches svc ext doc filter >>= (λ hit.
        if hit then delete_row c doc internal >>= (λ done. pure (stop (n + 1))) else pure (go c n)))

  unfoldable pub delete_many_round : Document → Bool → MemCursor → ℕ → Action (Flow ℕ)
  unfolding read_document matches delete_row
  delete_many_round filter internal c n = read_document svc ext c >>= (λ doc.
      matches svc ext doc filter >>= (λ hit.
        if hit
        then delete_row c doc internal >>= (λ done. pure (go done.1 (n + 1)))
        else pure (go c n)))

  unfoldable pub delete_one_inner : Document → Bool → Action ℕ
  unfolding over_table delete_one_round
  delete_one_inner filter internal = over_table col.table_name (delete_one_round filter internal) 0

  unfoldable pub delete_many_inner : Document → Bool → Action ℕ
  unfolding over_table delete_many_round
  delete_many_inner filter internal =
      over_table col.table_name (delete_many_round filter internal) 0

  unfoldable pub delete_one : Document → Action ℕ
  unfolding with_batched_write delete_one_inner
  delete_one filter = with_batched_write (delete_one_inner filter false)

  unfoldable pub delete_many : Document → Action ℕ
  unfolding with_batched_write delete_many_inner
  delete_many filter = with_batched_write (delete_many_inner filter false)

  unfoldable pub count_round : Document → MemCursor → ℕ → Action (Flow ℕ)
  unfolding read_document matches
  count_round filter c n =
      read_document svc ext c
      >>= (λ doc. matches svc ext doc filter >>= (λ hit. pure (go c (if hit then n + 1 else n))))

  abbrev filter_or_default : Option Document → Document
  filter_or_default none = end
  filter_or_default (some filter) = filter

  unfoldable pub count_documents : Option Document → Action ℕ
  unfolding over_table count_round
  count_documents filter = over_table col.table_name (count_round (filter_or_default filter)) 0
