-- ===== src/Collection/Session.antt =====
-- rust/smongo-engine/src/collection/mod.rs: the methods of a collection that its operations share,
-- and the loop over a cursor that they run.
use mdb_embedded.Prelude.{
  ℕ, zero, suc, String, Bool, Option, none, some, List, length, if◌then◌else◌,
}
use mdb_embedded.Std.Order.{string_ord}
use mdb_embedded.Std.BTreeMap
use mdb_embedded.Bson.{Bson, object_id, Document, Externals}
use mdb_embedded.Storage.Memory.{
  MemCursor, create_table, open_cursor, in_transaction, begin_transaction, commit_transaction,
  rollback_transaction, rows_or_empty,
}
use mdb_embedded.Storage.Cursor.{next, search, set_key_str, get_value_raw}
use mdb_embedded.Query.{eval_query}
use mdb_embedded.Collection.{
  CollectionResult, ok, err, panic, serialization_error, deserialization_error, query_error, other,
  CollectionOplogSettings, Collection, Services, Action, ◌>>=◌, ◌>>◌, pure, raise, of_storage,
  on_session, succeeds, Flow, stop, go,
}

-- `Collection::with_table_uri` and `Collection::new`
unfoldable pub with_table_uri : String → String → Action Collection
with_table_uri name table_uri = do
  on_session (create_table table_uri)
  pure record { table_name = table_uri; collection_name = name; validator = none; oplog = none }

unfoldable pub new : String → Action Collection
new name = with_table_uri name name

unfoldable pub with_oplog_settings : CollectionOplogSettings → Collection → Action Collection
with_oplog_settings oplog col = do
  on_session (create_table oplog.oplog_table)
  pure (record col { oplog = some oplog })

unfoldable pub set_validator : Option Document → Collection → Collection
set_validator schema col = record col { validator = schema }

-- `*self.index_cache.borrow_mut() = None`
unfoldable pub invalidate_index_cache : Action Unit
invalidate_index_cache s = (ok tt, record s { index_cache = none })

-- The transaction after the closure: commit after a success, roll back after an error.
unfoldable pub finish : {A : Type 0} → CollectionResult A → Action A
finish (ok a) s = (on_session commit_transaction >> pure a) s
finish (err e) s = (err e, record s { backend = (rollback_transaction s.backend).1 })
finish panic s = (panic, s)

-- What stands behind the call of `f`; a panic of `f` unwinds past it.
abbrev close_write : {A : Type 0} → CollectionResult A → Action A
close_write panic s = (panic, s)
close_write r s = finish r (invalidate_index_cache s).1

unfoldable pub end_write : {A : Type 0} → Action A → Action A
unfolding finish invalidate_index_cache
end_write f s = close_write (f s).0 (f s).1

unfoldable pub with_batched_write : {A : Type 0} → Action A → Action A
unfolding end_write
with_batched_write f s =
    if in_transaction s.backend then f s else (on_session begin_transaction >> end_write f) s

-- `Collection::with_transaction`
unfoldable pub with_transaction : {A : Type 0} → Action A → Action A
unfolding finish
with_transaction f = on_session begin_transaction >> λ s. finish (f s).0 (f s).1

-- `while cursor.next().is_ok()`, which the source writes as a loop between two calls of `next`.
unfoldable pub each_row :
    {B : Type 0} → ℕ → (MemCursor → B → Action (Flow B)) → MemCursor → B → Action B
each_row zero body c b s = (panic, s)
each_row (suc fuel) body c b s =
    (succeeds c next >>= (λ moved.
        if moved.0
        then body moved.1 b
          >>= (λ flow. elim flow [ stop a ↦ pure a | go d a ↦ each_row fuel body d a ])
        else pure b))
      s

-- The loop over a table from its start, which has a round for each row and one for the end.
unfoldable pub over_table : {B : Type 0} → String → (MemCursor → B → Action (Flow B)) → B → Action B
unfolding each_row
over_table name body b s =
    each_row (suc (length (rows_or_empty (BTreeMap.lookup name s.backend.tables)))) body
      (open_cursor name) b s

-- `ObjectId::new()`
unfoldable pub object_id_new : Services → Action Bson
object_id_new svc s =
    (ok (object_id (svc.object_id_new s.object_ids)), record s { object_ids = suc s.object_ids })

abbrev pub value_of : MemCursor → Action (List ℕ)
value_of c s = (of_storage (get_value_raw c), s)

module _ (svc : Services) where
  unfoldable pub serialize_document : Document → Action (List ℕ)
  serialize_document doc = raise serialization_error (svc.to_writer doc)

  unfoldable pub deserialize_document : List ℕ → Action Document
  deserialize_document bytes = raise deserialization_error (svc.from_reader bytes)

  module _ (ext : Externals) where
    abbrev given_id : Document → Option Bson → Action (Bson × Document)
    given_id doc (some id) = pure (id, doc)
    given_id doc none = object_id_new svc >>= (λ id. pure (id, ext.insert doc "_id" id))

    -- The `_id`, and the document with it.
    unfoldable pub ensure_id : Document → Action (Bson × Document)
    unfolding object_id_new
    ensure_id doc = given_id doc (ext.get doc "_id")

    -- The document under the cursor, and whether it matches.
    unfoldable pub read_document : MemCursor → Action Document
    unfolding deserialize_document
    read_document c = value_of c >>= deserialize_document

    unfoldable pub matches : Document → Document → Action Bool
    matches doc filter = raise query_error (eval_query ext doc filter)

  module _ (col : Collection) where
    abbrev validated : Option Document → Document → Action Unit
    validated none doc = pure tt
    validated (some schema) doc = raise other (svc.validate_document doc schema)

    unfoldable pub validate_doc : Document → Action Unit
    validate_doc doc = validated col.validator doc

    -- The oplog row is written by the session of the collection.
    abbrev append_with :
        Option CollectionOplogSettings
        → String
        → Bson
        → Option Document
        → Option (List String)
        → Action Unit
    append_with none op doc_id payload changed_fields s = pure tt s
    append_with (some cfg) op doc_id payload changed_fields s =
        let (r, b) = svc.append_oplog cfg op doc_id payload changed_fields s.backend in
        raise other r (record s { backend = b })

    unfoldable pub append_oplog_if_enabled :
        String → Bson → Option Document → Bool → Option (List String) → Action Unit
    append_oplog_if_enabled op doc_id payload internal changed_fields =
        if internal then pure tt else append_with col.oplog op doc_id payload changed_fields

    -- `self.cursor()`
    unfoldable pub cursor : MemCursor
    unfolding open_cursor
    cursor = open_cursor col.table_name

    unfoldable pub fetch_doc_by_id_str : String → Action (Option Document)
    unfolding deserialize_document cursor
    fetch_doc_by_id_str id = succeeds (set_key_str id cursor) search >>= (λ found.
        if found.0
        then value_of found.1 >>= deserialize_document >>= (λ doc. pure (some doc))
        else pure none)
