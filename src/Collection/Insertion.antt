-- ===== src/Collection/Insertion.antt =====
-- Documents read by their id, and the insertion of one.
use mdb_embedded.Prelude.{
  ℕ, ◌≡◌, refl, ap, sym, ◌∙◌, Bool, false, Option, none, some, List, [], inl, inr, Bool-cases,
  as_bytes, String, arith,
}
use mdb_embedded.Std.Order.{string_ord, bytes_ord, cmp_bytes}
use mdb_embedded.Std.BTreeMap.Laws.{when_eq}
use mdb_embedded.Bson.{Bson, Document, Externals}
use mdb_embedded.Bson
use mdb_embedded.Storage.{is_ok}
use mdb_embedded.Storage
use mdb_embedded.Storage.Memory.{open_cursor}
use mdb_embedded.Storage.Cursor.{
  insert, set_key_str, set_value_raw, effective_key, effective_value, get_value_raw, write_row,
}
use mdb_embedded.Storage.View.{read, Found, search-Found, insert-write_row, read-write_row}
use mdb_embedded.Collection.{
  CollectionResult, ok, err, panic, Collection, Store, Services, pure, opened,
  deserialization_error, of_result, continue,
}
use mdb_embedded.Collection.Session.{
  fetch_doc_by_id_str, cursor, deserialize_document, serialize_document, validate_doc, ensure_id,
  append_oplog_if_enabled,
}
use mdb_embedded.Collection.Documents.{extract_id_string}
use mdb_embedded.Collection.Catalog.{insert_into_indexes, list_indexes, for_specs}
use mdb_embedded.Collection.Crud.{insert_one_inner, write_document}
use mdb_embedded.Collection.Scans.{then_ok}

module _ (svc : Services) (col : Collection) where
  -- What the bytes under an id give.
  abbrev fetched : Option (List ℕ) → CollectionResult (Option Document)
  fetched none = ok none
  fetched (some bytes) =
      then_ok (of_result deserialization_error (svc.from_reader bytes)) (λ doc. ok (some doc))

  -- Over a lock that is not poisoned, the fetch of a document by its id changes nothing and gives what
  -- stands under the id in the collection's table: no document where there are no bytes, the document
  -- of the bytes where they can be decoded, and otherwise the failure of the decoding.
  pub fetch_doc_by_id_str-read :
      (id : String) (s : Store)
      → s.backend.poisoned ≡ false
      → fetch_doc_by_id_str svc col id s
        ≡ (fetched (read s.backend col.table_name (as_bytes id)), s)
  unfolding fetch_doc_by_id_str cursor open_cursor set_key_str effective_key deserialize_document
      get_value_raw
  fetch_doc_by_id_str-read id s healthy =
      by_value (read s.backend col.table_name (as_bytes id))
        (search-Found (opened (set_key_str id (cursor svc col)) s) (as_bytes id) healthy refl)
    where
      by_document :
          (d : CollectionResult Document)
          → continue d (λ doc. pure (some doc)) s ≡ (then_ok d (λ doc. ok (some doc)), s)
      by_document (ok doc) = refl
      by_document (err e) = refl
      by_document panic = refl

      by_value :
          (o : Option (List ℕ))
          → Found (opened (set_key_str id (cursor svc col)) s) (as_bytes id) o
          → fetch_doc_by_id_str svc col id s ≡ (fetched o, s)
      by_value none (e, f) = rw f refl
      by_value (some bytes) f =
          rw f (by_document (of_result deserialization_error (svc.from_reader bytes)))

module _ (ext : Externals) (svc : Services) (col : Collection) where
  -- Without indexes, there is nothing to insert into them.
  insert_into_indexes-none :
      (doc : Document) (key : String) (s : Store)
      → s.index_cache ≡ some []
      → extract_id_string ext svc doc ≡ ok key
      → insert_into_indexes ext svc col doc s ≡ (ok tt, s)
  unfolding insert_into_indexes list_indexes for_specs
  insert_into_indexes-none doc key s cached e = simp (cached, e) refl

  -- The state with the row of a document.
  abbrev written : Store → String → List ℕ → Store
  written s key bytes = record s {
    backend = record s.backend {
      tables = write_row col.table_name (as_bytes key) bytes s.backend.tables;
    };
  }

  insert_one_inner-written :
      (doc : Document) (id : Bson) (key : String) (bytes : List ℕ) (internal : Bool) (s : Store)
      → col.oplog ≡ none
      → s.index_cache ≡ some []
      → s.backend.poisoned ≡ false
      → ext.get doc "_id" ≡ some id
      → validate_doc svc col doc s ≡ (ok tt, s)
      → extract_id_string ext svc doc ≡ ok key
      → svc.to_writer doc ≡ Bson.ok bytes
      → insert_one_inner ext svc col doc internal s ≡ (ok id, written s key bytes)
  unfolding insert_one_inner write_document ensure_id serialize_document append_oplog_if_enabled
      cursor set_key_str set_value_raw open_cursor effective_key effective_value
  insert_one_inner-written doc id key bytes internal s no_oplog cached healthy has_id valid keyed
        writes =
      elim (Bool-cases internal) [
        | inl i ↦ simp (has_id, valid, no_entries, writes, keyed, row, i) refl
        | inr i ↦ simp (has_id, valid, no_entries, writes, keyed, row, i, no_oplog) refl
      ]
    where
      no_entries : insert_into_indexes ext svc col doc s ≡ (ok tt, s)
      no_entries = insert_into_indexes-none doc key s cached keyed

      row : insert (opened (set_value_raw bytes (set_key_str key (cursor svc col))) s) ≡ (
        Storage.ok tt,
        opened (set_value_raw bytes (set_key_str key (cursor svc col))) (written s key bytes),
      )
      row =
          insert-write_row (opened (set_value_raw bytes (set_key_str key (cursor svc col))) s)
            (as_bytes key) bytes healthy refl refl

  -- On a collection whose cached list of secondary indexes is empty and that has no oplog, over a lock
  -- that is not poisoned, `insert_one_inner` of a valid document with an `_id` succeeds; afterwards the
  -- document is fetched by its id, also where another one stood under that id before, and by any id
  -- whose text has other bytes the same is fetched as before.
  pub insert_one_inner-fetch_doc_by_id_str :
      (doc : Document) (id : Bson) (key : String) (bytes : List ℕ) (internal : Bool) (s : Store)
      → col.oplog ≡ none
      → s.index_cache ≡ some []
      → s.backend.poisoned ≡ false
      → ext.get doc "_id" ≡ some id
      → validate_doc svc col doc s ≡ (ok tt, s)
      → extract_id_string ext svc doc ≡ ok key
      → svc.to_writer doc ≡ Bson.ok bytes
      → svc.from_reader bytes ≡ Bson.ok doc
      → (t : Store) × (insert_one_inner ext svc col doc internal s ≡ (ok id, t))
        × ((j : String)
            → fetch_doc_by_id_str svc col j t ≡ (
              when_eq
                  (cmp_bytes (as_bytes key) (as_bytes j))
                  (ok (some doc))
                  (fetch_doc_by_id_str svc col j s).0,
              t,
            ))
  insert_one_inner-fetch_doc_by_id_str doc id key bytes internal s no_oplog cached healthy has_id
        valid keyed writes reads =
      (
        written s key bytes,
        insert_one_inner-written doc id key bytes internal s no_oplog cached healthy has_id valid
            keyed writes,
        λ j.
            fetch_doc_by_id_str-read svc col j (written s key bytes) healthy
            ∙ ap (λ r. (r, written s key bytes))
                (fetched-write_row j
                  ∙ ap (when_eq (cmp_bytes (as_bytes key) (as_bytes j)) (ok (some doc)))
                      (sym (ap (λ x. x.0) (fetch_doc_by_id_str-read svc col j s healthy)))),
      )
    where
      fetched-write_row :
          (j : String)
          → fetched svc col (read (written s key bytes).backend col.table_name (as_bytes j))
            ≡ when_eq
                (cmp_bytes (as_bytes key) (as_bytes j))
                (ok (some doc))
                (fetched svc col (read s.backend col.table_name (as_bytes j)))
      fetched-write_row j = ground (
        arith,
        reads,
        string_ord.cmp_refl col.table_name,
        read-write_row s.backend col.table_name (as_bytes key) bytes col.table_name (as_bytes j),
      )
