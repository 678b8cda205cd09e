-- ===== src/Collection/Catalog.antt =====
-- rust/smongo-engine/src/collection/indexes.rs: the list of a collection's indexes, their creation,
-- removal and rebuilding, and the maintenance of all of them.
use Prim.Native.String.{◌++◌ as append}
use mdb_embedded.Prelude.{
  ℕ, zero, suc, ◌+◌, ◌==◌, String, str_eq, Bool, true, false, not, ◌||◌, ◌&&◌, Option, none, some,
  List, [], ◌∷◌, ◌++◌, is_eq, as_bytes, length, if◌then◌else◌,
}
use mdb_embedded.Std.Order.{cmp_bytes, string_ord}
use mdb_embedded.Std.BTreeMap
use mdb_embedded.Bson.{Bson, string, document, Document, end, Error, message, Result, Externals}
use mdb_embedded.Bson
use mdb_embedded.Storage.Memory.{
  MemCursor, open_cursor, create_table, drop_table, begin_transaction, rows_or_empty,
}
use mdb_embedded.Storage.Cursor.{
  next, search, insert, remove, set_key_raw, set_key_str, set_value_raw,
}
use mdb_embedded.Index.{
  IndexType, b_tree, IndexSpec, IndexOptions, resolve_index_type, is_2dsphere_keys, key_count,
  generate_index_name, validate_custom_index_name,
}
use mdb_embedded.Index.Keys.{extract_index_key}
use mdb_embedded.Collection.{
  CollectionError, CollectionResult, ok, err, panic, unique_constraint_violation,
  invalid_index_spec, index_already_exists, other, Collection, Services, Action, ◌>>=◌, ◌>>◌, pure,
  fail, raise, of_result, on_session, on_cursor, succeeds, Flow, go,
}
use mdb_embedded.Collection.Documents.{extract_id_string, key_names}
use mdb_embedded.Collection.Session.{
  over_table, value_of, end_write, invalidate_index_cache, append_oplog_if_enabled,
  deserialize_document,
}
use mdb_embedded.Collection.Indexes.{
  index_table, insert_into_indexes_single, remove_from_indexes_single, b_tree_key, put_entry,
  take_entry, for_keys, is_empty, key_of, is_left_out, join_names, sphere_error,
}

-- `!seen.insert(key)`
abbrev holds_key : List (List ℕ) → List ℕ → Bool
holds_key [] k = false
holds_key (j ∷ keys) k = is_eq (cmp_bytes j k) || holds_key keys k

abbrev same_bytes : List ℕ → List ℕ → Bool
same_bytes a b = is_eq (cmp_bytes a b)

module _ (svc : Services) (col : Collection) where
  abbrev pub metadata_table : String
  metadata_table = append col.collection_name ".indexes_metadata"

  unfoldable read_spec : MemCursor → List IndexSpec → Action (Flow (List IndexSpec))
  read_spec c indexes = value_of c >>= (λ bytes.
      raise other (svc.spec_from_slice bytes) >>= (λ spec. pure (go c (indexes ++ spec ∷ []))))

  abbrev cached : Option (List IndexSpec) → Action (List IndexSpec)
  cached (some indexes) s = (ok indexes, s)
  cached none s =
      (over_table metadata_table read_spec []
          >>= (λ indexes t. (ok indexes, record t { index_cache = some indexes })))
        s

  unfoldable pub list_indexes : Action (List IndexSpec)
  unfolding read_spec
  list_indexes s = cached s.index_cache s

module _ (ext : Externals) (svc : Services) (col : Collection) where
  -- `for index_spec in &indexes`
  unfoldable pub for_specs : (IndexSpec → Action Unit) → List IndexSpec → Action Unit
  for_specs act [] s = (ok tt, s)
  for_specs act (spec ∷ specs) s = (act spec >> for_specs act specs) s

  abbrev id_of : Document → Action String
  id_of doc s = (extract_id_string ext svc doc, s)

  unfoldable pub insert_into_indexes : Document → Action Unit
  unfolding list_indexes for_specs insert_into_indexes_single
  insert_into_indexes doc = list_indexes svc col >>= (λ indexes.
      id_of doc
      >>= (λ id_str. for_specs (insert_into_indexes_single ext svc col doc id_str) indexes))

  unfoldable pub remove_from_indexes : Document → Action Unit
  unfolding list_indexes for_specs remove_from_indexes_single
  remove_from_indexes doc = list_indexes svc col >>= (λ indexes.
      id_of doc
      >>= (λ id_str. for_specs (remove_from_indexes_single ext svc col doc id_str) indexes))

  abbrev is_b_tree : IndexType → Bool
  is_b_tree b_tree = true
  is_b_tree _ = false

  -- A B-tree index whose key is the same before and after is left alone.
  unfoldable pub update_in_index : Document → Document → String → String → IndexSpec → Action Unit
  unfolding b_tree_key insert_into_indexes_single remove_from_indexes_single
  update_in_index old_doc new_doc old_id new_id spec =
      if is_b_tree (resolve_index_type spec.keys spec.options)
        && same_bytes (b_tree_key ext svc col old_doc spec) (b_tree_key ext svc col new_doc spec)
        && str_eq old_id new_id
      then pure tt
      else (remove_from_indexes_single ext svc col old_doc old_id spec
          >> insert_into_indexes_single ext svc col new_doc new_id spec)

  unfoldable pub update_in_indexes : Document → Document → Action Unit
  unfolding list_indexes for_specs update_in_index
  update_in_indexes old_doc new_doc = list_indexes svc col >>= (λ indexes.
      id_of old_doc >>= (λ old_id.
        id_of new_doc
        >>= (λ new_id. for_specs (update_in_index old_doc new_doc old_id new_id) indexes)))

  -- The keys of the documents seen by a unique index.
  abbrev rebuild_error : Document → CollectionError
  rebuild_error keys =
      unique_constraint_violation
        (append "Duplicate key for index on fields: " (join_names (key_names keys)))

  abbrev rebuild_sphere : Option (List ℕ) → String → String → Document → IndexOptions → Action Unit
  rebuild_sphere (some key) table id_str keys options = put_entry (open_cursor table) key id_str
  rebuild_sphere none table id_str keys options =
      if options.sparse then pure tt else fail (sphere_error keys)

  abbrev rebuild_key :
      List ℕ → String → String → Document → IndexOptions → List (List ℕ) → Action (List (List ℕ))
  rebuild_key key table id_str keys options seen =
      if options.unique && holds_key seen key
      then fail (rebuild_error keys)
      else put_entry (open_cursor table) (key ++ as_bytes id_str) id_str
        >> pure (if options.unique then key ∷ seen else seen)

  -- One document of the collection, with the keys that were seen.
  unfoldable pub rebuild_document :
      String → Document → IndexOptions → Document → List (List ℕ) → Action (List (List ℕ))
  unfolding put_entry is_left_out
  rebuild_document table keys options doc seen = id_of doc >>= (λ id_str.
      is_left_out ext svc col options.partial_filter_expression doc >>= (λ left_out.
        if left_out
        then pure seen
        else if is_2dsphere_keys keys
        then rebuild_sphere (svc.twodsphere_index_key doc keys) table id_str keys options
          >> pure seen
        else rebuild_key (extract_index_key ext doc keys) table id_str keys options seen))

  unfoldable rebuild_row :
      String → Document → IndexOptions → MemCursor → List (List ℕ) → Action (Flow (List (List ℕ)))
  unfolding deserialize_document rebuild_document
  rebuild_row table keys options c seen =
      value_of c
      >>= deserialize_document svc
      >>= (λ doc. rebuild_document table keys options doc seen >>= (λ more. pure (go c more)))

  unfoldable pub rebuild_index : String → Document → IndexOptions → Action Unit
  unfolding over_table rebuild_row
  rebuild_index index_name keys options =
      over_table col.table_name (rebuild_row (index_table ext svc col index_name) keys options) []
      >> pure tt

  -- The keys under which `next` finds rows, from the row that is current.
  unfoldable pub collect_keys : ℕ → MemCursor → List (List ℕ) → Action (List (List ℕ))
  collect_keys zero c keys s = (panic, s)
  collect_keys (suc fuel) c keys s =
      (key_of c >>= (λ key. succeeds c next >>= (λ moved.
          if moved.0
          then collect_keys fuel moved.1 (keys ++ key ∷ [])
          else pure (keys ++ key ∷ []))))
        s

  -- The rounds of the loop are at most the rows and one more.
  unfoldable pub clear_index_table : String → Action Unit
  unfolding collect_keys for_keys take_entry
  clear_index_table index_name s =
      (succeeds (set_key_raw [] (open_cursor (index_table ext svc col index_name))) search
          >>= (λ found.
              (if found.0
                then collect_keys
                    (suc (
                      suc (
                        length (
                          rows_or_empty (
                            BTreeMap.lookup (index_table ext svc col index_name)
                              s.backend.tables)))))
                    found.1 []
                else pure [])
              >>= for_keys (take_entry found.1)))
        s

  unfoldable rebuild_each : ℕ → List IndexSpec → Action ℕ
  rebuild_each n [] s = (ok n, s)
  rebuild_each n (spec ∷ specs) s =
      if str_eq spec.name "_id_"
      then rebuild_each n specs s
      else (clear_index_table spec.name
            >> rebuild_index spec.name spec.keys spec.options
            >> rebuild_each (n + 1) specs)
          s

  unfoldable pub rebuild_all_indexes : Action ℕ
  unfolding list_indexes rebuild_each
  rebuild_all_indexes = list_indexes svc col >>= rebuild_each 0

  -- The name of the index to create.
  abbrev checked_name : Document → Option String → CollectionResult String
  checked_name keys none = ok (generate_index_name keys)
  checked_name keys (some n) =
      if str_eq (svc.trim n) ""
      then ok (generate_index_name keys)
      else of_result invalid_index_spec
          (Bson.map_ok (λ _. svc.trim n) (validate_custom_index_name (svc.trim n)))

  unfoldable pub check_sphere : Document → IndexOptions → CollectionResult Unit
  check_sphere keys opts =
      if not (is_2dsphere_keys keys)
      then ok tt
      else if not (key_count keys == 1)
      then err (invalid_index_spec (message "2dsphere index must be defined on exactly one field"))
      else if opts.unique
      then err (invalid_index_spec (message "unique 2dsphere indexes are not supported"))
      else ok tt

  abbrev named : String → List IndexSpec → Option IndexSpec
  named name [] = none
  named name (spec ∷ specs) = if str_eq spec.name name then some spec else named name specs

  abbrev spec_of : String → Document → IndexOptions → IndexSpec
  spec_of index_name keys opts = record { name = index_name; keys = keys; options = opts }

  -- The body of the transaction of `create_index`.
  unfoldable make_index : String → Document → IndexOptions → Action String
  unfolding rebuild_index append_oplog_if_enabled
  make_index index_name keys opts =
      on_session (create_table (index_table ext svc col index_name))
      >> on_session (create_table (metadata_table svc col))
      >> raise other (svc.spec_to_vec (spec_of index_name keys opts))
      >>= (λ spec_bytes.
          on_cursor
            (set_value_raw spec_bytes
              (set_key_str index_name (open_cursor (metadata_table svc col))))
            insert
          >> rebuild_index index_name keys opts
          >> append_oplog_if_enabled svc col "index_create" (string index_name)
              (svc.spec_to_document (spec_of index_name keys opts)) false none
          >> pure index_name)

  abbrev create_named : String → Document → IndexOptions → Action String
  create_named index_name keys opts =
      (λ s. (check_sphere keys opts, s)) >> list_indexes svc col >>= (λ existing.
        elim (named index_name existing) [
          | some spec ↦
              if ext.beq (document spec.keys) (document keys)
              then pure index_name
              else fail (index_already_exists index_name)
          | none ↦ on_session begin_transaction >> end_write (make_index index_name keys opts)
        ])

  unfoldable pub create_index : Document → IndexOptions → Action String
  unfolding check_sphere list_indexes make_index end_write
  create_index keys options =
      if is_empty keys
      then fail (invalid_index_spec (message "Index keys cannot be empty"))
      else (λ s. (checked_name keys options.name, s))
        >>= (λ index_name. create_named index_name keys (record options { name = none }))

  unfoldable pub drop_one : String → Action Unit
  unfolding take_entry invalidate_index_cache append_oplog_if_enabled
  drop_one index_name =
      on_session (drop_table (index_table ext svc col index_name))
      >> succeeds (set_key_str index_name (open_cursor (metadata_table svc col))) search
      >>= (λ found.
          (if found.0 then on_cursor found.1 remove >> pure tt else pure tt)
          >> invalidate_index_cache
          >> append_oplog_if_enabled svc col "index_drop" (string index_name) none false none)

  unfoldable drop_each : List IndexSpec → Action Unit
  drop_each [] s = (ok tt, s)
  drop_each (spec ∷ specs) s =
      if str_eq spec.name "_id_"
      then drop_each specs s
      else if str_eq spec.name "*"
      then (panic, s)
      else (drop_one spec.name >> drop_each specs) s

  -- An index whose own name is "*" makes the calls under "*" go on until the stack overflows.
  unfoldable pub drop_index : String → Action Unit
  unfolding list_indexes drop_one drop_each
  drop_index index_name =
      if str_eq index_name "*" then list_indexes svc col >>= drop_each else drop_one index_name
