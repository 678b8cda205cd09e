-- ===== src/Collection/Find.antt =====
-- rust/smongo-engine/src/collection/exec.rs and cursor.rs: the reads of documents through a plan.
use mdb_embedded.Prelude.{
  ℕ, suc, leb, String, Option, none, some, List, [], ◌∷◌, ◌++◌, length, if◌then◌else◌,
}
use mdb_embedded.Std.Order.{string_ord}
use mdb_embedded.Std.BTreeMap
use mdb_embedded.Bson.{Document, Externals}
use mdb_embedded.Storage
use mdb_embedded.Storage.{StorageResult}
use mdb_embedded.Storage.Memory.{MemCursor, open_cursor, rows_or_empty}
use mdb_embedded.Storage.Cursor.{Position, smaller, next, search_near, set_key_raw}
use mdb_embedded.Collection.{
  CollectionResult, ok, err, panic, storage_error, Collection, Services, Action, ◌>>=◌, pure,
  succeeds, opened, Flow, stop, go,
}
use mdb_embedded.Collection.Documents.{build_seek_prefix}
use mdb_embedded.Collection.Session.{
  over_table, each_row, value_of, read_document, matches, fetch_doc_by_id_str,
}
use mdb_embedded.Collection.Indexes.{index_table, starts_with, key_of, is_empty}

module _ (ext : Externals) (svc : Services) (col : Collection) where
  -- `get_value_str` of a cursor.
  abbrev text_of : Option String → CollectionResult String
  text_of none = err (storage_error (Storage.other "value not UTF-8"))
  text_of (some s) = ok s

  abbrev value_str : MemCursor → Action String
  value_str c = value_of c >>= (λ bytes s. (text_of (svc.from_utf8 bytes), s))

  unfoldable pub find_round :
      Document → MemCursor → Option Document → Action (Flow (Option Document))
  unfolding read_document matches
  find_round filter c r = read_document svc ext c >>= (λ doc.
      matches svc ext doc filter >>= (λ hit. pure (if hit then stop (some doc) else go c r)))

  unfoldable pub find_one_with_collection_scan : Document → Action (Option Document)
  unfolding over_table find_round
  find_one_with_collection_scan filter = over_table col.table_name (find_round filter) none

  unfoldable pub collect_round :
      Document → MemCursor → List Document → Action (Flow (List Document))
  unfolding read_document matches
  collect_round filter c out = read_document svc ext c >>= (λ doc.
      matches svc ext doc filter >>= (λ hit. pure (go c (if hit then out ++ doc ∷ [] else out))))

  unfoldable pub collect_collection_scan : Document → Action (List Document)
  unfolding over_table collect_round
  collect_collection_scan filter = over_table col.table_name (collect_round filter) []

  abbrev kept : Document → Option Document → Action (List Document)
  kept filter none = pure []
  kept filter (some doc) =
      matches svc ext doc filter >>= (λ hit. pure (if hit then doc ∷ [] else []))

  -- The document that an index entry leads to, if it is there and matches.
  unfoldable pub fetch_matching : Document → MemCursor → Action (List Document)
  unfolding fetch_doc_by_id_str matches
  fetch_matching filter c =
      value_str c >>= (λ id_str. fetch_doc_by_id_str svc col id_str >>= kept filter)

  unfoldable pub index_scan_round :
      Document → MemCursor → List Document → Action (Flow (List Document))
  unfolding fetch_matching
  index_scan_round filter c out = fetch_matching filter c >>= (λ docs. pure (go c (out ++ docs)))

  unfoldable pub collect_index_scan : Document → String → Action (List Document)
  unfolding over_table index_scan_round
  collect_index_scan filter index_name =
      over_table (index_table ext svc col index_name) (index_scan_round filter) []

  unfoldable first_round : Document → MemCursor → Option Document → Action (Flow (Option Document))
  unfolding fetch_matching
  first_round filter c r =
      fetch_matching filter c
      >>= (λ docs. elim docs [ [] ↦ pure (go c r) | doc ∷ _ ↦ pure (stop (some doc)) ])

  unfoldable pub find_one_with_index_scan : Document → String → Action (Option Document)
  unfolding over_table first_round
  find_one_with_index_scan filter index_name =
      over_table (index_table ext svc col index_name) (first_round filter) none

  -- `filter.is_empty() || eval_query(..)?`
  abbrev kept_unless_empty : Document → Option Document → Action (List Document)
  kept_unless_empty filter none = pure []
  kept_unless_empty filter (some doc) =
      if is_empty filter then pure (doc ∷ []) else kept filter (some doc)

  abbrev limited : ℕ → MemCursor → List Document → List Document → Flow (List Document)
  limited limit c out [] = go c out
  limited limit c out (doc ∷ docs) =
      if leb limit (length (out ++ doc ∷ []))
      then stop (out ++ doc ∷ [])
      else go c (out ++ doc ∷ [])

  unfoldable sorted_round : Document → ℕ → MemCursor → List Document → Action (Flow (List Document))
  unfolding fetch_doc_by_id_str matches
  sorted_round filter limit c out = value_str c >>= (λ id_str.
      fetch_doc_by_id_str svc col id_str
      >>= kept_unless_empty filter
      >>= (λ docs. pure (limited limit c out docs)))

  unfoldable pub collect_sorted_index_scan : Document → String → ℕ → Action (List Document)
  unfolding over_table sorted_round
  collect_sorted_index_scan filter index_name limit =
      over_table (index_table ext svc col index_name) (sorted_round filter limit) []

  -- The entries from the one that is current, while their keys have the prefix.
  unfoldable pub seek_rounds :
      {B : Type 0} → ℕ → List ℕ → (MemCursor → B → Action (Flow B)) → MemCursor → B → Action B
  unfolding each_row
  seek_rounds fuel seek_key body c b = key_of c >>= (λ key.
      if starts_with key seek_key
      then body c b >>= (λ flow. elim flow [
        | stop a ↦ pure a
        | go d a ↦
            each_row fuel
              (λ e r.
                key_of e >>= (λ k. if starts_with k seek_key then body e r else pure (stop r)))
              d a
      ])
      else pure b)

  -- After `search_near`: an entry before the key that has none after it ends the seek.
  unfoldable pub seek_from :
      {B : Type 0}
      → ℕ
      → List ℕ
      → (MemCursor → B → Action (Flow B))
      → MemCursor
      → B
      → StorageResult Position
      → Action B
  unfolding seek_rounds
  seek_from fuel seek_key body c b (Storage.ok smaller) s =
      (succeeds c next
          >>= (λ moved. if moved.0 then seek_rounds fuel seek_key body moved.1 b else pure b))
        s
  seek_from fuel seek_key body c b (Storage.ok _) s = seek_rounds fuel seek_key body c b s
  seek_from fuel seek_key body c b (Storage.err e) s = (ok b, s)
  seek_from fuel seek_key body c b Storage.panic s = (panic, s)

  unfoldable pub index_seek :
      {B : Type 0} → String → List ℕ → (MemCursor → B → Action (Flow B)) → B → Action B
  unfolding seek_from
  index_seek table seek_key body b s =
      let (r, t) = search_near (opened (set_key_raw seek_key (open_cursor table)) s) in
      seek_from (suc (length (rows_or_empty (BTreeMap.lookup table s.backend.tables)))) seek_key
        body t.cursor b r (record s { backend = t.backend })

  unfoldable pub find_one_with_index_seek :
      Document → String → Document → Document → Action (Option Document)
  unfolding index_seek first_round build_seek_prefix
  find_one_with_index_seek filter index_name index_keys seek_values =
      index_seek (index_table ext svc col index_name) (build_seek_prefix ext index_keys seek_values)
        (first_round filter) none

  unfoldable pub collect_index_seek :
      Document → String → Document → Document → Action (List Document)
  unfolding index_seek index_scan_round build_seek_prefix
  collect_index_seek filter index_name index_keys seek_values =
      index_seek (index_table ext svc col index_name) (build_seek_prefix ext index_keys seek_values)
        (index_scan_round filter) []
