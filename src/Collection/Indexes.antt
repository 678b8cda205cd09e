-- ===== src/Collection/Indexes.antt =====
-- rust/smongo-engine/src/collection/indexes.rs: the entries of a document in the tables of the
-- collection's indexes.
use Prim.Native.String.{◌++◌ as append}
use mdb_embedded.Prelude.{
  ℕ, ◌==◌, String, Bool, true, false, not, ◌&&◌, Option, none, some, List, [], ◌∷◌, ◌++◌, as_bytes,
  if◌then◌else◌,
}
use mdb_embedded.Bson.{Bson, string, Document, end, Error, message, Result, Externals}
use mdb_embedded.Bson
use mdb_embedded.Storage
use mdb_embedded.Storage.{Exec, StorageResult}
use mdb_embedded.Storage.Memory.{MemCursor, open_cursor}
use mdb_embedded.Storage.Cursor.{
  Position, smaller, next, search, search_near, insert, remove, set_key_raw, set_value_str,
  get_key_raw,
}
use mdb_embedded.Paths.{get_value}
use mdb_embedded.Query.{eval_query}
use mdb_embedded.Index.{
  IndexType, two_d_sphere, b_tree, text, vector_search, bitmap, prefix, IndexSpec, PrefixOptions,
  resolve_index_type, twodsphere_field, text_fields,
}
use mdb_embedded.Index.Keys.{extract_index_key, extract_index_key_with_collation, truncate_key}
use mdb_embedded.Collection.{
  CollectionError, ok, panic, unique_constraint_violation, other, Collection, Services, Action,
  ◌>>=◌, ◌>>◌, pure, fail, of_result, of_storage, on_cursor, succeeds, opened,
}
use mdb_embedded.Collection.Documents.{key_names}

-- `found.starts_with(prefix)` of bytes.
unfoldable pub starts_with : List ℕ → List ℕ → Bool
starts_with bytes [] = true
starts_with [] (p ∷ ps) = false
starts_with (b ∷ bs) (p ∷ ps) = let rest = starts_with bs ps in b == p && rest

-- `names.join(", ")`
unfoldable pub join_names : List String → String
join_names [] = ""
join_names (n ∷ []) = n
join_names (n ∷ m ∷ names) = append n (append ", " (join_names (m ∷ names)))

abbrev pub key_of : MemCursor → Action (List ℕ)
key_of c s = (of_storage (get_key_raw c), s)

-- After `search_near` gave the position, which the last row before the prefix turns down.
unfoldable has_prefix_at : List ℕ → MemCursor → Action Bool
unfolding starts_with
has_prefix_at seek c = key_of c >>= (λ found. pure (starts_with found seek))

unfoldable pub near_prefix : List ℕ → MemCursor → StorageResult Position → Action Bool
unfolding has_prefix_at
near_prefix seek c (Storage.ok smaller) s =
    (succeeds c next >>= (λ moved. if moved.0 then has_prefix_at seek moved.1 else pure false)) s
near_prefix seek c (Storage.ok _) s = has_prefix_at seek c s
near_prefix seek c (Storage.err e) s = (ok false, s)
near_prefix seek c Storage.panic s = (panic, s)

-- The answer of `search_near` and the cursor, with the tables that it leaves as they are.
unfoldable pub index_has_prefix : MemCursor → List ℕ → Action Bool
unfolding near_prefix
index_has_prefix c seek s =
    let (r, t) = search_near (opened (set_key_raw seek c) s) in
    near_prefix seek t.cursor r (record s { backend = t.backend })

-- A row of an index table.
unfoldable pub put_entry : MemCursor → List ℕ → String → Action Unit
put_entry c key id_str =
    on_cursor (set_value_str id_str (set_key_raw key c)) insert >>= (λ done. pure tt)

-- `let _ = cursor.insert()`
unfoldable pub try_put_entry : MemCursor → List ℕ → String → Action Unit
try_put_entry c key id_str =
    succeeds (set_value_str id_str (set_key_raw key c)) insert >>= (λ done. pure tt)

-- `if cursor.search().is_ok() { cursor.remove()? }`
unfoldable pub take_entry : MemCursor → List ℕ → Action Unit
take_entry c key =
    succeeds (set_key_raw key c) search
    >>= (λ found. if found.0 then on_cursor found.1 remove >>= (λ done. pure tt) else pure tt)

-- `if cursor.search().is_ok() { let _ = cursor.remove(); }`
unfoldable pub try_take_entry : MemCursor → List ℕ → Action Unit
try_take_entry c key =
    succeeds (set_key_raw key c) search
    >>= (λ found. if found.0 then succeeds found.1 remove >>= (λ done. pure tt) else pure tt)

-- One entry for each key, in turn.
unfoldable pub for_keys : (List ℕ → Action Unit) → List (List ℕ) → Action Unit
for_keys act [] s = (ok tt, s)
for_keys act (key ∷ keys) s = (act key >> for_keys act keys) s

-- `unwrap_or("?")`
abbrev pub name_or_unknown : Option String → String
name_or_unknown none = "?"
name_or_unknown (some name) = name

abbrev pub sphere_error : Document → CollectionError
sphere_error keys = other (
    message (
      append "2dsphere indexed field '" (
        append (name_or_unknown (twodsphere_field keys))
          "' must be a GeoJSON Point or [longitude, latitude] array")))

abbrev pub prefix_length_of : Option PrefixOptions → ℕ
prefix_length_of none = 32
prefix_length_of (some p) = p.prefix_length

abbrev pub is_empty : Document → Bool
is_empty end = true
is_empty _ = false

-- `token.as_bytes()` before 0xFE and the id.
abbrev pub token_keys : String → List String → List (List ℕ)
token_keys id_str [] = []
token_keys id_str (token ∷ tokens) =
    (as_bytes token ++ 254 ∷ as_bytes id_str) ∷ token_keys id_str tokens

module _ (ext : Externals) (svc : Services) (col : Collection) where
  abbrev pub index_table : String → String
  index_table name = append col.collection_name (append ".idx_" name)

  abbrev excluded_by : Option Document → Document → Result Bool
  excluded_by none doc = Bson.ok false
  excluded_by (some pfe) doc =
      if is_empty pfe
      then Bson.ok false
      else Bson.map_ok not (Bson.unwrap_or false (eval_query ext doc pfe))

  -- `!pfe.is_empty() && !eval_query(doc, pfe).unwrap_or(false)`
  unfoldable pub is_left_out : Option Document → Document → Action Bool
  is_left_out pfe doc s = (of_result other (excluded_by pfe doc), s)

  abbrev collation_of : Option Document → Option (String → List ℕ)
  collation_of none = none
  collation_of (some c) = some (svc.collation c)

  unfoldable pub b_tree_key : Document → IndexSpec → List ℕ
  b_tree_key doc spec =
      extract_index_key_with_collation ext doc spec.keys (collation_of spec.options.collation)

  abbrev tokens_of : String → Option Bson → List (List ℕ)
  tokens_of id_str (some (string t)) = token_keys id_str (svc.tokenize t)
  tokens_of id_str _ = []

  unfoldable pub text_keys : Document → String → List String → List (List ℕ)
  text_keys doc id_str [] = []
  text_keys doc id_str (name ∷ fields) =
      tokens_of id_str (get_value ext doc name) ++ text_keys doc id_str fields

  abbrev text_cursor : IndexSpec → MemCursor
  text_cursor spec = open_cursor (append col.collection_name (append ".ftx_" spec.name))

  abbrev prefix_cursor : IndexSpec → MemCursor
  prefix_cursor spec = open_cursor (append col.collection_name (append ".pfx_" spec.name))

  abbrev prefix_key : Document → String → IndexSpec → List ℕ
  prefix_key doc id_str spec =
      truncate_key (extract_index_key ext doc spec.keys)
        (prefix_length_of spec.options.prefix_options)
      ++ as_bytes id_str

  abbrev put_sphere : Option (List ℕ) → String → IndexSpec → Action Unit
  put_sphere (some key) id_str spec = put_entry (open_cursor (index_table spec.name)) key id_str
  put_sphere none id_str spec =
      if spec.options.sparse then pure tt else fail (sphere_error spec.keys)

  abbrev pub duplicate_key : IndexSpec → CollectionError
  duplicate_key spec = unique_constraint_violation (
      append "Duplicate key for index '"
        (append spec.name (append "' on fields: " (join_names (key_names spec.keys)))))

  -- `options.unique && index_has_prefix(cursor, key)?`
  abbrev is_taken : Bool → String → List ℕ → Action Bool
  is_taken unique table key =
      if unique then index_has_prefix (open_cursor table) key else pure false

  unfoldable pub put_b_tree : List ℕ → String → IndexSpec → Action Unit
  unfolding index_has_prefix put_entry
  put_b_tree key id_str spec =
      is_taken spec.options.unique (index_table spec.name) key >>= (λ taken.
        if taken
        then fail (duplicate_key spec)
        else put_entry (open_cursor (index_table spec.name)) (key ++ as_bytes id_str) id_str)

  -- The entry of a kind of index.
  unfoldable pub put_by_type : IndexType → Document → String → IndexSpec → Action Unit
  unfolding put_b_tree put_entry try_put_entry for_keys text_keys b_tree_key
  put_by_type two_d_sphere doc id_str spec =
      put_sphere (svc.twodsphere_index_key doc spec.keys) id_str spec
  put_by_type b_tree doc id_str spec = put_b_tree (b_tree_key doc spec) id_str spec
  put_by_type text doc id_str spec =
      for_keys (λ key. try_put_entry (text_cursor spec) key id_str)
        (text_keys doc id_str (text_fields spec.keys))
  put_by_type vector_search doc id_str spec = pure tt
  put_by_type bitmap doc id_str spec = pure tt
  put_by_type prefix doc id_str spec =
      try_put_entry (prefix_cursor spec) (prefix_key doc id_str spec) id_str

  unfoldable pub insert_into_indexes_single : Document → String → IndexSpec → Action Unit
  unfolding is_left_out put_by_type
  insert_into_indexes_single doc id_str spec =
      is_left_out spec.options.partial_filter_expression doc >>= (λ left_out.
        if left_out
        then pure tt
        else put_by_type (resolve_index_type spec.keys spec.options) doc id_str spec)

  abbrev take_sphere : Option (List ℕ) → IndexSpec → Action Unit
  take_sphere none spec = pure tt
  take_sphere (some key) spec = take_entry (open_cursor (index_table spec.name)) key

  unfoldable pub take_by_type : IndexType → Document → String → IndexSpec → Action Unit
  unfolding take_entry try_take_entry for_keys text_keys b_tree_key
  take_by_type two_d_sphere doc id_str spec =
      take_sphere (svc.twodsphere_index_key doc spec.keys) spec
  take_by_type b_tree doc id_str spec =
      take_entry (open_cursor (index_table spec.name)) (b_tree_key doc spec ++ as_bytes id_str)
  take_by_type text doc id_str spec =
      for_keys (try_take_entry (text_cursor spec)) (text_keys doc id_str (text_fields spec.keys))
  take_by_type vector_search doc id_str spec = pure tt
  take_by_type bitmap doc id_str spec = pure tt
  take_by_type prefix doc id_str spec =
      try_take_entry (prefix_cursor spec) (prefix_key doc id_str spec)

  unfoldable pub remove_from_indexes_single : Document → String → IndexSpec → Action Unit
  unfolding take_by_type
  remove_from_indexes_single doc id_str spec =
      take_by_type (resolve_index_type spec.keys spec.options) doc id_str spec
