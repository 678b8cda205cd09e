-- ===== src/Collection/Documents.antt =====
-- rust/smongo-engine/src/collection/mod.rs: the functions on documents that the collection shares.
use mdb_embedded.Prelude.{
  ℕ, String, str_eq, Bool, true, false, not, ◌||◌, Option, none, some, List, [], ◌∷◌, ◌++◌, pos,
  zero, has_prefix, if◌then◌else◌,
}
use mdb_embedded.Std.Order.{string_ord}
use mdb_embedded.Std.Sort.{sort_by}
use mdb_embedded.Bson.{
  Bson, double, string, document, boolean, int32, int64, object_id, Document, end, field, Externals,
}
use mdb_embedded.Collection.{CollectionResult, ok, err, missing_id_error, Services}
use mdb_embedded.Index.Keys.{extract_index_key}

-- `inner.keys().any(|k| k.starts_with('$'))`
unfoldable pub has_operator : Document → Bool
has_operator end = false
has_operator (field k v d) = has_prefix k "$" || has_operator d

abbrev is_operator_value : Bson → Bool
is_operator_value (document inner) = has_operator inner
is_operator_value _ = false

abbrev is_zero : Bson → Bool
is_zero (int32 (pos zero)) = true
is_zero (int64 (pos zero)) = true
is_zero _ = false

unfoldable pub key_names : Document → List String
key_names end = []
key_names (field k v d) = k ∷ key_names d

abbrev has_name : List String → String → Bool
has_name [] k = false
has_name (j ∷ names) k = str_eq j k || has_name names k

module _ (ext : Externals) where
  -- The entries of the filter from here on, beside the document made so far.
  unfoldable pub equality_fields : Document → Document → Document
  unfolding has_operator
  equality_fields doc end = doc
  equality_fields doc (field key value rest) =
      if has_prefix key "$" || is_operator_value value
      then equality_fields doc rest
      else equality_fields (ext.insert doc key value) rest

  unfoldable pub extract_equality_fields : Document → Document
  extract_equality_fields filter = equality_fields end filter

  unfoldable pub trimmed_keys : Document → Document → Document → Document
  trimmed_keys seek_values trimmed end = trimmed
  trimmed_keys seek_values trimmed (field name dir keys) =
      let more = trimmed_keys seek_values (ext.insert trimmed name dir) keys in
      if ext.contains_key seek_values name then more else trimmed

  unfoldable pub build_seek_prefix : Document → Document → List ℕ
  build_seek_prefix index_keys seek_values =
      extract_index_key ext seek_values (trimmed_keys seek_values end index_keys)

  -- `*d != 0.0`
  abbrev is_included : Bson → Bool
  is_included (double d) = not (ext.beq (double d) (double (ext.of_int (pos 0))))
  is_included (boolean b) = b
  is_included v = not (is_zero v)

  abbrev copied : Document → String → Option Bson → Document
  copied result name none = result
  copied result name (some v) = ext.insert result name v

  unfoldable pub projected : Document → Document → Document → Document
  projected index_doc result end = result
  projected index_doc result (field name value rest) =
      if str_eq name "_id" || not (is_included value)
      then projected index_doc result rest
      else projected index_doc (copied result name (ext.get index_doc name)) rest

  unfoldable pub apply_projection_to_index_doc : Document → Document → Document
  apply_projection_to_index_doc index_doc projection = projected index_doc end projection

  abbrev is_excluded : Option Bson → Bool
  is_excluded (some (boolean b)) = not b
  is_excluded (some v) = is_zero v
  is_excluded none = false

  unfoldable pub should_include_id : Document → Bool
  should_include_id projection = not (is_excluded (ext.get projection "_id"))

  module _ (svc : Services) where
    unfoldable pub id_string : Option Bson → CollectionResult String
    id_string (some (object_id oid)) = ok (svc.to_hex oid)
    id_string (some (string s)) = ok s
    id_string (some (int32 i)) = ok (svc.int_to_string i)
    id_string (some (int64 i)) = ok (svc.int_to_string i)
    id_string (some other) = ok (svc.display other)
    id_string none = err missing_id_error

    unfoldable pub extract_id_string : Document → CollectionResult String
    unfolding id_string
    extract_id_string doc = id_string (ext.get doc "_id")

  abbrev same_value : Option Bson → Option Bson → Bool
  same_value none none = true
  same_value (some a) (some b) = ext.beq a b
  same_value _ _ = false

  -- The keys whose values differ, each once.
  unfoldable pub changed_names : Document → Document → List String → List String
  changed_names before after [] = []
  changed_names before after (k ∷ names) =
      let rest = changed_names before after names in
      if str_eq k "_id" || has_name rest k || same_value (ext.get before k) (ext.get after k)
      then rest
      else k ∷ rest

  unfoldable pub doc_top_level_changed : Document → Document → List String
  unfolding key_names
  doc_top_level_changed before after =
      sort_by string_ord.cmp (changed_names before after (key_names before ++ key_names after))
