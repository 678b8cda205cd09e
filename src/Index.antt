-- ===== src/Index.antt =====
-- rust/smongo-engine/src/index/mod.rs: the kinds of index, their options and key patterns.
pub mod Keys
pub mod Bytes
pub mod Order
pub mod Bitmap
pub mod Postings
pub mod Removal
pub mod Runs
mod Tests
use Prim.Native.String.{◌++◌}
use mdb_embedded.Prelude.{
  ℕ, zero, suc, ◌+◌, ◌==◌, String, str_eq, Bool, true, false, not, ◌&&◌, ◌||◌, Option, none, some,
  List, [], ◌∷◌, pos, negsuc, contains_str, has_prefix, if◌then◌else◌,
}
use mdb_embedded.Bson.{
  Bson, string, int32, int64, Document, end, field, Error, message, message_text, Result, ok, err,
  Externals,
}

pub data IndexType : Type 0 where
  b_tree two_d_sphere text vector_search bitmap prefix : IndexType

pub record VectorIndexOptions : Type 0 where
  pub dimensions : ℕ
  pub metric : String
  pub indexing_method : String
  pub ef_construction : Option ℕ
  pub m : Option ℕ

pub record TextIndexOptions : Type 0 where
  pub default_language : Option String
  pub weights : Option Document

pub record PrefixOptions : Type 0 where
  pub prefix_length : ℕ

pub record IndexOptions : Type 0 where
  pub name : Option String
  pub unique : Bool
  pub sparse : Bool
  pub background : Bool
  pub expire_after_seconds : Option ℕ
  pub partial_filter_expression : Option Document
  pub collation : Option Document
  pub index_type : Option IndexType
  pub vector_options : Option VectorIndexOptions
  pub text_options : Option TextIndexOptions
  pub prefix_options : Option PrefixOptions

pub record IndexSpec : Type 0 where
  pub name : String
  pub keys : Document
  pub options : IndexOptions

-- `keys.len()`
unfoldable pub key_count : Document → ℕ
key_count end = 0
key_count (field k v d) = key_count d + 1

-- `keys.keys().next()`
abbrev pub first_key : Document → Option String
first_key end = none
first_key (field k v d) = some k

abbrev is_sphere_value : Bson → Bool
is_sphere_value (string s) = str_eq s "2dsphere" || str_eq s "2d"
is_sphere_value _ = false

unfoldable all_sphere : Document → Bool
all_sphere end = true
all_sphere (field k v d) = is_sphere_value v && all_sphere d

unfoldable pub is_2dsphere_keys : Document → Bool
unfolding key_count all_sphere
is_2dsphere_keys keys = if not (key_count keys == 1) then false else all_sphere keys

unfoldable pub twodsphere_field : Document → Option String
twodsphere_field keys = if not (is_2dsphere_keys keys) then none else first_key keys

abbrev is_text_value : Bson → Bool
is_text_value (string s) = str_eq s "text"
is_text_value _ = false

unfoldable pub is_text_keys : Document → Bool
is_text_keys end = false
is_text_keys (field k v d) = is_text_value v || is_text_keys d

unfoldable pub text_fields : Document → List String
text_fields end = []
text_fields (field k v d) = let rest = text_fields d in if is_text_value v then k ∷ rest else rest

unfoldable pub vector_field : Document → Option String
vector_field keys = if key_count keys == 1 then first_key keys else none

unfoldable pub resolve_index_type : Document → IndexOptions → IndexType
resolve_index_type keys opts = elim opts.index_type [
  | some explicit ↦ explicit
  | none ↦
      if is_2dsphere_keys keys then two_d_sphere else if is_text_keys keys then text else b_tree
]

pub data IndexDirection : Type 0 where
  ascending descending : IndexDirection

-- `IndexDirection::from_bson`
unfoldable pub from_bson : Bson → Option IndexDirection
from_bson (int32 (pos (suc zero))) = some ascending
from_bson (int64 (pos (suc zero))) = some ascending
from_bson (int32 (negsuc zero)) = some descending
from_bson (int64 (negsuc zero)) = some descending
from_bson _ = none

abbrev pub is_descending_key : Option IndexDirection → Bool
is_descending_key (some descending) = true
is_descending_key _ = false

unfoldable direction_text : Bson → String
direction_text (int32 (pos (suc zero))) = "1"
direction_text (int64 (pos (suc zero))) = "1"
direction_text (int32 (negsuc zero)) = "-1"
direction_text (int64 (negsuc zero)) = "-1"
direction_text (string s) = s
direction_text _ = "1"

-- `parts.join("_")`, a part as it is made.
unfoldable pub generate_index_name : Document → String
unfolding direction_text
generate_index_name end = ""
generate_index_name (field name direction end) = name ++ ("_" ++ direction_text direction)
generate_index_name (field name direction (field k v d)) =
    (name ++ ("_" ++ direction_text direction)) ++ ("_" ++ generate_index_name (field k v d))

unfoldable pub validate_custom_index_name : String → Result (Unit {0})
validate_custom_index_name name =
    if contains_str name "." || contains_str name "/" || contains_str name "\\"
    then err (message_text "index name must not contain '.', '/', or '\\\\': " name)
    else if str_eq name "_id_"
    then err (message "index name '_id_' is reserved")
    else ok tt

module _ (ext : Externals) where
  unfoldable pub can_use_index : Document → Document → Bool
  can_use_index end index_keys = false
  can_use_index (field query_field v rest) index_keys =
      let more = can_use_index rest index_keys in
      if has_prefix query_field "$"
      then more
      else if ext.contains_key index_keys query_field
      then true
      else more
