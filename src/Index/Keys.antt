-- ===== src/Index/Keys.antt =====
-- rust/smongo-engine/src/index/mod.rs: index keys as bytes; and
-- rust/smongo-engine/src/index/prefix_index.rs: truncated keys.
-- `collation` is the `index_key_bytes` of a collation, where there is one.
use mdb_embedded.Prelude.{
  ℕ, zero, suc, ◌+◌, ◌-◌, ◌*◌, ◌/◌, ◌%◌, ◌==◌, ltb, leb, to_word, of_word, String, Bool, true,
  false, ◌&&◌, ◌||◌, Option, none, some, List, [], ◌∷◌, ◌++◌, length, take, drop, as_bytes,
  if◌then◌else◌,
}
use mdb_embedded.Bson.{
  Bson, double, string, boolean, null, int32, int64, object_id, date_time, Document, end, field,
  Externals,
}
use mdb_embedded.Paths.{get_value}
use mdb_embedded.Index.{from_bson, is_descending_key, key_count}

-- `to_be_bytes`: the digits to the base 256, the first the highest.
unfoldable pub be_bytes : ℕ → ℕ → List ℕ
be_bytes zero n = []
be_bytes (suc k) n = be_bytes k (n / 256) ++ (n % 256) ∷ []

-- `from_be_bytes`, from the value read so far.
unfoldable pub of_be_bytes : ℕ → List ℕ → ℕ
of_be_bytes n [] = n
of_be_bytes n (b ∷ bs) = of_be_bytes (n * 256 + b) bs

-- `b ^ 0xFF` of a byte.
unfoldable pub invert_bytes : List ℕ → List ℕ
invert_bytes [] = []
invert_bytes (b ∷ bs) = (255 - b) ∷ invert_bytes bs

unfoldable pub string_bytes : Option (String → List ℕ) → String → List ℕ
string_bytes (some index_key_bytes) s = index_key_bytes s
string_bytes none s = as_bytes s

unfoldable pub serialized : Option (String → List ℕ) → Option Bson → List ℕ
unfolding be_bytes string_bytes
serialized collation (some null) = 0 ∷ []
serialized collation (some (int32 n)) = be_bytes 4 (to_word 32 n)
serialized collation (some (int64 n)) = be_bytes 8 (to_word 64 n)
serialized collation (some (double d)) = be_bytes 8 d
serialized collation (some (string s)) = string_bytes collation s
serialized collation (some (object_id oid)) = oid
serialized collation (some (boolean b)) = (if b then 1 else 0) ∷ []
serialized collation (some (date_time t)) = be_bytes 8 (to_word 64 t)
serialized collation (some _) = 2 ∷ []
serialized collation none = 255 ∷ []

-- The parts with the separator between them.
unfoldable pub join_parts : List (List ℕ) → List ℕ
join_parts [] = []
join_parts (part ∷ []) = part
join_parts (part ∷ next ∷ parts) = part ++ 254 ∷ join_parts (next ∷ parts)

module _ (ext : Externals) where
  unfoldable pub key_part : Option (String → List ℕ) → Option Bson → Bson → List ℕ
  unfolding from_bson serialized invert_bytes
  key_part collation value direction =
      if is_descending_key (from_bson direction)
      then invert_bytes (serialized collation value)
      else serialized collation value

  unfoldable pub key_parts : Option (String → List ℕ) → Document → Document → List (List ℕ)
  key_parts collation doc end = []
  key_parts collation doc (field name direction keys) =
      key_part collation (get_value ext doc name) direction ∷ key_parts collation doc keys

  unfoldable pub extract_index_key_with_collation :
      Document → Document → Option (String → List ℕ) → List ℕ
  unfolding join_parts key_parts
  extract_index_key_with_collation doc keys collation = join_parts (key_parts collation doc keys)

  unfoldable pub extract_index_key : Document → Document → List ℕ
  extract_index_key doc keys = extract_index_key_with_collation doc keys none

-- `key_bytes.split(|&b| b == 0xFE)`
unfoldable pub split_parts : List ℕ → List (List ℕ)
split_parts [] = [] ∷ []
split_parts (b ∷ bs) =
    let rest = split_parts bs in
    if b == 254 then [] ∷ rest else elim rest [ [] ↦ (b ∷ []) ∷ [] | p ∷ ps ↦ (b ∷ p) ∷ ps ]

abbrev all_ascii : List ℕ → Bool
all_ascii [] = true
all_ascii (b ∷ bs) = leb 32 b && leb b 126 && all_ascii bs

-- `from_utf8` is of Rust's standard library; `is_wordlike` tells that a text is not empty and that
-- all its characters are alphanumeric, white space or among `_-./`.
module _ (ext : Externals) (from_utf8 : List ℕ → Option String) (is_wordlike : String → Bool) where
  abbrev as_text : List ℕ → Option Bson
  as_text bytes = elim (from_utf8 bytes) [ none ↦ none | some s ↦ some (string s) ]

  abbrev as_wordlike : List ℕ → Option String
  as_wordlike bytes = elim (from_utf8 bytes) [
    | none ↦ none
    | some s ↦ if is_wordlike s then some s else none
  ]

  unfoldable pub decode_fixed : List ℕ → Option Bson
  unfolding of_be_bytes
  decode_fixed bytes =
      if leb 4 (length bytes)
        && (length bytes == 4 || ltb 4 (length bytes) && all_ascii (drop 4 bytes))
      then some (int32 (of_word 31 (of_be_bytes 0 (take 4 bytes))))
      else if length bytes == 8
      then some (int64 (of_word 63 (of_be_bytes 0 bytes)))
      else if length bytes == 12
      then some (object_id bytes)
      else as_text bytes

  unfoldable pub decode_index_value_part : List ℕ → Option Bson
  unfolding decode_fixed
  decode_index_value_part [] = none
  decode_index_value_part (b ∷ bs) =
      if b == 255
      then none
      else if b == 1 && length (b ∷ bs) == 1
      then some (boolean true)
      else if b == 0 && length (b ∷ bs) == 1
      then some (boolean false)
      else elim (as_wordlike (b ∷ bs)) [ some s ↦ some (string s) | none ↦ decode_fixed (b ∷ bs) ]

  -- The loop over the fields, with the document made so far.
  unfoldable pub decode_fields : Document → List (List ℕ) → Document → Option Document
  unfolding from_bson invert_bytes decode_index_value_part
  decode_fields result parts end = some result
  decode_fields result [] (field name direction keys) = some result
  decode_fields result (part ∷ parts) (field name direction keys) =
      elim (decode_index_value_part
        (if is_descending_key (from_bson direction) then invert_bytes part else part)) [
          | none ↦ none
          | some value ↦ decode_fields (ext.insert result name value) parts keys
        ]

  unfoldable pub decode_index_key : List ℕ → Document → Option Document
  unfolding split_parts decode_fields key_count
  decode_index_key key_bytes index_keys =
      if ltb (length (split_parts key_bytes)) (key_count index_keys)
      then none
      else decode_fields end (split_parts key_bytes) index_keys

-- rust/smongo-engine/src/index/prefix_index.rs
unfoldable pub truncate_key : List ℕ → ℕ → List ℕ
truncate_key key prefix_length =
    if leb (length key) prefix_length then key else take prefix_length key

unfoldable pub extract_prefix_key : Externals → Document → Document → ℕ → List ℕ
unfolding truncate_key
extract_prefix_key ext doc keys prefix_length =
    truncate_key (extract_index_key ext doc keys) prefix_length
