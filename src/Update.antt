-- ===== src/Update.antt =====
-- rust/smongo-engine/src/update/mod.rs: update documents and the order their operators run in.
pub mod Fields
pub mod Arrays
pub mod Positional
pub mod Order
pub mod Splice
pub mod Sets
pub mod Selected
pub mod Numbers
pub mod Writes
mod Tests
use mdb_embedded.Prelude.{
  String, Bool, true, false, Option, none, some, List, [], ◌∷◌, has_prefix, str_eq, if◌then◌else◌,
  ◌&&◌, not,
}
use mdb_embedded.Bson.{
  Bson, document, Document, end, field, Error, message_text, Result, ok, err, ◌>>=◌, Externals,
}
use mdb_embedded.Update.Fields.{
  apply_set, apply_unset, apply_inc, apply_mul, apply_min, apply_max, apply_rename,
  apply_current_date,
}
use mdb_embedded.Update.Arrays.{apply_push, apply_pull, apply_pop, apply_add_to_set}
use mdb_embedded.Update.Positional.{
  FilterMap, parse_array_filters, has_positional_paths, split_positional_paths, Split,
  apply_positional_operator,
}

-- The first key that is not an operator.
unfoldable pub wrong_key : Document → Option String
wrong_key end = none
wrong_key (field key spec rest) = if has_prefix key "$" then wrong_key rest else some key

abbrev pub operator_order : List String
operator_order =
    "$set" ∷ "$setOnInsert" ∷ "$unset" ∷ "$inc" ∷ "$mul" ∷ "$min" ∷ "$max" ∷ "$currentDate"
    ∷ "$rename" ∷ "$addToSet" ∷ "$push" ∷ "$pull" ∷ "$pop" ∷ []

abbrev is_nil : FilterMap → Bool
is_nil [] = true
is_nil (f ∷ fs) = false

module _ (ext : Externals) where
  unfoldable pub apply_operator : Document → String → Document → Bool → Result Document
  apply_operator doc operator spec_doc is_upsert_insert =
      if str_eq operator "$set"
      then apply_set ext doc spec_doc
      else if str_eq operator "$setOnInsert"
      then if is_upsert_insert then apply_set ext doc spec_doc else ok doc
      else if str_eq operator "$unset"
      then apply_unset ext doc spec_doc
      else if str_eq operator "$inc"
      then apply_inc ext doc spec_doc
      else if str_eq operator "$mul"
      then apply_mul ext doc spec_doc
      else if str_eq operator "$min"
      then apply_min ext doc spec_doc
      else if str_eq operator "$max"
      then apply_max ext doc spec_doc
      else if str_eq operator "$currentDate"
      then apply_current_date ext doc spec_doc
      else if str_eq operator "$rename"
      then apply_rename ext doc spec_doc
      else if str_eq operator "$addToSet"
      then apply_add_to_set ext doc spec_doc
      else if str_eq operator "$push"
      then apply_push ext doc spec_doc
      else if str_eq operator "$pull"
      then apply_pull ext doc spec_doc
      else if str_eq operator "$pop"
      then apply_pop ext doc spec_doc
      else ok doc

  abbrev apply_normal : Document → String → Document → Bool → Result Document
  apply_normal doc operator end is_upsert_insert = ok doc
  apply_normal doc operator (field k v d) is_upsert_insert =
      apply_operator doc operator (field k v d) is_upsert_insert

  unfoldable pub apply_paths :
      Document → List (record { 0 : String; 1 : Bson }) → String → FilterMap → Result Document
  apply_paths doc [] operator filter_map = ok doc
  apply_paths doc ((path, value) ∷ positional) operator filter_map = do
    doc' ← apply_positional_operator ext doc path value operator filter_map
    apply_paths doc' positional operator filter_map

  apply_split : Document → String → Bool → FilterMap → Split → Result Document
  apply_split doc operator is_upsert_insert filter_map (positional, normal) = do
    doc' ← apply_normal doc operator normal is_upsert_insert
    apply_paths doc' positional operator filter_map

  -- One operator with its specification.
  unfoldable pub apply_spec : Bool → FilterMap → Document → String → Option Bson → Result Document
  unfolding apply_split
  apply_spec is_upsert_insert filter_map doc operator none = ok doc
  apply_spec is_upsert_insert filter_map doc operator (some (document spec_doc)) =
      if not (is_nil filter_map) && has_positional_paths spec_doc
      then apply_split doc operator is_upsert_insert filter_map
          (split_positional_paths ext end spec_doc)
      else apply_operator doc operator spec_doc is_upsert_insert
  apply_spec is_upsert_insert filter_map doc operator (some _) =
      err (message_text operator " must be a document")

  unfoldable pub apply_operators :
      List String → Document → Document → Bool → FilterMap → Result Document
  apply_operators [] doc update is_upsert_insert filter_map = ok doc
  apply_operators (operator ∷ operators) doc update is_upsert_insert filter_map = do
    doc' ← apply_spec is_upsert_insert filter_map doc operator (ext.get update operator)
    apply_operators operators doc' update is_upsert_insert filter_map

  unfoldable pub apply_update_impl : Document → Document → Bool → List Document → Result Document
  apply_update_impl doc update is_upsert_insert array_filters = elim (wrong_key update) [
    | some key ↦ err (message_text "Update keys must be operators starting with $, found: " key)
    | none ↦
        apply_operators operator_order doc update is_upsert_insert
          (parse_array_filters array_filters)
  ]

  unfoldable pub apply_update : Document → Document → Result Document
  apply_update doc update = apply_update_impl doc update false []

  unfoldable pub apply_update_for_upsert : Document → Document → Result Document
  apply_update_for_upsert doc update = apply_update_impl doc update true []

  unfoldable pub apply_update_with_array_filters :
      Document → Document → List Document → Result Document
  apply_update_with_array_filters doc update array_filters =
      apply_update_impl doc update false array_filters
