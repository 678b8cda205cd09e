-- ===== src/Paths.antt =====
-- rust/smongo-engine/src/paths.rs: dot-notation paths in nested documents.
-- A loop over the segments is a recursion on them; a write through `get_mut` is an insertion under
-- the key that is there.
pub mod Exists
pub mod Walk
pub mod Set
pub mod Unset
mod Tests
use mdb_embedded.Prelude.{
  ℕ, zero, suc, String, Bool, true, false, not, Option, none, some, List, [], ◌∷◌, split_dots,
  parse_usize, if◌then◌else◌,
}
use mdb_embedded.Bson.{
  Bson, document, array, null, Items, nil, cons, Document, end, Error, message, Result, ok, err,
  ◌>>=◌, Externals,
}

-- `arr.get(i)` and `arr.len()`
unfoldable pub get_item : Items → ℕ → Option Bson
get_item nil i = none
get_item (cons x xs) zero = some x
get_item (cons x xs) (suc i) = get_item xs i

unfoldable pub count_items : Items → ℕ
count_items nil = 0
count_items (cons x xs) = suc (count_items xs)

module _ (ext : Externals) where
  -- One step of `get_value`, from the value that is current.
  unfoldable pub enter : Bson → String → Option Bson
  unfolding get_item parse_usize
  enter (document d) part = ext.get d part
  enter (array arr) part = elim (parse_usize part) [ none ↦ none | some idx ↦ get_item arr idx ]
  enter _ part = none

  unfoldable pub get_from : List String → Bson → Option Bson
  get_from [] current = some current
  get_from (part ∷ parts) current = elim (enter current part) [
    | none ↦ none
    | some next ↦ get_from parts next
  ]

  unfoldable pub get_value : Document → String → Option Bson
  get_value doc key = elim (split_dots key) [
    | [] ↦ none
    | first ∷ parts ↦ elim (ext.get doc first) [ none ↦ none | some v ↦ get_from parts v ]
  ]

  unfoldable pub exists_from : List String → Bson → Bool
  unfolding get_item parse_usize
  exists_from [] current = true
  exists_from (part ∷ parts) (document d) = elim (ext.get d part) [
    | none ↦ false
    | some val ↦ exists_from parts val
  ]
  exists_from (part ∷ parts) (array arr) = elim (parse_usize part) [
    | none ↦ false
    | some idx ↦ elim (get_item arr idx) [ none ↦ false | some val ↦ exists_from parts val ]
  ]
  exists_from (part ∷ parts) _ = false

  unfoldable pub field_exists : Document → String → Bool
  field_exists doc key = exists_from (split_dots key) (document doc)

  -- `!matches!(current.get(part), Some(Bson::Document(_)))` and the insertion that it asks for.
  unfoldable pub make_parent : Document → String → Document
  make_parent current part = elim (ext.get current part) [
    | some (document d) ↦ current
    | _ ↦ ext.insert current part (document end)
  ]

  unfoldable pub set_from : List String → Bson → Document → Result Document
  set_from [] value current = err (message "empty key")
  set_from (last ∷ []) value current = ok (ext.insert current last value)
  set_from (part ∷ next ∷ parts) value current = elim (ext.get (make_parent current part) part) [
    | none ↦ err (message "path traversal failed")
    | some (document d) ↦ (do
      d' ← set_from (next ∷ parts) value d
      ok (ext.insert (make_parent current part) part (document d')))
    | some _ ↦ err (message "intermediate value is not a document")
  ]

  unfoldable pub set_value : Document → String → Bson → Result Document
  set_value doc key value = set_from (split_dots key) value doc

  unfoldable pub unset_from : List String → Document → Result Document
  unset_from [] current = ok current
  unset_from (last ∷ []) current = ok (ext.remove current last)
  unset_from (part ∷ next ∷ parts) current =
      if not (ext.contains_key current part) then ok current else elim (ext.get current part) [
        | none ↦ err (message "path traversal failed")
        | some (document d) ↦ (do
          d' ← unset_from (next ∷ parts) d
          ok (ext.insert current part (document d')))
        | some _ ↦ ok current
      ]

  unfoldable pub unset_value : Document → String → Result Document
  unset_value doc key = unset_from (split_dots key) doc
