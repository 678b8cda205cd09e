-- ===== src/Update/Arrays.antt =====
-- rust/smongo-engine/src/update/mod.rs: the operators on arrays.
use mdb_embedded.Prelude.{
  ℕ, ◌+◌, ◌-◌, min, ℤ, pos, negsuc, compare_ℤ, neg_i64, as_usize, as_i32, String, Bool, true, false,
  not, ◌||◌, Option, none, some, List, [], ◌∷◌, ◌++◌, length, take, drop, Ordering, is_eq, opposite,
  ltb, if◌then◌else◌,
}
use mdb_embedded.Std.Sort.{sort_by}
use mdb_embedded.Bson.{
  Bson, array, document, int32, int64, Items, Document, end, field, to_list, of_list, message,
  message_value, message_int, Result, ok, err, ◌>>=◌, map_ok, unwrap_or, Externals,
}
use mdb_embedded.Paths.{get_value, set_value}
use mdb_embedded.Query.{eval_query}
use mdb_embedded.Aggregation.{compare_bson}

abbrev pub is_negative : ℤ → Bool
is_negative (pos n) = false
is_negative (negsuc n) = true

abbrev pub is_zero : ℤ → Bool
is_zero n = is_eq (compare_ℤ n (pos 0))

abbrev pub optional_int : Option Bson → Option ℤ
optional_int (some (int32 n)) = some n
optional_int (some (int64 n)) = some n
optional_int _ = none

-- `arr.insert(i, elem)`, for an index that is at most the length.
abbrev pub insert_at : ℕ → Bson → List Bson → List Bson
insert_at i elem arr = take i arr ++ (elem ∷ drop i arr)

-- The loop that inserts the elements one behind the other.
unfoldable pub insert_each : ℕ → List Bson → List Bson → List Bson
insert_each idx [] arr = arr
insert_each idx (elem ∷ elements) arr = insert_each (idx + 1) elements (insert_at idx elem arr)

unfoldable pub position_index : ℤ → ℕ → ℕ
position_index position size =
    if is_negative position
    then size - as_usize (neg_i64 position)
    else min (as_usize position) size

unfoldable pub push_elements : Option ℤ → List Bson → List Bson → List Bson
unfolding insert_each position_index
push_elements none elements arr = arr ++ elements
push_elements (some position) elements arr =
    insert_each (position_index position (length arr)) elements arr

unfoldable pub slice_array : ℤ → List Bson → List Bson
slice_array n arr =
    if is_zero n
    then []
    else if is_negative n
    then if ltb (as_usize (neg_i64 n)) (length arr)
      then drop (length arr - as_usize (neg_i64 n)) arr
      else arr
    else take (as_usize n) arr

slice_step : Option Bson → List Bson → Result (List Bson)
slice_step none arr = ok arr
slice_step (some (int32 n)) arr = ok (slice_array n arr)
slice_step (some (int64 n)) arr = ok (slice_array n arr)
slice_step (some _) arr = err (message "$slice must be numeric")

abbrev directed : Bool → Ordering → Ordering
directed down o = if down then opposite o else o

module _ (ext : Externals) where
  -- `get_value` of an element, if it is a document.
  abbrev element_field : String → Bson → Option Bson
  element_field key (document d) = get_value ext d key
  element_field key _ = none

  abbrev is_down : Bson → Bool
  is_down (int32 n) = is_negative n
  is_down (int64 n) = is_negative n
  is_down _ = false

  -- The comparison of two elements by the fields of a sort document.
  unfoldable pub compare_fields : Document → Bson → Bson → Ordering
  compare_fields end a b = Ordering.eq
  compare_fields (field key direction rest) a b =
      let more = compare_fields rest a b in
      elim (directed (is_down direction)
        (compare_bson ext (element_field key a) (element_field key b))) [
          | Ordering.eq ↦ more
          | Ordering.lt ↦ Ordering.lt
          | Ordering.gt ↦ Ordering.gt
        ]

  compare_elements : Bool → Bson → Bson → Ordering
  compare_elements down a b = directed down (compare_bson ext (some a) (some b))

  sort_step : Option Bson → List Bson → Result (List Bson)
  sort_step none arr = ok arr
  sort_step (some (int32 n)) arr = ok (sort_by (compare_elements (is_negative n)) arr)
  sort_step (some (int64 n)) arr = ok (sort_by (compare_elements (is_negative n)) arr)
  sort_step (some (document sort_doc)) arr = ok (sort_by (compare_fields sort_doc) arr)
  sort_step (some _) arr = err (message "$sort must be 1, -1, or a document")

  -- `$each`: the elements go in, then the whole array is sorted, then it is cut.
  unfoldable pub push_each : Document → Items → List Bson → Result (List Bson)
  unfolding sort_step slice_step compare_elements
  push_each modifiers elements arr = do
    sorted ←
        sort_step (ext.get modifiers "$sort")
          (push_elements (optional_int (ext.get modifiers "$position")) (to_list elements) arr)
    slice_step (ext.get modifiers "$slice") sorted

  unfoldable pub push_value : Bson → List Bson → Result (List Bson)
  push_value (document modifiers) arr = elim (ext.get modifiers "$each") [
    | some (array elements) ↦ push_each modifiers elements arr
    | _ ↦ ok (arr ++ (document modifiers ∷ []))
  ]
  push_value value_spec arr = ok (arr ++ (value_spec ∷ []))

  -- The array of a field, which may be missing.
  abbrev pub array_or_new : String → Option Bson → Result (List Bson)
  array_or_new text none = ok []
  array_or_new text (some (array a)) = ok (to_list a)
  array_or_new text (some other) = err (message_value text other)

  unfoldable pub apply_push : Document → Document → Result Document
  apply_push doc end = ok doc
  apply_push doc (field key value_spec rest) = do
    arr ← array_or_new "Cannot apply $push to non-array field: " (get_value ext doc key)
    arr' ← push_value value_spec arr
    doc' ← set_value ext doc key (array (of_list arr'))
    apply_push doc' rest

  -- Whether `$pull` keeps an element.
  unfoldable pub pull_keeps : Bson → Bson → Result Bool
  pull_keeps (document query_doc) (document elem_doc) =
      map_ok not (unwrap_or false (eval_query ext elem_doc query_doc))
  pull_keeps (document query_doc) elem = ok true
  pull_keeps condition elem = ok (not (ext.beq elem condition))

  unfoldable pub pull_from : Bson → List Bson → Result (List Bson)
  unfolding pull_keeps
  pull_from condition [] = ok []
  pull_from condition (elem ∷ arr) = do
    keep ← pull_keeps condition elem
    arr' ← pull_from condition arr
    ok (if keep then elem ∷ arr' else arr')

  -- What the loops of `$pull` and `$pop` do at one field: what is not an array is passed over.
  abbrev pub change_array :
      (List Bson → Result (List Bson)) → Document → String → Option Bson → Result Document
  change_array change doc key (some (array a)) = do
    arr' ← change (to_list a)
    set_value ext doc key (array (of_list arr'))
  change_array change doc key _ = ok doc

  unfoldable pub apply_pull : Document → Document → Result Document
  apply_pull doc end = ok doc
  apply_pull doc (field key condition rest) = do
    doc' ← change_array (pull_from condition) doc key (get_value ext doc key)
    apply_pull doc' rest

  abbrev pub drop_last : List Bson → List Bson
  drop_last arr = take (length arr - 1) arr

  pop_direction : Bson → Result ℤ
  pop_direction (int32 n) = ok n
  pop_direction (int64 n) = ok (as_i32 n)
  pop_direction v = err (message_value "$pop direction must be -1 or 1, got: " v)

  pop_by : List Bson → ℤ → Result (List Bson)
  pop_by arr dir =
      if is_eq (compare_ℤ dir (negsuc 0))
      then ok (drop 1 arr)
      else if is_eq (compare_ℤ dir (pos 1))
      then ok (drop_last arr)
      else err (message_int "$pop direction must be -1 or 1, got: " dir)

  unfoldable pub pop_array : Bson → List Bson → Result (List Bson)
  unfolding pop_direction pop_by
  pop_array direction arr = do dir ← pop_direction direction; pop_by arr dir

  -- An empty array is passed over before the direction is read.
  unfoldable pub pop_field : Bson → Document → String → Option Bson → Result Document
  unfolding pop_array
  pop_field direction doc key (some (array Items.nil)) = ok doc
  pop_field direction doc key value = change_array (pop_array direction) doc key value

  unfoldable pub apply_pop : Document → Document → Result Document
  apply_pop doc end = ok doc
  apply_pop doc (field key direction rest) = do
    doc' ← pop_field direction doc key (get_value ext doc key)
    apply_pop doc' rest

  -- `arr.contains(elem)`
  unfoldable pub holds_value : List Bson → Bson → Bool
  holds_value [] elem = false
  holds_value (x ∷ arr) elem = ext.beq x elem || holds_value arr elem

  unfoldable pub add_missing : List Bson → Bson → List Bson
  unfolding holds_value
  add_missing arr elem = if holds_value arr elem then arr else arr ++ (elem ∷ [])

  unfoldable pub add_each : List Bson → List Bson → List Bson
  add_each arr [] = arr
  add_each arr (elem ∷ elements) = add_each (add_missing arr elem) elements

  unfoldable pub add_value : Bson → List Bson → List Bson
  add_value (document modifiers) arr = elim (ext.get modifiers "$each") [
    | some (array elements) ↦ add_each arr (to_list elements)
    | _ ↦ add_missing arr (document modifiers)
  ]
  add_value value_spec arr = add_missing arr value_spec

  unfoldable pub apply_add_to_set : Document → Document → Result Document
  apply_add_to_set doc end = ok doc
  apply_add_to_set doc (field key value_spec rest) = do
    arr ← array_or_new "Cannot apply $addToSet to non-array field: " (get_value ext doc key)
    doc' ← set_value ext doc key (array (of_list (add_value value_spec arr)))
    apply_add_to_set doc' rest
