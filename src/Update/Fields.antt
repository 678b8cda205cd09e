-- ===== src/Update/Fields.antt =====
-- rust/smongo-engine/src/update/mod.rs: the operators on fields and on numbers.
use mdb_embedded.Prelude.{
  ℕ, ◌-◌, ◌^◌, pos, negsuc, String, Bool, ◌&&◌, Option, none, some, Ordering, is_lt, is_gt,
  if◌then◌else◌,
}
use mdb_embedded.Bson.{
  Bson, double, string, int32, int64, date_time, Document, end, field, message_value, Result, ok,
  err, ◌>>=◌, Externals, f64_ge, f64_le,
}
use mdb_embedded.Paths.{get_value, set_value, unset_value}

module _ (ext : Externals) where
  unfoldable pub apply_set : Document → Document → Result Document
  apply_set doc end = ok doc
  apply_set doc (field key value rest) = do doc' ← set_value ext doc key value; apply_set doc' rest

  unfoldable pub apply_unset : Document → Document → Result Document
  apply_unset doc end = ok doc
  apply_unset doc (field key value rest) = do doc' ← unset_value ext doc key; apply_unset doc' rest

  unfoldable pub bson_to_number : Bson → Option ℕ
  bson_to_number (int32 n) = some (ext.of_int n)
  bson_to_number (int64 n) = some (ext.of_int n)
  bson_to_number (double d) = some d
  bson_to_number _ = none

  abbrev number_or_error : String → Bson → Result ℕ
  number_or_error text v = elim (bson_to_number v) [
    | none ↦ err (message_value text v)
    | some n ↦ ok n
  ]

  -- A double that is whole and in the range goes back to the integer type.
  unfoldable pub to_int32 : ℕ → Bson
  to_int32 result =
      if f64_ge ext result (ext.of_int (negsuc (2 ^ 31 - 1)))
        && f64_le ext result (ext.of_int (pos (2 ^ 31 - 1)))
        && ext.is_whole result
      then int32 (ext.f64_as_i32 result)
      else double result

  unfoldable pub to_int64 : ℕ → Bson
  to_int64 result =
      if f64_ge ext result (ext.of_int (negsuc (2 ^ 63 - 1)))
        && f64_le ext result (ext.of_int (pos (2 ^ 63 - 1)))
        && ext.is_whole result
      then int64 (ext.f64_as_i64 result)
      else double result

  add_to : Option Bson → Bson → ℕ → Result Bson
  add_to (some (int32 n)) increment inc_val = ok (to_int32 (ext.add_f64 (ext.of_int n) inc_val))
  add_to (some (int64 n)) increment inc_val = ok (to_int64 (ext.add_f64 (ext.of_int n) inc_val))
  add_to (some (double d)) increment inc_val = ok (double (ext.add_f64 d inc_val))
  add_to none increment inc_val = ok increment
  add_to (some other) increment inc_val =
      err (message_value "Cannot apply numeric operation to non-numeric field: " other)

  unfoldable pub add_numbers : Option Bson → Bson → Result Bson
  unfolding add_to
  add_numbers current increment = do
    inc_val ← number_or_error "$inc value must be numeric, got: " increment
    add_to current increment inc_val

  multiply_to : Option Bson → ℕ → Result Bson
  multiply_to (some (int32 n)) mul_val = ok (to_int32 (ext.mul_f64 (ext.of_int n) mul_val))
  multiply_to (some (int64 n)) mul_val = ok (to_int64 (ext.mul_f64 (ext.of_int n) mul_val))
  multiply_to (some (double d)) mul_val = ok (double (ext.mul_f64 d mul_val))
  multiply_to none mul_val = ok (int32 (pos 0))
  multiply_to (some other) mul_val =
      err (message_value "Cannot apply $mul to non-numeric field: " other)

  unfoldable pub multiply_numbers : Option Bson → Bson → Result Bson
  unfolding multiply_to
  multiply_numbers current multiplier = do
    mul_val ← number_or_error "$mul value must be numeric, got: " multiplier
    multiply_to current mul_val

  unfoldable pub compare_numbers : Bson → Bson → Option Ordering
  unfolding bson_to_number
  compare_numbers a b = elim (bson_to_number a) [
    | none ↦ none
    | some a_num ↦ elim (bson_to_number b) [
      | none ↦ none
      | some b_num ↦ ext.partial_cmp a_num b_num
    ]
  ]

  unfoldable pub apply_inc : Document → Document → Result Document
  apply_inc doc end = ok doc
  apply_inc doc (field key increment rest) = do
    new_value ← add_numbers (get_value ext doc key) increment
    doc' ← set_value ext doc key new_value
    apply_inc doc' rest

  unfoldable pub apply_mul : Document → Document → Result Document
  apply_mul doc end = ok doc
  apply_mul doc (field key multiplier rest) = do
    new_value ← multiply_numbers (get_value ext doc key) multiplier
    doc' ← set_value ext doc key new_value
    apply_mul doc' rest

  -- Whether `compare_numbers` gives the ordering asked for; a missing field is always set.
  unfoldable pub should_set : (Ordering → Bool) → Bson → Option Bson → Bool
  unfolding compare_numbers
  should_set wanted value none = Bool.true
  should_set wanted value (some current) = elim (compare_numbers value current) [
    | none ↦ Bool.false
    | some o ↦ wanted o
  ]

  unfoldable pub apply_min : Document → Document → Result Document
  apply_min doc end = ok doc
  apply_min doc (field key min_val rest) = do
    doc' ←
        if should_set is_lt min_val (get_value ext doc key)
        then set_value ext doc key min_val
        else ok doc
    apply_min doc' rest

  unfoldable pub apply_max : Document → Document → Result Document
  apply_max doc end = ok doc
  apply_max doc (field key max_val rest) = do
    doc' ←
        if should_set is_gt max_val (get_value ext doc key)
        then set_value ext doc key max_val
        else ok doc
    apply_max doc' rest

  abbrev new_name : Bson → Result String
  new_name (string s) = ok s
  new_name v = err (message_value "$rename target must be a string, got: " v)

  unfoldable pub rename_field : Document → String → String → Result Document
  rename_field doc old_name name = elim (get_value ext doc old_name) [
    | none ↦ ok doc
    | some value ↦ (do doc' ← unset_value ext doc old_name; set_value ext doc' name value)
  ]

  unfoldable pub apply_rename : Document → Document → Result Document
  unfolding rename_field
  apply_rename doc end = ok doc
  apply_rename doc (field old_name name_bson rest) = do
    name ← new_name name_bson
    doc' ← rename_field doc old_name name
    apply_rename doc' rest

  -- Every form of the specification gives the current date.
  unfoldable pub apply_current_date : Document → Document → Result Document
  apply_current_date doc end = ok doc
  apply_current_date doc (field key type_spec rest) = do
    doc' ← set_value ext doc key (date_time ext.now)
    apply_current_date doc' rest
