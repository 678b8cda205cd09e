-- ===== src/Query/Operators.antt =====
-- rust/smongo-engine/src/query/mod.rs: the operators that look at one value.
use Prim.Native.Nat.{bit_and, bit_or}
use mdb_embedded.Prelude.{
  ℕ, ◌-◌, ◌^◌, ℤ, pos, negsuc, to_word, as_i32, as_usize, compare_ℤ, rem_ℤ, pos_part, leb, String,
  str_eq, Bool, true, false, not, ◌&&◌, ◌||◌, Option, none, some, List, [], ◌∷◌, map, length,
  get_elem?, Ordering, is_eq, ◌==◌, if◌then◌else◌,
}
use mdb_embedded.Std.Order.{cmp_bytes}
use mdb_embedded.Std.Sort.{sort_by}
use mdb_embedded.Std.BinarySearch.{binary_search_by}
use mdb_embedded.Std.Membership.{is_found}
use mdb_embedded.Bson.{
  Bson, double, string, array, document, boolean, null, regular_expression, int32, int64, binary,
  object_id, date_time, decimal128, Items, nil, cons, Document, to_list, message, message_int,
  Result, ok, err, panic, ◌>>=◌, map_ok, Externals,
}
use mdb_embedded.Paths.{field_exists, count_items}
use mdb_embedded.Query.Compare.{bson_cmp}

unfoldable pub as_array : Bson → Result Items
as_array (array arr) = ok arr
as_array _ = err (message "Expected array")

abbrev pub any {ℓ} : {A : Type ℓ} → (A → Bool) → List A → Bool
any p [] = false
any p (x ∷ xs) = p x || any p xs

abbrev pub all {ℓ} : {A : Type ℓ} → (A → Bool) → List A → Bool
all p [] = true
all p (x ∷ xs) = p x && all p xs

-- The conversions of a number to `i64`.
unfoldable pub number_as_i64 : Externals → Bson → Option ℤ
number_as_i64 ext (int32 n) = some n
number_as_i64 ext (int64 n) = some n
number_as_i64 ext (double d) = some (ext.f64_as_i64 d)
number_as_i64 ext _ = none

abbrev pub optional_as_i64 : Externals → Option Bson → Option ℤ
optional_as_i64 ext none = none
optional_as_i64 ext (some v) = number_as_i64 ext v

abbrev pub or_error {ℓ} : {A : Type ℓ} → String → Option A → Result A
or_error text none = err (message text)
or_error text (some a) = ok a

abbrev is_int : ℤ → ℕ → Bool
is_int n k = is_eq (compare_ℤ n (pos k))

unfoldable pub bson_type_number_to_name : ℤ → Option String
bson_type_number_to_name n =
    if is_int n 1
    then some "double"
    else if is_int n 2
    then some "string"
    else if is_int n 3
    then some "object"
    else if is_int n 4
    then some "array"
    else if is_int n 5
    then some "binData"
    else if is_int n 7
    then some "objectId"
    else if is_int n 8
    then some "bool"
    else if is_int n 9
    then some "date"
    else if is_int n 10
    then some "null"
    else if is_int n 11
    then some "regex"
    else if is_int n 16
    then some "int"
    else if is_int n 18
    then some "long"
    else if is_int n 19
    then some "decimal"
    else none

unfoldable pub bson_type_matches : Bson → String → Bool
bson_type_matches (double _) t = str_eq t "double" || str_eq t "number"
bson_type_matches (string _) t = str_eq t "string"
bson_type_matches (document _) t = str_eq t "object"
bson_type_matches (array _) t = str_eq t "array"
bson_type_matches (binary _ _) t = str_eq t "binData"
bson_type_matches (object_id _) t = str_eq t "objectId"
bson_type_matches (boolean _) t = str_eq t "bool"
bson_type_matches (date_time _) t = str_eq t "date"
bson_type_matches null t = str_eq t "null"
bson_type_matches (regular_expression _ _) t = str_eq t "regex"
bson_type_matches (int32 _) t = str_eq t "int" || str_eq t "number"
bson_type_matches (int64 _) t = str_eq t "long" || str_eq t "number"
bson_type_matches (decimal128 _) t = str_eq t "decimal" || str_eq t "number"
bson_type_matches _ t = false

abbrev type_name : Bson → Option String
type_name (int32 n) = bson_type_number_to_name n
type_name (int64 n) = bson_type_number_to_name (as_i32 n)
type_name (string s) = some s
type_name _ = none

unfoldable pub eval_type : Option Bson → Bson → Result Bool
unfolding bson_type_number_to_name bson_type_matches
eval_type none cond_val = ok false
eval_type (some v) cond_val =
    ok (elim (type_name cond_val) [ none ↦ false | some t ↦ bson_type_matches v t ])

abbrev regex_pattern : Bson → Result String
regex_pattern (string s) = ok s
regex_pattern (regular_expression p options) = ok p
regex_pattern _ = err (message "$regex requires string pattern")

-- A key is one of the keys.
abbrev pub has_key : List (List ℕ) → List ℕ → Bool
has_key keys k = any (λ j. is_eq (cmp_bytes j k)) keys

abbrev expected_size : Bson → Result ℕ
expected_size (int32 n) = ok (as_usize n)
expected_size (int64 n) = ok (as_usize n)
expected_size _ = err (message "$size requires number")

unfoldable pub eval_size : Option Bson → Bson → Result Bool
eval_size (some (array arr)) cond_val = do
  size ← expected_size cond_val
  ok (count_items arr == size)
eval_size _ cond_val = ok false

-- `a % b` of `i64` panics where the quotient overflows.
unfoldable pub checked_rem : ℤ → ℤ → Result ℤ
checked_rem a b =
    if is_eq (compare_ℤ b (negsuc 0)) && is_eq (compare_ℤ a (negsuc (2 ^ 63 - 1)))
    then panic
    else ok (rem_ℤ a b)

mod_arguments : Bson → Result (Bson × Bson)
mod_arguments (array (cons a (cons b nil))) = ok (a, b)
mod_arguments _ = err (message "$mod requires a 2-element array [divisor, remainder]")

module _ (ext : Externals) where
  -- The order of a probe of the sorted list against the value sought.
  abbrev pub probe_cmp : List Bson → Bson → ℕ → Ordering
  probe_cmp sorted val i = elim (get_elem? sorted i) [
    | none ↦ Ordering.gt
    | some probe ↦ bson_cmp ext probe val
  ]

  -- The closure `contains`, over the sorted condition.
  unfoldable pub sorted_contains : List Bson → Bson → Bool
  sorted_contains sorted val = is_found (binary_search_by (length sorted) (probe_cmp sorted val))

  unfoldable pub in_sorted : List Bson → Option Bson → Bool
  in_sorted sorted (some (array arr)) = any (sorted_contains sorted) (to_list arr)
  in_sorted sorted (some val) = sorted_contains sorted val
  in_sorted sorted none = false

  unfoldable pub eval_in : Option Bson → Bson → Result Bool
  unfolding as_array
  eval_in value cond_val = do
    arr ← as_array cond_val
    ok (in_sorted (sort_by (bson_cmp ext) (to_list arr)) value)

  unfoldable pub eval_nin : Option Bson → Bson → Result Bool
  eval_nin value cond_val = do b ← eval_in value cond_val; ok (not b)

  unfoldable pub eval_exists : Document → String → Bson → Result Bool
  eval_exists doc key (boolean want) =
      ok (if want then field_exists ext doc key else not (field_exists ext doc key))
  eval_exists doc key _ = ok (field_exists ext doc key)

  -- The cache of compiled patterns changes no answer.
  unfoldable pub eval_regex : Option Bson → Bson → Result Bool
  eval_regex (some (string s)) cond_val = do
    pattern' ← regex_pattern cond_val
    re ← ext.regex pattern'
    ok (re s)
  eval_regex _ cond_val = ok false

  unfoldable pub eval_all : Option Bson → Bson → Result Bool
  unfolding as_array
  eval_all (some (array arr)) cond_val = do
    cond_arr ← as_array cond_val
    ok (
        all (λ item. has_key (map ext.canonical_key (to_list arr)) (ext.canonical_key item))
          (to_list cond_arr))
  eval_all _ cond_val = ok false

  unfoldable pub eval_mod : Option Bson → Bson → Result Bool
  unfolding mod_arguments
  eval_mod value cond_val = do
    args ← mod_arguments cond_val
    divisor ← or_error "$mod divisor must be numeric" (number_as_i64 ext args.0)
    if is_eq (compare_ℤ divisor (pos 0)) then err (message "$mod divisor cannot be zero") else do
      remainder ← or_error "$mod remainder must be numeric" (number_as_i64 ext args.1)
      elim (optional_as_i64 ext value) [
        | none ↦ ok false
        | some field_val ↦
            map_ok (λ r. is_eq (compare_ℤ r remainder)) (checked_rem field_val divisor)
      ]

pub data BitsMode : Type 0 where
  all_set any_set all_clear any_clear : BitsMode

-- The 64-bit pattern of a mask given by positions, from what has been read so far.
unfoldable pub mask_of_positions : ℕ → Items → Result ℕ
mask_of_positions m nil = ok m
mask_of_positions m (cons position rest) =
    let with_bit : ℤ → Result ℕ = λ p.
      (if leb (pos_part p) 63 && is_eq (compare_ℤ p (pos (pos_part p)))
        then mask_of_positions (bit_or m (2 ^ pos_part p)) rest
        else err (message_int "$bits position out of range: " p)) in
    elim position [
      | int32 n ↦ with_bit n
      | int64 n ↦ with_bit n
      | _ ↦ err (message "$bits position must be a non-negative integer")
    ]

unfoldable pub bits_mask : Externals → Bson → Result ℕ
unfolding mask_of_positions
bits_mask ext (int32 m) = ok (to_word 64 m)
bits_mask ext (int64 m) = ok (to_word 64 m)
bits_mask ext (double m) = ok (to_word 64 (ext.f64_as_i64 m))
bits_mask ext (array positions) = mask_of_positions 0 positions
bits_mask ext _ = err (message "$bits requires a numeric bitmask or array of bit positions")

-- The test of a field's bit pattern.
unfoldable pub bits_test : BitsMode → ℕ → ℕ → Bool
bits_test all_set v m = bit_and v m == m
bits_test any_set v m = not (bit_and v m == 0)
bits_test all_clear v m = bit_and v m == 0
bits_test any_clear v m = not (bit_and v m == m)

unfoldable pub eval_bits : Externals → Option Bson → Bson → BitsMode → Result Bool
unfolding bits_mask bits_test number_as_i64
eval_bits ext value cond_val mode = elim (optional_as_i64 ext value) [
  | none ↦ ok false
  | some v ↦ map_ok (bits_test mode (to_word 64 v)) (bits_mask ext cond_val)
]
