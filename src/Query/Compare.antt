-- ===== src/Query/Compare.antt =====
-- rust/smongo-engine/src/query/mod.rs: the order of BSON values.
use Prim.Native.String.{compare as compare_text}
use mdb_embedded.Prelude.{
  ℤ, pos, negsuc, compare_ℤ, Bool, true, false, ◌||◌, Option, none, some, Ordering, is_eq, is_gt,
  is_lt,
}
use mdb_embedded.Std.Order.{cmp_bytes}
use mdb_embedded.Bson.{
  Bson, double, string, array, document, boolean, null, regular_expression, javascript_code,
  javascript_code_with_scope, int32, int64, timestamp, binary, object_id, date_time, symbol,
  decimal128, undefined, max_key, min_key, db_pointer, Items, nil, cons, Externals,
}

unfoldable pub bson_type_order : Bson → ℤ
bson_type_order null = pos 0
bson_type_order undefined = pos 0
bson_type_order (int32 _) = pos 1
bson_type_order (int64 _) = pos 1
bson_type_order (double _) = pos 1
bson_type_order (decimal128 _) = pos 1
bson_type_order (string _) = pos 2
bson_type_order (symbol _) = pos 2
bson_type_order (document _) = pos 3
bson_type_order (array _) = pos 4
bson_type_order (binary _ _) = pos 5
bson_type_order (object_id _) = pos 6
bson_type_order (boolean _) = pos 7
bson_type_order (date_time _) = pos 8
bson_type_order (timestamp _ _) = pos 9
bson_type_order (regular_expression _ _) = pos 10
bson_type_order (javascript_code _) = pos 11
bson_type_order (javascript_code_with_scope _ _) = pos 11
bson_type_order db_pointer = pos 12
bson_type_order max_key = pos 127
bson_type_order min_key = negsuc 127

-- `partial_cmp(..).unwrap_or(Ordering::Equal)`
abbrev pub or_equal : Option Ordering → Ordering
or_equal none = Ordering.eq
or_equal (some o) = o

-- `bool::cmp`
abbrev pub cmp_bool : Bool → Bool → Ordering
cmp_bool false true = Ordering.lt
cmp_bool true false = Ordering.gt
cmp_bool _ _ = Ordering.eq

module _ (ext : Externals) where
  -- The values of one type, other than two arrays.
  unfoldable pub cmp_values : Bson → Bson → Ordering
  cmp_values (int32 a) (int32 b) = compare_ℤ a b
  cmp_values (int64 a) (int64 b) = compare_ℤ a b
  cmp_values (double a) (double b) = or_equal (ext.partial_cmp a b)
  cmp_values (int32 a) (int64 b) = compare_ℤ a b
  cmp_values (int64 a) (int32 b) = compare_ℤ a b
  cmp_values (int32 a) (double b) = or_equal (ext.partial_cmp (ext.of_int a) b)
  cmp_values (double a) (int32 b) = or_equal (ext.partial_cmp a (ext.of_int b))
  cmp_values (int64 a) (double b) = or_equal (ext.partial_cmp (ext.of_int a) b)
  cmp_values (double a) (int64 b) = or_equal (ext.partial_cmp a (ext.of_int b))
  cmp_values (string a) (string b) = compare_text a b
  cmp_values (boolean a) (boolean b) = cmp_bool a b
  cmp_values (date_time a) (date_time b) = compare_ℤ a b
  cmp_values (object_id a) (object_id b) = cmp_bytes a b
  cmp_values _ _ = Ordering.eq

  -- First by type, then by value.
  unfoldable pub cmp_typed : Bson → Bson → Ordering
  cmp_typed a b = elim (compare_ℤ (bson_type_order a) (bson_type_order b)) [
    | Ordering.eq ↦ cmp_values a b
    | Ordering.lt ↦ Ordering.lt
    | Ordering.gt ↦ Ordering.gt
  ]

  -- Two arrays, which are of one type, go item by item, and then by their lengths: where one ends
  -- first, it is the shorter.
  unfoldable mutual
    pub bson_cmp : Bson → Bson → Ordering
    bson_cmp (array a) (array b) = cmp_items a b
    bson_cmp a b = cmp_typed a b

    pub cmp_items : Items → Items → Ordering
    cmp_items nil nil = Ordering.eq
    cmp_items nil (cons y ys) = Ordering.lt
    cmp_items (cons x xs) nil = Ordering.gt
    cmp_items (cons x xs) (cons y ys) = elim (bson_cmp x y) [
      | Ordering.eq ↦ cmp_items xs ys
      | Ordering.lt ↦ Ordering.lt
      | Ordering.gt ↦ Ordering.gt
    ]

  unfoldable pub bson_eq : Option Bson → Option Bson → Bool
  bson_eq (some a) (some b) = is_eq (bson_cmp a b)
  bson_eq none none = true
  bson_eq _ _ = false

  unfoldable pub bson_gt : Option Bson → Bson → Bool
  bson_gt (some a) b = is_gt (bson_cmp a b)
  bson_gt none b = false

  unfoldable pub bson_gte : Option Bson → Bson → Bool
  bson_gte (some a) b = is_gt (bson_cmp a b) || is_eq (bson_cmp a b)
  bson_gte none b = false

  unfoldable pub bson_lt : Option Bson → Bson → Bool
  bson_lt (some a) b = is_lt (bson_cmp a b)
  bson_lt none b = false

  unfoldable pub bson_lte : Option Bson → Bson → Bool
  bson_lte (some a) b = is_lt (bson_cmp a b) || is_eq (bson_cmp a b)
  bson_lte none b = false
