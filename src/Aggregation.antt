-- ===== src/Aggregation.antt =====
-- rust/smongo-engine/src/aggregation/mod.rs: `compare_bson`, the order that sorting uses.
pub mod Accumulators
pub mod Chosen
pub mod Stages
pub mod Pipeline
pub mod Merging
pub mod Streams
pub mod Ranks
pub mod Sorting
pub mod Totals
pub mod Groups
pub mod Partition
pub mod Counting
mod Tests
use Prim.Native.String.{compare as compare_text}
use mdb_embedded.Prelude.{ℕ, compare, compare_ℤ, Option, none, some, Ordering, ◌==◌, if◌then◌else◌}
use mdb_embedded.Std.Order.{cmp_bytes}
use mdb_embedded.Bson.{
  Bson, double, string, array, document, boolean, null, int32, int64, object_id, date_time,
  Externals,
}
use mdb_embedded.Query.Compare.{cmp_bool, or_equal}

unfoldable pub type_order : Bson → ℕ
type_order null = 1
type_order (int32 _) = 2
type_order (int64 _) = 2
type_order (double _) = 2
type_order (string _) = 3
type_order (document _) = 4
type_order (array _) = 5
type_order (boolean _) = 6
type_order (object_id _) = 7
type_order (date_time _) = 8
type_order _ = 9

module _ (ext : Externals) where
  unfoldable pub as_f64 : Bson → Option ℕ
  as_f64 (int32 n) = some (ext.of_int n)
  as_f64 (int64 n) = some (ext.of_int n)
  as_f64 (double d) = some d
  as_f64 _ = none

  -- Two values of one type that are not both numbers.
  unfoldable pub compare_plain : Bson → Bson → Ordering
  compare_plain (string x) (string y) = compare_text x y
  compare_plain (boolean x) (boolean y) = cmp_bool x y
  compare_plain (object_id x) (object_id y) = cmp_bytes x y
  compare_plain (date_time x) (date_time y) = compare_ℤ x y
  compare_plain _ _ = Ordering.eq

  unfoldable pub compare_present : Bson → Bson → Ordering
  unfolding type_order as_f64 compare_plain
  compare_present a b =
      if type_order a == type_order b
      then elim (as_f64 a) [
        | none ↦ compare_plain a b
        | some fa ↦ elim (as_f64 b) [
          | none ↦ compare_plain a b
          | some fb ↦ or_equal (ext.partial_cmp fa fb)
        ]
      ]
      else compare (type_order a) (type_order b)

  unfoldable pub compare_bson : Option Bson → Option Bson → Ordering
  unfolding compare_present
  compare_bson none none = Ordering.eq
  compare_bson none (some b) = Ordering.lt
  compare_bson (some a) none = Ordering.gt
  compare_bson (some a) (some b) = compare_present a b
