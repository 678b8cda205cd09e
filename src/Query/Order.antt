-- ===== src/Query/Order.antt =====
-- The order of BSON values.
use mathlib.Core.Option
use mdb_embedded.Prelude.{ℕ, ◌≡◌, refl, true, false, not, ◌&&◌, List, some, opposite, arith}
use mdb_embedded.Std.Order.{cmp_text_flip, bytes_ord}
use mdb_embedded.Bson.{
  Bson, double, string, array, document, boolean, null, binary, int32, int64, object_id, date_time,
  Items, Document, nil, cons, Externals,
}
use mdb_embedded.Query.Compare.{
  bson_type_order, cmp_values, cmp_typed, bson_cmp, cmp_items, bson_eq, bson_gt, bson_gte, bson_lt,
  bson_lte,
}

-- The documented duality of `PartialOrd::partial_cmp`.
pub record IsDual (ext : Externals) : Type 0 where
  pub partial_cmp_flip : (a b : ℕ) → ext.partial_cmp b a ≡ Option.map opposite (ext.partial_cmp a b)

module _ (ext : Externals) (dual : IsDual ext) where
  cmp_values_flip : (a b : Bson) → cmp_values ext b a ≡ opposite (cmp_values ext a b)
  unfolding cmp_values
  cmp_values_flip (int32 a) (int32 b) = ground arith
  cmp_values_flip (int32 a) (int64 b) = ground arith
  cmp_values_flip (int32 a) (double b) = ground (arith, dual.partial_cmp_flip (ext.of_int a) b)
  cmp_values_flip (int32 a) _ = refl
  cmp_values_flip (int64 a) (int32 b) = ground arith
  cmp_values_flip (int64 a) (int64 b) = ground arith
  cmp_values_flip (int64 a) (double b) = ground (arith, dual.partial_cmp_flip (ext.of_int a) b)
  cmp_values_flip (int64 a) _ = refl
  cmp_values_flip (double a) (int32 b) = ground (arith, dual.partial_cmp_flip a (ext.of_int b))
  cmp_values_flip (double a) (int64 b) = ground (arith, dual.partial_cmp_flip a (ext.of_int b))
  cmp_values_flip (double a) (double b) = ground (arith, dual.partial_cmp_flip a b)
  cmp_values_flip (double a) _ = refl
  cmp_values_flip (string a) (string b) = cmp_text_flip a b
  cmp_values_flip (string a) _ = refl
  cmp_values_flip (boolean a) (boolean b) = ground arith
  cmp_values_flip (boolean a) _ = refl
  cmp_values_flip (date_time a) (date_time b) = ground arith
  cmp_values_flip (date_time a) _ = refl
  cmp_values_flip (object_id a) (object_id b) = bytes_ord.cmp_flip a b
  cmp_values_flip (object_id a) _ = refl
  cmp_values_flip _ (int32 b) = refl
  cmp_values_flip _ _ = refl

  cmp_typed_flip : (a b : Bson) → cmp_typed ext b a ≡ opposite (cmp_typed ext a b)
  unfolding cmp_typed
  cmp_typed_flip a b = ground (arith, cmp_values_flip a b)

  mutual
    unfolding bson_cmp

    cmp_flip : (a b : Bson) → bson_cmp ext b a ≡ opposite (bson_cmp ext a b)
    cmp_flip (array a) (array b) = cmp_items_flip a b
    cmp_flip (array a) (null) = cmp_typed_flip (array a) null
    cmp_flip (array a) b = cmp_typed_flip (array a) b
    cmp_flip a (array b) = cmp_typed_flip a (array b)
    cmp_flip a b = cmp_typed_flip a b

    cmp_items_flip : (a b : Items) → cmp_items ext b a ≡ opposite (cmp_items ext a b)
    cmp_items_flip nil nil = refl
    cmp_items_flip nil (cons y ys) = refl
    cmp_items_flip (cons x xs) nil = refl
    cmp_items_flip (cons x xs) (cons y ys) = ground (arith, cmp_flip x y, cmp_items_flip xs ys)

  -- Where the comparison of doubles is dual, so is the order of values: `$gt` of one value against
  -- another is `$lt` of the other against it, and likewise `$gte` and `$lte`; `$eq` is symmetric.
  pub bson_cmp_flip :
      (a b : Bson)
      → (bson_cmp ext b a ≡ opposite (bson_cmp ext a b))
        × (bson_gt ext (some a) b ≡ bson_lt ext (some b) a)
        × (bson_gte ext (some a) b ≡ bson_lte ext (some b) a)
        × (bson_eq ext (some a) (some b) ≡ bson_eq ext (some b) (some a))
  unfolding bson_gt bson_lt bson_gte bson_lte bson_eq
  bson_cmp_flip a b = (
    cmp_flip a b,
    ground (arith, cmp_flip a b),
    ground (arith, cmp_flip a b),
    ground (arith, cmp_flip a b),
  )

module _ (ext : Externals) where
  -- Any two documents, and any two binary values, compare as equal, whatever they hold.
  pub bson_eq-document :
      (d e : Document) (s t : ℕ) (b c : List ℕ)
      → (bson_eq ext (some (document d)) (some (document e)) ≡ true)
        × (bson_eq ext (some (binary s b)) (some (binary t c)) ≡ true)
  unfolding bson_eq bson_cmp cmp_typed bson_type_order cmp_values
  bson_eq-document d e s t b c = (refl, refl)

  -- For a present value, `$lte` is the negation of `$gt`, `$gte` is the negation of `$lt`, and
  -- `$gt` and `$eq` never both hold.
  pub bson_trichotomy :
      (a b : Bson)
      → (bson_lte ext (some a) b ≡ not (bson_gt ext (some a) b))
        × (bson_gte ext (some a) b ≡ not (bson_lt ext (some a) b))
        × ((bson_gt ext (some a) b && bson_eq ext (some a) (some b)) ≡ false)
  unfolding bson_gt bson_lt bson_gte bson_lte bson_eq
  bson_trichotomy a b = ground arith
