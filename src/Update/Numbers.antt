-- ===== src/Update/Numbers.antt =====
-- `$inc` on 32-bit integers, whose sum goes through a double.
use mdb_embedded.Prelude.{
  ◌+◌, ◌-◌, ◌^◌, ◌≤◌, ℤ, pos, negsuc, pos_part, neg_part, ◌+ℤ◌, IsI32, compare_ℤ, ◌≡◌, Bool, true,
  ◌&&◌, some, leb, if◌then◌else◌, arith,
}
use mdb_embedded.Bson.{double, int32, ok, Externals}
use mdb_embedded.Update.Fields.{add_numbers, bson_to_number, to_int32}

-- The integers that a double holds exactly.
abbrev pub IsExact : ℤ → Type 0
IsExact n = (pos_part n ≤ 2 ^ 53) × (neg_part n ≤ 2 ^ 53)

-- IEEE 754 on integers of at most 2 ^ 53: exact sums, exact comparison, and `as i32` in its range.
pub record IsIeee (ext : Externals) : Type 0 where
  pub add-of_int :
      (a b : ℤ)
      → IsExact a
      → IsExact b
      → IsExact (a +ℤ b)
      → ext.add_f64 (ext.of_int a) (ext.of_int b) ≡ ext.of_int (a +ℤ b)
  pub partial_cmp-of_int :
      (a b : ℤ)
      → IsExact a
      → IsExact b
      → ext.partial_cmp (ext.of_int a) (ext.of_int b) ≡ some (compare_ℤ a b)
  pub is_whole-of_int : (a : ℤ) → IsExact a → ext.is_whole (ext.of_int a) ≡ true
  pub f64_as_i32-of_int : (a : ℤ) → IsI32 a → ext.f64_as_i32 (ext.of_int a) ≡ a

-- Whether an integer is in the range of `i32`.
abbrev pub fits_i32 : ℤ → Bool
fits_i32 n = leb (pos_part n + 1) (2 ^ 31) && leb (neg_part n) (2 ^ 31)

i32-IsExact : (n : ℤ) → IsI32 n → IsExact n
i32-IsExact n h = (omega (arith, h.0), omega (arith, h.1))

sum-IsExact : (a b : ℤ) → IsI32 a → IsI32 b → IsExact (a +ℤ b)
unfolding ◌+ℤ◌
sum-IsExact a b ha hb =
    (ground (arith, ha.0, hb.0, ha.1, hb.1), ground (arith, ha.0, hb.0, ha.1, hb.1))

module _ (ext : Externals) (ieee : IsIeee ext) where
  to_int32-of_int :
      (n : ℤ)
      → IsExact n
      → to_int32 ext (ext.of_int n) ≡ (if fits_i32 n then int32 n else double (ext.of_int n))
  unfolding to_int32
  to_int32-of_int n exact = ground (
    arith,
    ieee.partial_cmp-of_int n (negsuc (2 ^ 31 - 1)) exact (omega arith, omega arith),
    ieee.partial_cmp-of_int n (pos (2 ^ 31 - 1)) exact (omega arith, omega arith),
    ieee.is_whole-of_int n exact,
    ieee.f64_as_i32-of_int n,
    exact,
  )

  -- Over IEEE doubles, `$inc` of an `i32` by an `i32` gives the exact sum as an `i32` where it is
  -- in the range, and else the double of that sum.
  pub add_numbers-int32 :
      (a b : ℤ)
      → IsI32 a
      → IsI32 b
      → add_numbers ext (some (int32 a)) (int32 b)
        ≡ ok (if fits_i32 (a +ℤ b) then int32 (a +ℤ b) else double (ext.of_int (a +ℤ b)))
  unfolding add_numbers bson_to_number
  add_numbers-int32 a b ha hb = ground (
    arith,
    ieee.add-of_int a b (i32-IsExact a ha) (i32-IsExact b hb) (sum-IsExact a b ha hb),
    to_int32-of_int (a +ℤ b) (sum-IsExact a b ha hb),
  )
