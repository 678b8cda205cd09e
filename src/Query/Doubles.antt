-- ===== src/Query/Doubles.antt =====
-- The order of doubles as the IEEE standard gives it, NaN included.
use mathlib.Core.Option
use mdb_embedded.Prelude.{ℕ, ℤ, ◌≡◌, ◌⊎◌, true, false, none, some, Ordering, opposite, is_gt, arith}
use mdb_embedded.Bson.{Externals, f64_le}
use mdb_embedded.Query.Compare.{or_equal}

-- A double that is not NaN: it compares with itself.
abbrev pub IsNumber : Externals → ℕ → Type 0
IsNumber ext d = ext.partial_cmp d d ≡ some Ordering.eq

-- The documented behaviour of `PartialOrd` of f64: comparisons have a dual, `<=` is transitive, NaN
-- compares with nothing and every other double with every other; an integer's double is not NaN.
pub record IsFloatOrder (ext : Externals) : Type 0 where
  pub flip : (a b : ℕ) → ext.partial_cmp b a ≡ Option.map opposite (ext.partial_cmp a b)
  pub le_trans : (a b c : ℕ) → f64_le ext a b ≡ true → f64_le ext b c ≡ true → f64_le ext a c ≡ true
  pub total :
      (a b : ℕ) → IsNumber ext a → IsNumber ext b → (o : Ordering) × (ext.partial_cmp a b ≡ some o)
  pub nan_or_number : (a : ℕ) → ((b : ℕ) → ext.partial_cmp a b ≡ none) ⊎ IsNumber ext a
  pub of_int-IsNumber : (n : ℤ) → IsNumber ext (ext.of_int n)

module _ (ext : Externals) where
  -- The comparison with NaN taken for equal, as the engine makes it.
  abbrev pub cmp_f64 : ℕ → ℕ → Ordering
  cmp_f64 a b = or_equal (ext.partial_cmp a b)

  module _ (o : IsFloatOrder ext) where
    pub cmp_f64_flip : (a b : ℕ) → cmp_f64 b a ≡ opposite (cmp_f64 a b)
    cmp_f64_flip a b = ground (arith, o.flip a b)

    pub cmp_f64_trans :
        (a b c : ℕ)
        → IsNumber ext a
        → IsNumber ext b
        → IsNumber ext c
        → is_gt (cmp_f64 a b) ≡ false
        → is_gt (cmp_f64 b c) ≡ false
        → is_gt (cmp_f64 a c) ≡ false
    cmp_f64_trans a b c na nb nc h k =
        let (x, ex) = o.total a b na nb in
        let (y, ey) = o.total b c nb nc in
        let (z, ez) = o.total a c na nc in ground (arith, h, k, ex, ey, ez, o.le_trans a b c)
