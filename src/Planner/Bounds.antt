-- ===== src/Planner/Bounds.antt =====
-- Bounds on numbers in a query: a tighter bound implies the bound.
use mdb_embedded.Prelude.{
  ℕ, ◌^◌, ◌≤◌, ℤ, pos, negsuc, compare_ℤ, ◌≡◌, ◌≢◌, ◌⊎◌, inl, inr, Bool, refl, String, true, false,
  Option, none, some, Ordering, is_gt, is_lt, arith,
}
use mdb_embedded.Bson.{
  Bson, double, int32, int64, array, document, javascript_code_with_scope, Items, nil, cons,
  Document, end, field, Externals, f64_le,
}
use mdb_embedded.Query.Compare.{
  bson_cmp, bson_type_order, bson_gt, bson_gte, bson_lt, bson_lte, cmp_typed, cmp_values,
}
use mdb_embedded.Query.Doubles.{IsNumber, IsFloatOrder, cmp_f64, cmp_f64_flip, cmp_f64_trans}
use mdb_embedded.Planner.{bound_holds, is_tighter_bound, bson_to_f64}

-- The integers that a double holds exactly.
abbrev pub IsSafe : ℤ → Type 0
IsSafe (pos n) = n ≤ 2 ^ 53
IsSafe (negsuc n) = n ≤ 2 ^ 53

abbrev pub IsSafeValue : Bson → Type 0
IsSafeValue (int32 n) = IsSafe n
IsSafeValue (int64 n) = IsSafe n
IsSafeValue _ = Unit

abbrev pub IsSafeOption : Option Bson → Type 0
IsSafeOption none = Unit
IsSafeOption (some v) = IsSafeValue v

-- The entries of a document.
abbrev pub IsEntry : String → Bson → Document → Type 0
IsEntry k v end = ⊥
IsEntry k v (field j w d) = ((j ≡ k) × (w ≡ v)) ⊎ IsEntry k v d

-- The values of which `==` holds only where they are the same: doubles but the two zeros, which are
-- equal, and no documents, which are equal in any order of their entries.
unfoldable mutual
  pub IsPlain : Externals → Bson → Type 0
  IsPlain ext (double d) = ext.partial_cmp d (ext.of_int (pos 0)) ≢ some Ordering.eq
  IsPlain ext (array items) = AllPlain ext items
  IsPlain ext (document d) = ⊥
  IsPlain ext (javascript_code_with_scope code scope) = ⊥
  IsPlain ext _ = Unit

  AllPlain : Externals → Items → Type 0
  AllPlain ext nil = Unit
  AllPlain ext (cons v items) = IsPlain ext v × AllPlain ext items

abbrev pub is_document : Bson → Bool
is_document (document d) = true
is_document _ = false

-- What the theorem takes from outside: the order of doubles, and of the integers that they hold
-- exactly; `==` of values; and that a document's `get` finds one of its entries.
pub record IsOrdered (ext : Externals) : Type 0 where
  pub floats : IsFloatOrder ext
  pub same_order :
      (a b : ℤ) → IsSafe a → IsSafe b → cmp_f64 ext (ext.of_int a) (ext.of_int b) ≡ compare_ℤ a b
  pub eq_of_beq : (v w : Bson) → IsPlain ext w → ext.beq v w ≡ true → v ≡ w
  pub beq-document :
      (v : Bson) (d : Document) → is_document v ≡ false → ext.beq v (document d) ≡ false
  pub get-IsEntry : (d : Document) (k : String) (v : Bson) → ext.get d k ≡ some v → IsEntry k v d

module _ (ext : Externals) (o : IsOrdered ext) where
  -- A value against a number, of which only the double matters.
  abbrev against_of : Option ℕ → ℤ → ℕ → Ordering
  against_of (some fv) order fq = cmp_f64 ext fv fq
  against_of none order fq = compare_ℤ order (pos 1)

  abbrev against : Bson → ℕ → Ordering
  against v fq = against_of (bson_to_f64 ext v) (bson_type_order v) fq

  bson_cmp-number :
      (v q : Bson) (fq : ℕ)
      → bson_to_f64 ext q ≡ some fq
      → IsSafeValue v
      → IsSafeValue q
      → bson_cmp ext v q ≡ against v fq
  unfolding bson_cmp cmp_typed cmp_values bson_type_order
  bson_cmp-number (int32 a) (int32 b) fq e hv hq = ground (arith, e, o.same_order a b hv hq)
  bson_cmp-number (int32 a) (int64 b) fq e hv hq = ground (arith, e, o.same_order a b hv hq)
  bson_cmp-number (int32 a) (double b) fq e hv hq = ground (arith, e)
  bson_cmp-number (int32 a) _ fq e hv hq = absurd (ground (arith, e))
  bson_cmp-number (int64 a) (int32 b) fq e hv hq = ground (arith, e, o.same_order a b hv hq)
  bson_cmp-number (int64 a) (int64 b) fq e hv hq = ground (arith, e, o.same_order a b hv hq)
  bson_cmp-number (int64 a) (double b) fq e hv hq = ground (arith, e)
  bson_cmp-number (int64 a) _ fq e hv hq = absurd (ground (arith, e))
  bson_cmp-number (double a) (int32 b) fq e hv hq = ground (arith, e)
  bson_cmp-number (double a) (int64 b) fq e hv hq = ground (arith, e)
  bson_cmp-number (double a) (double b) fq e hv hq = ground (arith, e)
  bson_cmp-number (double a) _ fq e hv hq = absurd (ground (arith, e))
  bson_cmp-number _ (int32 b) fq e hv hq = refl
  bson_cmp-number _ (int64 b) fq e hv hq = refl
  bson_cmp-number _ (double b) fq e hv hq = refl
  bson_cmp-number _ _ fq e hv hq = absurd (ground (arith, e))

  -- What `<=` holds of is not NaN.
  both_numbers : (a b : ℕ) → f64_le ext a b ≡ true → IsNumber ext a × IsNumber ext b
  both_numbers a b le = (left (o.floats.nan_or_number a), right (o.floats.nan_or_number b))
    where
      left : ((c : ℕ) → ext.partial_cmp a c ≡ none) ⊎ IsNumber ext a → IsNumber ext a
      left (inl nan) = absurd (ground (arith, le, nan b))
      left (inr n) = n

      right : ((c : ℕ) → ext.partial_cmp b c ≡ none) ⊎ IsNumber ext b → IsNumber ext b
      right (inl nan) = absurd (ground (arith, le, nan a, o.floats.flip b a))
      right (inr n) = n

  -- Against a smaller number, and against a larger one.
  against-less :
      (v : Option ℕ) (order : ℤ) (fp fq : ℕ)
      → f64_le ext fp fq ≡ true
      → (against_of v order fq ≡ Ordering.gt → against_of v order fp ≡ Ordering.gt)
        × (is_lt (against_of v order fq) ≡ false → is_lt (against_of v order fp) ≡ false)
  against-less none order fp fq le = (λ h. h, λ h. h)
  against-less (some fv) order fp fq le = elim (o.floats.nan_or_number fv) [
    | inl nan ↦ (λ h. absurd (ground (arith, h, nan fq)), λ h. ground (arith, nan fp))
    | inr nv ↦
        let (np, nq) = both_numbers fp fq le in
        (
          λ h. ground (arith, le, h, cmp_f64_trans ext o.floats fv fp fq nv np nq),
          λ h. ground (
            arith,
            le,
            h,
            cmp_f64_trans ext o.floats fp fq fv np nq nv,
            cmp_f64_flip ext o.floats fv fq,
            cmp_f64_flip ext o.floats fv fp,
          ),
        )
  ]

  against-more :
      (v : Option ℕ) (order : ℤ) (fp fq : ℕ)
      → f64_le ext fq fp ≡ true
      → (against_of v order fq ≡ Ordering.lt → against_of v order fp ≡ Ordering.lt)
        × (is_gt (against_of v order fq) ≡ false → is_gt (against_of v order fp) ≡ false)
  against-more none order fp fq le = (λ h. h, λ h. h)
  against-more (some fv) order fp fq le = elim (o.floats.nan_or_number fv) [
    | inl nan ↦ (λ h. absurd (ground (arith, h, nan fq)), λ h. ground (arith, nan fp))
    | inr nv ↦
        let (nq, np) = both_numbers fq fp le in
        (
          λ h. ground (
            arith,
            le,
            h,
            cmp_f64_trans ext o.floats fp fv fq np nv nq,
            cmp_f64_trans ext o.floats fq fp fv nq np nv,
            cmp_f64_flip ext o.floats fv fq,
            cmp_f64_flip ext o.floats fv fp,
          ),
          λ h. ground (arith, le, h, cmp_f64_trans ext o.floats fv fq fp nv nq np),
        )
  ]

  -- A lower bound that holds for a number holds for a smaller one, and an upper bound for a larger.
  pub lower_bounds :
      (value : Option Bson) (p q : Bson) (fp fq : ℕ)
      → IsSafeOption value
      → IsSafeValue p
      → IsSafeValue q
      → bson_to_f64 ext p ≡ some fp
      → bson_to_f64 ext q ≡ some fq
      → f64_le ext fp fq ≡ true
      → (bson_gt ext value q ≡ true → bson_gt ext value p ≡ true)
        × (bson_gte ext value q ≡ true → bson_gte ext value p ≡ true)
  unfolding bson_gt bson_gte
  lower_bounds none p q fp fq hv hp hq ep eq le = (λ h. h, λ h. h)
  lower_bounds (some v) p q fp fq hv hp hq ep eq le =
      let (gt_less, gte_less) = against-less (bson_to_f64 ext v) (bson_type_order v) fp fq le in
      rw (bson_cmp-number v p fp ep hv hp, bson_cmp-number v q fq eq hv hq)
        (λ h. ground (arith, h, gt_less), λ h. ground (arith, h, gte_less))

  pub upper_bounds :
      (value : Option Bson) (p q : Bson) (fp fq : ℕ)
      → IsSafeOption value
      → IsSafeValue p
      → IsSafeValue q
      → bson_to_f64 ext p ≡ some fp
      → bson_to_f64 ext q ≡ some fq
      → f64_le ext fq fp ≡ true
      → (bson_lt ext value q ≡ true → bson_lt ext value p ≡ true)
        × (bson_lte ext value q ≡ true → bson_lte ext value p ≡ true)
  unfolding bson_lt bson_lte
  upper_bounds none p q fp fq hv hp hq ep eq le = (λ h. h, λ h. h)
  upper_bounds (some v) p q fp fq hv hp hq ep eq le =
      let (lt_more, lte_more) = against-more (bson_to_f64 ext v) (bson_type_order v) fp fq le in
      rw (bson_cmp-number v p fp ep hv hp, bson_cmp-number v q fq eq hv hq)
        (λ h. ground (arith, h, lt_more), λ h. ground (arith, h, lte_more))

  -- Both values of a tighter bound are numbers.
  pub tighter_numbers :
      (op : String) (p q : Bson)
      → is_tighter_bound ext op p q ≡ true
      → (fp : ℕ) × (fq : ℕ) × (bson_to_f64 ext p ≡ some fp) × (bson_to_f64 ext q ≡ some fq)
  unfolding is_tighter_bound
  tighter_numbers op p q t = both (bson_to_f64 ext p) (bson_to_f64 ext q) t
    where
      both :
          (a b : Option ℕ)
          → bound_holds ext op a b ≡ true
          → (fp : ℕ) × (fq : ℕ) × (a ≡ some fp) × (b ≡ some fq)
      both (some fp) (some fq) h = (fp, fq, refl, refl)
      both (some fp) none h = absurd (ground (arith, h))
      both none b h = absurd (ground (arith, h))
