-- ===== src/Query/Remainder.antt =====
-- `$mod`, and where it panics.
use mdb_embedded.Prelude.{
  ◌-◌, ◌^◌, ℤ, pos, negsuc, compare_ℤ, compare_ℤ_eq, rem_ℤ, is_eq, ◌≡◌, ◌≢◌, ◌⊎◌, inl, inr, false,
  Bool-cases, Option, some, arith,
}
use mdb_embedded.Bson.{Bson, array, nil, cons, ok, panic, Externals}
use mdb_embedded.Query.Operators.{eval_mod, number_as_i64, optional_as_i64, checked_rem}

abbrev pub i64_min : ℤ
i64_min = negsuc (2 ^ 63 - 1)

is_eq-ne : (a b : ℤ) → a ≢ b → is_eq (compare_ℤ a b) ≡ false
is_eq-ne a b ne = elim (Bool-cases (is_eq (compare_ℤ a b))) [
  | inl e ↦ absurd (ne (compare_ℤ_eq a b (ground (arith, e))))
  | inr e ↦ e
]

checked_rem-fits : (n d : ℤ) → (d ≢ negsuc 0) ⊎ (n ≢ i64_min) → checked_rem n d ≡ ok (rem_ℤ n d)
unfolding checked_rem
checked_rem-fits n d (inl ne) = rw (is_eq-ne d (negsuc 0) ne)
checked_rem-fits n d (inr ne) = elim (Bool-cases (is_eq (compare_ℤ d (negsuc 0)))) [
  | inl e ↦ rw (e, is_eq-ne n i64_min ne)
  | inr e ↦ rw e
]

module _ (ext : Externals) (value : Option Bson) (a b : Bson) (d r n : ℤ) where
  -- With a numeric divisor that is not 0, a numeric remainder and a numeric field, `$mod` compares
  -- the truncated remainder with the one asked for, unless the divisor is -1 and the field the
  -- least `i64`.
  pub eval_mod-rem :
      number_as_i64 ext a ≡ some d
      → number_as_i64 ext b ≡ some r
      → optional_as_i64 ext value ≡ some n
      → d ≢ pos 0
      → (d ≢ negsuc 0) ⊎ (n ≢ i64_min)
      → eval_mod ext value (array (cons a (cons b nil))) ≡ ok (is_eq (compare_ℤ (rem_ℤ n d) r))
  eval_mod-rem ha hb hv nonzero fits =
      unfold eval_mod in simp (ha, hb, hv, is_eq-ne d (pos 0) nonzero, checked_rem-fits n d fits)

  -- With divisor -1, a numeric remainder and the least `i64` in the field, `$mod` panics.
  pub eval_mod-panic :
      number_as_i64 ext a ≡ some (negsuc 0)
      → number_as_i64 ext b ≡ some r
      → optional_as_i64 ext value ≡ some i64_min
      → eval_mod ext value (array (cons a (cons b nil))) ≡ panic
  unfolding eval_mod checked_rem
  eval_mod-panic ha hb hv = rw (ha, hb, hv)
