-- ===== src/Sample.antt =====
-- One concrete choice of the external functions, for tests: a document is searched from its front,
-- and a double's bit pattern is read as an integer.
use text.Mathlib.TextEquality.{eq_iff}
use mdb_embedded.Prelude.{
  ℕ, ◌+◌, ◌*◌, ◌/◌, ◌%◌, ℤ, pos, negsuc, ◌+ℤ◌, ◌*ℤ◌, compare_ℤ, String, Bool, true, false, Option,
  none, some, [], ◌∷◌, ◌≡◌, refl, inr, ◌==◌, str_eq, is_some, is_eq, if◌then◌else◌, contains_str,
  arith,
}
use mdb_embedded.Query.Doubles.{IsFloatOrder}
use mdb_embedded.Bson.{Bson, string, null, int32, int64, Document, end, field, ok, Externals, IsMap}

abbrev pub find : Document → String → Option Bson
find end k = none
find (field j v d) k = if str_eq j k then some v else find d k

abbrev pub put : Document → String → Bson → Document
put end k v = field k v end
put (field j w d) k v = if str_eq j k then field k v d else field j w (put d k v)

abbrev pub delete : Document → String → Document
delete end k = end
delete (field j w d) k = let rest = delete d k in if str_eq j k then rest else field j w rest

-- An integer as a bit pattern, its sign in the lowest bit.
abbrev pub of_int : ℤ → ℕ
of_int (pos n) = 2 * n
of_int (negsuc n) = 2 * n + 1

abbrev pub to_int : ℕ → ℤ
to_int b = if b % 2 == 0 then pos (b / 2) else negsuc (b / 2)

abbrev pub same : Bson → Bson → Bool
same (int32 a) (int32 b) = is_eq (compare_ℤ a b)
same (int64 a) (int64 b) = is_eq (compare_ℤ a b)
same (string a) (string b) = str_eq a b
same null null = true
same _ _ = false

abbrev pub sample : Externals
sample = record {
  get = find;
  contains_key = λ d k. is_some (find d k);
  insert = put;
  remove = delete;
  canonical_key =
      λ v. elim v [ int32 n ↦ 16 ∷ of_int n ∷ [] | int64 n ↦ 18 ∷ of_int n ∷ [] | _ ↦ [] ];
  beq = same;
  of_int = of_int;
  partial_cmp = λ a b. some (compare_ℤ (to_int a) (to_int b));
  add_f64 = λ a b. of_int (to_int a +ℤ to_int b);
  mul_f64 = λ a b. of_int (to_int a *ℤ to_int b);
  is_whole = λ a. true;
  f64_as_i32 = to_int;
  f64_as_i64 = to_int;
  regex = λ p. ok (λ s. contains_str s p);
  now = pos 0;
  expr_holds = λ d c. ok true;
  text_holds = λ d c. ok true;
  near_holds = λ v c. ok true;
  geo_within_holds = λ v c. ok true;
  geo_intersects_holds = λ v c. ok true;
}

find-put :
    (d : Document) (k j : String) (v : Bson)
    → find (put d k v) j ≡ (if str_eq k j then some v else find d j)
find-put end k j v = refl
find-put (field i w d) k j v = ground (arith, find-put d k j v, eq_iff i k, eq_iff i j, eq_iff k j)

find-delete :
    (d : Document) (k j : String) → find (delete d k) j ≡ (if str_eq k j then none else find d j)
find-delete end k j = ground arith
find-delete (field i w d) k j =
    ground (arith, find-delete d k j, eq_iff i k, eq_iff i j, eq_iff k j)

pub sample-IsMap : IsMap sample
sample-IsMap = record {
  get-new = λ k. refl;
  get-insert = find-put;
  get-remove = find-delete;
  contains_key-get = λ d k. refl;
}

-- Every double of the sample is an integer, in the integers' order.
pub sample-IsFloatOrder : IsFloatOrder sample
sample-IsFloatOrder = record {
  flip = λ a b. ground arith;
  le_trans = λ a b c h k. ground (arith, h, k);
  total = λ a b na nb. (compare_ℤ (to_int a) (to_int b), refl);
  nan_or_number = λ a. inr (ground arith);
  of_int-IsNumber = λ n. ground arith;
}
