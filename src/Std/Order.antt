-- ===== src/Std/Order.antt =====
-- `Ord`: a total order by comparison, of bytes and of texts.
use Prim.Native.String.{compare as compare_text}
use Prim.Native.String.compare
use text.Mathlib.TextEquality.{path_by_compare}
use text.Mathlib.TextPositions.{compare_refl}
use mdb_embedded.Prelude.{
  ℕ, String, List, [], ◌∷◌, Ordering, compare as compare_ℕ, ◌≡◌, ◌≢◌, refl, opposite, arith,
}

pub record Ord (K : Type 0) : Type 0 where
  pub cmp : K → K → Ordering
  pub cmp_refl : (a : K) → cmp a a ≡ Ordering.eq
  pub eq_of_cmp : (a b : K) → cmp a b ≡ Ordering.eq → a ≡ b
  pub cmp_flip : (a b : K) → cmp b a ≡ opposite (cmp a b)
  pub lt_trans : (a b c : K) → cmp a b ≡ Ordering.lt → cmp b c ≡ Ordering.lt → cmp a c ≡ Ordering.lt

abbrev pub then : Ordering → Ordering → Ordering
then Ordering.eq o = o
then o _ = o

-- `<[u8] as Ord>::cmp`: lexicographic.
unfoldable pub cmp_bytes : List ℕ → List ℕ → Ordering
cmp_bytes [] [] = Ordering.eq
cmp_bytes [] (b ∷ bs) = Ordering.lt
cmp_bytes (a ∷ as') [] = Ordering.gt
cmp_bytes (a ∷ as') (b ∷ bs) = then (compare_ℕ a b) (cmp_bytes as' bs)

pub cmp_bytes_refl : (a : List ℕ) → cmp_bytes a a ≡ Ordering.eq
unfolding cmp_bytes
cmp_bytes_refl [] = refl
cmp_bytes_refl (a ∷ as') = ground (arith, cmp_bytes_refl as')

pub eq_of_cmp_bytes : (a b : List ℕ) → cmp_bytes a b ≡ Ordering.eq → a ≡ b
unfolding cmp_bytes
eq_of_cmp_bytes [] [] h = refl
eq_of_cmp_bytes [] (b ∷ bs) h = ground arith
eq_of_cmp_bytes (a ∷ as') [] h = ground arith
eq_of_cmp_bytes (a ∷ as') (b ∷ bs) h = ground (arith, eq_of_cmp_bytes as' bs)

pub cmp_bytes_flip : (a b : List ℕ) → cmp_bytes b a ≡ opposite (cmp_bytes a b)
unfolding cmp_bytes
cmp_bytes_flip [] [] = refl
cmp_bytes_flip [] (b ∷ bs) = refl
cmp_bytes_flip (a ∷ as') [] = refl
cmp_bytes_flip (a ∷ as') (b ∷ bs) = ground (arith, cmp_bytes_flip as' bs)

pub cmp_bytes_trans :
    (a b c : List ℕ)
    → cmp_bytes a b ≡ Ordering.lt
    → cmp_bytes b c ≡ Ordering.lt
    → cmp_bytes a c ≡ Ordering.lt
unfolding cmp_bytes
cmp_bytes_trans [] [] c h k = ground arith
cmp_bytes_trans [] (b ∷ bs) [] h k = ground arith
cmp_bytes_trans [] (b ∷ bs) (c ∷ cs) h k = refl
cmp_bytes_trans (a ∷ as') [] c h k = ground arith
cmp_bytes_trans (a ∷ as') (b ∷ bs) [] h k = ground arith
cmp_bytes_trans (a ∷ as') (b ∷ bs) (c ∷ cs) h k = ground (arith, cmp_bytes_trans as' bs cs)

instance abbrev pub bytes_ord : Ord (List ℕ)
bytes_ord = record {
  cmp = cmp_bytes;
  cmp_refl = cmp_bytes_refl;
  eq_of_cmp = eq_of_cmp_bytes;
  cmp_flip = cmp_bytes_flip;
  lt_trans = cmp_bytes_trans;
}

-- `str::cmp`: the library's, by the characters' numbers.
pub cmp_text_flip : (a b : String) → compare_text b a ≡ opposite (compare_text a b)
cmp_text_flip String.[] String.[] = refl
cmp_text_flip String.[] (String.◌∷◌ d t) =
    ground (arith, compare.nil-cons d t, compare.cons-nil d t)
cmp_text_flip (String.◌∷◌ c s) String.[] =
    ground (arith, compare.nil-cons c s, compare.cons-nil c s)
cmp_text_flip (String.◌∷◌ c s) (String.◌∷◌ d t) =
    ground (arith, compare.cons-cons c d s t, compare.cons-cons d c t s, cmp_text_flip s t)

compare_text_nil : (a : String) → compare_text a "" ≢ Ordering.lt
compare_text_nil String.[] = ground arith
compare_text_nil (String.◌∷◌ c s) = ground (arith, compare.cons-nil c s)

pub cmp_text_trans :
    (a b c : String)
    → compare_text a b ≡ Ordering.lt
    → compare_text b c ≡ Ordering.lt
    → compare_text a c ≡ Ordering.lt
cmp_text_trans a String.[] c h k = ground (arith, compare_text_nil a)
cmp_text_trans a b String.[] h k = ground (arith, compare_text_nil b)
cmp_text_trans String.[] b (String.◌∷◌ e u) h k = compare.nil-cons e u
cmp_text_trans (String.◌∷◌ c s) (String.◌∷◌ d t) (String.◌∷◌ e u) h k = ground (
  arith,
  compare.cons-cons c d s t,
  compare.cons-cons d e t u,
  compare.cons-cons c e s u,
  cmp_text_trans s t u,
)

instance abbrev pub string_ord : Ord String
string_ord = record {
  cmp = compare_text;
  cmp_refl = compare_refl;
  eq_of_cmp = path_by_compare;
  cmp_flip = cmp_text_flip;
  lt_trans = cmp_text_trans;
}
