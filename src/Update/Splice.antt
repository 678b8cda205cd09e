-- ===== src/Update/Splice.antt =====
-- What `$push` does to an array: where `$position` puts the elements, and what `$slice` leaves.
use mdb_embedded.Prelude.{
  ℕ, zero, suc, ◌+◌, ◌-◌, ◌≤◌, min, ℤ, pos, negsuc, pos_part, neg_part, IsI64, neg_i64, as_usize,
  ◌≡◌, refl, ap, sym, ◌∙◌, true, false, some, List, [], ◌∷◌, ◌++◌, length, take, drop,
  length-append, take-append-drop, arith,
}
use mdb_embedded.Bson.{Bson}
use mdb_embedded.Update.Arrays.{
  insert_at, insert_each, position_index, push_elements, slice_array, is_negative,
}

-- Where `$position` points: from the front, or from the back for a negative one, within the array.
abbrev pub index_of : ℤ → ℕ → ℕ
index_of (pos n) size = min n size
index_of (negsuc n) size = size - suc n

as_usize-pos : (n : ℕ) → IsI64 (pos n) → as_usize (pos n) ≡ n
as_usize-pos n fits = ground (arith, fits.0)

as_usize-neg : (n : ℕ) → IsI64 (negsuc n) → as_usize (neg_i64 (negsuc n)) ≡ suc n
as_usize-neg n fits = ground (arith, fits.1)

position_index_lem : (p : ℤ) (size : ℕ) → IsI64 p → position_index p size ≡ index_of p size
unfolding position_index
position_index_lem (pos n) size fits = ground (arith, as_usize-pos n fits)
position_index_lem (negsuc n) size fits = ground (arith, as_usize-neg n fits)

length-take : (n : ℕ) (xs : List Bson) → length (take n xs) ≡ min n (length xs)
length-take zero xs = ground arith
length-take (suc n) [] = ground arith
length-take (suc n) (x ∷ xs) = ground (arith, length-take n xs)

length-drop : (n : ℕ) (xs : List Bson) → length (drop n xs) ≡ length xs - n
length-drop zero xs = ground arith
length-drop (suc n) [] = ground arith
length-drop (suc n) (x ∷ xs) = ground (arith, length-drop n xs)

-- Inserting after a prefix.
insert_at_prefix :
    (xs ys : List Bson) (e : Bson) → insert_at (length xs) e (xs ++ ys) ≡ xs ++ (e ∷ ys)
insert_at_prefix [] ys e = refl
insert_at_prefix (x ∷ xs) ys e = ap (◌∷◌ x) (insert_at_prefix xs ys e)

append_assoc : (xs ys zs : List Bson) → (xs ++ ys) ++ zs ≡ xs ++ (ys ++ zs)
append_assoc [] ys zs = refl
append_assoc (x ∷ xs) ys zs = ap (◌∷◌ x) (append_assoc xs ys zs)

insert_each_prefix :
    (es xs ys : List Bson) (n : ℕ) → n ≡ length xs → insert_each n es (xs ++ ys) ≡ xs ++ (es ++ ys)
unfolding insert_each
insert_each_prefix [] xs ys n e = refl
insert_each_prefix (x ∷ es) xs ys n e =
    rw (e, insert_at_prefix xs ys x, ← append_assoc xs (x ∷ []) ys)
      (insert_each_prefix es (xs ++ (x ∷ [])) ys (length xs + 1)
          (ground (arith, length-append xs (x ∷ [])))
        ∙ append_assoc xs (x ∷ []) (es ++ ys))

index_le : (p : ℤ) (size : ℕ) → index_of p size ≤ size
index_le (pos n) size = omega arith
index_le (negsuc n) size = omega arith

-- With `$position`, an `i64`, the elements stand in their order at the place it points to, within
-- the array, and the rest of the array keeps its order around them.
pub push_elements-splice :
    (p : ℤ) (elements arr : List Bson)
    → IsI64 p
    → (index_of p (length arr) ≤ length arr)
      × (push_elements (some p) elements arr
          ≡ take (index_of p (length arr)) arr ++ (elements ++ drop (index_of p (length arr)) arr))
unfolding push_elements
push_elements-splice p elements arr fits = (
  ground (arith, index_le p (length arr)),
  rw (position_index_lem p (length arr) fits) (
      ap (insert_each (index_of p (length arr)) elements)
        (sym (take-append-drop (index_of p (length arr)) arr))
      ∙ insert_each_prefix elements (take (index_of p (length arr)) arr)
          (drop (index_of p (length arr)) arr) (index_of p (length arr))
          (ground (arith, length-take (index_of p (length arr)) arr, index_le p (length arr)))),
)

slice_array-pos : (n : ℕ) (arr : List Bson) → IsI64 (pos n) → slice_array (pos n) arr ≡ take n arr
unfolding slice_array
slice_array-pos zero arr fits = ground arith
slice_array-pos (suc n) arr fits = ground (arith, as_usize-pos (suc n) fits)

slice_array-neg :
    (n : ℕ) (arr : List Bson)
    → IsI64 (negsuc n)
    → slice_array (negsuc n) arr ≡ drop (length arr - suc n) arr
unfolding slice_array
slice_array-neg n arr fits = ground (arith, as_usize-neg n fits)

-- `$slice: n`, an `i64`, leaves as many elements as |n| and the length allow: a beginning of the
-- array where n is not negative, and an end of it where it is.
pub slice_array-sides :
    (n : ℤ) (arr : List Bson)
    → IsI64 n
    → (length (slice_array n arr) ≡ min (pos_part n + neg_part n) (length arr))
      × (is_negative n ≡ false → (rest : List Bson) × (slice_array n arr ++ rest ≡ arr))
      × (is_negative n ≡ true → (rest : List Bson) × (rest ++ slice_array n arr ≡ arr))
slice_array-sides (pos n) arr fits = rw (slice_array-pos n arr fits) (
  ground (arith, length-take n arr),
  λ _. (drop n arr, take-append-drop n arr),
  λ e. ground (arith, e),
)
slice_array-sides (negsuc n) arr fits = rw (slice_array-neg n arr fits) (
  ground (arith, length-drop (length arr - suc n) arr),
  λ e. ground (arith, e),
  λ _. (take (length arr - suc n) arr, take-append-drop (length arr - suc n) arr),
)
