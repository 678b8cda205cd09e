-- ===== src/Aggregation/Chosen.antt =====
-- The accumulators that choose, against `$push`, which collects every value.
use mdb_embedded.Prelude.{
  ℕ, zero, suc, ◌-◌, ◌≤◌, ◌<◌, ◌^◌, negsuc, IsI32, ◌≡◌, refl, ap, some, List, [], ◌∷◌, length, take,
  drop, arith,
}
use mdb_embedded.Bson.{Bson, array, int32, Document, of_list, Result, ok, panic, Externals}
use mdb_embedded.Aggregation.Accumulators.{
  evaluate_each, accum_push, accum_first_n, accum_last_n, extract_n,
}

module _ (ext : Externals) (evaluate : Document → Bson → Result Bson) (capacity : ℕ)
    (expr : Bson) where
  -- Each value is the one that the document beside it evaluates to.
  abbrev pub Values : List Document → List Bson → Type 0
  Values [] [] = Unit
  Values (d ∷ ds) (v ∷ vs) = (evaluate d expr ≡ ok v) × Values ds vs
  Values _ _ = ⊥

  evaluate_each-Values :
      (ds : List Document) (vs : List Bson)
      → Values ds vs
      → evaluate_each ext evaluate capacity ds expr ≡ ok vs
  unfolding evaluate_each
  evaluate_each-Values [] [] h = refl
  evaluate_each-Values [] (v ∷ vs) h = absurd h
  evaluate_each-Values (d ∷ ds) [] h = absurd h
  evaluate_each-Values (d ∷ ds) (v ∷ vs) (e, h) = simp (e, evaluate_each-Values ds vs h) refl

  Values-take :
      (n : ℕ) (ds : List Document) (vs : List Bson) → Values ds vs → Values (take n ds) (take n vs)
  Values-take zero ds vs h = tt
  Values-take (suc n) [] [] h = tt
  Values-take (suc n) [] (v ∷ vs) h = h
  Values-take (suc n) (d ∷ ds) [] h = absurd h
  Values-take (suc n) (d ∷ ds) (v ∷ vs) (e, h) = (e, Values-take n ds vs h)

  Values-drop :
      (n : ℕ) (ds : List Document) (vs : List Bson) → Values ds vs → Values (drop n ds) (drop n vs)
  Values-drop zero ds vs h = h
  Values-drop (suc n) [] [] h = tt
  Values-drop (suc n) [] (v ∷ vs) h = absurd h
  Values-drop (suc n) (d ∷ ds) [] h = absurd h
  Values-drop (suc n) (d ∷ ds) (v ∷ vs) (e, h) = Values-drop n ds vs h

  Values-length : (ds : List Document) (vs : List Bson) → Values ds vs → length ds ≡ length vs
  Values-length [] [] h = refl
  Values-length [] (v ∷ vs) h = absurd h
  Values-length (d ∷ ds) [] h = absurd h
  Values-length (d ∷ ds) (v ∷ vs) (e, h) = ap suc (Values-length ds vs h)

  -- Where every document has its value, `$push` collects the values in order, and `$firstN` and
  -- `$lastN`, for an `n` that a vector can be made for, the first and the last n of them, or all.
  pub accum_push-Values :
      (ds : List Document) (vs : List Bson) (spec : Document) (n : ℕ)
      → Values ds vs
      → extract_n ext evaluate capacity spec ≡ ok n
      → n ≤ capacity
      → (accum_push ext evaluate capacity ds expr ≡ ok (array (of_list vs)))
        × (accum_first_n ext evaluate capacity ds expr spec ≡ ok (array (of_list (take n vs))))
        × (accum_last_n ext evaluate capacity ds expr spec
            ≡ ok (array (of_list (drop (length vs - n) vs))))
  unfolding accum_push accum_first_n accum_last_n
  accum_push-Values ds vs spec n h k fits = (
    ground (arith, evaluate_each-Values ds vs h),
    ground (arith, k, fits, evaluate_each-Values (take n ds) (take n vs) (Values-take n ds vs h)),
    ground (
      arith,
      k,
      fits,
      Values-length ds vs h,
      evaluate_each-Values (drop (length vs - n) ds) (drop (length vs - n) vs)
          (Values-drop (length vs - n) ds vs h),
    ),
  )

  -- `$firstN` and `$lastN` with a negative `i32` for `n` panic, whatever the documents are, where
  -- a vector holds fewer than 2^63 elements.
  pub accum_first_n-negative :
      (ds : List Document) (spec : Document) (k : ℕ)
      → IsI32 (negsuc k)
      → ext.get spec "n" ≡ some (int32 (negsuc k))
      → capacity < 2 ^ 63
      → (accum_first_n ext evaluate capacity ds expr spec ≡ panic)
        × (accum_last_n ext evaluate capacity ds expr spec ≡ panic)
  unfolding accum_first_n accum_last_n extract_n
  accum_first_n-negative ds spec k fits there small =
      (ground (arith, there, small, fits.1), ground (arith, there, small, fits.1))
