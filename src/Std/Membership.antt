-- ===== src/Std/Membership.antt =====
-- A sorted list searched by halving holds what the list it was sorted from holds.
use mdb_embedded.Prelude.{
  ℕ, zero, suc, sym, ◌∙◌, ltb, ◌<◌, ◌≤◌, ◌≡◌, inl, inr, refl, Bool, true, false, ◌||◌, Bool-cases,
  none, some, List, [], ◌∷◌, Ordering, opposite, is_eq, is_gt, length, get_elem?, get_elem?-lt,
  arith,
}
use mdb_embedded.Std.BinarySearch.{
  Search, found, missing, IsPartitioned, Answers, binary_search_by, binary_search_by-Answers,
}
use mdb_embedded.Std.Sort.{insert_by, sort_by}

abbrev pub is_found : Search → Bool
is_found (found i) = true
is_found (missing i) = false

pub record IsPreorder {A : Type 0} (cmp : A → A → Ordering) : Type 0 where
  pub flip : (a b : A) → cmp b a ≡ opposite (cmp a b)
  pub le_trans :
      (a b c : A) → is_gt (cmp a b) ≡ false → is_gt (cmp b c) ≡ false → is_gt (cmp a c) ≡ false

module _ {A : Type 0} (cmp : A → A → Ordering) where
  abbrev pub some_equal : A → List A → Bool
  some_equal v [] = false
  some_equal v (x ∷ xs) = is_eq (cmp x v) || some_equal v xs

  abbrev pub probe : List A → A → ℕ → Ordering
  probe xs v i = elim (get_elem? xs i) [ none ↦ Ordering.gt | some x ↦ cmp x v ]

  abbrev pub NotBelow : A → List A → Type 0
  NotBelow x [] = Unit
  NotBelow x (y ∷ ys) = (is_gt (cmp x y) ≡ false) × NotBelow x ys

  abbrev pub IsAscending : List A → Type 0
  IsAscending [] = Unit
  IsAscending (x ∷ xs) = NotBelow x xs × IsAscending xs

  module _ (p : IsPreorder cmp) where
    some_equal-insert_by :
        (v x : A) (xs : List A)
        → some_equal v (insert_by cmp x xs) ≡ (is_eq (cmp x v) || some_equal v xs)
    unfolding insert_by
    some_equal-insert_by v x [] = refl
    some_equal-insert_by v x (y ∷ ys) = ground (arith, some_equal-insert_by v x ys)

    some_equal-sort_by : (v : A) (xs : List A) → some_equal v (sort_by cmp xs) ≡ some_equal v xs
    unfolding sort_by
    some_equal-sort_by v [] = refl
    some_equal-sort_by v (x ∷ xs) =
        ground (arith, some_equal-insert_by v x (sort_by cmp xs), some_equal-sort_by v xs)

    NotBelow-trans :
        (x y : A) (ys : List A) → is_gt (cmp x y) ≡ false → NotBelow y ys → NotBelow x ys
    NotBelow-trans x y [] h n = tt
    NotBelow-trans x y (z ∷ zs) h n = (p.le_trans x y z h n.0, NotBelow-trans x y zs h n.1)

    NotBelow-insert_by :
        (x y : A) (ys : List A)
        → is_gt (cmp x y) ≡ false
        → NotBelow x ys
        → NotBelow x (insert_by cmp y ys)
    unfolding insert_by
    NotBelow-insert_by x y [] h n = (h, tt)
    NotBelow-insert_by x y (z ∷ zs) h n = ground (arith, NotBelow-insert_by x y zs)

    insert_by-IsAscending :
        (x : A) (xs : List A) → IsAscending xs → IsAscending (insert_by cmp x xs)
    unfolding insert_by
    insert_by-IsAscending x [] a = (tt, tt)
    insert_by-IsAscending x (y ∷ ys) a = ground (
      arith,
      insert_by-IsAscending x ys,
      NotBelow-trans x y ys,
      NotBelow-insert_by y x ys,
      p.flip x y,
    )

    pub sort_by-IsAscending : (xs : List A) → IsAscending (sort_by cmp xs)
    unfolding sort_by
    sort_by-IsAscending [] = tt
    sort_by-IsAscending (x ∷ xs) = insert_by-IsAscending x (sort_by cmp xs) (sort_by-IsAscending xs)

    NotBelow-at :
        (x : A) (xs : List A) (j : ℕ) (y : A)
        → NotBelow x xs
        → get_elem? xs j ≡ some y
        → is_gt (cmp x y) ≡ false
    NotBelow-at x [] j y n e = ground arith
    NotBelow-at x (z ∷ zs) zero y n e = ground (arith, n.0)
    NotBelow-at x (z ∷ zs) (suc j) y n e = NotBelow-at x zs j y n.1 e

    ascending_at :
        (xs : List A) (i j : ℕ) (x y : A)
        → IsAscending xs
        → i < j
        → get_elem? xs i ≡ some x
        → get_elem? xs j ≡ some y
        → is_gt (cmp x y) ≡ false
    ascending_at [] i j x y a lt e f = ground arith
    ascending_at (z ∷ zs) zero zero x y a lt e f = absurd (omega arith)
    ascending_at (z ∷ zs) (suc i) zero x y a lt e f = absurd (omega arith)
    ascending_at (z ∷ zs) zero (suc j) x y a lt e f = ground (arith, NotBelow-at z zs j y a.0 f)
    ascending_at (z ∷ zs) (suc i) (suc j) x y a lt e f =
        ascending_at zs i j x y a.1 (omega arith) e f

    probe-IsPartitioned :
        (xs : List A) (v : A) → IsAscending xs → IsPartitioned (length xs) (probe xs v)
    probe-IsPartitioned xs v a = record {
      less_before = λ i j lt le e.
          let (x, ex) = get_elem?-lt xs i (omega arith) in
          let (y, ey) = get_elem?-lt xs j le in
          ground (
            arith,
            ex,
            ey,
            ascending_at xs i j x y a lt ex ey,
            p.flip x v,
            p.flip y v,
            p.le_trans v x y,
          );
      greater_after = λ i j lt le e.
          let (x, ex) = get_elem?-lt xs i (omega arith) in
          let (y, ey) = get_elem?-lt xs j le in
          ground (arith, ex, ey, ascending_at xs i j x y a lt ex ey, p.le_trans x y v);
    }

    some_equal_at :
        (xs : List A) (v : A) (i : ℕ) → probe xs v i ≡ Ordering.eq → some_equal v xs ≡ true
    some_equal_at [] v i e = ground arith
    some_equal_at (x ∷ xs) v zero e = ground arith
    some_equal_at (x ∷ xs) v (suc i) e = ground (arith, some_equal_at xs v i e)

    none_equal :
        (xs : List A) (v : A)
        → ((i : ℕ) → i < length xs → is_eq (probe xs v i) ≡ false)
        → some_equal v xs ≡ false
    none_equal [] v h = refl
    none_equal (x ∷ xs) v h =
        ground (arith, h 0 (omega arith), none_equal xs v (λ i lt. h (suc i) (omega arith)))

    is_eq-split :
        (xs : List A) (v : A) (i : ℕ)
        → ((j : ℕ) → j < i → probe xs v j ≡ Ordering.lt)
        → ((j : ℕ) → i ≤ j → j < length xs → probe xs v j ≡ Ordering.gt)
        → (j : ℕ) → j < length xs
        → is_eq (probe xs v j) ≡ false
    is_eq-split xs v i less more j lt = elim (Bool-cases (ltb j i)) [
      | inl before ↦ let h : j < i = ground arith in rw (less j h)
      | inr after ↦ let h : i ≤ j = ground arith in rw (more j h lt)
    ]

    Answers-equal :
        (xs : List A) (v : A) (s : Search)
        → Answers (length xs) (probe xs v) s
        → is_found s ≡ some_equal v xs
    Answers-equal xs v (found i) ans = sym (some_equal_at xs v i ans.1)
    Answers-equal xs v (missing i) ans = sym (none_equal xs v (is_eq-split xs v i ans.1 ans.2))

    -- Halving the sorted list finds what a walk over the list as given finds.
    pub found-some_equal :
        (v : A) (xs : List A)
        → is_found (binary_search_by (length (sort_by cmp xs)) (probe (sort_by cmp xs) v))
          ≡ some_equal v xs
    found-some_equal v xs =
        Answers-equal (sort_by cmp xs) v
          (binary_search_by (length (sort_by cmp xs)) (probe (sort_by cmp xs) v))
          (binary_search_by-Answers (length (sort_by cmp xs)) (probe (sort_by cmp xs) v)
            (probe-IsPartitioned (sort_by cmp xs) v (sort_by-IsAscending xs)))
        ∙ some_equal-sort_by v xs
