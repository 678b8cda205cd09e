-- ===== src/Std/Sorting.antt =====
-- `slice::sort_by` and `slice::select_nth_unstable_by`: what they keep and how they order.
use mathlib.Core.List.Perm
use mathlib.Core.List.{Perm}
use mdb_embedded.Prelude.{
  ℕ, suc, ◌<◌, ◌≡◌, refl, ap, ◌∙◌, List, [], ◌∷◌, map, Ordering, is_gt, length, take, drop,
  Bool-cases, inl, inr,
}
use mdb_embedded.Std.Sort.{insert_by, sort_by}
use mdb_embedded.Std.Membership.{IsPreorder, IsAscending, NotBelow}

module _ {A : Type 0} (cmp : A → A → Ordering) where
  -- No member of the first list comes after one of the second.
  abbrev pub IsSplit : List A → List A → Type 0
  IsSplit [] ys = Unit
  IsSplit (x ∷ xs) ys = NotBelow cmp x ys × IsSplit xs ys

  pub IsSplit-nil : (xs : List A) → IsSplit xs []
  IsSplit-nil [] = tt
  IsSplit-nil (x ∷ xs) = (tt, IsSplit-nil xs)

  insert_by-IsSplit :
      (x : A) (xs ys : List A) → NotBelow cmp x ys → IsSplit xs ys → IsSplit (insert_by cmp x xs) ys
  unfolding insert_by
  insert_by-IsSplit x [] ys n h = (n, tt)
  insert_by-IsSplit x (y ∷ zs) ys n h = elim (Bool-cases (is_gt (cmp x y))) [
    | inl p ↦ rw (p) (h.0, insert_by-IsSplit x zs ys n h.1)
    | inr p ↦ rw (p) (n, h)
  ]

  pub sort_by-IsSplit : (xs ys : List A) → IsSplit xs ys → IsSplit (sort_by cmp xs) ys
  unfolding sort_by
  sort_by-IsSplit [] ys h = tt
  sort_by-IsSplit (x ∷ xs) ys h =
      insert_by-IsSplit x (sort_by cmp xs) ys h.0 (sort_by-IsSplit xs ys h.1)

  insert_by-perm : (x : A) (xs : List A) → Perm (insert_by cmp x xs) (x ∷ xs)
  unfolding insert_by
  insert_by-perm x [] = Perm.rfl
  insert_by-perm x (y ∷ ys) = elim (Bool-cases (is_gt (cmp x y))) [
    | inl p ↦ rw (p) (Perm.trans (Perm.cons y (insert_by-perm x ys)) (Perm.swap x y ys))
    | inr p ↦ rw (p) Perm.rfl
  ]

  pub sort_by-perm : (xs : List A) → Perm (sort_by cmp xs) xs
  unfolding sort_by
  sort_by-perm [] = Perm.rfl
  sort_by-perm (x ∷ xs) =
      Perm.trans (insert_by-perm x (sort_by cmp xs)) (Perm.cons x (sort_by-perm xs))

-- Sorting by what a function gives is sorting what it gives.
module _ {A B : Type 0} (f : A → B) (cmp : B → B → Ordering) where
  map-insert_by :
      (x : A) (xs : List A)
      → map f (insert_by (λ a b. cmp (f a) (f b)) x xs) ≡ insert_by cmp (f x) (map f xs)
  unfolding insert_by
  map-insert_by x [] = refl
  map-insert_by x (y ∷ ys) = elim (Bool-cases (is_gt (cmp (f x) (f y)))) [
    | inl p ↦ rw (p) (ap (λ r. f y ∷ r) (map-insert_by x ys))
    | inr p ↦ rw (p) refl
  ]

  map-NotBelow :
      (x : A) (ys : List A) → NotBelow (λ a b. cmp (f a) (f b)) x ys → NotBelow cmp (f x) (map f ys)
  map-NotBelow x [] h = tt
  map-NotBelow x (y ∷ ys) h = (h.0, map-NotBelow x ys h.1)

  pub map-IsSplit :
      (xs ys : List A) → IsSplit (λ a b. cmp (f a) (f b)) xs ys → IsSplit cmp (map f xs) (map f ys)
  map-IsSplit [] ys h = tt
  map-IsSplit (x ∷ xs) ys h = (map-NotBelow x ys h.0, map-IsSplit xs ys h.1)

  pub map-IsAscending :
      (xs : List A) → IsAscending (λ a b. cmp (f a) (f b)) xs → IsAscending cmp (map f xs)
  map-IsAscending [] h = tt
  map-IsAscending (x ∷ xs) h = (map-NotBelow x xs h.0, map-IsAscending xs h.1)

  pub pullback-IsPreorder : IsPreorder cmp → IsPreorder (λ a b. cmp (f a) (f b))
  pullback-IsPreorder p = record {
    flip = λ a b. p.flip (f a) (f b);
    le_trans = λ a b c h k. p.le_trans (f a) (f b) (f c) h k;
  }

  pub map-sort_by :
      (xs : List A) → map f (sort_by (λ a b. cmp (f a) (f b)) xs) ≡ sort_by cmp (map f xs)
  unfolding sort_by
  map-sort_by [] = refl
  map-sort_by (x ∷ xs) =
      map-insert_by x (sort_by (λ a b. cmp (f a) (f b)) xs)
      ∙ ap (insert_by cmp (f x)) (map-sort_by xs)

-- The documented behaviour of `select_nth_unstable_by` on a total order: the elements are reordered
-- so that none up to the index comes after one behind it.
pub record IsSelection {A : Type 0} (select_nth : ℕ → (A → A → Ordering) → List A → List A)
    : Type 1 where
  pub perm :
      (n : ℕ) (cmp : A → A → Ordering) (xs : List A) → n < length xs → Perm (select_nth n cmp xs) xs
  pub split :
      (n : ℕ) (cmp : A → A → Ordering) (xs : List A)
      → IsPreorder cmp
      → n < length xs
      → IsSplit cmp (take (suc n) (select_nth n cmp xs)) (drop (suc n) (select_nth n cmp xs))
