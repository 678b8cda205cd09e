-- ===== src/Std/Sort.antt =====
-- `slice::sort_by` of Rust's standard library: a stable sort by a comparison.
use mdb_embedded.Prelude.{List, [], ◌∷◌, Ordering, is_gt, if◌then◌else◌}

module _ {A : Type 0} (cmp : A → A → Ordering) where
  unfoldable pub insert_by : A → List A → List A
  insert_by x [] = x ∷ []
  insert_by x (y ∷ ys) =
      let rest = insert_by x ys in if is_gt (cmp x y) then y ∷ rest else x ∷ y ∷ ys

  unfoldable pub sort_by : List A → List A
  unfolding insert_by
  sort_by [] = []
  sort_by (x ∷ xs) = insert_by x (sort_by xs)
