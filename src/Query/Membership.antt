-- ===== src/Query/Membership.antt =====
-- `$in`, which sorts its list and searches it by halving, against a walk over the list.
use mathlib.Core.Path.{fun_ext, ap₂}
use mdb_embedded.Prelude.{
  ℕ, zero, suc, ◌≡◌, refl, ap, ◌∙◌, some, List, [], ◌∷◌, map, Ordering, length, arith,
}
use mdb_embedded.Std.BinarySearch.{binary_search_by}
use mdb_embedded.Std.Sort.{insert_by, sort_by}
use mdb_embedded.Std.Membership.{IsPreorder, some_equal, probe, found-some_equal, is_found}
use mdb_embedded.Bson.{Bson, array, of_list, to_list, ok, Externals}
use mdb_embedded.Query.Compare.{bson_cmp}
use mdb_embedded.Query.Operators.{eval_in, in_sorted, sorted_contains, probe_cmp}

abbrev pub IsScalar : Bson → Type 0
IsScalar (array _) = ⊥
IsScalar _ = Unit

-- Values of one kind, which the query compares as `cmp` does.
pub record IsKind (ext : Externals) {B : Type 0} (f : B → Bson) (cmp : B → B → Ordering)
    : Type 0 where
  pub preorder : IsPreorder cmp
  pub same_cmp : (a b : B) → bson_cmp ext (f a) (f b) ≡ cmp a b
  pub scalar : (a : B) → IsScalar (f a)

to_list-of_list : (xs : List Bson) → to_list (of_list xs) ≡ xs
to_list-of_list [] = refl
to_list-of_list (x ∷ xs) = ap (◌∷◌ x) (to_list-of_list xs)

in_sorted-scalar :
    (ext : Externals) (xs : List Bson) (v : Bson)
    → IsScalar v
    → in_sorted ext xs (some v) ≡ sorted_contains ext xs v
unfolding in_sorted
in_sorted-scalar ext xs (array arr) s = absurd s
in_sorted-scalar ext xs _ s = refl

module _ (ext : Externals) {B : Type 0} (f : B → Bson) (cmp : B → B → Ordering)
    (k : IsKind ext f cmp) where
  insert_by-map :
      (x : B) (xs : List B) → insert_by (bson_cmp ext) (f x) (map f xs) ≡ map f (insert_by cmp x xs)
  unfolding insert_by
  insert_by-map x [] = refl
  insert_by-map x (y ∷ ys) = ground (arith, k.same_cmp x y, insert_by-map x ys)

  sort_by-map : (xs : List B) → sort_by (bson_cmp ext) (map f xs) ≡ map f (sort_by cmp xs)
  unfolding sort_by
  sort_by-map [] = refl
  sort_by-map (x ∷ xs) = rw (sort_by-map xs) (insert_by-map x (sort_by cmp xs))

  length-map : (xs : List B) → length (map f xs) ≡ length xs
  length-map [] = refl
  length-map (x ∷ xs) = ap suc (length-map xs)

  probe-map : (xs : List B) (v : B) (i : ℕ) → probe_cmp ext (map f xs) (f v) i ≡ probe cmp xs v i
  probe-map [] v i = refl
  probe-map (x ∷ xs) v zero = k.same_cmp x v
  probe-map (x ∷ xs) v (suc i) = probe-map xs v i

  contains-map :
      (xs : List B) (v : B)
      → sorted_contains ext (map f xs) (f v)
        ≡ is_found (binary_search_by (length xs) (probe cmp xs v))
  unfolding sorted_contains
  contains-map xs v =
      ap₂ (λ n g. is_found (binary_search_by n g)) (length-map xs) (fun_ext (probe-map xs v))

  -- Over values of one kind, which are no arrays and which the query compares by a preorder, `$in`
  -- holds exactly if some item of its list compares equal to the field's value.
  pub eval_in-some_equal :
      (v : B) (xs : List B)
      → eval_in ext (some (f v)) (array (of_list (map f xs))) ≡ ok (some_equal cmp v xs)
  unfolding eval_in
  eval_in-some_equal v xs = ap ok (
      ap (λ l. in_sorted ext (sort_by (bson_cmp ext) l) (some (f v))) (to_list-of_list (map f xs))
      ∙ (in_sorted-scalar ext (sort_by (bson_cmp ext) (map f xs)) (f v) (k.scalar v)
          ∙ (ap (λ l. sorted_contains ext l (f v)) (sort_by-map xs)
              ∙ (contains-map (sort_by cmp xs) v ∙ found-some_equal cmp k.preorder v xs))))
