-- ===== src/Std/BTreeMap/Laws.antt =====
-- The laws of the ordered map.
use mdb_embedded.Prelude.{none, some, List, [], ◌∷◌, Ordering, ◌≡◌, refl, arith}
use mdb_embedded.Std.Order.{Ord}
use mdb_embedded.Std.BTreeMap.{lookup, insert, remove, IsAbove, IsSorted}

abbrev pub when_eq {ℓ} : {A : Type ℓ} → Ordering → A → A → A
when_eq Ordering.eq a b = a
when_eq _ a b = b

module _ {K V : Type 0} ⦃o : Ord K⦄ where
  IsAbove-trans : (k j : K) (m : List (K × V)) → o.cmp k j ≡ Ordering.lt → IsAbove j m → IsAbove k m
  IsAbove-trans k j [] lt a = tt
  IsAbove-trans k j ((i, w) ∷ m) lt a = (o.lt_trans k j i lt a.0, IsAbove-trans k j m lt a.1)

  IsAbove-insert :
      (i k : K) (v : V) (m : List (K × V))
      → o.cmp i k ≡ Ordering.lt
      → IsAbove i m
      → IsAbove i (insert k v m)
  unfolding insert
  IsAbove-insert i k v [] lt a = (lt, tt)
  IsAbove-insert i k v ((j, w) ∷ m) lt a = ground (arith, IsAbove-insert i k v m)

  -- An insertion keeps the order.
  pub insert-IsSorted : (k : K) (v : V) (m : List (K × V)) → IsSorted m → IsSorted (insert k v m)
  unfolding insert
  insert-IsSorted k v [] s = (tt, tt)
  insert-IsSorted k v ((j, w) ∷ m) s =
      ground
        (arith, insert-IsSorted k v m, IsAbove-trans k j m, IsAbove-insert j k v m, o.cmp_flip k j)

  IsAbove-remove : (i k : K) (m : List (K × V)) → IsAbove i m → IsAbove i (remove k m)
  unfolding remove
  IsAbove-remove i k [] a = tt
  IsAbove-remove i k ((j, w) ∷ m) a = ground (arith, IsAbove-remove i k m)

  pub remove-IsSorted : (k : K) (m : List (K × V)) → IsSorted m → IsSorted (remove k m)
  unfolding remove
  remove-IsSorted k [] s = tt
  remove-IsSorted k ((j, w) ∷ m) s = ground (arith, remove-IsSorted k m, IsAbove-remove j k m)

  lookup_above : (k : K) (m : List (K × V)) → IsAbove k m → lookup k m ≡ none
  unfolding lookup
  lookup_above k [] a = refl
  lookup_above k ((j, w) ∷ m) a = ground (arith, a.0)

  pub lookup-nil : (k : K) → lookup {V = V} k [] ≡ none
  unfolding lookup
  lookup-nil k = refl

  pub lookup-insert :
      (k j : K) (v : V) (m : List (K × V))
      → lookup j (insert k v m) ≡ when_eq (o.cmp k j) (some v) (lookup j m)
  unfolding lookup insert
  lookup-insert k j v [] = ground (arith, o.cmp_flip k j)
  lookup-insert k j v ((i, w) ∷ m) = ground (
    arith,
    lookup-insert k j v m,
    o.cmp_flip k j,
    o.cmp_flip k i,
    o.cmp_flip j i,
    o.eq_of_cmp k i,
    o.eq_of_cmp j i,
    o.eq_of_cmp k j,
    o.lt_trans j k i,
    o.lt_trans j i k,
  )

  pub lookup-remove :
      (k j : K) (m : List (K × V))
      → IsSorted m
      → lookup j (remove k m) ≡ when_eq (o.cmp k j) none (lookup j m)
  unfolding lookup remove
  lookup-remove k j [] s = ground arith
  lookup-remove k j ((i, w) ∷ m) s = ground (
    arith,
    lookup-remove k j m,
    lookup_above j m,
    IsAbove-trans j i m,
    o.cmp_flip k j,
    o.cmp_flip k i,
    o.cmp_flip j i,
    o.cmp_refl k,
    o.eq_of_cmp k i,
    o.eq_of_cmp j i,
    o.eq_of_cmp k j,
    o.lt_trans j k i,
  )
