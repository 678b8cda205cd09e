-- ===== src/Std/BTreeMap.antt =====
-- `BTreeMap` of Rust's standard library: the entries in the order of their keys.
pub mod Laws
use mdb_embedded.Prelude.{Option, none, some, List, [], ◌∷◌, Ordering, ◌≡◌}
use mdb_embedded.Std.Order.{Ord}

module _ {K V : Type 0} ⦃o : Ord K⦄ where
  unfoldable pub lookup : K → List (K × V) → Option V
  lookup k [] = none
  lookup k ((j, v) ∷ m) = elim (o.cmp k j) [
    | Ordering.lt ↦ none
    | Ordering.eq ↦ some v
    | Ordering.gt ↦ lookup k m
  ]

  unfoldable pub insert : K → V → List (K × V) → List (K × V)
  insert k v [] = (k, v) ∷ []
  insert k v ((j, w) ∷ m) = elim (o.cmp k j) [
    | Ordering.lt ↦ (k, v) ∷ (j, w) ∷ m
    | Ordering.eq ↦ (j, v) ∷ m
    | Ordering.gt ↦ (j, w) ∷ insert k v m
  ]

  unfoldable pub remove : K → List (K × V) → List (K × V)
  remove k [] = []
  remove k ((j, w) ∷ m) = elim (o.cmp k j) [
    | Ordering.lt ↦ (j, w) ∷ m
    | Ordering.eq ↦ m
    | Ordering.gt ↦ (j, w) ∷ remove k m
  ]

  -- Every key of the map comes after `k`.
  abbrev pub IsAbove : K → List (K × V) → Type 0
  IsAbove k [] = Unit
  IsAbove k ((j, w) ∷ m) = (o.cmp k j ≡ Ordering.lt) × IsAbove k m

  abbrev pub IsSorted : List (K × V) → Type 0
  IsSorted [] = Unit
  IsSorted ((k, v) ∷ m) = IsAbove k m × IsSorted m
