-- ===== src/Aggregation/Accumulators.antt =====
-- rust/smongo-engine/src/aggregation/accumulators.rs: the accumulators that choose and collect values.
-- `evaluate` is the expression evaluator, and `capacity` the most elements that a `Vec<Bson>` can be
-- made for: `isize::MAX` over the size of a value.
use mdb_embedded.Prelude.{
  ℕ, ◌-◌, Bool, Option, none, some, List, [], ◌∷◌, length, take, drop, is_lt, is_gt, leb, as_usize,
  Ordering, if◌then◌else◌,
}
use mdb_embedded.Bson.{
  Bson, null, array, int32, int64, Document, of_list, message, Result, ok, err, panic, ◌>>=◌,
  Externals,
}
use mdb_embedded.Aggregation.{compare_bson}

abbrev pub or_null : Option Bson → Bson
or_null none = null
or_null (some v) = v

abbrev pub last : List Document → Option Document
last [] = none
last (d ∷ []) = some d
last (d ∷ e ∷ docs) = last (e ∷ docs)

module _ (ext : Externals) (evaluate : Document → Bson → Result Bson) (capacity : ℕ) where
  -- The value that is kept of the one so far and the next; a null is passed over.
  unfoldable pub keep : (Ordering → Bool) → Option Bson → Bson → Option Bson
  keep wanted current null = current
  keep wanted none val = some val
  keep wanted (some current) val =
      if wanted (compare_bson ext (some val) (some current)) then some val else some current

  unfoldable pub keep_each :
      (Ordering → Bool) → Option Bson → List Document → Bson → Result (Option Bson)
  unfolding keep
  keep_each wanted current [] expr = ok current
  keep_each wanted current (doc ∷ docs) expr = do
    val ← evaluate doc expr
    keep_each wanted (keep wanted current val) docs expr

  unfoldable pub accum_min : List Document → Bson → Result Bson
  accum_min docs expr = do v ← keep_each is_lt none docs expr; ok (or_null v)

  unfoldable pub accum_max : List Document → Bson → Result Bson
  accum_max docs expr = do v ← keep_each is_gt none docs expr; ok (or_null v)

  unfoldable pub accum_first : List Document → Bson → Result Bson
  accum_first [] expr = ok null
  accum_first (doc ∷ docs) expr = evaluate doc expr

  unfoldable pub accum_last : List Document → Bson → Result Bson
  accum_last docs expr = elim (last docs) [ none ↦ ok null | some doc ↦ evaluate doc expr ]

  unfoldable pub evaluate_each : List Document → Bson → Result (List Bson)
  evaluate_each [] expr = ok []
  evaluate_each (doc ∷ docs) expr = do
    val ← evaluate doc expr
    vals ← evaluate_each docs expr
    ok (val ∷ vals)

  unfoldable pub accum_push : List Document → Bson → Result Bson
  accum_push docs expr = do vals ← evaluate_each docs expr; ok (array (of_list vals))

  unfoldable pub extract_n : Document → Result ℕ
  extract_n spec = elim (ext.get spec "n") [
    | some (int32 n) ↦ ok (as_usize n)
    | some (int64 n) ↦ ok (as_usize n)
    | _ ↦ err (message "n required")
  ]

  -- `Vec::with_capacity(n)` panics where the elements do not fit the address space.
  abbrev pub with_capacity : {A : Type 0} → ℕ → Result A → Result A
  with_capacity n result = if leb n capacity then result else panic

  abbrev collect : ℕ → List Document → Bson → Result Bson
  collect n docs expr = with_capacity n (accum_push docs expr)

  unfoldable pub accum_first_n : List Document → Bson → Document → Result Bson
  unfolding accum_push
  accum_first_n docs expr spec = do n ← extract_n spec; collect n (take n docs) expr

  unfoldable pub accum_last_n : List Document → Bson → Document → Result Bson
  unfolding accum_push
  accum_last_n docs expr spec = do n ← extract_n spec; collect n (drop (length docs - n) docs) expr
