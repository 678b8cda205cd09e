-- ===== src/Aggregation/Counting.antt =====
-- rust/smongo-engine/src/aggregation/stages.rs and accumulators.rs: `$group` as `$sortByCount` calls
-- it, which counts the documents of each group.
use mdb_embedded.Prelude.{
  ℕ, zero, suc, ◌+◌, ◌<◌, ◌^◌, ◌+ℤ◌, ◌≡◌, refl, ap, pos, false, some, List, [], ◌∷◌, length, arith,
  ◌∙◌,
}
use mdb_embedded.Bson.{Bson, document, int32, int64, Document, end, Result, ok, Externals}
use mdb_embedded.Aggregation.Totals.{
  Formats, Sums, add_i64, accum_sum, sum_each, sum_value, evaluate_accumulator,
}
use mdb_embedded.Aggregation.Groups.{
  Groups, group_fields, group_docs, group_results, by_count, stage_group,
}

add_i64-suc : (n : ℕ) → n + 1 < 2 ^ 63 → add_i64 (pos n) (pos 1) ≡ pos (n + 1)
unfolding ◌+ℤ◌
add_i64-suc n h = ground (arith, h)

module _ (ext : Externals) (formats : Formats) (evaluate : Document → Bson → Result Bson)
    (capacity : ℕ)
    (one : (doc : Document) → evaluate doc (int32 (pos 1)) ≡ ok (int32 (pos 1))) where
  abbrev total_of : Sums → ℕ → Sums
  total_of s zero = s
  total_of s (suc n) = total_of (sum_value ext formats evaluate capacity s (int32 (pos 1))) n

  sum_each-total_of :
      (docs : List Document) (s : Sums)
      → sum_each ext formats evaluate capacity s docs (int32 (pos 1))
        ≡ ok (total_of s (length docs))
  unfolding sum_each
  sum_each-total_of [] s = refl
  sum_each-total_of (doc ∷ docs) s =
      rw (one doc)
        (sum_each-total_of docs (sum_value ext formats evaluate capacity s (int32 (pos 1))))

  total_of-int_sum :
      (k n : ℕ) (s : Sums)
      → s.int_sum ≡ pos n
      → s.has_double ≡ false
      → n + k < 2 ^ 63
      → ((total_of s k).int_sum ≡ pos (n + k)) × ((total_of s k).has_double ≡ false)
  total_of-int_sum zero n s h d l = (h ∙ ap pos (omega arith), d)
  total_of-int_sum (suc k) n s h d l =
      let rest =
        total_of-int_sum k (n + 1) (sum_value ext formats evaluate capacity s (int32 (pos 1)))
          (ap (λ m. add_i64 m (pos 1)) h ∙ add_i64-suc n (omega (arith, l))) d (omega (arith, l)) in
      (rest.0 ∙ ap pos (omega arith), rest.1)

  abbrev no_sums : Sums
  no_sums = record { int_sum = pos 0; has_double = false; dbl_sum = ext.of_int (pos 0) }

  -- The documents of a group, fewer than an `i64` can count, are counted.
  accum_sum-length :
      (docs : List Document)
      → length docs < 2 ^ 63
      → accum_sum ext formats evaluate capacity docs (int32 (pos 1))
        ≡ ok (int64 (pos (length docs)))
  unfolding accum_sum
  accum_sum-length docs l =
      let sums = total_of-int_sum (length docs) 0 no_sums refl refl (omega (arith, l)) in
      ground (arith, sum_each-total_of docs no_sums, sums.0, sums.1)

  abbrev pub AllCountable : Groups → Type 0
  AllCountable [] = Unit
  AllCountable ((key, (id, docs)) ∷ groups) = (length docs < 2 ^ 63) × AllCountable groups

  -- The document of a group: its id and the number of its documents.
  abbrev pub counts_of : Groups → List Document
  counts_of [] = []
  counts_of ((key, (id, docs)) ∷ groups) =
      ext.insert (ext.insert end "_id" id) "count" (int64 (pos (length docs))) ∷ counts_of groups

  group_fields-count :
      (docs : List Document) (expr : Bson) (d : Document)
      → length docs < 2 ^ 63
      → group_fields ext formats evaluate capacity docs (by_count expr) d
        ≡ ok (ext.insert d "count" (int64 (pos (length docs))))
  unfolding group_fields evaluate_accumulator
  group_fields-count docs expr d l = rw (accum_sum-length docs l) refl

  group_results-counts_of :
      (expr : Bson) (groups : Groups)
      → AllCountable groups
      → group_results ext formats evaluate capacity (by_count expr) groups ≡ ok (counts_of groups)
  unfolding group_results
  group_results-counts_of expr [] c = refl
  group_results-counts_of expr ((key, (id, docs)) ∷ groups) c =
      rw
        (
          group_fields-count docs expr (ext.insert end "_id" id) c.0,
          group_results-counts_of expr groups c.1,
        )
        refl

  -- Where the evaluator gives a literal 1 for itself, no group has 2^63 documents and the ids of all
  -- documents have a value, `$group` with the specification that `$sortByCount` makes gives for each
  -- group its id and the number of its documents, in the order of the `HashMap`.
  pub stage_group-counts_of :
      (order : Groups → Groups) (docs : List Document) (expr : Bson) (groups : Groups)
      → ext.get (by_count expr) "_id" ≡ some expr
      → group_docs ext formats evaluate capacity docs expr [] ≡ ok groups
      → AllCountable (order groups)
      → stage_group ext formats evaluate capacity order docs (document (by_count expr))
        ≡ ok (counts_of (order groups))
  unfolding stage_group
  stage_group-counts_of order docs expr groups e h c =
      rw (e, h) (group_results-counts_of expr (order groups) c)
