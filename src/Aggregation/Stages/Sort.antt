-- ===== src/Aggregation/Stages/Sort.antt =====
-- rust/smongo-engine/src/aggregation/stages.rs: `$sort`, alone and fused with `$limit`.
use mdb_embedded.Prelude.{
  ℕ, zero, suc, ◌+◌, ◌-◌, ◌==◌, ltb, negsuc, as_usize, String, Bool, true, false, Option, none,
  some, List, [], ◌∷◌, length, take, get_elem?, Ordering, opposite, if◌then◌else◌,
}
use mdb_embedded.Bson.{
  Bson, int32, Document, end, field, message_text, Result, ok, err, panic, ◌>>=◌, Externals,
}
use mdb_embedded.Paths.{get_value}
use mdb_embedded.Std.Sort.{sort_by}
use mdb_embedded.Aggregation.{compare_bson}
use mdb_embedded.Aggregation.Stages.{
  DocStream, of_docs, collect, or_err, as_int, as_document, total_bytes,
}

-- `direction.as_i32().unwrap_or(1)` below 0
abbrev pub is_descending : Bson → Bool
is_descending (int32 (negsuc n)) = true
is_descending _ = false

abbrev pub turned : Bool → Ordering → Ordering
turned down o = if down then opposite o else o

module _ (ext : Externals) where
  unfoldable pub compare_docs : Document → Document → Document → Ordering
  compare_docs end a b = Ordering.eq
  compare_docs (field name direction rest) a b =
      let more = compare_docs rest a b in
      elim (turned (is_descending direction)
        (compare_bson ext (get_value ext a name) (get_value ext b name))) [
          | Ordering.eq ↦ more
          | Ordering.lt ↦ Ordering.lt
          | Ordering.gt ↦ Ordering.gt
        ]

  unfoldable pub stage_sort : List Document → Bson → Result (List Document)
  stage_sort docs sort_spec = do
    sort_doc ← or_err "$sort requires document" (as_document sort_spec)
    ok (sort_by (compare_docs sort_doc) docs)

-- `docs[i]`; the indices that the code gives are all in range.
abbrev pub doc_at : List Document → ℕ → Document
doc_at docs i = elim (get_elem? docs i) [ none ↦ end | some doc ↦ doc ]

-- The closure that compares indices.
abbrev pub at_indices : (Document → Document → Ordering) → List Document → ℕ → ℕ → Ordering
at_indices cmp docs a b = cmp (doc_at docs a) (doc_at docs b)

-- `(0..n).collect()` from a start.
unfoldable pub indices_from : ℕ → ℕ → List ℕ
indices_from i zero = []
indices_from i (suc n) = i ∷ indices_from (i + 1) n

unfoldable pub docs_at : List Document → List ℕ → Result (List Document)
docs_at docs [] = ok []
docs_at docs (i ∷ indices) = elim (get_elem? docs i) [
  | none ↦ panic
  | some doc ↦ docs_at docs indices >>= (λ rest. ok (doc ∷ rest))
]

-- `size` is the length of a document's BSON, and `select_nth` is `select_nth_unstable_by` of Rust's
-- standard library, over indices.
module _ (ext : Externals) (size : Document → ℕ)
    (select_nth : ℕ → (ℕ → ℕ → Ordering) → List ℕ → List ℕ) where
  unfoldable pub within_limit : List Document → String → Option ℕ → Result (List Document)
  within_limit docs stage_name none = ok docs
  within_limit docs stage_name (some max_bytes) =
      if ltb max_bytes (total_bytes size docs)
      then err (message_text "memory limit exceeded: " stage_name)
      else ok docs

  unfoldable pub collect_with_limit : DocStream → String → Option ℕ → Result (List Document)
  unfolding within_limit
  collect_with_limit input stage_name limit = do
    docs ← collect input
    within_limit docs stage_name limit

  unfoldable pub stage_sort_stream : DocStream → Bson → Option ℕ → Result DocStream
  stage_sort_stream input sort_spec memory_limit = do
    docs ← collect_with_limit input "$sort" memory_limit
    results ← stage_sort ext docs sort_spec
    ok (of_docs results)

  -- The indices of the `limit` documents that come first.
  unfoldable pub top_indices : (Document → Document → Ordering) → List Document → ℕ → List ℕ
  unfolding indices_from
  top_indices cmp docs limit =
      let indices = indices_from 0 (length docs) in
      if ltb limit (length indices)
      then take limit (select_nth (limit - 1) (at_indices cmp docs) indices)
      else indices

  unfoldable pub sort_limited : Document → ℕ → DocStream → Option ℕ → Result DocStream
  unfolding top_indices
  sort_limited sort_doc limit input memory_limit = if limit == 0 then ok [] else do
    docs ← collect_with_limit input "$sort" memory_limit
    results ← docs_at docs (
        sort_by (at_indices (compare_docs ext sort_doc) docs)
          (top_indices (compare_docs ext sort_doc) docs limit))
    ok (of_docs results)

  unfoldable pub stage_sort_limit_stream : DocStream → Bson → Bson → Option ℕ → Result DocStream
  unfolding sort_limited
  stage_sort_limit_stream input sort_spec limit_spec memory_limit = do
    sort_doc ← or_err "$sort requires document" (as_document sort_spec)
    limit ← or_err "$limit requires number" (as_int limit_spec)
    sort_limited sort_doc (as_usize limit) input memory_limit
