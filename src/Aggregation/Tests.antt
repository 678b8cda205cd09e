-- ===== src/Aggregation/Tests.antt =====
-- The accumulators at concrete documents, and the theorems at inputs that meet their hypotheses.
use text.Mathlib.TextPositions.{eq_refl}
use mathlib.Core.List.{Perm}
use mdb_embedded.Prelude.{
  split_dots, ℕ, zero, suc, ◌^◌, min, pos, compare_ℤ, ◌≡◌, refl, String, none, List, [], ◌∷◌, ◌++◌,
  Ordering, length, take, drop, arith,
}
use mdb_embedded.Bson.{
  Bson, string, document, int32, int64, Document, end, field, message, Result, ok, err, ◌>>=◌,
}
use mdb_embedded.Sample.{sample, sample-IsMap, sample-IsFloatOrder, find, put, to_int}
use mdb_embedded.Query.Logic.{append}
use mdb_embedded.Std.Sort.{sort_by}
use mdb_embedded.Std.Membership.{IsAscending, NotBelow, sort_by-IsAscending}
use mdb_embedded.Std.Sorting.{IsSplit, IsSelection, sort_by-perm}
use mdb_embedded.Aggregation.{compare_bson, compare_present, compare_plain, as_f64, type_order}
use mdb_embedded.Aggregation.Accumulators.{
  or_null, accum_min, accum_max, keep, keep_each, extract_n,
}
use mdb_embedded.Aggregation.Stages.{
  DocStream, of_docs, collect, stage_limit, stage_skip, stage_limit_stream, stage_skip_stream,
}
use mdb_embedded.Aggregation.Stages.Match.{optimize_pipeline, leading_match}
use mdb_embedded.Aggregation.Stages.Unwind.{stage_unwind, stage_unwind_stream}
use mdb_embedded.Aggregation.Stages.Rewrite.{
  stage_unset, stage_unset_stream, stage_add_fields, stage_add_fields_stream, stage_replace_root,
  stage_replace_root_stream,
}
use mdb_embedded.Aggregation.Stages.Redact.{stage_redact, stage_redact_stream}
use mdb_embedded.Aggregation.Stages.Sort.{compare_docs, stage_sort_limit_stream}
use mdb_embedded.Aggregation.Pipeline.{run_pipeline_stages, misplaced}
use mdb_embedded.Aggregation.Merging.{IsIndexMap, filtered, optimize_pipeline-same}
use mdb_embedded.Aggregation.Streams.{streams_collect}
use mdb_embedded.Aggregation.Sorting.{stage_sort_limit_stream-IsSplit}
use mdb_embedded.Aggregation.Totals.{Formats}
use mdb_embedded.Std.BTreeMap
use mdb_embedded.Aggregation.Groups.{Groups, by_count, group_docs, stage_group}
use mdb_embedded.Aggregation.Counting.{stage_group-counts_of}
use mdb_embedded.Aggregation.Partition.{Grouping, stage_group-Grouping}

program : Unit {0}
unfolding extract_n accum_min accum_max keep_each keep compare_bson compare_present compare_plain
    as_f64 type_order leading_match
program = tt

-- The expression evaluator at a field's name, for the tests.
abbrev evaluate : Document → Bson → Result Bson
evaluate d (string s) = ok (or_null (find d s))
evaluate d v = ok v

abbrev docs : List Document
docs =
    field "x" (int32 (pos 3)) end
    ∷ field "x" (int32 (pos 1)) end
    ∷ field "x" (int32 (pos 2)) end
    ∷ []

abbrev values : List Bson
values = int32 (pos 3) ∷ int32 (pos 1) ∷ int32 (pos 2) ∷ []

min_max_runs :
    (accum_min sample evaluate (2 ^ 56) docs (string "x") ≡ ok (int32 (pos 1)))
    × (accum_max sample evaluate (2 ^ 56) docs (string "x") ≡ ok (int32 (pos 3)))
unfolding program
min_max_runs = (refl, refl)

abbrev spec : Document
spec = field "n" (int32 (pos 2)) end

-- The sample's documents keep the order of their keys.
put-new :
    (d : Document) (k : String) (v : Bson) → find d k ≡ none → put d k v ≡ append d (field k v end)
put-new end k v h = refl
put-new (field j w d) k v h = ground (arith, h, put-new d k v)

sample-IsIndexMap : IsIndexMap sample
sample-IsIndexMap = record { insert-new = put-new; get-first = λ k v d. rw (eq_refl k) }

-- A sort is a selection at every index.
NotBelow-drop :
    {A : Type 0} (cmp : A → A → Ordering) (x : A) (n : ℕ) (xs : List A)
    → NotBelow cmp x xs
    → NotBelow cmp x (drop n xs)
NotBelow-drop cmp x zero xs h = h
NotBelow-drop cmp x (suc n) [] h = tt
NotBelow-drop cmp x (suc n) (y ∷ ys) h = NotBelow-drop cmp x n ys h.1

IsAscending-IsSplit :
    {A : Type 0} (cmp : A → A → Ordering) (n : ℕ) (xs : List A)
    → IsAscending cmp xs
    → IsSplit cmp (take n xs) (drop n xs)
IsAscending-IsSplit cmp zero xs h = tt
IsAscending-IsSplit cmp (suc n) [] h = tt
IsAscending-IsSplit cmp (suc n) (x ∷ xs) h =
    (NotBelow-drop cmp x n xs h.0, IsAscending-IsSplit cmp n xs h.1)

abbrev select_by_sort : ℕ → (ℕ → ℕ → Ordering) → List ℕ → List ℕ
select_by_sort n cmp xs = sort_by cmp xs

select_by_sort-IsSelection : IsSelection select_by_sort
select_by_sort-IsSelection = record {
  perm = λ n cmp xs h. sort_by-perm cmp xs;
  split = λ n cmp xs p h.
      IsAscending-IsSplit cmp (suc n) (sort_by cmp xs) (sort_by-IsAscending cmp p xs);
}

abbrev by_x : Document
by_x = field "x" (int32 (pos 1)) end

abbrev size : Document → ℕ
size d = 16

stage_sort_limit_stream-IsSplit_example :
    (out : List Document) × (rest : List Document) × (stage_sort_limit_stream sample size
        select_by_sort
        (of_docs docs)
        (document by_x)
        (int64 (pos 2))
        none
      ≡ ok (of_docs out))
    × (length out ≡ min 2 (length docs))
    × IsAscending (compare_docs sample by_x) out
    × IsSplit (compare_docs sample by_x) out rest
    × Perm (out ++ rest) docs
unfolding mdb_embedded.Paths.get_value mdb_embedded.Paths.get_from split_dots
stage_sort_limit_stream-IsSplit_example =
    stage_sort_limit_stream-IsSplit sample sample-IsMap sample-IsFloatOrder size select_by_sort
      select_by_sort-IsSelection docs by_x 1 ((tt, tt), ((tt, tt), ((tt, tt), tt))) (omega arith)

abbrev other : String → Bson → DocStream → Result DocStream
other name value s = err (message name)

abbrev pipeline : List Document
pipeline =
    field "$match" (document (field "x" (int32 (pos 3)) end)) end
    ∷ field "$match" (document (field "y" (int32 (pos 1)) end)) end
    ∷ field "$limit" (int32 (pos 1)) end
    ∷ []

optimize_pipeline-same_example :
    run_pipeline_stages sample evaluate size select_by_sort other
      (filtered sample (optimize_pipeline sample pipeline).0 (of_docs docs))
      (optimize_pipeline sample pipeline).1
      none
    ≡ run_pipeline_stages sample evaluate size select_by_sort other (of_docs docs) pipeline none
unfolding program misplaced
optimize_pipeline-same_example =
    optimize_pipeline-same sample sample-IsMap sample-IsIndexMap evaluate size select_by_sort other
      (of_docs docs) pipeline none refl ((refl, tt), ((refl, tt), tt))

streams_collect_example :
    ((stage_limit_stream (of_docs docs) (string "$x") >>= collect) ≡ stage_limit docs (string "$x"))
    × ((stage_skip_stream (of_docs docs) (string "$x") >>= collect) ≡ stage_skip docs (string "$x"))
    × ((stage_unwind_stream sample (of_docs docs) (string "$x") >>= collect)
        ≡ stage_unwind sample docs (string "$x"))
    × ((stage_add_fields_stream sample evaluate (of_docs docs) (string "$x") >>= collect)
        ≡ stage_add_fields sample evaluate docs (string "$x"))
    × ((stage_unset_stream sample (of_docs docs) (string "$x") >>= collect)
        ≡ stage_unset sample docs (string "$x"))
    × ((stage_replace_root_stream sample evaluate (of_docs docs) (string "$x") >>= collect)
        ≡ stage_replace_root sample evaluate docs (string "$x"))
    × (collect (stage_redact_stream sample evaluate (of_docs docs) (string "$x"))
        ≡ stage_redact sample evaluate docs (string "$x"))
streams_collect_example = streams_collect sample sample-IsMap evaluate docs (string "$x")

abbrev formats : Formats
formats = record {
  show_f64 = λ d. elim (to_int d) [ pos (suc zero) ↦ "1" | _ ↦ "2" ];
  show_oid = λ bytes. "";
  debug = λ v. "";
  div_f64 = λ a b. a;
  sub_f64 = λ a b. a;
  square = λ a. a;
  sqrt = λ a. a;
  sum_f64 = λ values. 0;
}

abbrev swapped : Groups → Groups
swapped (a ∷ b ∷ groups) = b ∷ a ∷ groups
swapped groups = groups

abbrev repeated : List Document
repeated =
    field "x" (int32 (pos 2)) end
    ∷ field "x" (int32 (pos 1)) end
    ∷ field "x" (int64 (pos 2)) end
    ∷ []

abbrev grouped_by_x : Document
grouped_by_x =
    field "_id" (string "x") (field "n" (document (field "$sum" (int32 (pos 1)) end)) end)

abbrev of_group : ℕ → ℕ → Document
of_group x n = field "_id" (int32 (pos x)) (field "n" (int64 (pos n)) end)

stage_group-Grouping_example :
    Grouping sample formats evaluate
      (2 ^ 56)
      swapped
      repeated
      (string "x")
      grouped_by_x
      (of_group 2 2 ∷ of_group 1 1 ∷ [])
unfolding stage_group BTreeMap.insert BTreeMap.lookup mdb_embedded.Prelude.◌+ℤ◌
stage_group-Grouping_example =
    stage_group-Grouping sample formats evaluate (2 ^ 56) swapped repeated grouped_by_x (string "x")
      (of_group 2 2 ∷ of_group 1 1 ∷ []) refl refl

abbrev gathered : Groups
gathered =
    ("n:1", (int32 (pos 1), field "x" (int32 (pos 1)) end ∷ []))
    ∷ ("n:2", (int32 (pos 2), field "x" (int32 (pos 2)) end ∷ field "x" (int64 (pos 2)) end ∷ []))
    ∷ []

abbrev counted : ℕ → ℕ → Document
counted x n = field "_id" (int32 (pos x)) (field "count" (int64 (pos n)) end)

stage_group-counts_of_example :
    stage_group sample formats evaluate (2 ^ 56) swapped repeated (document (by_count (string "x")))
    ≡ ok (counted 2 2 ∷ counted 1 1 ∷ [])
unfolding group_docs BTreeMap.insert BTreeMap.lookup
stage_group-counts_of_example =
    stage_group-counts_of sample formats evaluate (2 ^ 56) (λ doc. refl) swapped repeated
      (string "x") gathered refl refl (omega arith, (omega arith, tt))
