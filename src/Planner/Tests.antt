-- ===== src/Planner/Tests.antt =====
-- Plans for concrete queries, and the theorems at inputs that meet their hypotheses.
use text.Mathlib.TextEquality.{eq_iff}
use mdb_embedded.Prelude.{
  ℕ, suc, pos, negsuc, ◌≡◌, refl, String, true, false, Option, none, some, List, [], ◌∷◌, ◌++◌, map,
  ℤ, str_eq, Bool-cases, inl, inr, ap, arith, split_dots,
}
use mdb_embedded.Bson.{
  int32, array, document, nil, cons, Document, end, field, Bson, int64, string, null, ok,
}
use mdb_embedded.Sample.{sample, sample-IsMap, sample-IsFloatOrder, find, same, to_int, of_int}
use mdb_embedded.Paths.{get_value, get_from}
use mdb_embedded.Query.{eval_query}
use mdb_embedded.Query.Compare.{bson_gt, bson_cmp, cmp_typed, cmp_values, bson_type_order}
use mdb_embedded.Planner.{query_satisfies_partial_filter}
use mdb_embedded.Planner.Bounds.{IsPlain, is_document, IsEntry, IsOrdered}
use mdb_embedded.Planner.Partial.{query_satisfies_partial_filter-implies}
use mdb_embedded.Index.{
  IndexSpec, IndexOptions, IndexDirection, is_2dsphere_keys, resolve_index_type, is_text_keys,
  from_bson,
}
use mdb_embedded.Planner.{
  QueryPlan, ExecutionPlan, index_seek, or_union_plans, no_plan, and_plan, directions,
  sort_matches_index, is_equality_query, is_range_query,
}
use mdb_embedded.Planner.Plan.{plan_query, plan_query_with_projection, plan_query_full}
use mdb_embedded.Planner.Choice.{Chosen, plan_query-IsCheapest}
use mdb_embedded.Planner.Directions.{turned_field, sort_matches_index-prefix}
use mdb_embedded.Planner.Nesting.{nesting, plan_query_full-total}

program : Unit {0}
unfolding sort_matches_index plan_query is_2dsphere_keys resolve_index_type is_text_keys
    is_equality_query is_range_query from_bson eval_query query_satisfies_partial_filter get_value
    get_from split_dots bson_gt bson_cmp cmp_typed cmp_values bson_type_order
program = tt

abbrev plain_options : IndexOptions
plain_options = record {
  name = none;
  unique = false;
  sparse = false;
  background = false;
  expire_after_seconds = none;
  partial_filter_expression = none;
  collation = none;
  index_type = none;
  vector_options = none;
  text_options = none;
  prefix_options = none;
}

abbrev by_x : IndexSpec
by_x = record {
  name = "x_1_y_-1";
  keys = field "x" (int32 (pos 1)) (field "y" (int32 (negsuc 0)) end);
  options = plain_options;
}

abbrev by_z : IndexSpec
by_z = record { name = "z_1"; keys = field "z" (int32 (pos 1)) end; options = plain_options }

abbrev indexes : List IndexSpec
indexes = by_z ∷ by_x ∷ []

abbrev no_geo : Document → IndexSpec → Option QueryPlan
no_geo query spec = none

abbrev shown : ℕ → String
shown n = "16"

-- A range on `z` and a value of `x`: the seek is cheaper.
abbrev query : Document
query = field "z" (document (field "$gt" (int32 (pos 1)) end)) (field "x" (int32 (pos 3)) end)

abbrev or_query : Document
or_query =
    field "$or"
      (array (
        cons (document (field "z" (int32 (pos 1)) end))
          (cons (document (field "x" (int32 (pos 3)) end)) nil)))
      end

abbrev plan_kind : Option QueryPlan → Option ExecutionPlan
plan_kind none = none
plan_kind (some plan) = some plan.execution_plan

plan_runs :
    (plan_kind (plan_query sample no_geo shown 1 query indexes)
      ≡ some (index_seek "x_1_y_-1" by_x.keys (field "x" (int32 (pos 3)) end)))
    × (plan_kind (plan_query sample no_geo shown 2 or_query indexes)
        ≡ some (
            or_union_plans (
              and_plan (index_seek "z_1" by_z.keys (field "z" (int32 (pos 1)) end)) (
                and_plan
                  (index_seek "x_1_y_-1" by_x.keys (field "x" (int32 (pos 3)) end))
                  no_plan))))
unfolding program
plan_runs = (refl, refl)

plan_query-IsCheapest_example :
    (plan : QueryPlan) × (plan_query_with_projection sample no_geo shown 1 query indexes none
      ≡ some plan)
    × Chosen sample no_geo shown query none plan indexes
plan_query-IsCheapest_example =
    plan_query-IsCheapest sample no_geo shown 0 "z" (document (field "$gt" (int32 (pos 1)) end))
      (field "x" (int32 (pos 3)) end) none indexes refl

abbrev backwards : Document
backwards = field "x" (int32 (negsuc 0)) end

sort_matches_index-prefix_example :
    (rest : List (record { 0 : String; 1 : IndexDirection })) × (directions by_x.keys
      ≡ map (turned_field true) (directions backwards) ++ rest)
unfolding program
sort_matches_index-prefix_example = sort_matches_index-prefix backwards by_x.keys true refl

plan_query_full-total_example :
    (p : QueryPlan) × (plan_query_full sample no_geo shown
        (suc (nesting sample or_query))
        or_query
        indexes
        none
        (some backwards)
        (some (pos 5))
      ≡ some p)
plan_query_full-total_example =
    plan_query_full-total sample sample-IsMap no_geo shown indexes or_query none (some backwards)
      (some (pos 5))

-- The sample's external functions have the order, the equality and the entries of documents.
find-IsEntry : (d : Document) (k : String) (v : Bson) → find d k ≡ some v → IsEntry k v d
find-IsEntry end k v h = absurd (ground (arith, h))
find-IsEntry (field j w d) k v h = elim (Bool-cases (str_eq j k)) [
  | inl p ↦ inl ((eq_iff j k).0 p, ground (arith, h, p))
  | inr p ↦ inr (find-IsEntry d k v (ground (arith, h, p)))
]

eq_of_same : (v w : Bson) → IsPlain sample w → same v w ≡ true → v ≡ w
eq_of_same (int32 a) (int32 b) plain h = ap int32 (ground (arith, h))
eq_of_same (int64 a) (int64 b) plain h = ap int64 (ground (arith, h))
eq_of_same (string a) (string b) plain h = ap string ((eq_iff a b).0 h)
eq_of_same null null plain h = refl
eq_of_same _ (int32 b) plain h = absurd (ground (arith, h))
eq_of_same _ _ plain h = absurd (ground (arith, h))

not_same-document : (v : Bson) (d : Document) → is_document v ≡ false → same v (document d) ≡ false
not_same-document (int32 a) d h = refl
not_same-document _ d h = refl

to_int-of_int : (a : ℤ) → to_int (of_int a) ≡ a
to_int-of_int (pos n) = ground arith
to_int-of_int (negsuc n) = ground arith

sample-IsOrdered : IsOrdered sample
sample-IsOrdered = record {
  floats = sample-IsFloatOrder;
  same_order = λ a b ha hb. rw (to_int-of_int a, to_int-of_int b) refl;
  eq_of_beq = eq_of_same;
  beq-document = not_same-document;
  get-IsEntry = find-IsEntry;
}

abbrev over : ℕ → Document
over n = field "x" (document (field "$gt" (int32 (pos n)) end)) end

query_satisfies_partial_filter-implies_example :
    eval_query sample (field "x" (int32 (pos 12)) end) (over 5) ≡ ok true
unfolding program IsPlain
query_satisfies_partial_filter-implies_example =
    query_satisfies_partial_filter-implies sample sample-IsOrdered (field "x" (int32 (pos 12)) end)
      (over 10) (over 5) ((refl, refl, refl, refl, (omega arith, tt)), tt)
      ((refl, refl, refl, refl, (omega arith, tt)), tt) ((tt, tt), tt) (refl, omega arith, tt) refl
      refl
