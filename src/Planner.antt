-- ===== src/Planner.antt =====
-- rust/smongo-engine/src/planner/mod.rs: the plans and what a query asks of an index.
pub mod Candidates
pub mod Plan
pub mod Choice
pub mod Directions
pub mod Nesting
pub mod Bounds
pub mod Conditions
pub mod Partial
mod Tests
use mdb_embedded.Prelude.{
  ℕ, suc, zero, ◌+◌, ◌%◌, ◌^◌, ◌==◌, ltb, ℤ, pos, negsuc, String, str_eq, Bool, true, false, not,
  ◌&&◌, ◌||◌, Option, none, some, List, [], ◌∷◌, length, has_prefix, is_eq, if◌then◌else◌,
}
use mdb_embedded.Bson.{
  Bson, double, string, boolean, document, int32, int64, Document, end, field, Externals, f64_le,
}
use mdb_embedded.Index.{
  IndexSpec, IndexOptions, IndexDirection, ascending, descending, from_bson, key_count,
}

-- The plans and, for the branches of `$or`, the lists of plans; a double is its bit pattern.
mutual
  pub data ExecutionPlan : Type 0 where
    collection_scan : ExecutionPlan
    index_scan : String → Document → ExecutionPlan
    index_seek : String → Document → Document → ExecutionPlan
    covering_index_scan : String → Document → Option Document → Document → ExecutionPlan
    sorted_index_scan : String → Document → ℕ → Bool → ExecutionPlan
    vector_index_search :
        String → String → ℕ → String → Option ℕ → Option ℕ → String → ExecutionPlan
    bitmap_scan : String → String → ExecutionPlan
    text_index_scan : String → List String → ExecutionPlan
    prefix_index_scan : String → Document → ℕ → ExecutionPlan
    geo_near : String → String → ℕ → ℕ → Option ℕ → Option ℕ → ExecutionPlan
    geo_cap_within : String → String → ℕ → ℕ → ℕ → ExecutionPlan
    geo_cell_cover : String → String → List ℕ → ExecutionPlan
    or_union_plans : Subplans → ExecutionPlan

  pub data Subplans : Type 0 where
    no_plan : Subplans
    and_plan : ExecutionPlan → Subplans → Subplans

pub record QueryPlan : Type 0 where
  pub execution_plan : ExecutionPlan
  pub estimated_cost : ℕ
  pub reason : String

-- `u64::MAX`
abbrev pub max_cost : ℕ
max_cost = 18446744073709551615

abbrev pub scan_plan : String → QueryPlan
scan_plan reason = record {
  execution_plan = collection_scan;
  estimated_cost = max_cost;
  reason = reason;
}

module _ (ext : Externals) where
  abbrev pub bson_to_f64 : Bson → Option ℕ
  bson_to_f64 (int32 n) = some (ext.of_int n)
  bson_to_f64 (int64 n) = some (ext.of_int n)
  bson_to_f64 (double d) = some d
  bson_to_f64 _ = none

  abbrev pub bound_holds : String → Option ℕ → Option ℕ → Bool
  bound_holds op (some pf) (some qv) =
      if str_eq op "$gt" || str_eq op "$gte"
      then f64_le ext pf qv
      else if str_eq op "$lt" || str_eq op "$lte"
      then f64_le ext qv pf
      else false
  bound_holds op _ _ = false

  unfoldable pub is_tighter_bound : String → Bson → Bson → Bool
  is_tighter_bound op partial_val query_val =
      bound_holds op (bson_to_f64 partial_val) (bson_to_f64 query_val)

  -- The loop over the operators of a field of the filter.
  unfoldable pub operators_satisfied : Document → Document → Bool
  unfolding is_tighter_bound
  operators_satisfied q_doc end = true
  operators_satisfied q_doc (field op pf_v rest) = elim (ext.get q_doc op) [
    | none ↦ false
    | some q_v ↦
        (ext.beq q_v pf_v || is_tighter_bound op pf_v q_v) && operators_satisfied q_doc rest
  ]

  unfoldable pub field_satisfied : Bson → Bson → Bool
  unfolding operators_satisfied
  field_satisfied (document pf_doc) (document q_doc) = operators_satisfied q_doc pf_doc
  field_satisfied pf_val q_val = ext.beq q_val pf_val

  unfoldable pub query_satisfies_partial_filter : Document → Document → Bool
  unfolding field_satisfied
  query_satisfies_partial_filter query end = true
  query_satisfies_partial_filter query (field name pf_val rest) = elim (ext.get query name) [
    | none ↦ false
    | some q_val ↦ field_satisfied pf_val q_val && query_satisfies_partial_filter query rest
  ]

  unfoldable pub index_eligible_for_query : IndexSpec → Document → Bool
  unfolding query_satisfies_partial_filter
  index_eligible_for_query index query = elim index.options.partial_filter_expression [
    | none ↦ true
    | some end ↦ true
    | some (field k v d) ↦ query_satisfies_partial_filter query (field k v d)
  ]

  -- `*d != 0.0`
  unfoldable pub is_truthy_value : Bson → Bool
  is_truthy_value (int32 n) = elim n [ pos zero ↦ false | _ ↦ true ]
  is_truthy_value (int64 n) = elim n [ pos zero ↦ false | _ ↦ true ]
  is_truthy_value (double d) = elim (ext.partial_cmp d (ext.of_int (pos 0))) [
    | none ↦ true
    | some o ↦ not (is_eq o)
  ]
  is_truthy_value (boolean b) = b
  is_truthy_value _ = true

  unfoldable pub is_equality_query : Bson → Bool
  is_equality_query (document doc) = key_count doc == 1 && ext.contains_key doc "$eq"
  is_equality_query _ = true

  abbrev is_range_operator : String → Bool
  is_range_operator k = str_eq k "$gt" || str_eq k "$gte" || str_eq k "$lt" || str_eq k "$lte"

  unfoldable pub has_range_operator : Document → Bool
  has_range_operator end = false
  has_range_operator (field k v d) = is_range_operator k || has_range_operator d

  unfoldable pub is_range_query : Bson → Bool
  unfolding has_range_operator
  is_range_query (document doc) = has_range_operator doc
  is_range_query _ = false

  abbrev has_key : String → Document → Bool
  has_key k end = false
  has_key k (field j v d) = str_eq j k || has_key k d

  unfoldable pub has_inclusion : Document → Bool
  unfolding is_truthy_value
  has_inclusion end = false
  has_inclusion (field k v d) = not (str_eq k "_id") && is_truthy_value v || has_inclusion d

  unfoldable pub all_included : Document → Document → Bool
  unfolding is_truthy_value
  all_included index_keys end = true
  all_included index_keys (field k v d) =
      (not (is_truthy_value v) || has_key k index_keys || str_eq k "_id")
      && all_included index_keys d

  unfoldable pub is_covering_index : Document → Document → Bool
  unfolding has_inclusion all_included
  is_covering_index index_keys projection =
      if not (has_inclusion projection) then false else all_included index_keys projection

-- The fields with a direction; those without are passed over.
unfoldable pub directions : Document → List (record { 0 : String; 1 : IndexDirection })
directions end = []
directions (field k v d) =
    let rest = directions d in
    elim (from_bson v) [ none ↦ rest | some direction ↦ (k, direction) ∷ rest ]

abbrev pub same_direction : IndexDirection → IndexDirection → Bool
same_direction ascending ascending = true
same_direction descending descending = true
same_direction _ _ = false

-- The loop over the fields of the sort, with `all_same` and `all_inverted` so far.
unfoldable pub compare_directions :
    Bool
    → Bool
    → List (record { 0 : String; 1 : IndexDirection })
    → List (record { 0 : String; 1 : IndexDirection })
    → Option Bool
compare_directions all_same all_inverted [] index_fields =
    if all_same then some false else if all_inverted then some true else none
compare_directions all_same all_inverted (s ∷ sort_fields) [] = none
compare_directions all_same all_inverted ((sf, sd) ∷ sort_fields) ((ik, id) ∷ index_fields) =
    let rest =
      compare_directions (all_same && same_direction sd id)
        (all_inverted && not (same_direction sd id)) sort_fields index_fields in
    if not (str_eq sf ik) then none else rest

unfoldable pub sort_matches_index : Document → Document → Option Bool
unfolding directions compare_directions
sort_matches_index sort index_keys = elim (directions sort) [
  | [] ↦ none
  | s ∷ sort_fields ↦
      if ltb (length (directions index_keys)) (length (s ∷ sort_fields))
      then none
      else compare_directions true true (s ∷ sort_fields) (directions index_keys)
]

abbrev operator_weight : String → ℕ
operator_weight op =
    if str_eq op "$eq"
    then 10
    else if str_eq op "$ne"
    then 90
    else if str_eq op "$gt" || str_eq op "$gte" || str_eq op "$lt" || str_eq op "$lte"
    then 30
    else if str_eq op "$in"
    then 20
    else if str_eq op "$nin"
    then 80
    else if str_eq op "$exists"
    then 70
    else 50

unfoldable pub operators_weight : ℕ → Document → ℕ
operators_weight selectivity end = selectivity
operators_weight selectivity (field op v d) =
    operators_weight ((selectivity + operator_weight op) % 2 ^ 32) d

abbrev value_weight : ℕ → Bson → ℕ
value_weight selectivity (document doc) = operators_weight selectivity doc
value_weight selectivity _ = (selectivity + 10) % 2 ^ 32

-- The sum in `u32`, which a release build wraps.
unfoldable pub selectivity_from : ℕ → Document → ℕ
unfolding operators_weight
selectivity_from selectivity end = selectivity
selectivity_from selectivity (field name value d) =
    if has_prefix name "$"
    then selectivity_from ((selectivity + 50) % 2 ^ 32) d
    else selectivity_from (value_weight selectivity value) d

unfoldable pub calculate_selectivity : Document → ℕ
unfolding selectivity_from
calculate_selectivity end = 4294967295
calculate_selectivity (field k v d) = selectivity_from 0 (field k v d)
