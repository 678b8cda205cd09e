-- ===== src/Planner/Candidates.antt =====
-- rust/smongo-engine/src/planner/mod.rs: the plan that one index offers.
-- `geo_plan` stands for `evaluate_2dsphere_plan`, which rests on the geometry crates.
use Prim.Native.String.{◌++◌}
use mdb_embedded.Prelude.{
  ℕ, ltb, String, Bool, false, not, Option, none, some, List, [], ◌∷◌, if◌then◌else◌,
}
use mdb_embedded.Bson.{Bson, Document, end, Externals}
use mdb_embedded.Index.{
  IndexSpec, IndexType, text, vector_search, bitmap, prefix, VectorIndexOptions, resolve_index_type,
  is_2dsphere_keys, text_fields, vector_field, first_key,
}
use mdb_embedded.Planner.{
  ExecutionPlan, index_scan, index_seek, covering_index_scan, vector_index_search, bitmap_scan,
  text_index_scan, prefix_index_scan, QueryPlan, index_eligible_for_query, is_equality_query,
  is_range_query, is_covering_index,
}

abbrev pub plan_of : ExecutionPlan → ℕ → String → QueryPlan
plan_of execution_plan cost reason = record {
  execution_plan = execution_plan;
  estimated_cost = cost;
  reason = reason;
}

module _ (ext : Externals) where
  abbrev is_covered : IndexSpec → Option Document → Bool
  is_covered index_spec none = false
  is_covered index_spec (some proj) = is_covering_index ext index_spec.keys proj

  abbrev or_end : Option Document → Document
  or_end none = end
  or_end (some proj) = proj

  -- The plan over a covering index, for a value of its first field.
  unfoldable pub covering_plan : IndexSpec → String → Bson → Document → Option QueryPlan
  covering_plan index_spec first query_value proj =
      if is_equality_query ext query_value
      then some (
          plan_of
            (covering_index_scan index_spec.name index_spec.keys
              (some (ext.insert end first query_value)) proj)
            5 ("Covering index on '" ++ (first ++ "' (no document fetch needed)")))
      else if is_range_query ext query_value
      then some (
          plan_of (covering_index_scan index_spec.name index_spec.keys none proj) 50
            ("Covering index range scan on '" ++ (first ++ "' (no document fetch needed)")))
      else none

  unfoldable pub regular_plan : IndexSpec → String → Bson → Option QueryPlan
  regular_plan index_spec first query_value =
      if is_equality_query ext query_value
      then some (
          plan_of (index_seek index_spec.name index_spec.keys (ext.insert end first query_value)) 10
            ("Equality query on indexed field '" ++ (first ++ "'")))
      else if is_range_query ext query_value
      then some (
          plan_of (index_scan index_spec.name index_spec.keys) 100
            ("Range query on indexed field '" ++ (first ++ "'")))
      else none

  abbrev or_plan : Option QueryPlan → Option QueryPlan → Option QueryPlan
  or_plan none later = later
  or_plan (some plan) later = some plan

  unfoldable pub evaluate_first :
      Document → IndexSpec → Option Document → Option String → Option QueryPlan
  unfolding covering_plan regular_plan
  evaluate_first query index_spec projection none = none
  evaluate_first query index_spec projection (some first) =
      if not (ext.contains_key query first) then none else elim (ext.get query first) [
        | none ↦ none
        | some query_value ↦
            or_plan
              (if is_covered index_spec projection
                then covering_plan index_spec first query_value (or_end projection)
                else none)
              (regular_plan index_spec first query_value)
      ]

  unfoldable pub evaluate_index_for_query_with_projection :
      Document → IndexSpec → Option Document → Option QueryPlan
  unfolding evaluate_first
  evaluate_index_for_query_with_projection query index_spec projection =
      evaluate_first query index_spec projection (first_key index_spec.keys)

  abbrev bitmap_plan : Document → IndexSpec → Option String → Option QueryPlan
  bitmap_plan query spec none = none
  bitmap_plan query spec (some name) =
      if ext.contains_key query name
      then some (
          plan_of (bitmap_scan spec.name name) 15
            ("Bitmap index '" ++ (spec.name ++ ("' on field '" ++ (name ++ "'")))))
      else none

  -- The length in a reason is printed by Rust; `show` stands for that.
  abbrev prefix_plan : (ℕ → String) → Document → IndexSpec → ℕ → Option String → Option QueryPlan
  prefix_plan show query spec prefix_length none = none
  prefix_plan show query spec prefix_length (some name) =
      if ext.contains_key query name
      then some (
          plan_of (prefix_index_scan spec.name spec.keys prefix_length) 80 (
            "Prefix index '"
            ++ (spec.name ++ ("' (prefix_length=" ++ (show prefix_length ++ ")")))))
      else none

  abbrev text_plan : Document → IndexSpec → List String → Option QueryPlan
  text_plan query spec [] = none
  text_plan query spec (f ∷ fields) =
      if ext.contains_key query "$text"
      then some (
          plan_of (text_index_scan spec.name (f ∷ fields)) 50
            ("Text index '" ++ (spec.name ++ "'")))
      else none

  abbrev search_plan : IndexSpec → String → Option VectorIndexOptions → Option QueryPlan
  search_plan spec name none = none
  search_plan spec name (some vopts) =
      if ltb 0 vopts.dimensions
      then some (
          plan_of
            (vector_index_search spec.name name vopts.dimensions vopts.metric vopts.ef_construction
              vopts.m vopts.indexing_method)
            30 ("Vector index '" ++ (spec.name ++ ("' on field '" ++ (name ++ "'")))))
      else none

  abbrev vector_plan : Document → IndexSpec → Option String → Option QueryPlan
  vector_plan query spec none = none
  vector_plan query spec (some name) =
      if ext.contains_key query name
      then search_plan spec name spec.options.vector_options
      else none

module _ (ext : Externals) (geo_plan : Document → IndexSpec → Option QueryPlan)
    (show : ℕ → String) where
  abbrev plan_of_type : Document → IndexSpec → Option Document → IndexType → Option QueryPlan
  plan_of_type query spec projection bitmap = bitmap_plan ext query spec (first_key spec.keys)
  plan_of_type query spec projection prefix =
      prefix_plan ext show query spec
        (elim spec.options.prefix_options [ none ↦ 16 | some p ↦ p.prefix_length ])
        (first_key spec.keys)
  plan_of_type query spec projection text = text_plan ext query spec (text_fields spec.keys)
  plan_of_type query spec projection vector_search =
      vector_plan ext query spec (vector_field spec.keys)
  plan_of_type query spec projection other =
      evaluate_index_for_query_with_projection ext query spec projection

  -- The plan that one index offers: the body of the loop.
  unfoldable pub candidate : Document → Option Document → IndexSpec → Option QueryPlan
  unfolding index_eligible_for_query evaluate_index_for_query_with_projection
  candidate query projection spec =
      if not (index_eligible_for_query ext spec query)
      then none
      else if is_2dsphere_keys spec.keys
      then geo_plan query spec
      else plan_of_type query spec projection (resolve_index_type spec.keys spec.options)
