-- ===== src/Planner/Plan.antt =====
-- rust/smongo-engine/src/planner/mod.rs: the choice of a plan.
-- `geo_plan` stands for `evaluate_2dsphere_plan`, which rests on the geometry crates.
use Prim.Native.String.{◌++◌}
use mdb_embedded.Prelude.{
  ℕ, suc, zero, ◌*◌, min, ltb, ℤ, pos, String, str_eq, Bool, true, false, not, Option, none, some,
  List, [], ◌∷◌, if◌then◌else◌,
}
use mdb_embedded.Bson.{Bson, array, document, Items, nil, cons, Document, end, field, Externals}
use mdb_embedded.Index.{IndexSpec, IndexType, b_tree, resolve_index_type}
use mdb_embedded.Planner.{
  ExecutionPlan, collection_scan, sorted_index_scan, or_union_plans, Subplans, no_plan, and_plan,
  QueryPlan, max_cost, scan_plan, index_eligible_for_query, sort_matches_index,
}
use mdb_embedded.Planner.Candidates.{plan_of, candidate}

unfoldable pub pick_better : Option QueryPlan → QueryPlan → QueryPlan
pick_better none new = new
pick_better (some prev) new = if ltb new.estimated_cost prev.estimated_cost then new else prev

abbrev improve : Option QueryPlan → Option QueryPlan → Option QueryPlan
improve best_plan none = best_plan
improve best_plan (some plan) = some (pick_better best_plan plan)

abbrev cheaper : Option QueryPlan → QueryPlan → QueryPlan
cheaper none base_plan = base_plan
cheaper (some sorted_plan) base_plan =
    if ltb sorted_plan.estimated_cost base_plan.estimated_cost then sorted_plan else base_plan

module _ (ext : Externals) where
  unfoldable pub without_or : Document → Document → Document
  without_or base end = base
  without_or base (field k v query) =
      without_or (if str_eq k "$or" then base else ext.insert base k v) query

  unfoldable pub merge_branch : Document → Document → Document
  merge_branch merged end = merged
  merge_branch merged (field k v branch_doc) = merge_branch (ext.insert merged k v) branch_doc

  abbrev pub is_collection_scan : ExecutionPlan → Bool
  is_collection_scan collection_scan = true
  is_collection_scan _ = false

  -- The plans of the branches, or the reason of the collection scan instead; `none` is a lack of
  -- fuel in a branch.
  abbrev pub add_subplan :
      ExecutionPlan
      → Option (record { 0 : Option String; 1 : Subplans })
      → Option (record { 0 : Option String; 1 : Subplans })
  add_subplan sub none = none
  add_subplan sub (some (failed, subplans)) = some (failed, and_plan sub subplans)

  unfoldable pub plan_branches :
      (Document → Option QueryPlan)
      → Document
      → Items
      → Option (record { 0 : Option String; 1 : Subplans })
  unfolding merge_branch
  plan_branches plan base nil = some (none, no_plan)
  plan_branches plan base (cons (document branch_doc) rest) =
      elim (plan (merge_branch base branch_doc)) [
        | none ↦ none
        | some sub ↦
            if is_collection_scan sub.execution_plan
            then some (some "$or branch falls back to collection scan", no_plan)
            else add_subplan sub.execution_plan (plan_branches plan base rest)
      ]
  plan_branches plan base (cons _ rest) = some (some "$or requires array of documents", no_plan)

  abbrev pub union_plan : record { 0 : Option String; 1 : Subplans } → QueryPlan
  union_plan (some reason, subplans) = scan_plan reason
  union_plan (none, no_plan) = scan_plan "Empty $or"
  union_plan (none, and_plan sub subplans) =
      plan_of (or_union_plans (and_plan sub subplans)) 200 "Union of indexed $or branches"

  unfoldable pub plan_or_query : (Document → Option QueryPlan) → Document → Items → Option QueryPlan
  unfolding plan_branches without_or
  plan_or_query plan query branches = elim (plan_branches plan (without_or end query) branches) [
    | none ↦ none
    | some planned ↦ some (union_plan planned)
  ]

  abbrev pub or_branches : Option Bson → Option Items
  or_branches (some (array branches)) = some branches
  or_branches _ = none

  -- A `$or` may stand inside the branches of another; the fuel bounds how deep.

  abbrev is_b_tree : IndexType → Bool
  is_b_tree b_tree = true
  is_b_tree _ = false

  abbrev direction_note : Bool → String
  direction_note reverse = if reverse then " (reverse)" else ""

  unfoldable pub plan_sorted_index_scan :
      Document → List IndexSpec → ℕ → Document → Option QueryPlan
  plan_sorted_index_scan sort [] limit query = none
  plan_sorted_index_scan sort (spec ∷ indexes) limit query =
      let rest = plan_sorted_index_scan sort indexes limit query in
      if not (is_b_tree (resolve_index_type spec.keys spec.options))
      then rest
      else if not (index_eligible_for_query ext spec query)
      then rest
      else elim (sort_matches_index sort spec.keys) [
        | none ↦ rest
        | some reverse ↦ some (
            plan_of (sorted_index_scan spec.name spec.keys limit reverse) (min (limit * 2) max_cost)
              ("Index '" ++ (spec.name ++ ("' provides sort order" ++ direction_note reverse))))
      ]

module _ (ext : Externals) (geo_plan : Document → IndexSpec → Option QueryPlan)
    (show : ℕ → String) where
  unfoldable pub best_of :
      Document → Option Document → Option QueryPlan → List IndexSpec → Option QueryPlan
  unfolding candidate pick_better
  best_of query projection best_plan [] = best_plan
  best_of query projection best_plan (spec ∷ indexes) =
      best_of query projection
        (improve best_plan (candidate ext geo_plan show query projection spec)) indexes

  unfoldable pub plan_simple_query_with_projection :
      Document → List IndexSpec → Option Document → QueryPlan
  unfolding best_of
  plan_simple_query_with_projection query indexes projection =
      elim (best_of query projection none indexes) [
        | none ↦ scan_plan "No suitable index found"
        | some plan ↦ plan
      ]

  unfoldable pub plan_query_with_projection :
      ℕ → Document → List IndexSpec → Option Document → Option QueryPlan
  unfolding plan_or_query plan_simple_query_with_projection
  plan_query_with_projection zero query indexes projection = none
  plan_query_with_projection (suc fuel) end indexes projection =
      some (scan_plan "Empty query requires full collection scan")
  plan_query_with_projection (suc fuel) (field k v d) indexes projection =
      elim (or_branches ext (ext.get (field k v d) "$or")) [
        | some branches ↦
            plan_or_query ext (λ q. plan_query_with_projection fuel q indexes none) (field k v d)
              branches
        | none ↦ some (plan_simple_query_with_projection (field k v d) indexes projection)
      ]

  unfoldable pub plan_query : ℕ → Document → List IndexSpec → Option QueryPlan
  unfolding plan_query_with_projection
  plan_query fuel query indexes = plan_query_with_projection fuel query indexes none

  abbrev with_sort : Document → List IndexSpec → Option Document → Option ℤ → QueryPlan → QueryPlan
  with_sort query indexes (some sort_doc) (some (pos (suc lim))) base_plan =
      cheaper (plan_sorted_index_scan ext sort_doc indexes (suc lim) query) base_plan
  with_sort query indexes _ _ base_plan = base_plan

  unfoldable pub plan_query_full :
      ℕ
      → Document
      → List IndexSpec
      → Option Document
      → Option Document
      → Option ℤ
      → Option QueryPlan
  unfolding plan_query_with_projection plan_sorted_index_scan
  plan_query_full fuel query indexes projection sort limit =
      elim (plan_query_with_projection fuel query indexes projection) [
        | none ↦ none
        | some base_plan ↦ some (with_sort query indexes sort limit base_plan)
      ]
