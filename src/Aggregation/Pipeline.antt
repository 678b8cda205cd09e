-- ===== src/Aggregation/Pipeline.antt =====
-- rust/smongo-engine/src/aggregation/mod.rs: the loop over the stages of a pipeline, without an
-- index context and without disk use.
use mdb_embedded.Prelude.{
  ℕ, String, str_eq, ◌||◌, Option, none, some, List, [], ◌∷◌, Ordering, if◌then◌else◌,
}
use mdb_embedded.Bson.{
  Bson, Document, end, field, message, message_text, Result, ok, err, ◌>>=◌, ◌>>◌, Externals,
}
use mdb_embedded.Aggregation.Stages.{
  DocStream, of_docs, collect, stage_limit_stream, stage_skip_stream,
}
use mdb_embedded.Aggregation.Stages.Match.{stage_match_stream}
use mdb_embedded.Aggregation.Stages.Project.{stage_project_stream}
use mdb_embedded.Aggregation.Stages.Unwind.{stage_unwind_stream}
use mdb_embedded.Aggregation.Stages.Rewrite.{
  stage_add_fields_stream, stage_unset_stream, stage_replace_root_stream, stage_count,
}
use mdb_embedded.Aggregation.Stages.Redact.{stage_redact_stream}
use mdb_embedded.Aggregation.Stages.Sort.{
  stage_sort_stream, stage_sort_limit_stream, collect_with_limit,
}

-- The name and the value of a stage: its first entry.
abbrev pub stage_entry : Document → Option (record { 0 : String; 1 : Bson })
stage_entry end = none
stage_entry (field name value rest) = some (name, value)

abbrev is_search : Option (record { 0 : String; 1 : Bson }) → Option String
is_search none = none
is_search (some (name, value)) =
    if str_eq name "$vectorSearch" || str_eq name "$geoNear" then some name else none

-- A stage behind the first that has to be the first.
unfoldable pub misplaced : List Document → Option String
misplaced [] = none
misplaced (stage ∷ rest) =
    let more = misplaced rest in
    elim (is_search (stage_entry stage)) [ none ↦ more | some name ↦ some name ]

abbrev pub check_first : List Document → Result (Unit {0})
check_first [] = ok tt
check_first (stage ∷ rest) = elim (misplaced rest) [
  | none ↦ ok tt
  | some name ↦ err (message_text name " must be the first stage in the pipeline")
]

abbrev sort_limit_entries :
    Option (record { 0 : String; 1 : Bson })
    → Option (record { 0 : String; 1 : Bson })
    → Option (record { 0 : Bson; 1 : Bson })
sort_limit_entries (some (sn, sv)) (some (ln, lv)) =
    if str_eq sn "$sort" then if str_eq ln "$limit" then some (sv, lv) else none else none
sort_limit_entries _ _ = none

-- A `$sort` with the `$limit` that stands right behind it.
unfoldable pub sort_then_limit : Document → Document → Option (record { 0 : Bson; 1 : Bson })
sort_then_limit stage next = sort_limit_entries (stage_entry stage) (stage_entry next)

-- `other` runs the stages that have no definition here.
module _ (ext : Externals) (evaluate : Document → Bson → Result Bson) (size : Document → ℕ)
    (select_nth : ℕ → (ℕ → ℕ → Ordering) → List ℕ → List ℕ)
    (other : String → Bson → DocStream → Result DocStream) where
  unfoldable pub stage_count_stream : DocStream → Bson → Option ℕ → Result DocStream
  stage_count_stream input field_name memory_limit = do
    docs ← collect_with_limit ext size select_nth input "$count" memory_limit
    results ← stage_count ext docs field_name
    ok (of_docs results)

  -- The choice of the stage by its name.
  unfoldable pub run_stage : String → Bson → DocStream → Option ℕ → Result DocStream
  run_stage name value input ml =
      if str_eq name "$match"
      then stage_match_stream ext input value
      else if str_eq name "$project"
      then stage_project_stream ext evaluate input value
      else if str_eq name "$limit"
      then stage_limit_stream input value
      else if str_eq name "$skip"
      then stage_skip_stream input value
      else if str_eq name "$sort"
      then stage_sort_stream ext size select_nth input value ml
      else if str_eq name "$count"
      then stage_count_stream input value ml
      else if str_eq name "$unwind"
      then stage_unwind_stream ext input value
      else if str_eq name "$addFields" || str_eq name "$set"
      then stage_add_fields_stream ext evaluate input value
      else if str_eq name "$unset"
      then stage_unset_stream ext input value
      else if str_eq name "$replaceRoot" || str_eq name "$replaceWith"
      then stage_replace_root_stream ext evaluate input value
      else if str_eq name "$redact"
      then ok (stage_redact_stream ext evaluate input value)
      else if str_eq name "$out" || str_eq name "$merge"
      then ok input
      else other name value input

  unfoldable pub execute_stage_stream : DocStream → Document → Option ℕ → Result DocStream
  execute_stage_stream input end ml = err (message "Empty stage")
  execute_stage_stream input (field name value rest) ml = run_stage name value input ml

  unfoldable pub run_stages : DocStream → List Document → Option ℕ → Result DocStream
  run_stages stream [] ml = ok stream
  run_stages stream (stage ∷ []) ml = execute_stage_stream stream stage ml
  run_stages stream (stage ∷ next ∷ rest) ml = elim (sort_then_limit stage next) [
    | none ↦ execute_stage_stream stream stage ml >>= (λ s. run_stages s (next ∷ rest) ml)
    | some (sv, lv) ↦
        stage_sort_limit_stream ext size select_nth stream sv lv ml >>= (λ s. run_stages s rest ml)
  ]

  unfoldable pub run_pipeline_stages : DocStream → List Document → Option ℕ → Result DocStream
  unfolding misplaced
  run_pipeline_stages initial pipeline ml = check_first pipeline >> run_stages initial pipeline ml

  unfoldable pub aggregate_stream : List Document → List Document → Result DocStream
  aggregate_stream docs pipeline = run_pipeline_stages (of_docs docs) pipeline none

  unfoldable pub aggregate : List Document → List Document → Result (List Document)
  aggregate docs pipeline = do stream ← aggregate_stream docs pipeline; collect stream
