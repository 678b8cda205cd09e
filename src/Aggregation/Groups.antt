-- ===== src/Aggregation/Groups.antt =====
-- rust/smongo-engine/src/aggregation/stages.rs and mod.rs: `$group` and `$sortByCount`.
-- A group's map is the list of its entries in the order of their keys; `order` is the order in which
-- the `HashMap` gives them.
use Prim.Native.String.{◌++◌ as append}
use mdb_embedded.Prelude.{
  ℕ, pos, negsuc, Bool, true, false, String, str_eq, Option, none, some, List, [], ◌∷◌, ◌++◌,
  Ordering,
}
use mdb_embedded.Std.Order.{string_ord}
use mdb_embedded.Std.BTreeMap
use mdb_embedded.Bson.{
  Bson, null, string, boolean, double, document, int32, int64, object_id, Document, end, field,
  Result, ok, ◌>>=◌, Externals,
}
use mdb_embedded.Aggregation.Stages.{DocStream, of_docs, or_err, as_document}
use mdb_embedded.Aggregation.Stages.Sort.{stage_sort, collect_with_limit}
use mdb_embedded.Aggregation.Totals.{Formats, evaluate_accumulator}

-- The id and the documents of each group, under the text of the id.
abbrev pub Groups : Type 0
Groups = List (record { 0 : String; 1 : record { 0 : Bson; 1 : List Document } })

abbrev show_bool : Bool → String
show_bool true = "true"
show_bool false = "false"

-- `entry(key).or_insert_with(..).1.push(doc)`
abbrev pub joined :
    Bson
    → Document
    → Option (record { 0 : Bson; 1 : List Document })
    → record { 0 : Bson; 1 : List Document }
joined id doc none = (id, doc ∷ [])
joined id doc (some group) = (group.0, group.1 ++ doc ∷ [])

abbrev pub by_count : Bson → Document
by_count expr = field "_id" expr (field "count" (document (field "$sum" (int32 (pos 1)) end)) end)

module _ (ext : Externals) (formats : Formats) (evaluate : Document → Bson → Result Bson)
    (capacity : ℕ) where
  unfoldable pub bson_to_key_string : Bson → String
  bson_to_key_string (string s) = append "s:" s
  bson_to_key_string (int32 n) = append "n:" (formats.show_f64 (ext.of_int n))
  bson_to_key_string (int64 n) = append "n:" (formats.show_f64 (ext.of_int n))
  bson_to_key_string (double n) = append "n:" (formats.show_f64 n)
  bson_to_key_string (boolean b) = append "bool:" (show_bool b)
  bson_to_key_string null = "null"
  bson_to_key_string (object_id oid) = append "oid:" (formats.show_oid oid)
  bson_to_key_string (document d) = append "doc:" (formats.debug (document d))
  bson_to_key_string v = formats.debug v

  unfoldable pub group_docs : List Document → Bson → Groups → Result Groups
  unfolding bson_to_key_string
  group_docs [] id_expr groups = ok groups
  group_docs (doc ∷ docs) id_expr groups = do
    group_key ← evaluate doc id_expr
    key_str ← ok (bson_to_key_string group_key)
    group_docs docs id_expr
        (BTreeMap.insert key_str (joined group_key doc (BTreeMap.lookup key_str groups)) groups)

  unfoldable pub group_fields : List Document → Document → Document → Result Document
  unfolding evaluate_accumulator
  group_fields docs end result_doc = ok result_doc
  group_fields docs (field name accumulator rest) result_doc = elim (str_eq name "_id") [
    | true ↦ group_fields docs rest result_doc
    | false ↦ do
      value ← evaluate_accumulator ext formats evaluate capacity docs accumulator
      group_fields docs rest (ext.insert result_doc name value)
  ]

  unfoldable pub group_results : Document → Groups → Result (List Document)
  unfolding group_fields
  group_results group_doc [] = ok []
  group_results group_doc ((key_str, (id_val, docs)) ∷ groups) = do
    result_doc ← group_fields docs group_doc (ext.insert end "_id" id_val)
    results ← group_results group_doc groups
    ok (result_doc ∷ results)

  unfoldable pub stage_group : (Groups → Groups) → List Document → Bson → Result (List Document)
  unfolding group_docs group_results
  stage_group order docs group_spec = do
    group_doc ← or_err "$group requires document" (as_document group_spec)
    id_expr ← or_err "_id required in $group" (ext.get group_doc "_id")
    groups ← group_docs docs id_expr []
    group_results group_doc (order groups)

  unfoldable pub stage_sort_by_count :
      (Groups → Groups) → List Document → Bson → Result (List Document)
  unfolding stage_group
  stage_sort_by_count order docs expr = do
    grouped ← stage_group order docs (document (by_count expr))
    stage_sort ext grouped (document (field "count" (int32 (negsuc 0)) end))

  -- `memory_limit` is the limit of a stage that gathers its input; `allow_disk_use` is not set.
  unfoldable stage_group_stream :
      (Document → ℕ)
      → (ℕ → (ℕ → ℕ → Ordering) → List ℕ → List ℕ)
      → (Groups → Groups)
      → DocStream
      → Bson
      → Option ℕ
      → Result DocStream
  stage_group_stream size select_nth order input group_spec memory_limit = do
    docs ← collect_with_limit ext size select_nth input "$group" memory_limit
    results ← stage_group order docs group_spec
    ok (of_docs results)

  unfoldable stage_sort_by_count_stream :
      (Document → ℕ)
      → (ℕ → (ℕ → ℕ → Ordering) → List ℕ → List ℕ)
      → (Groups → Groups)
      → DocStream
      → Bson
      → Option ℕ
      → Result DocStream
  stage_sort_by_count_stream size select_nth order input expr memory_limit = do
    docs ← collect_with_limit ext size select_nth input "$sortByCount" memory_limit
    results ← stage_sort_by_count order docs expr
    ok (of_docs results)
