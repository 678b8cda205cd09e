-- ===== src/Aggregation/Totals.antt =====
-- rust/smongo-engine/src/aggregation/accumulators.rs: the accumulators that add up, merge and rank,
-- and the choice of a group's accumulator.
use mdb_embedded.Prelude.{
  ℕ, ℤ, ◌+◌, ◌+ℤ◌, ◌-◌, ◌==◌, ◌&&◌, ◌||◌, not, ltb, map, pos, of_word, to_word, as_i32, Bool, true,
  false, String, str_eq, Option, none, some, List, [], ◌∷◌, length, take, if◌then◌else◌,
}
use mdb_embedded.Std.Order.{string_ord}
use mdb_embedded.Std.Sort.{sort_by}
use mdb_embedded.Bson.{
  Bson, null, string, double, document, array, int32, int64, Document, end, field, of_list, message,
  message_text, Result, ok, err, ◌>>=◌, Externals,
}
use mdb_embedded.Aggregation.{as_f64}
use mdb_embedded.Aggregation.Accumulators.{
  accum_min, accum_max, accum_first, accum_last, accum_push, accum_first_n, accum_last_n, extract_n,
  evaluate_each,
}
use mdb_embedded.Aggregation.Stages.{or_err, as_document}
use mdb_embedded.Aggregation.Stages.Sort.{compare_docs}

-- The texts that `format!` makes of a double, an ObjectId and, with `{:?}`, of any value; `/`, `-`,
-- `powi(2)`, `sqrt` and `iter().sum()` of f64.
pub record Formats : Type 0 where
  pub show_f64 : ℕ → String
  pub show_oid : List ℕ → String
  pub debug : Bson → String
  pub div_f64 : ℕ → ℕ → ℕ
  pub sub_f64 : ℕ → ℕ → ℕ
  pub square : ℕ → ℕ
  pub sqrt : ℕ → ℕ
  pub sum_f64 : List ℕ → ℕ

abbrev reversed : List Document → List Document → List Document
reversed done [] = done
reversed done (doc ∷ docs) = reversed (doc ∷ done) docs

-- `+=` of `i64`, which wraps around in a release build.
abbrev pub add_i64 : ℤ → ℤ → ℤ
add_i64 a b = of_word 63 (to_word 64 (a +ℤ b))

-- The sums of `accum_sum`: of the integers, whether there is a double, and of all as doubles.
pub record Sums : Type 0 where
  pub int_sum : ℤ
  pub has_double : Bool
  pub dbl_sum : ℕ

abbrev add_document : Document → Document → (Document → String → Bson → Document) → Document
add_document merged end insert = merged
add_document merged (field k v rest) insert = add_document (insert merged k v) rest insert

module _ (ext : Externals) (formats : Formats) (evaluate : Document → Bson → Result Bson)
    (capacity : ℕ) where
  abbrev pub sum_value : Sums → Bson → Sums
  sum_value s (int32 n) = record s {
    int_sum = add_i64 s.int_sum n;
    dbl_sum = ext.add_f64 s.dbl_sum (ext.of_int n);
  }
  sum_value s (int64 n) = record s {
    int_sum = add_i64 s.int_sum n;
    dbl_sum = ext.add_f64 s.dbl_sum (ext.of_int n);
  }
  sum_value s (double n) = record s { has_double = true; dbl_sum = ext.add_f64 s.dbl_sum n }
  sum_value s _ = s

  unfoldable pub sum_each : Sums → List Document → Bson → Result Sums
  sum_each s [] expr = ok s
  sum_each s (doc ∷ docs) expr = do val ← evaluate doc expr; sum_each (sum_value s val) docs expr

  unfoldable pub accum_sum : List Document → Bson → Result Bson
  unfolding sum_each
  accum_sum docs expr = do
    s ←
        sum_each (record { int_sum = pos 0; has_double = false; dbl_sum = ext.of_int (pos 0) }) docs
          expr
    ok (if s.has_double then double s.dbl_sum else int64 s.int_sum)

  -- The sum of the numbers and their count.
  abbrev add_number : ℕ → ℕ → Option ℕ → record { 0 : ℕ; 1 : ℕ }
  add_number sum count none = (sum, count)
  add_number sum count (some n) = (ext.add_f64 sum n, count + 1)

  unfoldable average_each :
      record { 0 : ℕ; 1 : ℕ } → List Document → Bson → Result (record { 0 : ℕ; 1 : ℕ })
  average_each s [] expr = ok s
  average_each s (doc ∷ docs) expr = do
    val ← evaluate doc expr
    average_each (add_number s.0 s.1 (as_f64 ext val)) docs expr

  unfoldable pub accum_avg : List Document → Bson → Result Bson
  unfolding average_each
  accum_avg docs expr = do
    s ← average_each (ext.of_int (pos 0), 0) docs expr
    ok (if s.1 == 0 then null else double (formats.div_f64 s.0 (ext.of_int (pos s.1))))

  abbrev merge_value : Document → Bson → Document
  merge_value merged (document d) = add_document merged d ext.insert
  merge_value merged _ = merged

  unfoldable merge_each : Document → List Document → Bson → Result Document
  merge_each merged [] expr = ok merged
  merge_each merged (doc ∷ docs) expr = do
    val ← evaluate doc expr
    merge_each (merge_value merged val) docs expr

  unfoldable pub accum_merge_objects : List Document → Bson → Result Bson
  unfolding merge_each
  accum_merge_objects docs expr = do merged ← merge_each end docs expr; ok (document merged)

  abbrev is_in : String → List String → Bool
  is_in key [] = false
  is_in key (s ∷ seen) = if str_eq key s then true else is_in key seen

  unfoldable set_of : List String → List Document → Bson → Result (List Bson)
  set_of seen [] expr = ok []
  set_of seen (doc ∷ docs) expr = do
    val ← evaluate doc expr
    vals ← set_of (formats.debug val ∷ seen) docs expr
    ok (if is_in (formats.debug val) seen then vals else val ∷ vals)

  unfoldable pub accum_add_to_set : List Document → Bson → Result Bson
  unfolding set_of
  accum_add_to_set docs expr = do vals ← set_of [] docs expr; ok (array (of_list vals))

  abbrev first_or_null : List Bson → Bson
  first_or_null [] = null
  first_or_null (v ∷ vals) = v

  unfoldable pub accum_top_bottom : List Document → Document → Bool → ℕ → Result Bson
  accum_top_bottom docs spec ascending n = do
    sort_spec ← or_err "sortBy required" (ext.get spec "sortBy")
    by ← or_err "sortBy required" (as_document sort_spec)
    output_expr ← ok (elim (ext.get spec "output") [ none ↦ string "$$ROOT" | some expr ↦ expr ])
    sorted ← ok (sort_by (compare_docs ext by) docs)
    selected ←
        evaluate_each ext evaluate capacity
          (take n (if ascending then sorted else reversed [] sorted)) output_expr
    ok (if n == 1 then first_or_null selected else array (of_list selected))

  abbrev keep_number : Option ℕ → List ℕ → List ℕ
  keep_number none values = values
  keep_number (some n) values = n ∷ values

  unfoldable numbers_of : List Document → Bson → Result (List ℕ)
  numbers_of [] expr = ok []
  numbers_of (doc ∷ docs) expr = do
    val ← evaluate doc expr
    values ← numbers_of docs expr
    ok (keep_number (as_f64 ext val) values)

  -- `x as f64` of a `usize`
  abbrev of_usize : ℕ → ℕ
  of_usize n = ext.of_int (pos n)

  abbrev mean_of : List ℕ → ℕ
  mean_of values = formats.div_f64 (formats.sum_f64 values) (of_usize (length values))

  abbrev deviation : List ℕ → Bool → ℕ
  deviation values population = formats.sqrt (
      formats.div_f64
        (formats.sum_f64 (map (λ v. formats.square (formats.sub_f64 v (mean_of values))) values))
        (of_usize (if population then length values else length values - 1)))

  unfoldable pub accum_stddev : List Document → Bson → Bool → Result Bson
  unfolding numbers_of
  accum_stddev docs expr population = do
    values ← numbers_of docs expr
    ok (
        if (length values == 0) || (not population && ltb (length values) 2)
        then null
        else double (deviation values population))

  -- The match on the operator's name, in the order of its arms; `acc_doc` is the whole accumulator.
  abbrev accumulate : List Document → Document → String → Bson → Result Bson
  accumulate docs acc_doc op expr =
      if str_eq op "$sum"
      then accum_sum docs expr
      else if str_eq op "$avg"
      then accum_avg docs expr
      else if str_eq op "$count"
      then ok (int32 (as_i32 (pos (length docs))))
      else if str_eq op "$min"
      then accum_min ext evaluate capacity docs expr
      else if str_eq op "$max"
      then accum_max ext evaluate capacity docs expr
      else if str_eq op "$first"
      then accum_first ext evaluate capacity docs expr
      else if str_eq op "$last"
      then accum_last ext evaluate capacity docs expr
      else if str_eq op "$push"
      then accum_push ext evaluate capacity docs expr
      else if str_eq op "$addToSet"
      then accum_add_to_set docs expr
      else if str_eq op "$mergeObjects"
      then accum_merge_objects docs expr
      else if str_eq op "$stdDevPop"
      then accum_stddev docs expr true
      else if str_eq op "$stdDevSamp"
      then accum_stddev docs expr false
      else if str_eq op "$top"
      then accum_top_bottom docs acc_doc true 1
      else if str_eq op "$bottom"
      then accum_top_bottom docs acc_doc false 1
      else if str_eq op "$topN"
      then extract_n ext evaluate capacity acc_doc >>= accum_top_bottom docs acc_doc true
      else if str_eq op "$bottomN"
      then extract_n ext evaluate capacity acc_doc >>= accum_top_bottom docs acc_doc false
      else if str_eq op "$firstN"
      then accum_first_n ext evaluate capacity docs expr acc_doc
      else if str_eq op "$lastN"
      then accum_last_n ext evaluate capacity docs expr acc_doc
      else err (message_text "Unknown accumulator: " op)

  abbrev first_entry : List Document → Document → Result Bson
  first_entry docs end = err (message "Empty accumulator")
  first_entry docs (field op expr rest) = accumulate docs (field op expr rest) op expr

  unfoldable pub evaluate_accumulator : List Document → Bson → Result Bson
  unfolding accum_sum accum_avg accum_add_to_set accum_merge_objects accum_stddev accum_top_bottom
  evaluate_accumulator docs acc = do
    acc_doc ← or_err "Accumulator must be document" (as_document acc)
    first_entry docs acc_doc
