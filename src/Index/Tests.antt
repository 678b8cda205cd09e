-- ===== src/Index/Tests.antt =====
-- Index keys of concrete documents, and the theorems at inputs that meet their hypotheses.
use text.Mathlib.TextEquality.{eq_iff}
use mdb_embedded.Prelude.{
  String, str_eq, ◌≢◌, true, pos, negsuc, ◌≡◌, refl, inl, inr, none, some, List, [], ◌∷◌, false,
  split_dots, arith,
}
use mdb_embedded.Bson.{boolean, int32, null, Document, end, field}
use mdb_embedded.Sample.{sample}
use mdb_embedded.Std.Order.{cmp_bytes}
use mdb_embedded.Paths.{get_value, get_from, enter}
use mdb_embedded.Aggregation.Stages.Sort.{compare_docs}
use mdb_embedded.Index.{generate_index_name}
use mdb_embedded.Index.Keys.{
  extract_index_key_with_collation, key_part, extract_index_key, decode_index_key, truncate_key,
}
use mdb_embedded.Index.Bitmap
use mdb_embedded.Index.Postings.{ids_under}
use mdb_embedded.Index.Removal.{without_id}
use mdb_embedded.Index.Runs.{Change, put, take, run_changes, postings, run_changes-postings}
use mdb_embedded.Index.Order.{IsExact, extract_index_key-compare_docs}

program : Unit {0}
unfolding get_value get_from enter extract_index_key decode_index_key generate_index_name cmp_bytes
    truncate_key extract_index_key_with_collation key_part split_dots
program = tt

sample-IsExact : IsExact sample
sample-IsExact = record { same_order = λ a b ha hb. ground arith }

abbrev first : Document
first = field "x" (int32 (pos 1)) (field "y" (int32 (pos 300)) end)

abbrev second : Document
second = field "x" (int32 (pos 1)) (field "y" (int32 (pos 2)) end)

abbrev below : Document
below = field "x" (int32 (negsuc 4)) end

-- A descending index on a field that holds `true` makes a key of one separator, which does not
-- decode; `null` decodes to `false`.
decode_runs :
    (extract_index_key sample (field "x" (boolean true) end) (field "x" (int32 (negsuc 0)) end)
      ≡ 254 ∷ [])
    × (decode_index_key sample
          (λ b. none)
          (λ s. false)
          (254 ∷ [])
          (field "x" (int32 (negsuc 0)) end)
        ≡ none)
    × (extract_index_key sample (field "x" null end) (field "x" (int32 (pos 1)) end) ≡ 0 ∷ [])
    × (decode_index_key sample (λ b. none) (λ s. false) (0 ∷ []) (field "x" (int32 (pos 1)) end)
        ≡ some (field "x" (boolean false) end))
unfolding program
decode_runs = (refl, refl, refl, refl)

name_runs :
    generate_index_name (field "age" (int32 (pos 1)) (field "name" (int32 (negsuc 0)) end))
    ≡ "age_1_name_-1"
unfolding program
name_runs = refl

extract_index_key-compare_docs_example :
    cmp_bytes
      (extract_index_key sample first
        (field "x" (int32 (pos 1)) (field "y" (int32 (negsuc 0)) end)))
      (extract_index_key sample second
        (field "x" (int32 (pos 1)) (field "y" (int32 (negsuc 0)) end)))
    ≡ compare_docs sample
        (field "x" (int32 (pos 1)) (field "y" (int32 (negsuc 0)) end))
        first
        second
unfolding program
extract_index_key-compare_docs_example =
    extract_index_key-compare_docs sample sample-IsExact
      (field "x" (int32 (pos 1)) (field "y" (int32 (negsuc 0)) end)) first second
      (inl refl, (1, refl, omega arith), (inr refl, (300, refl, omega arith), tt))
      (inl refl, (1, refl, omega arith), (inr refl, (2, refl, omega arith), tt))

is_named : (id : String) → str_eq id "" ≡ false → id ≢ ""
is_named id h e = ground (arith, h, (eq_iff id "").1 e)

abbrev changes : List Change
changes = put "a" (7 ∷ []) ∷ put "b" (7 ∷ []) ∷ put "c" (8 ∷ []) ∷ take "a" ∷ put "a" (8 ∷ []) ∷ []

run_changes-postings_example : ids_under (8 ∷ []) (run_changes changes Bitmap.new) ≡ "c" ∷ "a" ∷ []
unfolding postings cmp_bytes without_id
run_changes-postings_example =
    run_changes-postings changes (8 ∷ [])
      (
        is_named "a" refl,
        (is_named "b" refl, (is_named "c" refl, (is_named "a" refl, (is_named "a" refl, tt)))),
      )
      (ground arith)
