-- ===== src/Update/Tests.antt =====
-- Updates of concrete documents, and the theorems at inputs that meet their hypotheses.
use text.Mathlib.TextEquality.{eq_iff}
use mdb_embedded.Prelude.{
  Bool-cases, as_bytes, drop_last_byte, join_dots, split_dots, str_eq, inr, ℤ, pos, negsuc, ◌+ℤ◌,
  ◌≡◌, inl, refl, String, true, false, some, List, [], ◌∷◌, ◌++◌, length, strip_prefix, arith,
}
use mdb_embedded.Bson.{
  Bson, int32, string, array, document, null, nil, cons, of_list, Document, end, field, ok,
}
use mdb_embedded.Sample.{sample, of_int, to_int, sample-IsMap}
use mdb_embedded.Paths.{get_from, enter, get_value}
use mdb_embedded.Update.{wrong_key, apply_update_impl, apply_update, apply_update_for_upsert}
use mdb_embedded.Update.Order.{apply_update_impl-same, apply_update-set}
use mdb_embedded.Update.Arrays.{slice_array, add_each, holds_value, is_negative}
use mdb_embedded.Update.Splice.{slice_array-sides}
use mdb_embedded.Update.Sets.{Every, fresh, add_each-set}
use mdb_embedded.Query.{eval_query}
use mdb_embedded.Query.Compare.{bson_eq, bson_cmp, cmp_typed, bson_type_order, cmp_values}
use mdb_embedded.Update.Positional.{
  split_positional, identifier_of, filter_of, find_filter, rewrite_filter_for_element, rewrite_from,
  apply_positional_operator, update_elements, update_element, element_matches,
}
use mdb_embedded.Update.Writes.{apply_inc-int32}
use mdb_embedded.Update.Fields.{apply_inc}
use mdb_embedded.Update.Numbers.{IsIeee}
use mdb_embedded.Update.Selected.{apply_positional_operator-is_selected}

program : Unit {0}
unfolding get_value get_from enter split_dots wrong_key strip_prefix update_elements update_element
    element_matches holds_value
program = tt

abbrev one : Bson
one = int32 (pos 1)

abbrev two : Bson
two = int32 (pos 2)

abbrev doc : Document
doc = field "a" one (field "items" (array (cons one (cons two nil))) end)

abbrev set_then_unset : Document
set_then_unset =
    field "$set" (document (field "a" two end)) (field "$unset" (document (field "b" one end)) end)

abbrev unset_then_set : Document
unset_then_set =
    field "$unset" (document (field "b" one end)) (field "$set" (document (field "a" two end)) end)

same_entries : (k : String) → sample.get set_then_unset k ≡ sample.get unset_then_set k
same_entries k = elim (Bool-cases (str_eq "$set" k)) [
  | inl e ↦ rw (← (eq_iff "$set" k).0 e) refl
  | inr e ↦ rw e refl
]

apply_update_impl-same_example :
    apply_update_impl sample doc set_then_unset false []
    ≡ apply_update_impl sample doc unset_then_set false []
unfolding program
apply_update_impl-same_example =
    apply_update_impl-same sample doc set_then_unset unset_then_set false [] refl refl same_entries

abbrev only_inc : Document
only_inc = field "$inc" (document (field "a" two end)) end

abbrev only_set : Document
only_set = field "$set" (document (field "a.b" two end)) end

abbrev only_set_on_insert : Document
only_set_on_insert = field "$setOnInsert" (document (field "a.b" two end)) end

apply_update-set_example :
    (d' : Document) × (apply_update sample doc only_set ≡ ok d')
    × (apply_update_for_upsert sample doc only_set_on_insert ≡ ok d')
    × (apply_update sample doc only_set_on_insert ≡ ok doc)
    × (get_value sample d' "a.b" ≡ some two)
unfolding program
apply_update-set_example =
    apply_update-set sample doc only_set only_set_on_insert "a.b" two sample-IsMap refl refl
      (λ k. refl) (λ k. refl)

abbrev letters : List Bson
letters = string "a" ∷ string "b" ∷ string "c" ∷ []

slice_array-sides_example :
    (length (slice_array (negsuc 1) letters) ≡ 2)
    × (is_negative (negsuc 1) ≡ false
        → (rest : List Bson) × (slice_array (negsuc 1) letters ++ rest ≡ letters))
    × (is_negative (negsuc 1) ≡ true
        → (rest : List Bson) × (rest ++ slice_array (negsuc 1) letters ≡ letters))
slice_array-sides_example = slice_array-sides (negsuc 1) letters (ground arith, ground arith)

add_each-set_example :
    ((more : List Bson) × (add_each sample letters (one ∷ string "a" ∷ one ∷ []) ≡ letters ++ more))
    × Every
        (λ e. holds_value sample (add_each sample letters (one ∷ string "a" ∷ one ∷ [])) e ≡ true)
        (one ∷ string "a" ∷ one ∷ [])
    × (fresh sample [] letters ≡ true
        → fresh sample [] (add_each sample letters (one ∷ string "a" ∷ one ∷ [])) ≡ true)
add_each-set_example =
    add_each-set sample letters (one ∷ string "a" ∷ one ∷ []) (refl, (refl, (refl, tt)))

to_int-of_int : (a : ℤ) → to_int (of_int a) ≡ a
to_int-of_int (pos n) = ground arith
to_int-of_int (negsuc n) = ground arith

sample-IsIeee : IsIeee sample
sample-IsIeee = record {
  add-of_int = λ a b ha hb hs. ground (arith, to_int-of_int a, to_int-of_int b);
  partial_cmp-of_int = λ a b ha hb. ground (arith, to_int-of_int a, to_int-of_int b);
  is_whole-of_int = λ a h. refl;
  f64_as_i32-of_int = λ a h. to_int-of_int a;
}

apply_inc-int32_example :
    (d' : Document) × (apply_inc sample (field "a" one (field "b" null end)) (field "a" two end)
      ≡ ok d')
    × (get_value sample d' "a" ≡ some (int32 (pos 3)))
unfolding program ◌+ℤ◌
apply_inc-int32_example =
    apply_inc-int32 sample sample-IsMap (field "a" one (field "b" null end)) "a" (pos 1) (pos 2)
      sample-IsIeee refl (ground arith, ground arith) (ground arith, ground arith)

abbrev with_items : List Bson → Document
with_items items = field "items" (array (of_list items)) end

abbrev keyed : Bson → Bson
keyed k = document (field "k" k end)

apply_positional_operator-is_selected_example :
    (doc' : Document) × (apply_positional_operator sample
        (with_items (keyed one ∷ keyed two ∷ one ∷ []))
        "items.$[e]"
        null
        "$set"
        (("e", field "e.k" one end) ∷ [])
      ≡ ok doc')
    × (get_value sample doc' "items" ≡ some (array (of_list (null ∷ keyed two ∷ one ∷ []))))
unfolding program split_positional identifier_of as_bytes drop_last_byte join_dots filter_of
    find_filter eval_query rewrite_filter_for_element rewrite_from bson_eq bson_cmp cmp_typed
    bson_type_order cmp_values
apply_positional_operator-is_selected_example =
    apply_positional_operator-is_selected sample sample-IsMap
      (with_items (keyed one ∷ keyed two ∷ one ∷ [])) "items.$[e]" ("items" ∷ []) "$[e]" (some "e")
      null (("e", field "e.k" one end) ∷ []) (of_list (keyed one ∷ keyed two ∷ one ∷ [])) refl refl
      refl (tt, (tt, (tt, tt)))
