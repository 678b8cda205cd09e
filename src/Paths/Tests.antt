-- ===== src/Paths/Tests.antt =====
-- The path functions at concrete documents, and the theorems at inputs that meet their hypotheses.
use text.Mathlib.TextEquality.{eq_iff}
use mdb_embedded.Prelude.{
  ◌≡◌, ◌≢◌, refl, none, some, pos, split_dots, parse_usize, String, ◌∷◌, [], arith,
}
use mdb_embedded.Bson.{Bson, int32, document, array, null, nil, cons, Document, end, field, ok}
use mdb_embedded.Sample.{sample, sample-IsMap}
use mdb_embedded.Paths.{
  enter, get_from, get_value, get_item, exists_from, field_exists, make_parent, set_from, set_value,
  unset_from, unset_value,
}
use mdb_embedded.Paths.Set.{get_value-set_value, get_value-set_value-Apart}
use mdb_embedded.Paths.Unset.{NoArray, get_value-unset_value, get_value-unset_value-Diverge}
use mdb_embedded.Paths.Walk.{Apart, Diverge}

program : Unit {0}
unfolding split_dots parse_usize enter get_from get_value get_item exists_from field_exists
    make_parent set_from set_value unset_from unset_value
program = tt

abbrev one : Bson
one = int32 (pos 1)

abbrev two : Bson
two = int32 (pos 2)

abbrev doc : Document
doc =
    field "a" (document (field "b" one (field "c" null end)))
      (field "items" (array (cons one (cons two nil))) end)

get_value_runs :
    (get_value sample doc "a.b" ≡ some one)
    × (get_value sample doc "a.c" ≡ some null)
    × (get_value sample doc "a.c.d" ≡ none)
    × (get_value sample doc "items.1" ≡ some two)
    × (get_value sample doc "items.2" ≡ none)
unfolding program
get_value_runs = (refl, refl, refl, refl, refl)

get_value-set_value_example :
    (d' : Document) × (set_value sample doc "a.x.y" two ≡ ok d')
    × (get_value sample d' "a.x.y" ≡ some two)
get_value-set_value_example = get_value-set_value sample sample-IsMap doc "a.x.y" two

abbrev written : Document
written =
    field "a" (document (field "b" two (field "c" null end)))
      (field "items" (array (cons one (cons two nil))) end)

b_not_c : ◌≢◌ {A = String} "b" "c"
b_not_c = ground (arith, eq_iff "b" "c")

get_value-set_value-Apart_example : get_value sample written "a.c" ≡ get_value sample doc "a.c"
unfolding program
get_value-set_value-Apart_example =
    get_value-set_value-Apart sample sample-IsMap doc written "a.b" "a.c" two refl
      (Apart.below refl (Apart.here b_not_c))

b_NoArray : NoArray sample doc ("a" ∷ "b" ∷ [])
b_NoArray = NoArray.below (λ arr e. ground (arith, e)) (λ e h. NoArray.last)

get_value-unset_value_example :
    (d' : Document) × (unset_value sample doc "a.b" ≡ ok d') × (get_value sample d' "a.b" ≡ none)
unfolding program
get_value-unset_value_example = get_value-unset_value sample sample-IsMap doc "a.b" b_NoArray

abbrev removed : Document
removed =
    field "a" (document (field "c" null end)) (field "items" (array (cons one (cons two nil))) end)

get_value-unset_value-Diverge_example : get_value sample removed "a.c" ≡ get_value sample doc "a.c"
unfolding program
get_value-unset_value-Diverge_example =
    get_value-unset_value-Diverge sample sample-IsMap doc removed "a.b" "a.c" refl
      (Diverge.below (Diverge.here b_not_c))
