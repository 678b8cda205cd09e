-- ===== src/Query/Tests.antt =====
-- The query evaluator at concrete documents, and the theorems at inputs that meet their hypotheses.
use mdb_embedded.Prelude.{true, false, pos, compare_ℤ, ◌≡◌, refl, some, [], ◌∷◌, opposite, arith}
use mdb_embedded.Bson.{
  Bson, int32, int64, string, array, document, nil, cons, Document, end, field, ok,
}
use mdb_embedded.Sample.{sample}
use mdb_embedded.Std.Membership.{IsPreorder, some_equal}
use mdb_embedded.Query.{eval_query, eval_or, eval_nor, eval_operator, every_operator, eval_not}
use mdb_embedded.Query.Compare.{
  bson_cmp, cmp_typed, cmp_values, bson_type_order, bson_eq, bson_gt, bson_lt, bson_gte, bson_lte,
}
use mdb_embedded.Query.Operators.{eval_in, number_as_i64}
use mdb_embedded.Query.Logic.{Negates, queries, eval_nor-Negates, not_of_two, answer}
use mdb_embedded.Query.Order.{IsDual, bson_cmp_flip}
use mdb_embedded.Query.Membership.{IsKind, eval_in-some_equal}

program : Unit {0}
unfolding eval_query eval_operator bson_gt bson_lt bson_cmp cmp_typed cmp_values bson_type_order
    number_as_i64 answer
program = tt

abbrev three : Bson
three = int32 (pos 3)

abbrev five : Bson
five = int32 (pos 5)

abbrev doc : Document
doc = field "a" three (field "b" (string "x") end)

abbrev is_three : Document
is_three = field "a" three end

abbrev more_than_five : Document
more_than_five = field "a" (document (field "$gt" five end)) end

eval_nor-Negates_example :
    Negates
      (eval_or sample doc (array (queries (more_than_five ∷ is_three ∷ []))))
      (eval_nor sample doc (array (queries (more_than_five ∷ is_three ∷ []))))
eval_nor-Negates_example =
    eval_nor-Negates sample doc (array (queries (more_than_five ∷ is_three ∷ [])))

not_of_two_example :
    (every_operator sample doc "a" (some three) (field "$gt" five (field "$lt" five end))
      ≡ ok false)
    × (eval_not sample doc "a" (some three) (document (field "$gt" five (field "$lt" five end)))
        ≡ ok false)
unfolding program
not_of_two_example =
    not_of_two sample doc "a" (some three) "$gt" "$lt" five five false true refl refl

sample-IsDual : IsDual sample
sample-IsDual = record { partial_cmp_flip = λ a b. ground arith }

bson_cmp_flip_example :
    (bson_cmp sample five three ≡ opposite (bson_cmp sample three five))
    × (bson_gt sample (some three) five ≡ bson_lt sample (some five) three)
    × (bson_gte sample (some three) five ≡ bson_lte sample (some five) three)
    × (bson_eq sample (some three) (some five) ≡ bson_eq sample (some five) (some three))
bson_cmp_flip_example = bson_cmp_flip sample sample-IsDual three five

compare_ℤ-IsPreorder : IsPreorder compare_ℤ
compare_ℤ-IsPreorder = record {
  flip = λ a b. ground arith;
  le_trans = λ a b c h k. ground (arith, h, k);
}

int64-IsKind : IsKind sample int64 compare_ℤ
unfolding program
int64-IsKind = record { preorder = compare_ℤ-IsPreorder; same_cmp = λ a b. refl; scalar = λ a. tt }

eval_in-some_equal_example :
    eval_in sample (some (int64 (pos 3))) (array (cons (int64 (pos 5)) (cons (int64 (pos 3)) nil)))
    ≡ ok (some_equal compare_ℤ (pos 3) (pos 5 ∷ pos 3 ∷ []))
eval_in-some_equal_example =
    eval_in-some_equal sample int64 compare_ℤ int64-IsKind (pos 3) (pos 5 ∷ pos 3 ∷ [])
