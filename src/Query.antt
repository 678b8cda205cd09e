-- ===== src/Query.antt =====
-- rust/smongo-engine/src/query/mod.rs: the evaluation of a query against a document.
-- Every loop goes over a part of the query, so the recursion is on the query.
pub mod Compare
pub mod Operators
pub mod Logic
pub mod Order
pub mod Doubles
pub mod Membership
pub mod Remainder
mod Tests
use mdb_embedded.Prelude.{
  String, str_eq, Bool, true, false, not, ◌||◌, Option, none, some, if◌then◌else◌,
}
use mdb_embedded.Bson.{
  Bson, array, document, Items, nil, cons, Document, end, field, Error, message, message_text,
  Result, ok, err, ◌>>=◌, Externals,
}
use mdb_embedded.Paths.{get_value}
use Compare.{bson_eq, bson_gt, bson_gte, bson_lt, bson_lte}
use Operators.{
  as_array, eval_in, eval_nin, eval_exists, eval_type, eval_regex, eval_all, eval_size, eval_mod,
  eval_bits, all_set, any_set, all_clear, any_clear,
}

-- Whether a document among the items passes a test, tried in turn; other items are skipped.
unfoldable pub any_document : (Document → Result Bool) → Items → Result Bool
any_document test nil = ok false
any_document test (cons (document d) rest) = do
  b ← test d
  if b then ok true else any_document test rest
any_document test (cons _ rest) = any_document test rest

module _ (ext : Externals) where
  -- One operator; `negated` and `matched` are the answers of `$not` and `$elemMatch`, which recur.
  unfoldable pub eval_operator :
      Result Bool → Result Bool → Document → String → Option Bson → String → Bson → Result Bool
  eval_operator negated matched doc key value op cond_val =
      if str_eq op "$gt"
      then ok (bson_gt ext value cond_val)
      else if str_eq op "$gte"
      then ok (bson_gte ext value cond_val)
      else if str_eq op "$lt"
      then ok (bson_lt ext value cond_val)
      else if str_eq op "$lte"
      then ok (bson_lte ext value cond_val)
      else if str_eq op "$eq"
      then ok (bson_eq ext value (some cond_val))
      else if str_eq op "$ne"
      then ok (not (bson_eq ext value (some cond_val)))
      else if str_eq op "$in"
      then eval_in ext value cond_val
      else if str_eq op "$nin"
      then eval_nin ext value cond_val
      else if str_eq op "$exists"
      then eval_exists ext doc key cond_val
      else if str_eq op "$type"
      then eval_type value cond_val
      else if str_eq op "$regex"
      then eval_regex ext value cond_val
      else if str_eq op "$not"
      then negated
      else if str_eq op "$all"
      then eval_all ext value cond_val
      else if str_eq op "$elemMatch"
      then matched
      else if str_eq op "$size"
      then eval_size value cond_val
      else if str_eq op "$mod"
      then eval_mod ext value cond_val
      else if str_eq op "$bitsAllSet"
      then eval_bits ext value cond_val all_set
      else if str_eq op "$bitsAnySet"
      then eval_bits ext value cond_val any_set
      else if str_eq op "$bitsAllClear"
      then eval_bits ext value cond_val all_clear
      else if str_eq op "$bitsAnyClear"
      then eval_bits ext value cond_val any_clear
      else if str_eq op "$options"
      then ok true
      else if str_eq op "$near"
          || str_eq op "$nearSphere"
          || str_eq op "$geoWithin"
          || str_eq op "$geoIntersects"
      then ok true
      else err (message_text "Unknown operator: " op)

  -- The choice of a top-level key among the answers that the query's logical operators give.
  unfoldable pub eval_key :
      Result Bool → Result Bool → Result Bool → Result Bool → Document → String → Bson → Result Bool
  eval_key any_of all_of none_of on_field doc key condition =
      if str_eq key "$or"
      then any_of
      else if str_eq key "$and"
      then all_of
      else if str_eq key "$nor"
      then none_of
      else if str_eq key "$expr"
      then ext.expr_holds doc condition
      else if str_eq key "$text"
      then ext.text_holds doc condition
      else if str_eq key "$comment"
      then ok true
      else on_field

  -- The geospatial operators that take a whole condition, or its operators in turn.
  unfoldable pub eval_condition : Option Bson → Document → Result Bool → Result Bool
  eval_condition value cond_doc operators =
      if ext.contains_key cond_doc "$near" || ext.contains_key cond_doc "$nearSphere"
      then ext.near_holds value cond_doc
      else if ext.contains_key cond_doc "$geoWithin"
      then ext.geo_within_holds value cond_doc
      else if ext.contains_key cond_doc "$geoIntersects"
      then ext.geo_intersects_holds value cond_doc
      else operators

  unfoldable mutual
    unfolding eval_operator eval_key eval_condition any_document

    pub eval_query : Document → Document → Result Bool
    eval_query doc end = ok true
    eval_query doc (field key condition rest) = do
      b ←
          eval_key (eval_or doc condition) (eval_and doc condition) (eval_nor doc condition)
            (eval_field_condition doc key condition) doc key condition
      if b then eval_query doc rest else ok false

    pub eval_or : Document → Bson → Result Bool
    eval_or doc (array queries) = some_query doc queries
    eval_or doc _ = err (message "Expected array")

    pub some_query : Document → Items → Result Bool
    some_query doc nil = ok false
    some_query doc (cons (document q) rest) = do
      b ← eval_query doc q
      if b then ok true else some_query doc rest
    some_query doc (cons _ rest) = err (message "$or requires array of objects")

    pub eval_and : Document → Bson → Result Bool
    eval_and doc (array queries) = every_query doc queries
    eval_and doc _ = err (message "Expected array")

    pub every_query : Document → Items → Result Bool
    every_query doc nil = ok true
    every_query doc (cons (document q) rest) = do
      b ← eval_query doc q
      if b then every_query doc rest else ok false
    every_query doc (cons _ rest) = err (message "$and requires array of objects")

    pub eval_nor : Document → Bson → Result Bool
    eval_nor doc (array queries) = no_query doc queries
    eval_nor doc _ = err (message "Expected array")

    pub no_query : Document → Items → Result Bool
    no_query doc nil = ok true
    no_query doc (cons (document q) rest) = do
      b ← eval_query doc q
      if b then ok false else no_query doc rest
    no_query doc (cons _ rest) = err (message "$nor requires array of objects")

    pub eval_field_condition : Document → String → Bson → Result Bool
    eval_field_condition doc key (document cond_doc) =
        eval_condition (get_value ext doc key) cond_doc
          (every_operator doc key (get_value ext doc key) cond_doc)
    eval_field_condition doc key condition =
        ok (bson_eq ext (get_value ext doc key) (some condition))

    pub every_operator : Document → String → Option Bson → Document → Result Bool
    every_operator doc key value end = ok true
    every_operator doc key value (field op cond_val rest) = do
      b ←
          eval_operator (eval_not doc key value cond_val) (eval_elem_match value cond_val) doc key
            value op cond_val
      if b then every_operator doc key value rest else ok false

    pub eval_not : Document → String → Option Bson → Bson → Result Bool
    eval_not doc key value (document cond_doc) = no_operator doc key value cond_doc
    eval_not doc key value _ = ok false

    pub no_operator : Document → String → Option Bson → Document → Result Bool
    no_operator doc key value end = ok true
    no_operator doc key value (field op op_val rest) = do
      b ←
          eval_operator (eval_not doc key value op_val) (eval_elem_match value op_val) doc key value
            op op_val
      if b then ok false else no_operator doc key value rest

    pub eval_elem_match : Option Bson → Bson → Result Bool
    eval_elem_match (some (array arr)) (document q) = any_document (λ item. eval_query item q) arr
    eval_elem_match (some (array arr)) _ = err (message "$elemMatch requires object")
    eval_elem_match value _ = ok false
