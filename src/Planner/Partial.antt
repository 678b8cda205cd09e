-- ===== src/Planner/Partial.antt =====
-- Partial indexes: a query that is taken to satisfy an index's filter implies the filter.
use mdb_embedded.Prelude.{
  ◌≡◌, refl, sym, subst, ◌∙◌, inl, inr, String, str_eq, Bool, true, false, ◌||◌, Option,
  Option-cases, arith,
}
use mdb_embedded.Bson.{Bson, document, Document, end, field, Result, ok, Externals}
use mdb_embedded.Paths.{get_value}
use mdb_embedded.Query.{
  eval_query, eval_key, eval_or, eval_and, eval_nor, eval_field_condition, eval_condition,
  every_operator,
}
use mdb_embedded.Planner.{field_satisfied, query_satisfies_partial_filter}
use mdb_embedded.Planner.Bounds.{IsSafeOption, IsPlain, IsEntry, IsOrdered}
use mdb_embedded.Planner.Conditions.{
  AllSafe, AllPlainOperands, and_then-inv, operators_satisfied-implies,
}

-- The keys that are operators of the whole query.
abbrev pub is_special : String → Bool
is_special key =
    str_eq key "$or"
    || str_eq key "$and"
    || str_eq key "$nor"
    || str_eq key "$expr"
    || str_eq key "$text"
    || str_eq key "$comment"

module _ (ext : Externals) where
  -- A condition without geospatial operators, its values safe.
  abbrev pub IsPlainCondition : Bson → Type 0
  IsPlainCondition (document c) =
      (ext.contains_key c "$near" ≡ false)
      × (ext.contains_key c "$nearSphere" ≡ false)
      × (ext.contains_key c "$geoWithin" ≡ false)
      × (ext.contains_key c "$geoIntersects" ≡ false)
      × AllSafe c
  IsPlainCondition _ = Unit

  -- A value of a filter, or the operands of its operators, on which `==` is exact.
  abbrev pub IsExactCondition : Bson → Type 0
  IsExactCondition (document c) = AllPlainOperands ext c
  IsExactCondition v = IsPlain ext v

  abbrev pub HasExactConditions : Document → Type 0
  HasExactConditions end = Unit
  HasExactConditions (field k v d) = IsExactCondition v × HasExactConditions d

  abbrev pub HasPlainConditions : Document → Type 0
  HasPlainConditions end = Unit
  HasPlainConditions (field k v d) = IsPlainCondition v × HasPlainConditions d

  -- The keys of a filter are fields, and the document's values there are safe.
  abbrev pub HasFields : Document → Document → Type 0
  HasFields doc end = Unit
  HasFields doc (field k v d) =
      (is_special k ≡ false) × IsSafeOption (get_value ext doc k) × HasFields doc d

module _ (ext : Externals) (o : IsOrdered ext) where
  eval_condition-plain :
      (value : Option Bson) (c : Document) (r : Result Bool)
      → ext.contains_key c "$near" ≡ false
      → ext.contains_key c "$nearSphere" ≡ false
      → ext.contains_key c "$geoWithin" ≡ false
      → ext.contains_key c "$geoIntersects" ≡ false
      → eval_condition ext value c r ≡ r
  unfolding eval_condition
  eval_condition-plain value c r near sphere within intersects =
      rw (near, sphere, within, intersects) refl

  field_satisfied-implies :
      (doc : Document) (key : String) (pf q : Bson)
      → IsSafeOption (get_value ext doc key)
      → IsPlainCondition ext pf
      → IsPlainCondition ext q
      → IsExactCondition ext pf
      → field_satisfied ext pf q ≡ true
      → eval_field_condition ext doc key q ≡ ok true
      → eval_field_condition ext doc key pf ≡ ok true
  unfolding field_satisfied eval_query
  field_satisfied-implies doc key (document pf) (document q) hv hp hq exact s h =
      let value = get_value ext doc key in
      let (np, sp, wp, ip, safe_p) = hp in
      let (nq, sq, wq, iq, safe_q) = hq in
      let holds =
        sym (eval_condition-plain value q (every_operator ext doc key value q) nq sq wq iq) ∙ h in
      eval_condition-plain value pf (every_operator ext doc key value pf) np sp wp ip
      ∙ operators_satisfied-implies ext o doc key value q pf hv safe_q safe_p exact s holds
  field_satisfied-implies doc key (document pf) q hv hp hq exact s h =
      absurd (ground (arith, s, o.beq-document q pf refl))
  field_satisfied-implies doc key pf q hv hp hq exact s h =
      subst (λ v. eval_field_condition ext doc key v ≡ ok true) (o.eq_of_beq q pf exact s) h

  eval_key-field :
      (any_of all_of none_of on_field : Result Bool) (doc : Document) (key : String) (v : Bson)
      → is_special key ≡ false
      → eval_key ext any_of all_of none_of on_field doc key v ≡ on_field
  unfolding eval_key
  eval_key-field any_of all_of none_of on_field doc key v h = ground (arith, h)

  eval_query-IsEntry :
      (doc query : Document) (key : String) (v : Bson)
      → is_special key ≡ false
      → eval_query ext doc query ≡ ok true
      → IsEntry key v query
      → eval_field_condition ext doc key v ≡ ok true
  unfolding eval_query
  eval_query-IsEntry doc end key v special h i = elim i [ ]
  eval_query-IsEntry doc (field j w d) key v special h (inl (e, f)) =
      let (first, _) =
        and_then-inv
          (eval_key ext (eval_or ext doc w) (eval_and ext doc w) (eval_nor ext doc w)
            (eval_field_condition ext doc j w) doc j w)
          (eval_query ext doc d) h in
      subst (λ w'. eval_field_condition ext doc key w' ≡ ok true) f
        (subst (λ j'. eval_field_condition ext doc j' w ≡ ok true) e
          (sym (
              eval_key-field (eval_or ext doc w) (eval_and ext doc w) (eval_nor ext doc w)
                (eval_field_condition ext doc j w) doc j w
                (subst (λ j'. is_special j' ≡ false) (sym e) special))
            ∙ first))
  eval_query-IsEntry doc (field j w d) key v special h (inr i) =
      let (_, rest) =
        and_then-inv
          (eval_key ext (eval_or ext doc w) (eval_and ext doc w) (eval_nor ext doc w)
            (eval_field_condition ext doc j w) doc j w)
          (eval_query ext doc d) h in
      eval_query-IsEntry doc d key v special rest i

  HasPlainConditions-IsEntry :
      (query : Document) (key : String) (v : Bson)
      → HasPlainConditions ext query
      → IsEntry key v query
      → IsPlainCondition ext v
  HasPlainConditions-IsEntry end key v h i = elim i [ ]
  HasPlainConditions-IsEntry (field j w d) key v h (inl (e, f)) = subst (IsPlainCondition ext) f h.0
  HasPlainConditions-IsEntry (field j w d) key v h (inr i) =
      HasPlainConditions-IsEntry d key v h.1 i

  -- A document that a query holds of is in a partial index that the planner takes for the query: the
  -- index's filter holds of it too. The conditions have no geospatial operators and the filter no
  -- operators of the whole query; the integers compared, the document's included, are ones that a
  -- double holds exactly; and no value or operand of the filter is a zero double, a document or code
  -- with a scope, or an array with one of these, for which `==` can hold of different values.
  pub query_satisfies_partial_filter-implies :
      (doc query pf : Document)
      → HasPlainConditions ext query
      → HasPlainConditions ext pf
      → HasExactConditions ext pf
      → HasFields ext doc pf
      → query_satisfies_partial_filter ext query pf ≡ true
      → eval_query ext doc query ≡ ok true
      → eval_query ext doc pf ≡ ok true
  unfolding query_satisfies_partial_filter eval_query
  query_satisfies_partial_filter-implies doc query end hq hp exact hf s h = refl
  query_satisfies_partial_filter-implies doc query (field k p rest) hq hp exact hf s h =
      elim (Option-cases (ext.get query k)) [
        | inl e ↦ absurd (ground (arith, s, e))
        | inr (w, e) ↦
            let entry = o.get-IsEntry query k w e in
            let (special, safe, more) = hf in
            let one : field_satisfied ext p w ≡ true = ground (arith, s, e) in
            let others : query_satisfies_partial_filter ext query rest ≡ true =
              ground (arith, s, e) in
            let first =
              field_satisfied-implies doc k p w safe hp.0
                (HasPlainConditions-IsEntry query k w hq entry) exact.0 one
                (eval_query-IsEntry doc query k w special h entry) in
            rw
              (
                eval_key-field (eval_or ext doc p) (eval_and ext doc p) (eval_nor ext doc p)
                    (eval_field_condition ext doc k p) doc k p special,
                first,
              )
              (query_satisfies_partial_filter-implies doc query rest hq hp.1 exact.1 more others h)
      ]
