-- ===== src/Query/Logic.antt =====
-- The logical operators of a query, against one another.
use mdb_embedded.Prelude.{
  ◌≡◌, refl, String, Bool, true, false, not, ◌&&◌, Option, List, [], ◌∷◌, arith, if◌then◌else◌,
}
use mdb_embedded.Bson.{
  Bson, array, document, Items, nil, cons, Document, end, field, Result, ok, err, panic, ◌>>=◌,
  Externals,
}
use mdb_embedded.Query.{
  eval_query, eval_or, eval_nor, eval_and, some_query, no_query, every_operator, eval_not,
  eval_elem_match, eval_operator, eval_key, eval_field_condition,
}

-- The second answer is the negation of the first, or both are errors.
abbrev pub Negates : Result Bool → Result Bool → Type 0
Negates (ok a) (ok b) = b ≡ not a
Negates (err _) (err _) = Unit
Negates panic panic = Unit
Negates _ _ = ⊥

-- The entries of the first document, then those of the second.
abbrev pub append : Document → Document → Document
append end e = e
append (field k v d) e = field k v (append d e)

abbrev pub queries : List Document → Items
queries [] = nil
queries (q ∷ qs) = cons (document q) (queries qs)

abbrev pub append_all : List Document → Document
append_all [] = end
append_all (q ∷ qs) = append q (append_all qs)

module _ (ext : Externals) (doc : Document) where
  Negates-step :
      (r s t : Result Bool)
      → Negates s t
      → Negates (r >>= λ b. if b then ok true else s) (r >>= λ b. if b then ok false else t)
  Negates-step (ok true) s t h = refl
  Negates-step (ok false) s t h = h
  Negates-step (err _) s t h = tt
  Negates-step panic s t h = tt

  no_query-Negates : (qs : Items) → Negates (some_query ext doc qs) (no_query ext doc qs)
  unfolding eval_query
  no_query-Negates nil = refl
  no_query-Negates (cons (document q) rest) =
      Negates-step (eval_query ext doc q) (some_query ext doc rest) (no_query ext doc rest)
        (no_query-Negates rest)
  no_query-Negates (cons _ rest) = tt

  -- `$nor` answers the negation of `$or`, and fails exactly where `$or` does.
  pub eval_nor-Negates :
      (condition : Bson) → Negates (eval_or ext doc condition) (eval_nor ext doc condition)
  unfolding eval_query
  eval_nor-Negates (array qs) = no_query-Negates qs
  eval_nor-Negates _ = tt

  then_step :
      (r s t u : Result Bool)
      → u ≡ (s >>= λ c. if c then t else ok false)
      → (r >>= λ b. if b then u else ok false)
        ≡ ((r >>= λ b. if b then s else ok false) >>= λ c. if c then t else ok false)
  then_step (ok true) s t u h = h
  then_step (ok false) s t u h = refl
  then_step (err _) s t u h = refl
  then_step panic s t u h = refl

  -- A query's entries are an implicit conjunction, in their order.
  pub eval_query-append :
      (q p : Document)
      → eval_query ext doc (append q p)
        ≡ (eval_query ext doc q >>= λ b. if b then eval_query ext doc p else ok false)
  unfolding eval_query
  eval_query-append end p = ground arith
  eval_query-append (field k v d) p =
      then_step
        (eval_key ext (eval_or ext doc v) (eval_and ext doc v) (eval_nor ext doc v)
          (eval_field_condition ext doc k v) doc k v)
        (eval_query ext doc d) (eval_query ext doc p) (eval_query ext doc (append d p))
        (eval_query-append d p)

  -- `$and` over some queries answers, or fails, as the one query that has all their entries.
  pub eval_and-append_all :
      (qs : List Document)
      → eval_and ext doc (array (queries qs)) ≡ eval_query ext doc (append_all qs)
  unfolding eval_query
  eval_and-append_all [] = refl
  eval_and-append_all (q ∷ qs) = rw (eval_query-append q (append_all qs), ← eval_and-append_all qs)

module _ (ext : Externals) (doc : Document) (key : String) (value : Option Bson) where
  -- The answer of one operator, as the query's loops take it.
  unfoldable pub answer : String → Bson → Result Bool
  answer op v =
      eval_operator ext (eval_not ext doc key value v) (eval_elem_match ext value v) doc key value
        op v

  -- Where two operators of one condition give answers, the condition holds if both hold, and under
  -- `$not` it holds only if neither does.
  pub not_of_two :
      (p q : String) (v w : Bson) (a b : Bool)
      → answer p v ≡ ok a
      → answer q w ≡ ok b
      → (every_operator ext doc key value (field p v (field q w end)) ≡ ok (a && b))
        × (eval_not ext doc key value (document (field p v (field q w end))) ≡ ok (not a && not b))
  unfolding answer eval_query
  not_of_two p q v w a b ha hb = (rw (ha, hb) (ground arith), rw (ha, hb) (ground arith))
