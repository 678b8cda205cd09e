-- ===== src/Aggregation/Merging.antt =====
-- The merging of the leading `$match` stages of a pipeline, against running them one by one.
use text.Mathlib.TextEquality.{eq_iff}
use mdb_embedded.Prelude.{
  ℕ, ◌≡◌, refl, sym, ap, subst, ◌∙◌, String, str_eq, Bool, true, false, Bool-cases, Option-cases,
  inl, inr, Option, none, some, List, [], ◌∷◌, Ordering, if◌then◌else◌, arith,
}
use mdb_embedded.Bson.{
  Bson, array, document, nil, cons, Document, end, field, Result, ok, err, panic, ◌>>=◌, Externals,
  IsMap,
}
use mdb_embedded.Query.{eval_query, eval_key}
use mdb_embedded.Query.Logic.{append, eval_and-append_all, eval_query-append}
use mdb_embedded.Update.Order.{has_key}
use mdb_embedded.Aggregation.Stages.{DocStream}
use mdb_embedded.Aggregation.Stages.Match.{
  match_one, match_each, stage_match_stream, has_overlap, insert_all, merge_match_filters,
  leading_match, merged_with, optimize_from, optimize_pipeline,
}
use mdb_embedded.Aggregation.Pipeline.{
  check_first, misplaced, sort_then_limit, run_stage, execute_stage_stream, run_stages,
  run_pipeline_stages,
}

-- The documented order of `bson::Document`: a new key comes last, and the first entry is found.
pub record IsIndexMap (ext : Externals) : Type 0 where
  pub insert-new :
      (d : Document) (k : String) (v : Bson)
      → ext.get d k ≡ none
      → ext.insert d k v ≡ append d (field k v end)
  pub get-first : (k : String) (v : Bson) (d : Document) → ext.get (field k v d) k ≡ some v

abbrev pub HasDistinctKeys : Document → Type 0
HasDistinctKeys end = Unit
HasDistinctKeys (field k v d) = (has_key d k ≡ false) × HasDistinctKeys d

append_end : (d : Document) → append d end ≡ d
append_end end = refl
append_end (field k v d) = ap (field k v) (append_end d)

append_assoc : (c d e : Document) → append (append c d) e ≡ append c (append d e)
append_assoc end d e = refl
append_assoc (field k v c) d e = ap (field k v) (append_assoc c d e)

bind_ok : (r : Result Bool) → (r >>= λ b. if b then ok true else ok false) ≡ r
bind_ok (ok true) = refl
bind_ok (ok false) = refl
bind_ok (err _) = refl
bind_ok panic = refl

abbrev Leading : (Document → Type 0) → Type 0 → Option Document → Type 0
Leading P rest none = Unit
Leading P rest (some filter) = P filter × rest

abbrev keep_if : Document → Result Bool → DocStream → DocStream
keep_if doc r rest = elim r [
  | ok hit ↦ if hit then ok doc ∷ rest else rest
  | err e ↦ err e ∷ rest
  | panic ↦ panic ∷ rest
]

of_document :
    (v : Bson) (o : Option Bson) (filter : Document)
    → o ≡ some v
    → (elim o [ some (document f) ↦ some f | _ ↦ none ]) ≡ some filter
    → v ≡ document filter
of_document v none filter e h = absurd (ground (arith, h))
of_document v (some (document d)) filter e h = ground (arith, e, h)
of_document v (some _) filter e h = absurd (ground (arith, h))

misplaced-rest :
    (stage : Document) (rest : List Document)
    → misplaced (stage ∷ rest) ≡ none
    → misplaced rest ≡ none
unfolding misplaced
misplaced-rest stage rest h = ground (arith, h)

misplaced-none :
    (stage : Document) (rest : List Document)
    → check_first (stage ∷ rest) ≡ ok tt
    → misplaced rest ≡ none
misplaced-none stage rest h = elim (Option-cases (misplaced rest)) [
  | inl e ↦ e
  | inr (name, e) ↦ absurd (ground (arith, e, h))
]

check_first-ok :
    (pipeline : List Document) → misplaced pipeline ≡ none → check_first pipeline ≡ ok tt
check_first-ok [] h = refl
check_first-ok (stage ∷ rest) h = rw (check_first, misplaced-rest stage rest h) refl

module _ (ext : Externals) where
  -- The filters that the first stages of a pipeline give to be merged.
  abbrev pub LeadingFilters : (Document → Type 0) → List Document → Type 0
  LeadingFilters P [] = Unit
  LeadingFilters P (stage ∷ rest) = Leading P (LeadingFilters P rest) (leading_match ext stage)

  abbrev pub filtered : Option Document → DocStream → DocStream
  filtered none s = s
  filtered (some filter) s = match_each ext s filter

module _ (ext : Externals) (m : IsMap ext) (im : IsIndexMap ext) where
  has_overlap-insert :
      (a b : Document) (k : String) (v : Bson)
      → has_overlap ext a b ≡ false
      → has_key b k ≡ false
      → has_overlap ext (ext.insert a k v) b ≡ false
  unfolding has_overlap
  has_overlap-insert a end k v h n = refl
  has_overlap-insert a (field j w b) k v h n = ground (
    arith,
    m.contains_key-get (ext.insert a k v) j,
    m.contains_key-get a j,
    m.get-insert a k j v,
    eq_iff k j,
    eq_iff j k,
    has_overlap-insert a b k v,
    h,
    n,
  )

  insert_all-append :
      (a b : Document)
      → has_overlap ext a b ≡ false
      → HasDistinctKeys b
      → insert_all ext a b ≡ append a b
  unfolding has_overlap insert_all
  insert_all-append a end h n = sym (append_end a)
  insert_all-append a (field k v b) h n = rw (
    insert_all-append (ext.insert a k v) b (has_overlap-insert a b k v (ground (arith, h)) n.0) n.1,
    im.insert-new a k v (ground (arith, h, m.contains_key-get a k, Option-cases (ext.get a k))),
    append_assoc a (field k v end) b,
  )

  -- The merged filter asks for both, the first of them first.
  eval_query-merge :
      (doc a b : Document)
      → HasDistinctKeys b
      → eval_query ext doc (merge_match_filters ext a b)
        ≡ (eval_query ext doc a >>= λ x. if x then eval_query ext doc b else ok false)
  unfolding merge_match_filters eval_query eval_key
  eval_query-merge doc a b n = elim (Bool-cases (has_overlap ext a b)) [
    | inl p ↦
        let both =
          eval_and-append_all ext doc (a ∷ b ∷ [])
          ∙ ap (λ c. eval_query ext doc (append a c)) (append_end b)
          ∙ eval_query-append ext doc a b in
        rw
          (
            p,
            im.insert-new end "$and" (array (cons (document a) (cons (document b) nil)))
                (m.get-new "$and"),
            both,
          )
          (bind_ok (eval_query ext doc a >>= λ x. if x then eval_query ext doc b else ok false))
    | inr q ↦ rw (q, insert_all-append a b q n, eval_query-append ext doc a b)
  ]

  match_twice :
      (doc : Document) (t : DocStream) (b : Document) (r : Result Bool)
      → match_each ext (keep_if doc r t) b
        ≡ keep_if doc (r >>= λ x. if x then eval_query ext doc b else ok false) (match_each ext t b)
  unfolding match_each match_one
  match_twice doc t b (ok true) = refl
  match_twice doc t b (ok false) = refl
  match_twice doc t b (err _) = refl
  match_twice doc t b panic = refl

  match_each-merge :
      (s : DocStream) (a b : Document)
      → HasDistinctKeys b
      → match_each ext (match_each ext s a) b ≡ match_each ext s (merge_match_filters ext a b)
  unfolding match_each match_one
  match_each-merge [] a b n = refl
  match_each-merge (ok doc ∷ s) a b n =
      match_twice doc (match_each ext s a) b (eval_query ext doc a)
      ∙ ap (λ r. keep_if doc r (match_each ext (match_each ext s a) b))
          (sym (eval_query-merge doc a b n))
      ∙ ap (keep_if doc (eval_query ext doc (merge_match_filters ext a b)))
          (match_each-merge s a b n)
  match_each-merge (err e ∷ s) a b n = ap (λ r. err e ∷ r) (match_each-merge s a b n)
  match_each-merge (panic ∷ s) a b n = ap (λ r. panic ∷ r) (match_each-merge s a b n)

  optimize_from-none :
      (prev : Option Document) (stage : Document) (rest : List Document)
      → leading_match ext stage ≡ none
      → optimize_from ext prev (stage ∷ rest) ≡ (prev, stage ∷ rest)
  unfolding optimize_from
  optimize_from-none prev stage rest e = rw (optimize_from, e) refl

  optimize_from-some :
      (prev : Option Document) (stage : Document) (rest : List Document) (filter : Document)
      → leading_match ext stage ≡ some filter
      → optimize_from ext prev (stage ∷ rest)
        ≡ optimize_from ext (some (merged_with ext prev filter)) rest
  unfolding optimize_from
  optimize_from-some prev stage rest filter e = rw (optimize_from, e) refl

  leading_match-field :
      (k : String) (v : Bson) (d filter : Document)
      → leading_match ext (field k v d) ≡ some filter
      → (k ≡ "$match") × (v ≡ document filter)
  unfolding leading_match
  leading_match-field k v d filter e = elim (Bool-cases (str_eq k "$match")) [
    | inl p ↦
        let q = (eq_iff k "$match").0 p in
        (
          q,
          of_document v (ext.get (field k v d) "$match") filter
              (ap (λ j. ext.get (field k v d) j) (sym q) ∙ im.get-first k v d)
              (ground (arith, e, p)),
        )
    | inr p ↦ absurd (ground (arith, e, p))
  ]

  filtered-merged :
      (prev : Option Document) (filter : Document) (s : DocStream)
      → HasDistinctKeys filter
      → filtered ext (some (merged_with ext prev filter)) s
        ≡ filtered ext (some filter) (filtered ext prev s)
  filtered-merged none filter s n = refl
  filtered-merged (some prev) filter s n = sym (match_each-merge s prev filter n)

  abbrev left_of : record { 0 : Option Document; 1 : List Document } → List Document
  left_of optimized = optimized.1

  optimize_from-misplaced :
      (prev : Option Document) (pipeline : List Document)
      → misplaced pipeline ≡ none
      → misplaced (optimize_from ext prev pipeline).1 ≡ none
  unfolding optimize_from
  optimize_from-misplaced prev [] h = h
  optimize_from-misplaced prev (stage ∷ rest) h = elim (Option-cases (leading_match ext stage)) [
    | inl e ↦ ap (λ r. misplaced (left_of r)) (optimize_from-none prev stage rest e) ∙ h
    | inr (filter, e) ↦
        ap (λ r. misplaced (left_of r)) (optimize_from-some prev stage rest filter e)
        ∙ optimize_from-misplaced (some (merged_with ext prev filter)) rest
            (misplaced-rest stage rest h)
  ]

  -- The stages that are left pass the check too.
  optimize_from-check_first :
      (prev : Option Document) (pipeline : List Document)
      → check_first pipeline ≡ ok tt
      → check_first (optimize_from ext prev pipeline).1 ≡ ok tt
  unfolding optimize_from
  optimize_from-check_first prev [] h = refl
  optimize_from-check_first prev (stage ∷ rest) h = elim (Option-cases (leading_match ext stage)) [
    | inl e ↦ ap (λ r. check_first (left_of r)) (optimize_from-none prev stage rest e) ∙ h
    | inr (filter, e) ↦
        ap (λ r. check_first (left_of r)) (optimize_from-some prev stage rest filter e)
        ∙ check_first-ok (optimize_from ext (some (merged_with ext prev filter)) rest).1 (
            optimize_from-misplaced (some (merged_with ext prev filter)) rest
              (misplaced-none stage rest h))
  ]

  module _ (evaluate : Document → Bson → Result Bson) (size : Document → ℕ)
      (select_nth : ℕ → (ℕ → ℕ → Ordering) → List ℕ → List ℕ)
      (other : String → Bson → DocStream → Result DocStream) where
    run_stages-match :
        (s : DocStream) (stage : Document) (rest : List Document) (ml : Option ℕ)
        (filter : Document)
        → leading_match ext stage ≡ some filter
        → run_stages ext evaluate size select_nth other s (stage ∷ rest) ml
          ≡ run_stages ext evaluate size select_nth other (match_each ext s filter) rest ml
    unfolding run_stages execute_stage_stream run_stage sort_then_limit stage_match_stream
        leading_match
    run_stages-match s end rest ml filter e = ground (arith, e)
    run_stages-match s (field k v d) [] ml filter e =
        let (p, q) = leading_match-field k v d filter e in rw (p, q) refl
    run_stages-match s (field k v d) (end ∷ rest) ml filter e =
        let (p, q) = leading_match-field k v d filter e in rw (p, q) refl
    run_stages-match s (field k v d) (field j w c ∷ rest) ml filter e =
        let (p, q) = leading_match-field k v d filter e in rw (p, q) refl

    abbrev run_after :
        DocStream → Option ℕ → record { 0 : Option Document; 1 : List Document } → Result DocStream
    run_after s ml (filter, rest) =
        run_stages ext evaluate size select_nth other (filtered ext filter s) rest ml

    optimize_from-same :
        (prev : Option Document) (s : DocStream) (pipeline : List Document) (ml : Option ℕ)
        → LeadingFilters ext HasDistinctKeys pipeline
        → run_after s ml (optimize_from ext prev pipeline) ≡ run_after s ml (prev, pipeline)
    unfolding optimize_from
    optimize_from-same prev s [] ml h = refl
    optimize_from-same prev s (stage ∷ rest) ml h = elim (Option-cases (leading_match ext stage)) [
      | inl e ↦ ap (run_after s ml) (optimize_from-none prev stage rest e)
      | inr (filter, e) ↦
          let (n, more) =
            subst (Leading HasDistinctKeys (LeadingFilters ext HasDistinctKeys rest)) e h in
          ap (run_after s ml) (optimize_from-some prev stage rest filter e)
          ∙ optimize_from-same (some (merged_with ext prev filter)) s rest ml more
          ∙ ap (λ t. run_stages ext evaluate size select_nth other t rest ml)
              (filtered-merged prev filter s n)
          ∙ sym (run_stages-match (filtered ext prev s) stage rest ml filter e)
    ]

    -- Where the pipeline passes the check that no stage but the first is `$vectorSearch` or `$geoNear`,
    -- and each of the leading `$match` filters has every key once: the documents that the merged filter
    -- lets through, run through the stages that are left, give what the pipeline gives.
    pub optimize_pipeline-same :
        (s : DocStream) (pipeline : List Document) (ml : Option ℕ)
        → check_first pipeline ≡ ok tt
        → LeadingFilters ext HasDistinctKeys pipeline
        → run_pipeline_stages ext evaluate size select_nth other
            (filtered ext (optimize_pipeline ext pipeline).0 s)
            (optimize_pipeline ext pipeline).1
            ml
          ≡ run_pipeline_stages ext evaluate size select_nth other s pipeline ml
    unfolding optimize_pipeline run_pipeline_stages
    optimize_pipeline-same s pipeline ml c h =
        rw (c, optimize_from-check_first none pipeline c) (optimize_from-same none s pipeline ml h)
