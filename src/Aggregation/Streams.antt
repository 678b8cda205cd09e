-- ===== src/Aggregation/Streams.antt =====
-- The stages over streams, against the stages over lists of documents.
use mdb_embedded.Prelude.{
  ℕ, zero, suc, ◌+◌, pos, ◌≡◌, refl, sym, ap, ◌∙◌, String, Option, none, some, List, [], ◌∷◌, ◌++◌,
  take, drop, as_usize,
}
use mdb_embedded.Bson.{
  Bson, array, int64, Items, nil, cons, Document, end, field, Result, ok, err, panic, ◌>>=◌,
  unwrap_or, Externals, IsMap,
}
use mdb_embedded.Paths.{set_value, get_value}
use mdb_embedded.Paths.Set.{get_value-set_value}
use mdb_embedded.Aggregation.Stages.{
  DocStream, of_docs, collect, or_err, as_int, as_document, stage_limit, stage_skip,
  stage_limit_stream, stage_skip_stream,
}
use mdb_embedded.Aggregation.Stages.Unwind.{
  UnwindSpec, parse_unwind_spec, with_item, unwind_items, unwind_doc, unwind_all_but_last,
  unwind_single_doc, push_all, unwind_docs, stage_unwind, unwind_one, unwind_each,
  stage_unwind_stream,
}
use mdb_embedded.Aggregation.Stages.Rewrite.{
  unset_fields, map_docs, map_stream, unset_each, stage_unset, stage_unset_stream, add_each_field,
  stage_add_fields, evaluate_fields, set_evaluated, add_fields_to, stage_add_fields_stream,
  new_root_expr, replace_root, stage_replace_root, stage_replace_root_stream,
}
use mdb_embedded.Aggregation.Stages.Redact.{
  redact_doc, redact_one, stage_redact, stage_redact_stream,
}

bind_err {ℓ} :
    {A B : Type ℓ} (r : Result A) (f g : A → Result B)
    → ((a : A) → f a ≡ g a)
    → (r >>= f) ≡ (r >>= g)
bind_err (ok a) f g h = h a
bind_err (err _) f g h = refl
bind_err panic f g h = refl

bind_ok {ℓ} : {A : Type ℓ} (r : Result A) → (r >>= λ a. ok a) ≡ r
bind_ok (ok a) = refl
bind_ok (err _) = refl
bind_ok panic = refl

pub collect-of_docs : (docs : List Document) → collect (of_docs docs) ≡ ok docs
unfolding collect
collect-of_docs [] = refl
collect-of_docs (doc ∷ docs) = rw (collect-of_docs docs) refl

collect-map_stream :
    (change : Document → Result Document) (docs : List Document)
    → collect (map_stream change (of_docs docs)) ≡ map_docs change docs
unfolding collect map_docs
collect-map_stream change [] = refl
collect-map_stream change (doc ∷ docs) = rw (collect-map_stream change docs) refl

then_collect :
    {A : Type 0} (r : Result A) (f : A → DocStream) (g : A → Result (List Document))
    → ((a : A) → collect (f a) ≡ g a)
    → ((r >>= λ a. ok (f a)) >>= collect) ≡ (r >>= g)
then_collect (ok a) f g h = h a
then_collect (err _) f g h = refl
then_collect panic f g h = refl

map_docs-same :
    (f g : Document → Result Document) (docs : List Document)
    → ((doc : Document) → f doc ≡ g doc)
    → map_docs f docs ≡ map_docs g docs
unfolding map_docs
map_docs-same f g [] h = refl
map_docs-same f g (doc ∷ docs) h = rw (h doc, map_docs-same f g docs h) refl

take-of_docs : (n : ℕ) (docs : List Document) → take n (of_docs docs) ≡ of_docs (take n docs)
take-of_docs zero docs = refl
take-of_docs (suc n) [] = refl
take-of_docs (suc n) (doc ∷ docs) = ap (λ r. ok doc ∷ r) (take-of_docs n docs)

drop-of_docs : (n : ℕ) (docs : List Document) → drop n (of_docs docs) ≡ of_docs (drop n docs)
drop-of_docs zero docs = refl
drop-of_docs (suc n) [] = refl
drop-of_docs (suc n) (doc ∷ docs) = drop-of_docs n docs

module _ (ext : Externals) where
  collect-push_all : (s t : DocStream) → collect (s ++ t) ≡ push_all ext s (collect t)
  unfolding collect push_all
  collect-push_all [] t = refl
  collect-push_all (r ∷ s) t = rw (collect-push_all s t) refl

  unwind_items-last :
      (spec : UnwindSpec) (doc : Document) (i : ℕ) (item : Bson) (rest : Items)
      → unwind_all_but_last ext spec doc i item rest ≡ unwind_items ext spec doc i (cons item rest)
  unfolding unwind_all_but_last unwind_items
  unwind_items-last spec doc i item nil = refl
  unwind_items-last spec doc i item (cons next rest) =
      ap (λ r. with_item ext spec doc item (int64 (pos i)) ∷ r)
        (unwind_items-last spec doc (i + 1) next rest)

  unwind_doc-single :
      (spec : UnwindSpec) (doc : Document) (v : Option Bson)
      → unwind_single_doc ext spec doc v ≡ unwind_doc ext spec doc v
  unfolding unwind_single_doc unwind_doc
  unwind_doc-single spec doc (some (array nil)) = refl
  unwind_doc-single spec doc (some (array (cons item rest))) =
      unwind_items-last spec doc 0 item rest
  unwind_doc-single spec doc (some _) = refl
  unwind_doc-single spec doc none = refl

  collect-unwind_each :
      (spec : UnwindSpec) (docs : List Document)
      → collect (unwind_each ext spec (of_docs docs)) ≡ unwind_docs ext spec docs
  unfolding unwind_each unwind_docs unwind_one collect
  collect-unwind_each spec [] = refl
  collect-unwind_each spec (doc ∷ docs) =
      ap (λ s. collect (s ++ unwind_each ext spec (of_docs docs)))
        (unwind_doc-single spec doc (get_value ext doc spec.path))
      ∙ collect-push_all (unwind_doc ext spec doc (get_value ext doc spec.path))
          (unwind_each ext spec (of_docs docs))
      ∙ ap (push_all ext (unwind_doc ext spec doc (get_value ext doc spec.path)))
          (collect-unwind_each spec docs)

  module _ (m : IsMap ext) (evaluate : Document → Bson → Result Bson) where
    -- One field's value is written before or after the others are evaluated: writing never fails.
    add_step :
        (k : String) (new_doc : Document) (r : Result Bson)
        (es : Result (List (record { 0 : String; 1 : Bson })))
        → ((r >>= λ val. es >>= λ rest. ok ((k, val) ∷ rest)) >>= λ evaluated.
            set_evaluated ext evaluate evaluated new_doc)
          ≡ (r >>= λ val. unwrap_or new_doc (set_value ext new_doc k val) >>= λ nd.
              es >>= λ rest. set_evaluated ext evaluate rest nd)
    unfolding set_evaluated
    add_step k new_doc (ok val) (ok rest) = refl
    add_step k new_doc (ok val) (err e) =
        let (d', done, _) = get_value-set_value ext m new_doc k val in rw (done) refl
    add_step k new_doc (ok val) panic =
        let (d', done, _) = get_value-set_value ext m new_doc k val in rw (done) refl
    add_step k new_doc (err e) es = refl
    add_step k new_doc panic es = refl

    add_fields_to-each :
        (doc new_doc fields : Document)
        → (evaluate_fields ext evaluate doc fields >>= λ evaluated.
            set_evaluated ext evaluate evaluated new_doc)
          ≡ add_each_field ext evaluate doc new_doc fields
    unfolding evaluate_fields set_evaluated add_each_field
    add_fields_to-each doc new_doc end = refl
    add_fields_to-each doc new_doc (field k v d) =
        add_step k new_doc (evaluate doc v) (evaluate_fields ext evaluate doc d)
        ∙ bind_err (evaluate doc v)
            (λ val. unwrap_or new_doc (set_value ext new_doc k val) >>= λ nd.
              evaluate_fields ext evaluate doc d >>= λ rest. set_evaluated ext evaluate rest nd)
            (λ val. unwrap_or new_doc (set_value ext new_doc k val) >>= λ nd.
              add_each_field ext evaluate doc nd d)
            (λ val.
              bind_err (unwrap_or new_doc (set_value ext new_doc k val))
                (λ nd.
                  evaluate_fields ext evaluate doc d >>= λ rest. set_evaluated ext evaluate rest nd)
                (λ nd. add_each_field ext evaluate doc nd d) (λ nd. add_fields_to-each doc nd d))

    collect-emit :
        (r : Result (Option Document)) (s : DocStream)
        → collect (elim r [
          | ok (some redacted) ↦ ok redacted ∷ s
          | ok none ↦ s
          | err e ↦ err e ∷ s
          | panic ↦ panic ∷ s
        ])
          ≡ (r >>= λ redacted.
              collect s >>= λ results. ok (elim redacted [ none ↦ results | some d ↦ d ∷ results ]))
    unfolding collect
    collect-emit (ok (some redacted)) s = refl
    collect-emit (ok none) s = sym (bind_ok (collect s))
    collect-emit (err e) s = refl
    collect-emit panic s = refl

    collect-redact :
        (docs : List Document) (expr : Bson)
        → collect (stage_redact_stream ext evaluate (of_docs docs) expr)
          ≡ stage_redact ext evaluate docs expr
    unfolding stage_redact_stream stage_redact redact_one collect
    collect-redact [] expr = refl
    collect-redact (doc ∷ docs) expr =
        collect-emit (redact_doc ext evaluate doc expr)
          (stage_redact_stream ext evaluate (of_docs docs) expr)
        ∙ bind_err (redact_doc ext evaluate doc expr)
            (λ redacted.
              collect (stage_redact_stream ext evaluate (of_docs docs) expr) >>= λ results.
              ok (elim redacted [ none ↦ results | some d ↦ d ∷ results ]))
            (λ redacted. stage_redact ext evaluate docs expr >>= λ results.
              ok (elim redacted [ none ↦ results | some d ↦ d ∷ results ]))
            (λ redacted.
              ap
                (λ r. r >>= λ results. ok (elim redacted [ none ↦ results | some d ↦ d ∷ results ]))
                (collect-redact docs expr))

    -- Over a stream of documents, `$limit`, `$skip`, `$unwind`, `$addFields`, `$unset`,
    -- `$replaceRoot` and `$redact` collect to what they give for the list of the documents, errors
    -- included.
    pub streams_collect :
        (docs : List Document) (spec : Bson)
        → ((stage_limit_stream (of_docs docs) spec >>= collect) ≡ stage_limit docs spec)
          × ((stage_skip_stream (of_docs docs) spec >>= collect) ≡ stage_skip docs spec)
          × ((stage_unwind_stream ext (of_docs docs) spec >>= collect) ≡ stage_unwind ext docs spec)
          × ((stage_add_fields_stream ext evaluate (of_docs docs) spec >>= collect)
              ≡ stage_add_fields ext evaluate docs spec)
          × ((stage_unset_stream ext (of_docs docs) spec >>= collect) ≡ stage_unset ext docs spec)
          × ((stage_replace_root_stream ext evaluate (of_docs docs) spec >>= collect)
              ≡ stage_replace_root ext evaluate docs spec)
          × (collect (stage_redact_stream ext evaluate (of_docs docs) spec)
              ≡ stage_redact ext evaluate docs spec)
    unfolding stage_limit_stream stage_skip_stream stage_unwind_stream stage_add_fields_stream
        stage_unset_stream stage_replace_root_stream stage_limit stage_skip stage_unwind
        stage_add_fields stage_unset stage_replace_root add_fields_to
    streams_collect docs spec = (
      then_collect (or_err "$limit requires number" (as_int spec))
          (λ n. take (as_usize n) (of_docs docs)) (λ n. ok (take (as_usize n) docs))
          (λ n.
            ap collect (take-of_docs (as_usize n) docs) ∙ collect-of_docs (take (as_usize n) docs)),
      then_collect (or_err "$skip requires number" (as_int spec))
          (λ n. drop (as_usize n) (of_docs docs)) (λ n. ok (drop (as_usize n) docs))
          (λ n.
            ap collect (drop-of_docs (as_usize n) docs) ∙ collect-of_docs (drop (as_usize n) docs)),
      then_collect (parse_unwind_spec ext spec) (λ s. unwind_each ext s (of_docs docs))
          (λ s. unwind_docs ext s docs) (λ s. collect-unwind_each s docs),
      then_collect (or_err "$addFields requires document" (as_document spec))
          (λ fields. map_stream (add_fields_to ext evaluate fields) (of_docs docs))
          (λ fields. map_docs (λ doc. add_each_field ext evaluate doc doc fields) docs)
          (λ fields.
            collect-map_stream (add_fields_to ext evaluate fields) docs
            ∙ map_docs-same (add_fields_to ext evaluate fields)
                (λ doc. add_each_field ext evaluate doc doc fields) docs
                (λ doc. add_fields_to-each doc doc fields)),
      then_collect (unset_fields spec) (λ names. map_stream (unset_each ext names) (of_docs docs))
          (λ names. map_docs (unset_each ext names) docs)
          (λ names. collect-map_stream (unset_each ext names) docs),
      collect-map_stream (replace_root ext evaluate (new_root_expr ext evaluate spec)) docs,
      collect-redact docs spec,
    )
