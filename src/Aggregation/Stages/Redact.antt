-- ===== src/Aggregation/Stages/Redact.antt =====
-- rust/smongo-engine/src/aggregation/stages.rs: `$redact`.
use mdb_embedded.Prelude.{
  String, str_eq, Option, none, some, List, [], ◌∷◌, has_prefix, if◌then◌else◌,
}
use mdb_embedded.Bson.{
  Bson, string, array, document, Items, nil, cons, Document, end, field, message, Result, ok, err,
  panic, ◌>>=◌, Externals,
}
use mdb_embedded.Aggregation.Stages.{DocStream}

-- What `$$KEEP`, `$$PRUNE` and `$$DESCEND` ask for.
pub data Verdict : Type 0 where
  keep prune descend : Verdict

abbrev verdict_of : Bson → Result Verdict
verdict_of (string s) =
    if str_eq s "$$KEEP"
    then ok keep
    else if str_eq s "$$PRUNE"
    then ok prune
    else if str_eq s "$$DESCEND"
    then ok descend
    else err (message "$redact expression must resolve to $$KEEP, $$PRUNE, or $$DESCEND")
verdict_of _ = err (message "$redact expression must resolve to $$KEEP, $$PRUNE, or $$DESCEND")

abbrev kept_item : Option Document → Items → Items
kept_item none rest = rest
kept_item (some d) rest = cons (document d) rest

module _ (ext : Externals) (evaluate : Document → Bson → Result Bson) where
  -- The expression itself where it is a system variable, else its value.
  unfoldable pub redact_result : Document → Bson → Result Bson
  redact_result doc (string s) =
      if has_prefix s "$$" then ok (string s) else evaluate doc (string s)
  redact_result doc expr = evaluate doc expr

  abbrev put_redacted : Document → String → Option Document → Document
  put_redacted new_doc key none = new_doc
  put_redacted new_doc key (some d) = ext.insert new_doc key (document d)

  abbrev by_verdict : Verdict → Document → (Result Document) → Result (Option Document)
  by_verdict keep doc descended = ok (some doc)
  by_verdict prune doc descended = ok none
  by_verdict descend doc descended = descended >>= λ d. ok (some d)

  -- What becomes of a document whose fields, descended into, give `descended`.
  unfoldable pub redact_with : Bson → Document → Result Document → Result (Option Document)
  unfolding redact_result
  redact_with expr doc descended = do
    result ← redact_result doc expr
    verdict ← verdict_of result
    by_verdict verdict doc descended

  unfoldable mutual
    unfolding redact_with

    -- The loop over the fields, with the document made so far.
    pub redact_fields : Bson → Document → Document → Result Document
    redact_fields expr new_doc end = ok new_doc
    redact_fields expr new_doc (field key (document sub) rest) = do
      redacted ← redact_with expr sub (redact_fields expr end sub)
      redact_fields expr (put_redacted new_doc key redacted) rest
    redact_fields expr new_doc (field key (array arr) rest) = do
      new_arr ← redact_items expr arr
      redact_fields expr (ext.insert new_doc key (array new_arr)) rest
    redact_fields expr new_doc (field key val rest) =
        redact_fields expr (ext.insert new_doc key val) rest

    pub redact_items : Bson → Items → Result Items
    redact_items expr nil = ok nil
    redact_items expr (cons (document sub) rest) = do
      redacted ← redact_with expr sub (redact_fields expr end sub)
      new_arr ← redact_items expr rest
      ok (kept_item redacted new_arr)
    redact_items expr (cons item rest) = do new_arr ← redact_items expr rest; ok (cons item new_arr)

  unfoldable pub redact_doc : Document → Bson → Result (Option Document)
  unfolding redact_with redact_fields
  redact_doc doc expr = redact_with expr doc (redact_fields expr end doc)

  unfoldable pub stage_redact : List Document → Bson → Result (List Document)
  stage_redact [] expr = ok []
  stage_redact (doc ∷ docs) expr = do
    redacted ← redact_doc doc expr
    results ← stage_redact docs expr
    ok (elim redacted [ none ↦ results | some d ↦ d ∷ results ])

  unfoldable pub redact_one : Bson → Result Document → DocStream → DocStream
  redact_one expr (ok doc) rest = elim (redact_doc doc expr) [
    | ok (some redacted) ↦ ok redacted ∷ rest
    | ok none ↦ rest
    | err e ↦ err e ∷ rest
    | panic ↦ panic ∷ rest
  ]
  redact_one expr other rest = other ∷ rest

  unfoldable pub stage_redact_stream : DocStream → Bson → DocStream
  unfolding redact_one
  stage_redact_stream [] expr = []
  stage_redact_stream (result ∷ input) expr =
      redact_one expr result (stage_redact_stream input expr)
