-- ===== src/Aggregation/Partition.antt =====
-- rust/smongo-engine/src/aggregation/stages.rs: the groups of `$group` against the documents that
-- share the text of their id.
use mathlib.Core.List.{append-nil, append_assoc}
use mdb_embedded.Prelude.{
  ℕ, ◌≡◌, refl, sym, ap, ◌∙◌, String, Option, none, some, List, [], ◌∷◌, ◌++◌, arith,
}
use mdb_embedded.Std.Order.{string_ord}
use mdb_embedded.Std.BTreeMap
use mdb_embedded.Std.BTreeMap.{IsSorted}
use mdb_embedded.Std.BTreeMap.Laws.{when_eq, lookup-insert, lookup-nil, insert-IsSorted}
use mdb_embedded.Bson.{Bson, document, Document, Result, ok, err, panic, ◌>>=◌, Externals}
use mdb_embedded.Aggregation.Stages.{or_err}
use mdb_embedded.Aggregation.Totals.{Formats}
use mdb_embedded.Aggregation.Groups.{
  Groups, bson_to_key_string, joined, group_docs, group_results, stage_group,
}

-- A group's documents.
abbrev pub docs_of : Option (record { 0 : Bson; 1 : List Document }) → Option (List Document)
docs_of none = none
docs_of (some group) = some group.1

-- The documents so far with further ones behind; a group is there once it has a document.
abbrev pub extended : Option (List Document) → List Document → Option (List Document)
extended none [] = none
extended none (doc ∷ docs) = some (doc ∷ docs)
extended (some before) docs = some (before ++ docs)

extended-nil : (before : Option (List Document)) → extended before [] ≡ before
extended-nil none = refl
extended-nil (some before) = ap some (append-nil before)

docs_of-joined :
    (id : Bson) (doc : Document) (group : Option (record { 0 : Bson; 1 : List Document }))
    (docs : List Document)
    → extended (some (joined id doc group).1) docs ≡ extended (docs_of group) (doc ∷ docs)
docs_of-joined id doc none docs = refl
docs_of-joined id doc (some group) docs = ap some (append_assoc group.1 (doc ∷ []) docs)

module _ (ext : Externals) (formats : Formats) (evaluate : Document → Bson → Result Bson)
    (capacity : ℕ) where
  abbrev keep_doc : String → Document → Result Bson → List Document → List Document
  keep_doc key doc (ok v) docs =
      when_eq (string_ord.cmp (bson_to_key_string ext formats evaluate capacity v) key) (doc ∷ docs)
        docs
  keep_doc key doc _ docs = docs

  -- The documents whose id has the text `key`, in their order.
  unfoldable pub docs_with : String → Bson → List Document → List Document
  docs_with key id_expr [] = []
  docs_with key id_expr (doc ∷ docs) =
      keep_doc key doc (evaluate doc id_expr) (docs_with key id_expr docs)

  abbrev added : String → Bson → Document → Groups → Groups
  added key id doc groups = BTreeMap.insert key (joined id doc (BTreeMap.lookup key groups)) groups

  docs_of-added :
      (key : String) (v : Bson) (doc : Document) (docs : List Document) (groups : Groups)
      → extended
          (docs_of (
            BTreeMap.lookup key
              (added (bson_to_key_string ext formats evaluate capacity v) v doc groups)))
          docs
        ≡ extended (docs_of (BTreeMap.lookup key groups)) (keep_doc key doc (ok v) docs)
  docs_of-added key v doc docs groups = ground (
    arith,
    lookup-insert (bson_to_key_string ext formats evaluate capacity v) key
        (joined v doc (BTreeMap.lookup (bson_to_key_string ext formats evaluate capacity v) groups))
        groups,
    string_ord.eq_of_cmp (bson_to_key_string ext formats evaluate capacity v) key,
    docs_of-joined v doc (BTreeMap.lookup key groups) docs,
  )

  -- The groups that gathering ends with, against those it starts with.
  abbrev Gathered : Bson → String → List Document → Groups → Groups → Type 0
  Gathered id_expr key docs groups out =
      IsSorted out
      × (docs_of (BTreeMap.lookup key out)
          ≡ extended (docs_of (BTreeMap.lookup key groups)) (docs_with key id_expr docs))

  added-Gathered :
      (id_expr : Bson) (key : String) (doc : Document) (docs : List Document) (groups out : Groups)
      (r : Result Bson)
      → evaluate doc id_expr ≡ r
      → IsSorted groups
      → ((gs : Groups)
          → IsSorted gs
          → group_docs ext formats evaluate capacity docs id_expr gs ≡ ok out
          → Gathered id_expr key docs gs out)
      → (r >>= λ v.
          group_docs ext formats evaluate capacity docs id_expr
            (added (bson_to_key_string ext formats evaluate capacity v) v doc groups))
        ≡ ok out
      → Gathered id_expr key (doc ∷ docs) groups out
  unfolding docs_with
  added-Gathered id_expr key doc docs groups out (ok v) e s more h =
      let rest =
        more (added (bson_to_key_string ext formats evaluate capacity v) v doc groups)
          (insert-IsSorted (bson_to_key_string ext formats evaluate capacity v)
            (joined v doc
              (BTreeMap.lookup (bson_to_key_string ext formats evaluate capacity v) groups))
            groups s)
          h in
      (
        rest.0,
        rest.1
            ∙ docs_of-added key v doc (docs_with key id_expr docs) groups
            ∙ ap
                (λ r.
                  extended (docs_of (BTreeMap.lookup key groups))
                    (keep_doc key doc r (docs_with key id_expr docs)))
                (sym e),
      )
  added-Gathered id_expr key doc docs groups out (err _) e s more h = ground arith
  added-Gathered id_expr key doc docs groups out panic e s more h = ground arith

  group_docs-from :
      (id_expr : Bson) (key : String) (docs : List Document) (groups out : Groups)
      → IsSorted groups
      → group_docs ext formats evaluate capacity docs id_expr groups ≡ ok out
      → Gathered id_expr key docs groups out
  unfolding group_docs docs_with
  group_docs-from id_expr key [] groups out s h =
      (ground (arith, s), ground (arith, extended-nil (docs_of (BTreeMap.lookup key groups))))
  group_docs-from id_expr key (doc ∷ docs) groups out s h =
      added-Gathered id_expr key doc docs groups out (evaluate doc id_expr) refl s
        (λ gs s h. group_docs-from id_expr key docs gs out s h) h

  -- What `$group` gathers: each text of an id has one group, which holds the documents whose id has
  -- that text, in their order, and there is no group without a document.
  abbrev pub IsPartition : Bson → List Document → Groups → Type 0
  IsPartition id_expr docs groups =
      IsSorted groups
      × ((key : String)
          → docs_of (BTreeMap.lookup key groups) ≡ extended none (docs_with key id_expr docs))

  group_docs-IsPartition :
      (id_expr : Bson) (docs : List Document) (groups : Groups)
      → group_docs ext formats evaluate capacity docs id_expr [] ≡ ok groups
      → IsPartition id_expr docs groups
  group_docs-IsPartition id_expr docs groups h = (
    (group_docs-from id_expr "" docs [] groups tt h).0,
    λ key.
        (group_docs-from id_expr key docs [] groups tt h).1
        ∙ ap (λ m. extended (docs_of m) (docs_with key id_expr docs)) (lookup-nil key),
  )

  -- The groups behind the result of the stage, each of which gives one document.
  pub record Grouping (order : Groups → Groups) (docs : List Document) (id_expr : Bson)
      (group_doc : Document) (results : List Document) : Type 0 where
    pub groups : Groups
    pub partition : IsPartition id_expr docs groups
    pub result : group_results ext formats evaluate capacity group_doc (order groups) ≡ ok results

  group_results-Grouping :
      (order : Groups → Groups) (docs : List Document) (id_expr : Bson) (group_doc : Document)
      (results : List Document) (r : Result Groups)
      → group_docs ext formats evaluate capacity docs id_expr [] ≡ r
      → (r >>= λ groups. group_results ext formats evaluate capacity group_doc (order groups))
        ≡ ok results
      → Grouping order docs id_expr group_doc results
  group_results-Grouping order docs id_expr group_doc results (ok groups) e h = record {
    groups = groups;
    partition = group_docs-IsPartition id_expr docs groups e;
    result = h;
  }
  group_results-Grouping order docs id_expr group_doc results (err _) e h = ground arith
  group_results-Grouping order docs id_expr group_doc results panic e h = ground arith

  -- When `$group` with an `_id` gives results, they are those of the groups that partition its
  -- documents: each text of an id has one group, which holds the documents whose id has that text,
  -- in their order, and every group has a document.
  pub stage_group-Grouping :
      (order : Groups → Groups) (docs : List Document) (group_doc : Document) (id_expr : Bson)
      (results : List Document)
      → ext.get group_doc "_id" ≡ some id_expr
      → stage_group ext formats evaluate capacity order docs (document group_doc) ≡ ok results
      → Grouping order docs id_expr group_doc results
  unfolding stage_group
  stage_group-Grouping order docs group_doc id_expr results e h =
      group_results-Grouping order docs id_expr group_doc results
        (group_docs ext formats evaluate capacity docs id_expr []) refl
        (sym (
            ap
              (λ m. or_err "_id required in $group" m >>= λ id_expr.
                group_docs ext formats evaluate capacity docs id_expr [] >>= λ groups.
                group_results ext formats evaluate capacity group_doc (order groups))
              e)
          ∙ h)
