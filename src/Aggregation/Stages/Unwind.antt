-- ===== src/Aggregation/Stages/Unwind.antt =====
-- rust/smongo-engine/src/aggregation/stages.rs: `$unwind`.
-- An error of `set_value` or `unset_value` is dropped, as the code drops it.
use mdb_embedded.Prelude.{
  ℕ, ◌+◌, pos, String, Bool, true, false, Option, none, some, List, [], ◌∷◌, ◌++◌, strip_prefix,
}
use mdb_embedded.Bson.{
  Bson, string, array, document, boolean, null, int64, Items, nil, cons, Document, message, Result,
  ok, err, ◌>>=◌, unwrap_or, Externals,
}
use mdb_embedded.Paths.{get_value, set_value, unset_value}
use mdb_embedded.Aggregation.Stages.{DocStream}

-- The path, `preserveNullAndEmptyArrays` and `includeArrayIndex`.
pub record UnwindSpec : Type 0 where
  pub path : String
  pub preserve_null : Bool
  pub include_index : Option String

-- `s.strip_prefix('$').unwrap_or(s)`
abbrev pub without_dollar : String → String
without_dollar s = elim (strip_prefix s "$") [ none ↦ s | some p ↦ p ]

abbrev pub as_str : Option Bson → Option String
as_str (some (string s)) = some s
as_str _ = none

abbrev bool_or_false : Option Bson → Bool
bool_or_false (some (boolean b)) = b
bool_or_false _ = false

module _ (ext : Externals) where
  unfoldable pub parse_unwind_spec : Bson → Result UnwindSpec
  parse_unwind_spec (string s) =
      ok (record { path = without_dollar s; preserve_null = false; include_index = none })
  parse_unwind_spec (document d) = elim (as_str (ext.get d "path")) [
    | none ↦ err (message "$unwind requires path")
    | some path ↦ ok (record {
      path = without_dollar path;
      preserve_null = bool_or_false (ext.get d "preserveNullAndEmptyArrays");
      include_index = as_str (ext.get d "includeArrayIndex");
    })
  ]
  parse_unwind_spec _ = err (message "$unwind requires string or document")

  abbrev pub put_index : Option String → Bson → Document → Document
  put_index none index doc = doc
  put_index (some idx_field) index doc = ext.insert doc idx_field index

  -- The document with the value at the path, and with the index.
  unfoldable pub with_item : UnwindSpec → Document → Bson → Bson → Result Document
  with_item spec doc item index = do
    new_doc ← unwrap_or doc (set_value ext doc spec.path item)
    ok (put_index spec.include_index index new_doc)

  unfoldable pub without_path : UnwindSpec → Document → Result Document
  without_path spec doc = do
    new_doc ← unwrap_or doc (unset_value ext doc spec.path)
    ok (put_index spec.include_index null new_doc)

  abbrev when : Bool → Result Document → DocStream
  when true r = r ∷ []
  when false r = []

  -- The loop over all the items.
  unfoldable pub unwind_items : UnwindSpec → Document → ℕ → Items → DocStream
  unwind_items spec doc i nil = []
  unwind_items spec doc i (cons item rest) =
      with_item spec doc item (int64 (pos i)) ∷ unwind_items spec doc (i + 1) rest

  -- What the batch form gives for one document.
  unfoldable pub unwind_doc : UnwindSpec → Document → Option Bson → DocStream
  unwind_doc spec doc (some (array nil)) = when spec.preserve_null (without_path spec doc)
  unwind_doc spec doc (some (array (cons item rest))) = unwind_items spec doc 0 (cons item rest)
  unwind_doc spec doc (some null) =
      when spec.preserve_null (ok (put_index spec.include_index null doc))
  unwind_doc spec doc none = when spec.preserve_null (ok (put_index spec.include_index null doc))
  unwind_doc spec doc (some scalar) = with_item spec doc scalar null ∷ []

  -- The loop over `take(len - 1)`, and the last item behind it, which takes the document itself.
  unfoldable pub unwind_all_but_last : UnwindSpec → Document → ℕ → Bson → Items → DocStream
  unwind_all_but_last spec doc i item nil = with_item spec doc item (int64 (pos i)) ∷ []
  unwind_all_but_last spec doc i item (cons next rest) =
      with_item spec doc item (int64 (pos i)) ∷ unwind_all_but_last spec doc (i + 1) next rest

  -- What the stream form gives for one document.
  unfoldable pub unwind_single_doc : UnwindSpec → Document → Option Bson → DocStream
  unwind_single_doc spec doc (some (array nil)) = when spec.preserve_null (without_path spec doc)
  unwind_single_doc spec doc (some (array (cons item rest))) =
      unwind_all_but_last spec doc 0 item rest
  unwind_single_doc spec doc (some null) =
      when spec.preserve_null (ok (put_index spec.include_index null doc))
  unwind_single_doc spec doc none =
      when spec.preserve_null (ok (put_index spec.include_index null doc))
  unwind_single_doc spec doc (some scalar) = with_item spec doc scalar null ∷ []

  -- The results pushed one by one, before those of the rest.
  unfoldable pub push_all : DocStream → Result (List Document) → Result (List Document)
  push_all [] rest = rest
  push_all (new_doc ∷ new_docs) rest = do
    doc ← new_doc
    results ← push_all new_docs rest
    ok (doc ∷ results)

  unfoldable pub unwind_docs : UnwindSpec → List Document → Result (List Document)
  unfolding push_all
  unwind_docs spec [] = ok []
  unwind_docs spec (doc ∷ docs) =
      push_all (unwind_doc spec doc (get_value ext doc spec.path)) (unwind_docs spec docs)

  unfoldable pub stage_unwind : List Document → Bson → Result (List Document)
  stage_unwind docs spec = do s ← parse_unwind_spec spec; unwind_docs s docs

  unfoldable pub unwind_one : UnwindSpec → Result Document → DocStream
  unwind_one spec (ok doc) = unwind_single_doc spec doc (get_value ext doc spec.path)
  unwind_one spec other = other ∷ []

  unfoldable pub unwind_each : UnwindSpec → DocStream → DocStream
  unfolding unwind_one
  unwind_each spec [] = []
  unwind_each spec (result ∷ input) = unwind_one spec result ++ unwind_each spec input

  unfoldable pub stage_unwind_stream : DocStream → Bson → Result DocStream
  stage_unwind_stream input spec = do s ← parse_unwind_spec spec; ok (unwind_each s input)
