-- ===== src/Collection/Deletion.antt =====
-- `delete_many` on a collection without secondary indexes and without an oplog.
use mdb_embedded.Prelude.{
  ℕ, ◌+◌, ◌≡◌, refl, ap, ◌∙◌, Bool, true, false, Option, none, some, List, [], ◌∷◌, inl, inr,
  Bool-cases, Option-cases, length, is_some, String, if◌then◌else◌, arith,
}
use mdb_embedded.Std.Order.{string_ord, bytes_ord}
use mdb_embedded.Std.BTreeMap
use mdb_embedded.Std.BTreeMap.{IsAbove, IsSorted}
use mdb_embedded.Std.BTreeMap.Laws.{lookup-insert}
use mdb_embedded.Bson.{Bson, object_id, string, int32, int64, Document, Externals}
use mdb_embedded.Storage.Memory.{Row, TableStore, rows_or_empty}
use mdb_embedded.Storage.Cursor.{erase_row}
use mdb_embedded.Collection.{CollectionResult, ok, Collection, Store, Services}
use mdb_embedded.Collection.Documents.{id_string, extract_id_string}
use mdb_embedded.Collection.Session.{append_oplog_if_enabled, matches}
use mdb_embedded.Collection.Catalog.{remove_from_indexes, list_indexes, for_specs}
use mdb_embedded.Collection.Crud.{delete_many_round, delete_many_inner, count_documents}
use mdb_embedded.Collection.Loop.{more, run_rows, over_table-run_rows}
use mdb_embedded.Collection.Scans.{decoded, tested, matching}
use mdb_embedded.Collection.Reads.{count_documents-matching}
use mdb_embedded.Collection.Related.{erase_key}
use mdb_embedded.Collection.Removal.{delete_document, delete_step, delete_many_round-Follows}
use mdb_embedded.Collection.Unmatched.{
  is_match, unmatched, AllIdentified, Splits, matching-Splits, remove_hits, remove_hits-unmatched,
  matching-unmatched,
}

module _ (ext : Externals) (svc : Services) (filter : Document) (col : Collection)
    (no_oplog : col.oplog ≡ none) where
  -- The state with other tables.
  abbrev with_tables : Store → List (String × TableStore) → Store
  with_tables s tables = record s { backend = record s.backend { tables = tables } }

  unfoldable erase_hits : List Row → List (String × TableStore) → List (String × TableStore)
  erase_hits [] tables = tables
  erase_hits (r ∷ rows) tables =
      erase_hits rows
        (if is_match ext svc filter r then erase_row col.table_name r.0 tables else tables)

  id_string-ok : (o : Option Bson) → is_some o ≡ true → (k : String) × (id_string ext svc o ≡ ok k)
  unfolding id_string
  id_string-ok none h = ground arith
  id_string-ok (some (object_id oid)) h = (svc.to_hex oid, refl)
  id_string-ok (some (string t)) h = (t, refl)
  id_string-ok (some (int32 i)) h = (svc.int_to_string i, refl)
  id_string-ok (some (int64 i)) h = (svc.int_to_string i, refl)
  id_string-ok (some v) h = (svc.display v, refl)

  -- Without indexes, there is nothing to remove from them.
  remove_from_indexes-none :
      (doc : Document) (s : Store)
      → s.index_cache ≡ some []
      → is_some (ext.get doc "_id") ≡ true
      → remove_from_indexes ext svc col doc s ≡ (ok tt, s)
  unfolding remove_from_indexes list_indexes for_specs extract_id_string
  remove_from_indexes-none doc s cached id =
      let (k, e) = id_string-ok (ext.get doc "_id") id in simp (cached, e) refl

  delete_document-plain :
      (r : Row) (doc : Document) (internal : Bool) (s : Store)
      → s.index_cache ≡ some []
      → s.backend.poisoned ≡ false
      → is_some (ext.get doc "_id") ≡ true
      → delete_document ext svc col r doc internal s
        ≡ (ok tt, with_tables s (erase_row col.table_name r.0 s.backend.tables))
  unfolding delete_document erase_key append_oplog_if_enabled
  delete_document-plain r doc internal s cached healthy id =
      elim (Option-cases (ext.get doc "_id")) [
        | inl e ↦ ground (arith, e, id)
        | inr (v, e) ↦ elim (Bool-cases internal) [
          | inl i ↦ simp (e, i, remove_from_indexes-none doc s cached id, healthy) refl
          | inr i ↦ simp (e, i, remove_from_indexes-none doc s cached id, healthy, no_oplog) refl
        ]
      ]

  module _ (r : Row) (doc : Document) (internal : Bool) (n : ℕ) (s : Store)
      (reads : decoded ext svc r ≡ ok doc) where
    delete_step-hit :
        s.index_cache ≡ some []
        → s.backend.poisoned ≡ false
        → is_some (ext.get doc "_id") ≡ true
        → tested ext svc filter doc ≡ ok true
        → delete_step ext svc col filter internal r n s
          ≡ (ok (more (n + 1)), with_tables s (erase_row col.table_name r.0 s.backend.tables))
    unfolding delete_step matches
    delete_step-hit cached healthy id tests =
        simp (reads, tests, delete_document-plain r doc internal s cached healthy id) refl

    delete_step-miss :
        tested ext svc filter doc ≡ ok false
        → delete_step ext svc col filter internal r n s ≡ (ok (more n), s)
    unfolding delete_step matches
    delete_step-miss tests = simp (reads, tests) refl

  run_rows-more :
      (r : Row) (rows : List Row) (internal : Bool) (n k : ℕ) (s t : Store)
      → delete_step ext svc col filter internal r n s ≡ (ok (more k), t)
      → run_rows (delete_step ext svc col filter internal) (r ∷ rows) n s
        ≡ run_rows (delete_step ext svc col filter internal) rows k t
  unfolding run_rows
  run_rows-more r rows internal n k s t e = rw e refl

  erase_hits-cons :
      (r : Row) (rows : List Row) (hit : Bool) (tables : List (String × TableStore))
      → is_match ext svc filter r ≡ hit
      → erase_hits (r ∷ rows) tables
        ≡ erase_hits rows (if hit then erase_row col.table_name r.0 tables else tables)
  unfolding erase_hits
  erase_hits-cons r rows hit tables e = rw e refl

  -- The count and the tables after the first row, and after all of them.
  same_end :
      (r : Row) (rows : List Row) (docs : List Document) (sp : Splits ext svc filter r rows docs)
      (n : ℕ) (s : Store) (hit : Bool)
      → sp.hit ≡ hit
      → ◌≡◌ {A = CollectionResult ℕ × Store}
          (
            ok ((if hit then n + 1 else n) + length sp.rest),
            with_tables s (
                erase_hits rows (
                  if hit then erase_row col.table_name r.0 s.backend.tables else s.backend.tables)),
          )
          (ok (n + length docs), with_tables s (erase_hits (r ∷ rows) s.backend.tables))
  same_end r rows docs sp n s hit e =
      rw (erase_hits-cons r rows hit s.backend.tables (simp (sp.reads, sp.tests) e)) (
        ap
          (λ k. (
            ok k,
            with_tables s (
                erase_hits rows (
                  if hit then erase_row col.table_name r.0 s.backend.tables else s.backend.tables)),
          ))
          (ground (arith, sp.all, e)))

  run_rows-delete :
      (rows : List Row) (docs : List Document) (internal : Bool) (n : ℕ) (s : Store)
      → s.index_cache ≡ some []
      → s.backend.poisoned ≡ false
      → AllIdentified ext svc filter rows
      → matching ext svc filter rows ≡ ok docs
      → run_rows (delete_step ext svc col filter internal) rows n s
        ≡ (ok (n + length docs), with_tables s (erase_hits rows s.backend.tables))
  unfolding run_rows delete_step erase_hits matches matching
  run_rows-delete [] docs internal n s cached healthy ids m =
      ap (λ k. (ok k, s)) (ground (arith, m))
  run_rows-delete (r ∷ rows) docs internal n s cached healthy ids m =
      let sp : Splits ext svc filter r rows docs = matching-Splits ext svc filter r rows docs m in
      elim (Bool-cases sp.hit) [
        | inl hit ↦
            run_rows-more r rows internal n (n + 1) s
              (with_tables s (erase_row col.table_name r.0 s.backend.tables))
              (delete_step-hit r sp.doc internal n s sp.reads cached healthy (ids.0 sp.doc sp.reads)
                (sp.tests ∙ ap ok hit))
            ∙ (run_rows-delete rows sp.rest internal (n + 1)
                  (with_tables s (erase_row col.table_name r.0 s.backend.tables)) cached healthy
                  ids.1 sp.left
                ∙ same_end r rows docs sp n s true hit)
        | inr miss ↦
            run_rows-more r rows internal n n s s
              (delete_step-miss r sp.doc internal n s sp.reads (sp.tests ∙ ap ok miss))
            ∙ (run_rows-delete rows sp.rest internal n s cached healthy ids.1 sp.left
                ∙ same_end r rows docs sp n s false miss)
      ]

  lookup-erase_row :
      (k : List ℕ) (table : TableStore) (tables : List (String × TableStore))
      → BTreeMap.lookup col.table_name tables ≡ some table
      → BTreeMap.lookup col.table_name (erase_row col.table_name k tables)
        ≡ some (BTreeMap.remove k table)
  lookup-erase_row k table tables there = ground (
    arith,
    there,
    lookup-insert {K = String} col.table_name col.table_name (BTreeMap.remove k table) tables,
    string_ord.cmp_refl col.table_name,
  )

  lookup-erase_hits :
      (rows : List Row) (table : TableStore) (tables : List (String × TableStore))
      → BTreeMap.lookup col.table_name tables ≡ some table
      → BTreeMap.lookup col.table_name (erase_hits rows tables)
        ≡ some (remove_hits ext svc filter rows table)
  unfolding erase_hits remove_hits
  lookup-erase_hits [] table tables there = there
  lookup-erase_hits (r ∷ rows) table tables there = elim (Bool-cases (is_match ext svc filter r)) [
    | inl hit ↦ rw hit (
        lookup-erase_hits rows (BTreeMap.remove r.0 table) (erase_row col.table_name r.0 tables)
          (lookup-erase_row r.0 table tables there))
    | inr miss ↦ rw miss (lookup-erase_hits rows table tables there)
  ]

  -- On a collection whose cached list of secondary indexes is empty, that has no oplog, whose rows are
  -- in order and all hold a document with an `_id` on which the filter does not fail, and over a lock
  -- that is not poisoned, `delete_many_inner` returns the number of the matching documents and leaves
  -- in the collection's table the rows that do not match, so that a count by the same filter gives 0.
  pub delete_many-unmatched :
      (s : Store) (rows : List Row) (docs : List Document) (internal : Bool)
      → s.index_cache ≡ some []
      → s.backend.poisoned ≡ false
      → BTreeMap.lookup col.table_name s.backend.tables ≡ some rows
      → IsSorted rows
      → AllIdentified ext svc filter rows
      → matching ext svc filter rows ≡ ok docs
      → (t : Store) × (delete_many_inner ext svc col filter internal s ≡ (ok (length docs), t))
        × (BTreeMap.lookup col.table_name t.backend.tables ≡ some (unmatched ext svc filter rows))
        × (count_documents ext svc col (some filter) t ≡ (ok 0, t))
  unfolding delete_many_inner
  delete_many-unmatched s rows docs internal cached healthy there sorted ids m = (
    with_tables s (erase_hits rows s.backend.tables),
    over_table-run_rows (delete_many_round ext svc col filter internal)
          (delete_step ext svc col filter internal) col.table_name
          (λ c r n u. delete_many_round-Follows ext svc col filter internal c r n u) 0 s rows
          healthy (ap rows_or_empty there)
        ∙ (run_rows-delete rows docs internal 0 s cached healthy ids m
            ∙ ap (λ k. (ok k, with_tables s (erase_hits rows s.backend.tables))) (omega arith)),
    left_over,
    (count_documents-matching ext svc filter col (with_tables s (erase_hits rows s.backend.tables))
          (unmatched ext svc filter rows) healthy (ap rows_or_empty left_over)).0
        ∙ rw (matching-unmatched ext svc filter rows docs m) refl,
  )
    where
      left_over :
          BTreeMap.lookup col.table_name (erase_hits rows s.backend.tables)
          ≡ some (unmatched ext svc filter rows)
      left_over =
          lookup-erase_hits rows rows s.backend.tables there
          ∙ ap some (remove_hits-unmatched ext svc filter rows sorted)
