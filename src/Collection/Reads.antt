-- ===== src/Collection/Reads.antt =====
-- Counting, collecting and finding by a scan, against one filter of the table's documents.
use mdb_embedded.Prelude.{
  ℕ, ◌+◌, ◌≡◌, refl, ap, sym, ◌∙◌, Bool, true, false, Option, none, some, List, [], ◌∷◌, ◌++◌,
  length, if◌then◌else◌, arith,
}
use mathlib.Core.List.{append-nil, append_assoc}
use mdb_embedded.Std.Order.{string_ord}
use mdb_embedded.Std.BTreeMap
use mdb_embedded.Bson.{Document, Externals}
use mdb_embedded.Storage.Memory.{Row, MemCursor, rows_or_empty}
use mdb_embedded.Collection.{
  CollectionResult, ok, err, panic, Collection, Store, Services, stop, go,
}
use mdb_embedded.Collection.Crud.{count_round, count_documents}
use mdb_embedded.Collection.Find.{
  find_round, collect_round, find_one_with_collection_scan, collect_collection_scan,
}
use mdb_embedded.Collection.Loop.{Step, done, more, run_rows}
use mdb_embedded.Collection.Scans.{
  then_ok, decoded, matching, scan_step, over_table-scan_step, as_flow,
}

abbrev pub first : List Document → Option Document
first [] = none
first (doc ∷ docs) = some doc

then_ok-same :
    {A B : Type 0} {f g : A → CollectionResult B} (m : CollectionResult A)
    → ((a : A) → f a ≡ g a)
    → then_ok m f ≡ then_ok m g
then_ok-same (ok a) h = h a
then_ok-same (err e) h = refl
then_ok-same panic h = refl

then_ok-ok : {A : Type 0} (m : CollectionResult A) → then_ok m (λ a. ok a) ≡ m
then_ok-ok (ok a) = refl
then_ok-ok (err e) = refl
then_ok-ok panic = refl

module _ (ext : Externals) (svc : Services) (filter : Document) where
  abbrev pub count_hit : Bool → Document → ℕ → Step ℕ
  count_hit hit doc n = more (if hit then n + 1 else n)

  abbrev collect_hit : Bool → Document → List Document → Step (List Document)
  collect_hit hit doc out = more (if hit then out ++ doc ∷ [] else out)

  abbrev find_hit : Bool → Document → Option Document → Step (Option Document)
  find_hit true doc r = done (some doc)
  find_hit false doc r = more r

  run_rows-count :
      (rows : List Row) (n : ℕ) (s : Store)
      → run_rows (scan_step ext svc filter count_hit) rows n s
        ≡ (then_ok (matching ext svc filter rows) (λ docs. ok (n + length docs)), s)
  unfolding run_rows scan_step matching
  run_rows-count [] n s = ap (λ k. (ok k, s)) (omega arith)
  run_rows-count (r ∷ rows) n s =
      ground (arith, run_rows-count rows n s, run_rows-count rows (n + 1) s)

  run_rows-collect :
      (rows : List Row) (out : List Document) (s : Store)
      → run_rows (scan_step ext svc filter collect_hit) rows out s
        ≡ (then_ok (matching ext svc filter rows) (λ docs. ok (out ++ docs)), s)
  unfolding run_rows scan_step matching
  run_rows-collect [] out s = ap (λ l. (ok l, s)) (sym (append-nil out))
  run_rows-collect (r ∷ rows) out s =
      by_document (decoded ext svc r) (λ o. run_rows-collect rows o s) refl
    where
      by_rest :
          (doc : Document) (m : CollectionResult (List Document))
          → ((o : List Document)
              → run_rows (scan_step ext svc filter collect_hit) rows o s
                ≡ (then_ok (matching ext svc filter rows) (λ docs. ok (o ++ docs)), s))
          → decoded ext svc r ≡ ok doc
          → matching ext svc filter rows ≡ m
          → run_rows (scan_step ext svc filter collect_hit) (r ∷ rows) out s
            ≡ (then_ok (matching ext svc filter (r ∷ rows)) (λ docs. ok (out ++ docs)), s)
      by_rest doc (ok docs) onward e f =
          ground
            (arith, e, f, onward out, onward (out ++ doc ∷ []), append_assoc out (doc ∷ []) docs)
      by_rest doc m onward e f = ground (arith, e, f, onward out, onward (out ++ doc ∷ []))

      by_document :
          (d : CollectionResult Document)
          → ((o : List Document)
              → run_rows (scan_step ext svc filter collect_hit) rows o s
                ≡ (then_ok (matching ext svc filter rows) (λ docs. ok (o ++ docs)), s))
          → decoded ext svc r ≡ d
          → run_rows (scan_step ext svc filter collect_hit) (r ∷ rows) out s
            ≡ (then_ok (matching ext svc filter (r ∷ rows)) (λ docs. ok (out ++ docs)), s)
      by_document (ok doc) onward e = by_rest doc (matching ext svc filter rows) onward e refl
      by_document (err x) onward e = rw e refl
      by_document panic onward e = rw e refl

  -- Where every row has a document that can be tested, the first that matches ends the search.
  run_rows-find :
      (rows : List Row) (docs : List Document) (s : Store)
      → matching ext svc filter rows ≡ ok docs
      → run_rows (scan_step ext svc filter find_hit) rows none s ≡ (ok (first docs), s)
  unfolding run_rows scan_step matching
  run_rows-find [] docs s m = ground arith
  run_rows-find (r ∷ rows) docs s m = ground (arith, m, run_rows-find rows docs s)

  find_replies :
      (c : MemCursor) (r : Option Document) (doc : Document) (hit : Bool)
      → (if hit then stop (some doc) else go c r)
        ≡ as_flow ext svc filter find_hit c (find_hit hit doc r)
  find_replies c r doc true = refl
  find_replies c r doc false = refl

  module _ (col : Collection) (s : Store) (rows : List Row) (healthy : s.backend.poisoned ≡ false)
      (held : rows_or_empty (BTreeMap.lookup col.table_name s.backend.tables) ≡ rows) where
    -- Over a lock that is not poisoned, `count_documents` and a collection scan agree: they change
    -- nothing, they fail with the same error if a row has no document or the filter fails on one, and
    -- otherwise the count is the number of the documents collected, those that match in the rows' order.
    pub count_documents-matching :
        (count_documents ext svc col (some filter) s
          ≡ (then_ok (matching ext svc filter rows) (λ docs. ok (length docs)), s))
        × (collect_collection_scan ext svc col filter s ≡ (matching ext svc filter rows, s))
    unfolding count_documents collect_collection_scan count_round collect_round
    count_documents-matching = (
      over_table-scan_step ext svc filter count_hit (λ c n doc hit. go c (if hit then n + 1 else n))
            (λ c n doc hit. refl) col.table_name 0 s rows healthy held
          ∙ (run_rows-count rows 0 s
              ∙ ap (λ x. (x, s))
                  (then_ok-same (matching ext svc filter rows) (λ docs. ap ok (omega arith)))),
      over_table-scan_step ext svc filter collect_hit
            (λ c out doc hit. go c (if hit then out ++ doc ∷ [] else out)) (λ c n doc hit. refl)
            col.table_name [] s rows healthy held
          ∙ (run_rows-collect rows [] s
              ∙ ap (λ x. (x, s)) (then_ok-ok (matching ext svc filter rows))),
    )

    -- Over a lock that is not poisoned, where each row has a document on which the filter does not
    -- fail, a scan for one document gives the first of those that match, or none, and changes nothing.
    pub find_one_with_collection_scan-first :
        (docs : List Document)
        → matching ext svc filter rows ≡ ok docs
        → find_one_with_collection_scan ext svc col filter s ≡ (ok (first docs), s)
    unfolding find_one_with_collection_scan find_round
    find_one_with_collection_scan-first docs m =
        over_table-scan_step ext svc filter find_hit
          (λ c r doc hit. if hit then stop (some doc) else go c r) find_replies col.table_name none
          s rows healthy held
        ∙ run_rows-find rows docs s m
