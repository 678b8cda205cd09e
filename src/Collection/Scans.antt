-- ===== src/Collection/Scans.antt =====
-- The reads over the whole table as one filter of its documents.
use mdb_embedded.Prelude.{◌≡◌, refl, Bool, false, List, [], ◌∷◌, String, if◌then◌else◌}
use mdb_embedded.Std.Order.{string_ord}
use mdb_embedded.Std.BTreeMap
use mdb_embedded.Bson.{Document, Externals}
use mdb_embedded.Storage.Memory.{Row, MemCursor, rows_or_empty}
use mdb_embedded.Storage.Cursor.{get_value_raw}
use mdb_embedded.Query.{eval_query}
use mdb_embedded.Collection.{
  CollectionResult, ok, err, panic, deserialization_error, query_error, Store, Services, Action,
  continue, ◌>>=◌, pure, of_result, Flow, stop, go,
}
use mdb_embedded.Collection.Session.{read_document, matches, deserialize_document, over_table}
use mdb_embedded.Collection.Loop.{
  Step, done, more, run_rows, StandsOn, Follows, goes, stops, fails, panics, over_table-run_rows,
}

-- A result of a computation that reads no state.
abbrev pub then_ok :
    {A B : Type 0} → CollectionResult A → (A → CollectionResult B) → CollectionResult B
then_ok (ok a) f = f a
then_ok (err e) f = err e
then_ok panic f = panic

module _ (ext : Externals) (svc : Services) where
  -- The document of a row, and whether it matches.
  abbrev pub decoded : Row → CollectionResult Document
  decoded r = of_result deserialization_error (svc.from_reader r.1)

  abbrev pub tested : Document → Document → CollectionResult Bool
  tested filter doc = of_result query_error (eval_query ext doc filter)

  -- The documents of the rows that match the filter, in the order of the rows; the first error ends it.
  unfoldable pub matching : Document → List Row → CollectionResult (List Document)
  matching filter [] = ok []
  matching filter (r ∷ rows) = then_ok (decoded r) λ doc.
      then_ok (tested filter doc)
        λ hit. then_ok (matching filter rows) λ docs. ok (if hit then doc ∷ docs else docs)

  pub read_document-decoded :
      (name : String) (r : Row) (c : MemCursor) (s : Store)
      → StandsOn name r c
      → read_document svc ext c s ≡ (decoded r, s)
  unfolding read_document deserialize_document get_value_raw
  read_document-decoded name r c s at_row = rw (at_row.value) refl

  -- A round that reads the document under the cursor and decides by whether it matches.
  module _ {B : Type 0} (filter : Document) (decide : Bool → Document → B → Step B) where
    abbrev pub as_flow : MemCursor → Step B → Flow B
    as_flow c (done b) = stop b
    as_flow c (more b) = go c b

    abbrev decided : Document → B → CollectionResult (Step B)
    decided doc b = then_ok (tested filter doc) (λ hit. ok (decide hit doc b))

    unfoldable pub scan_step : Row → B → Action (Step B)
    scan_step r b s = (then_ok (decoded r) (λ doc. decided doc b), s)

    module _ (reply : MemCursor → B → Document → Bool → Flow B)
        (replies : (c : MemCursor) (b : B) (doc : Document) (hit : Bool)
          → reply c b doc hit ≡ as_flow c (decide hit doc b)) where
      abbrev scan_round : MemCursor → B → Action (Flow B)
      scan_round c b =
          read_document svc ext c
          >>= (λ doc. matches svc ext doc filter >>= (λ hit. pure (reply c b doc hit)))

      as_flow-Follows :
          (c : MemCursor) (step : Step B) (s : Store)
          → Follows c (ok (as_flow c step), s) (ok step, s)
      as_flow-Follows c (done b) s = stops b s
      as_flow-Follows c (more b) s = goes c b s refl refl refl

      matches-Follows :
          (c : MemCursor) (doc : Document) (b : B) (s : Store) (tests : CollectionResult Bool)
          → Follows c
              (continue tests (λ hit. pure (reply c b doc hit)) s)
              (then_ok tests (λ hit. ok (decide hit doc b)), s)
      matches-Follows c doc b s (ok hit) =
          rw (replies c b doc hit) (as_flow-Follows c (decide hit doc b) s)
      matches-Follows c doc b s (err e) = fails e s
      matches-Follows c doc b s panic = panics s

      decoded-Follows :
          (c : MemCursor) (b : B) (s : Store) (docs : CollectionResult Document)
          → Follows c
              (continue docs
                (λ doc. matches svc ext doc filter >>= (λ hit. pure (reply c b doc hit)))
                s)
              (then_ok docs (λ doc. decided doc b), s)
      unfolding matches
      decoded-Follows c b s (ok doc) = matches-Follows c doc b s (tested filter doc)
      decoded-Follows c b s (err e) = fails e s
      decoded-Follows c b s panic = panics s

      pub scan_round-Follows :
          (name : String) (c : MemCursor) (r : Row) (b : B) (s : Store)
          → StandsOn name r c
          → Follows c (scan_round c b s) (scan_step r b s)
      unfolding scan_step
      scan_round-Follows name c r b s at_row =
          rw (read_document-decoded name r c s at_row) (decoded-Follows c b s (decoded r))

      -- The loop over a table with such rounds.
      pub over_table-scan_step :
          (name : String) (b : B) (s : Store) (rows : List Row)
          → s.backend.poisoned ≡ false
          → rows_or_empty (BTreeMap.lookup name s.backend.tables) ≡ rows
          → over_table name scan_round b s ≡ run_rows scan_step rows b s
      over_table-scan_step name b s rows healthy held =
          over_table-run_rows scan_round scan_step name (scan_round-Follows name) b s rows healthy
            held
