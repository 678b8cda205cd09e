-- ===== src/Collection/Unmatched.antt =====
-- The rows of a table whose documents do not match a filter.
use mdb_embedded.Prelude.{
  ℕ, ◌≡◌, refl, Bool, true, false, List, [], ◌∷◌, is_some, if◌then◌else◌, arith,
}
use mdb_embedded.Std.Order.{string_ord, bytes_ord}
use mdb_embedded.Std.BTreeMap
use mdb_embedded.Std.BTreeMap.{IsAbove, IsSorted}
use mdb_embedded.Bson.{Document, Externals}
use mdb_embedded.Storage.Memory.{Row, TableStore}
use mdb_embedded.Collection.{CollectionResult, ok, Services}
use mdb_embedded.Collection.Scans.{then_ok, decoded, tested, matching}

module _ (ext : Externals) (svc : Services) (filter : Document) where
  abbrev holds : CollectionResult Bool → Bool
  holds (ok b) = b
  holds _ = false

  -- The row's document matches.
  abbrev pub is_match : Row → Bool
  is_match r = holds (then_ok (decoded ext svc r) (tested ext svc filter))

  -- The rows whose documents do not match.
  unfoldable pub unmatched : List Row → List Row
  unmatched [] = []
  unmatched (r ∷ rows) = let rest = unmatched rows in if is_match r then rest else r ∷ rest

  -- Each row's document has an `_id`.
  abbrev pub AllIdentified : List Row → Type 0
  AllIdentified [] = Unit
  AllIdentified (r ∷ rows) =
      ((doc : Document) → decoded ext svc r ≡ ok doc → is_some (ext.get doc "_id") ≡ true)
      × AllIdentified rows

  -- What a filter of rows that does not fail says of the first row.
  pub record Splits (r : Row) (rows : List Row) (docs : List Document) : Type 0 where
    pub doc : Document
    pub hit : Bool
    pub rest : List Document
    pub reads : decoded ext svc r ≡ ok doc
    pub tests : tested ext svc filter doc ≡ ok hit
    pub left : matching ext svc filter rows ≡ ok rest
    pub all : (if hit then doc ∷ rest else rest) ≡ docs

  pub matching-Splits :
      (r : Row) (rows : List Row) (docs : List Document)
      → matching ext svc filter (r ∷ rows) ≡ ok docs
      → Splits r rows docs
  unfolding matching
  matching-Splits r rows docs m = by_document (decoded ext svc r) refl
    where
      by_rest :
          (doc : Document) (hit : Bool) (rest : CollectionResult (List Document))
          → decoded ext svc r ≡ ok doc
          → tested ext svc filter doc ≡ ok hit
          → matching ext svc filter rows ≡ rest
          → Splits r rows docs
      by_rest doc hit (ok rest) e f g = record {
        doc = doc;
        hit = hit;
        rest = rest;
        reads = e;
        tests = f;
        left = g;
        all = ground (arith, m, e, f, g);
      }
      by_rest doc hit other e f g = ground (arith, m, e, f, g)

      by_test :
          (doc : Document) (t : CollectionResult Bool)
          → decoded ext svc r ≡ ok doc
          → tested ext svc filter doc ≡ t
          → Splits r rows docs
      by_test doc (ok hit) e f = by_rest doc hit (matching ext svc filter rows) e f refl
      by_test doc other e f = ground (arith, m, e, f)

      by_document : (d : CollectionResult Document) → decoded ext svc r ≡ d → Splits r rows docs
      by_document (ok doc) e = by_test doc (tested ext svc filter doc) e refl
      by_document other e = ground (arith, m, e)

  -- The rows whose documents match, removed in turn from a table.
  unfoldable pub remove_hits : List Row → TableStore → TableStore
  remove_hits [] table = table
  remove_hits (r ∷ rows) table =
      remove_hits rows (if is_match r then BTreeMap.remove r.0 table else table)

  remove_hits-above :
      (rows : List Row) (j w : List ℕ) (table : TableStore)
      → IsAbove j rows
      → remove_hits rows ((j, w) ∷ table) ≡ (j, w) ∷ remove_hits rows table
  unfolding remove_hits BTreeMap.remove
  remove_hits-above [] j w table above = refl
  remove_hits-above (r ∷ rows) j w table above = ground (
    arith,
    bytes_ord.cmp_flip j r.0,
    above.0,
    remove_hits-above rows j w table above.1,
    remove_hits-above rows j w (BTreeMap.remove r.0 table) above.1,
  )

  pub remove_hits-unmatched :
      (rows : List Row) → IsSorted rows → remove_hits rows rows ≡ unmatched rows
  unfolding remove_hits unmatched BTreeMap.remove
  remove_hits-unmatched [] sorted = refl
  remove_hits-unmatched (r ∷ rows) sorted = ground (
    arith,
    bytes_ord.cmp_refl r.0,
    remove_hits-unmatched rows sorted.1,
    remove_hits-above rows r.0 r.1 rows sorted.0,
  )

  -- None of the rows that are left matches.
  pub matching-unmatched :
      (rows : List Row) (docs : List Document)
      → matching ext svc filter rows ≡ ok docs
      → matching ext svc filter (unmatched rows) ≡ ok []
  unfolding matching unmatched
  matching-unmatched [] docs m = refl
  matching-unmatched (r ∷ rows) docs m =
      let sp : Splits r rows docs = matching-Splits r rows docs m in
      ground (arith, sp.reads, sp.tests, matching-unmatched rows sp.rest sp.left)
