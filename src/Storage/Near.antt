-- ===== src/Storage/Near.antt =====
-- `search_near`: a binary search over the rows of the cursor's table.
use mdb_embedded.Prelude.{
  ℕ, zero, suc, ◌-◌, ◌<◌, ◌≡◌, refl, true, false, Bool-cases, Option, none, some, List, [], ◌∷◌,
  inl, inr, Ordering, length, get_elem?, get_elem?-lt, ltb, arith,
}
use mdb_embedded.Std.Order.{bytes_ord, string_ord, cmp_bytes}
use mdb_embedded.Std.BinarySearch.{
  Search, found, missing, IsPartitioned, Answers, binary_search_by, binary_search_by-Answers,
}
use mdb_embedded.Std.BTreeMap
use mdb_embedded.Std.BTreeMap.{IsAbove, IsSorted}
use mdb_embedded.Storage.{StorageResult, ok}
use mdb_embedded.Storage.Memory.{Row, MemCursor, Opened, rows_or_empty}
use mdb_embedded.Storage.Cursor.{
  Position, exact, larger, smaller, search_near, materialize, near, place, row_cmp, effective_key,
}

-- The cursor stands at the entry of index `i`.
pub record StandsAt (rows : List Row) (i : ℕ) (r : Row) (c : MemCursor) : Type 0 where
  pub there : get_elem? rows i ≡ some r
  pub position : c.position ≡ some i
  pub key : c.current_key ≡ some r.0
  pub value : c.current_value ≡ some r.1

-- What `search_near` says of the rows and of the key sought.
pub data Near (rows : List Row) (seek : List ℕ) (c : MemCursor)
    : StorageResult Position → Type 0 where
  at_key : (i : ℕ) (r : Row) → StandsAt rows i r c → r.0 ≡ seek → Near rows seek c (ok exact)
  after_key :
      (i : ℕ) (r : Row)
      → StandsAt rows i r c
      → cmp_bytes r.0 seek ≡ Ordering.gt
      → ((j : ℕ) → j < i → row_cmp rows seek j ≡ Ordering.lt)
      → Near rows seek c (ok larger)
  before_key :
      (i : ℕ) (r : Row)
      → StandsAt rows i r c
      → length rows ≡ suc i
      → ((j : ℕ) → j < length rows → row_cmp rows seek j ≡ Ordering.lt)
      → Near rows seek c (ok smaller)

above_at :
    (k : List ℕ) (rows : List Row) (j : ℕ) (r : Row)
    → IsAbove k rows
    → get_elem? rows j ≡ some r
    → cmp_bytes k r.0 ≡ Ordering.lt
above_at k [] j r a e = ground arith
above_at k ((i, w) ∷ rows) zero r a e = ground (arith, a.0)
above_at k ((i, w) ∷ rows) (suc j) r a e = above_at k rows j r a.1 e

sorted_lt :
    (rows : List Row) (i j : ℕ) (r t : Row)
    → IsSorted rows
    → i < j
    → get_elem? rows i ≡ some r
    → get_elem? rows j ≡ some t
    → cmp_bytes r.0 t.0 ≡ Ordering.lt
sorted_lt [] i j r t s lt e f = ground arith
sorted_lt ((k, w) ∷ rows) zero zero r t s lt e f = absurd (omega arith)
sorted_lt ((k, w) ∷ rows) (suc i) zero r t s lt e f = absurd (omega arith)
sorted_lt ((k, w) ∷ rows) zero (suc j) r t s lt e f = ground (arith, above_at k rows j t s.0 f)
sorted_lt ((k, w) ∷ rows) (suc i) (suc j) r t s lt e f =
    sorted_lt rows i j r t s.1 (omega arith) e f

pub row_cmp-IsPartitioned :
    (rows : List Row) (seek : List ℕ)
    → IsSorted rows
    → IsPartitioned (length rows) (row_cmp rows seek)
row_cmp-IsPartitioned rows seek s = record {
  less_before = λ i j lt le e.
      let (r, er) = get_elem?-lt rows i (omega arith) in
      let (t, et) = get_elem?-lt rows j le in
      ground (arith, er, et, sorted_lt rows i j r t s lt er et, bytes_ord.lt_trans r.0 t.0 seek);
  greater_after = λ i j lt le e.
      let (r, er) = get_elem?-lt rows i (omega arith) in
      let (t, et) = get_elem?-lt rows j le in
      ground (
        arith,
        er,
        et,
        sorted_lt rows i j r t s lt er et,
        bytes_ord.cmp_flip r.0 seek,
        bytes_ord.cmp_flip t.0 seek,
        bytes_ord.lt_trans seek r.0 t.0,
      );
}

-- The state with the entry at `i` current.
abbrev pub placed : Opened → ℕ → Row → Opened
placed s i (k, v) = record s {
  cursor = record s.cursor { current_key = some k; current_value = some v; position = some i };
}

pub place-placed :
    (rows : List Row) (i : ℕ) (answer : Position) (r : Row) (s : Opened)
    → get_elem? rows i ≡ some r
    → place rows i answer s ≡ (ok answer, placed s i r)
unfolding place
place-placed rows i answer r s e = ground arith

placed-StandsAt :
    (rows : List Row) (i : ℕ) (r : Row) (s : Opened)
    → get_elem? rows i ≡ some r
    → StandsAt rows i r (placed s i r).cursor
placed-StandsAt rows i r s e = record { there = e; position = refl; key = refl; value = refl }

pub near-found : (rows : List Row) (i : ℕ) → near rows (found i) ≡ place rows i exact
unfolding near
near-found rows i = refl

pub near-larger :
    (rows : List Row) (i : ℕ) → i < length rows → near rows (missing i) ≡ place rows i larger
unfolding near
near-larger rows i lt = let e : ltb i (length rows) ≡ true = ground arith in rw e

pub near-smaller :
    (rows : List Row) (i : ℕ)
    → suc i ≡ length rows
    → near rows (missing (suc i)) ≡ place rows i smaller
unfolding near
near-smaller rows i eq =
    let e : ltb (suc i) (length rows) ≡ false = ground arith in
    let f : ltb 0 (suc i) ≡ true = ground arith in
    let g : suc i - 1 ≡ i = omega arith in rw (e, f, g)

Near-placed :
    (rows : List Row) (seek : List ℕ) (i : ℕ) (answer : Position) (r : Row) (s : Opened)
    → get_elem? rows i ≡ some r
    → Near rows seek (placed s i r).cursor (ok answer)
    → Near rows seek (place rows i answer s).1.cursor (place rows i answer s).0
Near-placed rows seek i answer r s e n = rw (place-placed rows i answer r s e) n

near-Near :
    (rows : List Row) (seek : List ℕ) (a : Search) (s : Opened)
    → 0 < length rows
    → Answers (length rows) (row_cmp rows seek) a
    → Near rows seek (near rows a s).1.cursor (near rows a s).0
near-Near rows seek (found i) s some_rows ans =
    let (r, e) = get_elem?-lt rows i ans.0 in
    rw (near-found rows i) (
      Near-placed rows seek i exact r s e (
        at_key i r (placed-StandsAt rows i r s e)
          (bytes_ord.eq_of_cmp r.0 seek (ground (arith, e, ans.1)))))
near-Near rows seek (missing zero) s some_rows ans =
    let (r, e) = get_elem?-lt rows 0 some_rows in
    rw (near-larger rows 0 some_rows) (
      Near-placed rows seek 0 larger r s e (
        after_key 0 r (placed-StandsAt rows 0 r s e)
          (ground (arith, e, ans.2 0 (omega arith) some_rows)) ans.1))
near-Near rows seek (missing (suc i)) s some_rows ans =
    elim (Bool-cases (ltb (suc i) (length rows))) [
      | inl less ↦
          let lt : suc i < length rows = ground arith in
          let (r, e) = get_elem?-lt rows (suc i) lt in
          rw (near-larger rows (suc i) lt) (
            Near-placed rows seek (suc i) larger r s e (
              after_key (suc i) r (placed-StandsAt rows (suc i) r s e)
                (ground (arith, e, ans.2 (suc i) (omega arith) lt)) ans.1))
      | inr last ↦
          let eq : suc i ≡ length rows = ground (arith, ans.0) in
          let (r, e) = get_elem?-lt rows i (omega arith) in
          rw (near-smaller rows i eq) (
            Near-placed rows seek i smaller r s e (
              before_key i r (placed-StandsAt rows i r s e) (omega arith)
                (λ j lt. ans.1 j (omega arith))))
    ]

effective_key-entries :
    (c : MemCursor) (rows : Option (List Row))
    → effective_key (record c { entries = rows; position = none }) ≡ effective_key c
unfolding effective_key
effective_key-entries c rows = refl

pub search_near-near :
    (s : Opened) (seek : List ℕ) (row : Row) (rows : List Row)
    → s.backend.poisoned ≡ false
    → effective_key s.cursor ≡ ok seek
    → rows_or_empty (BTreeMap.lookup s.cursor.table_name s.backend.tables) ≡ row ∷ rows
    → search_near s
      ≡ near
          (row ∷ rows)
          (binary_search_by (length (row ∷ rows)) (row_cmp (row ∷ rows) seek))
          (record s { cursor = record s.cursor { entries = some (row ∷ rows); position = none } })
unfolding search_near materialize
search_near-near s seek row rows healthy k held = simp (healthy, held, effective_key-entries, k)

-- With a key at hand and the lock not poisoned, over a table whose rows are in order and not none,
-- `search_near` succeeds: it stands at the key if the table has it, else at the first larger key,
-- else at the last row.
pub search_near-Near :
    (s : Opened) (seek : List ℕ) (row : Row) (rows : List Row)
    → s.backend.poisoned ≡ false
    → effective_key s.cursor ≡ ok seek
    → rows_or_empty (BTreeMap.lookup s.cursor.table_name s.backend.tables) ≡ row ∷ rows
    → IsSorted (row ∷ rows)
    → Near (row ∷ rows) seek (search_near s).1.cursor (search_near s).0
search_near-Near s seek row rows healthy k held sorted =
    rw (search_near-near s seek row rows healthy k held) (
      near-Near (row ∷ rows) seek
        (binary_search_by (length (row ∷ rows)) (row_cmp (row ∷ rows) seek))
        (record s { cursor = record s.cursor { entries = some (row ∷ rows); position = none } })
        (omega arith)
        (binary_search_by-Answers (length (row ∷ rows)) (row_cmp (row ∷ rows) seek)
          (row_cmp-IsPartitioned (row ∷ rows) seek sorted)))
