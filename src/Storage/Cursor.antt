-- ===== src/Storage/Cursor.antt =====
-- rust/smongo-engine/src/storage/memory.rs: the cursor of the in-memory backend.
-- A method takes the cursor and the tables that it shares, and returns both.
use mdb_embedded.Prelude.{
  ℕ, ◌+◌, ◌-◌, String, Option, none, some, List, [], ◌∷◌, is_some, length, get_elem?, as_bytes, ltb,
  Ordering, if◌then◌else◌,
}
use mdb_embedded.Std.Order.{bytes_ord, string_ord, cmp_bytes}
use mdb_embedded.Std.BinarySearch.{Search, binary_search_by}
use mdb_embedded.Std.BTreeMap
use mdb_embedded.Storage.{
  StorageError, not_found, other, StorageResult, ok, err, panic, Exec, ◌>>=◌, ◌>>◌,
}
use mdb_embedded.Storage.Memory.{Row, TableStore, MemCursor, Opened, lock_error, rows_or_empty}

unfoldable pub materialize : Exec Opened Unit
materialize s =
    if is_some s.cursor.entries
    then (ok tt, s)
    else if s.backend.poisoned
    then (err lock_error, s)
    else (
      ok tt,
      record s {
        cursor = record s.cursor {
          entries = some (rows_or_empty (BTreeMap.lookup s.cursor.table_name s.backend.tables));
          position = none;
        };
      },
    )

-- `a.or(b)`, or the error.
abbrev first_of_two : Option (List ℕ) → Option (List ℕ) → StorageError → StorageResult (List ℕ)
first_of_two (some a) b e = ok a
first_of_two none (some b) e = ok b
first_of_two none none e = err e

unfoldable pub effective_key : MemCursor → StorageResult (List ℕ)
effective_key c = first_of_two c.pending_key c.current_key (other "no key set on cursor")

unfoldable pub effective_value : MemCursor → StorageResult (List ℕ)
effective_value c = first_of_two c.pending_value c.current_value (other "no value set on cursor")

unfoldable pub set_key_str : String → MemCursor → MemCursor
set_key_str key c = record c { pending_key = some (as_bytes key) }

unfoldable pub set_key_raw : List ℕ → MemCursor → MemCursor
set_key_raw bytes c = record c { pending_key = some bytes }

unfoldable pub set_value_str : String → MemCursor → MemCursor
set_value_str value c = record c { pending_value = some (as_bytes value) }

unfoldable pub set_value_raw : List ℕ → MemCursor → MemCursor
set_value_raw bytes c = record c { pending_value = some bytes }

abbrev positioned : Option (List ℕ) → StorageResult (List ℕ)
positioned none = err (not_found "cursor not positioned")
positioned (some b) = ok b

unfoldable pub get_key_raw : MemCursor → StorageResult (List ℕ)
get_key_raw c = positioned c.current_key

unfoldable pub get_value_raw : MemCursor → StorageResult (List ℕ)
get_value_raw c = positioned c.current_value

abbrev pub lift : {A : Type 0} → (MemCursor → StorageResult A) → Exec Opened A
lift f s = (f s.cursor, s)

abbrev pub locked : Exec Opened (List (String × TableStore))
locked s = (if s.backend.poisoned then err lock_error else ok s.backend.tables, s)

-- The cursor with the entry that was found.
abbrev pub at_entry : List ℕ → List ℕ → MemCursor → MemCursor
at_entry key value c = record c { current_key = some key; current_value = some value }

found_entry : List ℕ → Option (List ℕ) → Exec Opened Unit
found_entry key none s = (err (not_found "key not found"), s)
found_entry key (some v) s = (ok tt, record s { cursor = at_entry key v s.cursor })

in_table : List ℕ → Option TableStore → Exec Opened Unit
in_table key none s = (err (not_found "table does not exist"), s)
in_table key (some table) s = found_entry key (BTreeMap.lookup key table) s

unfoldable pub search : Exec Opened Unit
unfolding in_table found_entry
search = do
  key ← lift effective_key
  tables ← locked
  λ s. in_table key (BTreeMap.lookup s.cursor.table_name tables) s

-- `entries[idx]` becomes the current entry; past the end the index panics.
unfoldable pub place : {A : Type 0} → List Row → ℕ → A → Exec Opened A
place rows idx answer s = elim (get_elem? rows idx) [
  | none ↦ (panic, s)
  | some (k, v) ↦
      (ok answer, record s { cursor = record (at_entry k v s.cursor) { position = some idx } })
]

-- The order of the row at a position against the key that is sought.
abbrev pub row_cmp : List Row → List ℕ → ℕ → Ordering
row_cmp rows seek i = elim (get_elem? rows i) [
  | none ↦ Ordering.gt
  | some (k, v) ↦ cmp_bytes k seek
]

-- `Ok(0)`, `Ok(1)` and `Ok(-1)` of `search_near`.
pub data Position : Type 0 where
  exact larger smaller : Position

unfoldable pub near : List Row → Search → Exec Opened Position
unfolding place
near rows (Search.found idx) = place rows idx exact
near rows (Search.missing idx) =
    if ltb idx (length rows)
    then place rows idx larger
    else if ltb 0 idx
    then place rows (idx - 1) smaller
    else λ s. (err (not_found "no entries near key"), s)

seek_rows : List ℕ → Option (List Row) → Exec Opened Position
seek_rows seek none s = (err (other "not materialized"), s)
seek_rows seek (some []) s = (err (not_found "table is empty"), s)
seek_rows seek (some (row ∷ rows)) s =
    near (row ∷ rows) (binary_search_by (length (row ∷ rows)) (row_cmp (row ∷ rows) seek)) s

-- `self.entries = None`
abbrev pub forget_entries : Exec Opened Unit
forget_entries s = (ok tt, record s { cursor = record s.cursor { entries = none } })

unfoldable pub search_near : Exec Opened Position
unfolding seek_rows
search_near = do
  forget_entries
  materialize
  seek ← lift effective_key
  λ s. seek_rows seek s.cursor.entries s

abbrev pub next_position : Option ℕ → ℕ
next_position none = 0
next_position (some p) = p + 1

advance : Option (List Row) → Exec Opened Unit
advance none s = (err (other "not materialized"), s)
advance (some rows) s = elim (get_elem? rows (next_position s.cursor.position)) [
  | none ↦ (err (not_found "end of cursor"), s)
  | some (k, v) ↦ (
    ok tt,
    record s {
      cursor = record (at_entry k v s.cursor) {
        position = some (next_position s.cursor.position);
        pending_key = some k;
      };
    },
  )
]

unfoldable pub next : Exec Opened Unit
unfolding advance
next = do materialize; λ s. advance s.cursor.entries s

-- `tables.entry(name).or_default().insert(key, value)`
abbrev pub write_row :
    String → List ℕ → List ℕ → List (String × TableStore) → List (String × TableStore)
write_row name key value tables =
    BTreeMap.insert name (BTreeMap.insert key value (rows_or_empty (BTreeMap.lookup name tables)))
      tables

unfoldable pub insert : Exec Opened Unit
insert = do
  key ← lift effective_key
  value ← lift effective_value
  tables ← locked
  λ s. (
    ok tt,
    record s {
      backend = record s.backend { tables = write_row s.cursor.table_name key value tables };
    },
  )

unfoldable pub update : Exec Opened Unit
unfolding insert
update = insert

-- `tables.get_mut(name)`, and the removal from the table if there is one.
abbrev pub erase_row : String → List ℕ → List (String × TableStore) → List (String × TableStore)
erase_row name key tables = elim (BTreeMap.lookup name tables) [
  | none ↦ tables
  | some rows ↦ BTreeMap.insert name (BTreeMap.remove key rows) tables
]

unfoldable pub remove : Exec Opened Unit
remove = do
  key ← lift effective_key
  tables ← locked
  λ s. (
    ok tt,
    record s { backend = record s.backend { tables = erase_row s.cursor.table_name key tables } },
  )

unfoldable pub reset : MemCursor → MemCursor
reset c = record c {
  entries = none;
  position = none;
  current_key = none;
  current_value = none;
  pending_key = none;
  pending_value = none;
}
