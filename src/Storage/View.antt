-- ===== src/Storage/View.antt =====
-- What the tables hold, as one partial function of a table's name and a key, and how the cursor's
-- methods read and change it.
use Prim.Native.String.{compare}
use mdb_embedded.Prelude.{ℕ, ◌≡◌, refl, String, false, Option, none, some, is_some, List, arith}
use mdb_embedded.Std.Order.{bytes_ord, string_ord, cmp_bytes}
use mdb_embedded.Std.BTreeMap
use mdb_embedded.Std.BTreeMap.{IsSorted}
use mdb_embedded.Std.BTreeMap.Laws.{when_eq, lookup-nil, lookup-insert, lookup-remove}
use mdb_embedded.Storage.{StorageError, not_found, ok, err, is_ok}
use mdb_embedded.Storage.Memory.{TableStore, MemBackend, Opened, rows_or_empty, rename_table}
use mdb_embedded.Storage.Cursor.{
  effective_key, effective_value, at_entry, search, insert, remove, write_row, erase_row,
}

-- The value under a key of a table.
unfoldable pub read : MemBackend → String → List ℕ → Option (List ℕ)
read b name key = BTreeMap.lookup key (rows_or_empty (BTreeMap.lookup name b.tables))

-- The entry that is current where a value was found.
abbrev pub moved : Opened → List ℕ → Option (List ℕ) → Opened
moved s key none = s
moved s key (some v) = record s { cursor = at_entry key v s.cursor }

-- With a key at hand and the lock not poisoned, `search` succeeds exactly where the tables hold a
-- value under the cursor's key, and makes that entry the current one; otherwise it changes
-- nothing.
pub search-read :
    (s : Opened) (key : List ℕ)
    → s.backend.poisoned ≡ false
    → effective_key s.cursor ≡ ok key
    → (is_ok (search s).0 ≡ is_some (read s.backend s.cursor.table_name key))
      × ((search s).1 ≡ moved s key (read s.backend s.cursor.table_name key))
unfolding read search BTreeMap.lookup
search-read s key healthy k = by_table (BTreeMap.lookup s.cursor.table_name s.backend.tables) refl
  where
    by_row :
        (rows : TableStore) (o : Option (List ℕ))
        → BTreeMap.lookup s.cursor.table_name s.backend.tables ≡ some rows
        → BTreeMap.lookup key rows ≡ o
        → (is_ok (search s).0 ≡ is_some (read s.backend s.cursor.table_name key))
          × ((search s).1 ≡ moved s key (read s.backend s.cursor.table_name key))
    by_row rows none t r = simp (k, healthy, t, r) (refl, refl)
    by_row rows (some v) t r = simp (k, healthy, t, r) (refl, refl)

    by_table :
        (o : Option TableStore)
        → BTreeMap.lookup s.cursor.table_name s.backend.tables ≡ o
        → (is_ok (search s).0 ≡ is_some (read s.backend s.cursor.table_name key))
          × ((search s).1 ≡ moved s key (read s.backend s.cursor.table_name key))
    by_table none t = simp (k, healthy, t) (refl, refl)
    by_table (some rows) t = by_row rows (BTreeMap.lookup key rows) t refl

-- The outcome of `search` where the tables hold no value, and where they hold one.
abbrev pub Found : Opened → List ℕ → Option (List ℕ) → Type 0
Found s key none = (e : StorageError) × (search s ≡ (err e, s))
Found s key (some v) = search s ≡ (ok tt, moved s key (some v))

pub search-Found :
    (s : Opened) (key : List ℕ)
    → s.backend.poisoned ≡ false
    → effective_key s.cursor ≡ ok key
    → Found s key (read s.backend s.cursor.table_name key)
unfolding read search BTreeMap.lookup
search-Found s key healthy k = by_table (BTreeMap.lookup s.cursor.table_name s.backend.tables) refl
  where
    by_row :
        (rows : TableStore) (o : Option (List ℕ))
        → BTreeMap.lookup s.cursor.table_name s.backend.tables ≡ some rows
        → BTreeMap.lookup key rows ≡ o
        → Found s key (read s.backend s.cursor.table_name key)
    by_row rows none t r = simp (t, r) (not_found "key not found", simp (k, healthy, t, r) refl)
    by_row rows (some v) t r = simp (k, healthy, t, r) refl

    by_table :
        (o : Option TableStore)
        → BTreeMap.lookup s.cursor.table_name s.backend.tables ≡ o
        → Found s key (read s.backend s.cursor.table_name key)
    by_table none t = simp t (not_found "table does not exist", simp (k, healthy, t) refl)
    by_table (some rows) t = by_row rows (BTreeMap.lookup key rows) t refl

pub insert-write_row :
    (s : Opened) (key value : List ℕ)
    → s.backend.poisoned ≡ false
    → effective_key s.cursor ≡ ok key
    → effective_value s.cursor ≡ ok value
    → insert s ≡ (
      ok tt,
      record s {
        backend = record s.backend {
          tables = write_row s.cursor.table_name key value s.backend.tables;
        };
      },
    )
unfolding insert
insert-write_row s key value healthy k v = rw (k, v, healthy)

pub read-write_row :
    (b : MemBackend) (t : String) (key value : List ℕ) (name : String) (j : List ℕ)
    → read (record b { tables = write_row t key value b.tables }) name j
      ≡ when_eq
          (compare t name)
          (when_eq (cmp_bytes key j) (some value) (read b name j))
          (read b name j)
unfolding read
read-write_row b t key value name j = ground (
  arith,
  lookup-insert t name (BTreeMap.insert key value (rows_or_empty (BTreeMap.lookup t b.tables)))
      b.tables,
  string_ord.eq_of_cmp t name,
  lookup-insert key j value (rows_or_empty (BTreeMap.lookup t b.tables)),
)

-- With a key and a value at hand and the lock not poisoned, `insert` puts the value under the key,
-- and changes no other key of any table.
pub read-insert :
    (s : Opened) (key value : List ℕ) (name : String) (j : List ℕ)
    → s.backend.poisoned ≡ false
    → effective_key s.cursor ≡ ok key
    → effective_value s.cursor ≡ ok value
    → read (insert s).1.backend name j
      ≡ when_eq
          (compare s.cursor.table_name name)
          (when_eq (cmp_bytes key j) (some value) (read s.backend name j))
          (read s.backend name j)
read-insert s key value name j healthy k v =
    rw (insert-write_row s key value healthy k v)
      (read-write_row s.backend s.cursor.table_name key value name j)

pub remove-erase_row :
    (s : Opened) (key : List ℕ)
    → s.backend.poisoned ≡ false
    → effective_key s.cursor ≡ ok key
    → remove s ≡ (
      ok tt,
      record s {
        backend = record s.backend { tables = erase_row s.cursor.table_name key s.backend.tables };
      },
    )
unfolding remove
remove-erase_row s key healthy k = rw (k, healthy)

pub read-erase_row :
    (b : MemBackend) (t : String) (key : List ℕ) (name : String) (j : List ℕ)
    → IsSorted (rows_or_empty (BTreeMap.lookup t b.tables))
    → read (record b { tables = erase_row t key b.tables }) name j
      ≡ when_eq (compare t name) (when_eq (cmp_bytes key j) none (read b name j)) (read b name j)
unfolding read
read-erase_row b t key name j sorted = by_table (BTreeMap.lookup t b.tables) refl
  where
    by_table :
        (o : Option TableStore)
        → BTreeMap.lookup t b.tables ≡ o
        → BTreeMap.lookup j (rows_or_empty (BTreeMap.lookup name (erase_row t key b.tables)))
          ≡ when_eq
              (compare t name)
              (when_eq
                (cmp_bytes key j)
                none
                (BTreeMap.lookup j (rows_or_empty (BTreeMap.lookup name b.tables))))
              (BTreeMap.lookup j (rows_or_empty (BTreeMap.lookup name b.tables)))
    by_table none e = ground (arith, e, string_ord.eq_of_cmp t name, lookup-nil {V = List ℕ} j)
    by_table (some rows) e = ground (
      arith,
      lookup-insert t name (BTreeMap.remove key rows) b.tables,
      string_ord.eq_of_cmp t name,
      lookup-remove key j rows (rw e at sorted),
      e,
    )

-- With a key at hand and the lock not poisoned, `remove` takes the key out of a table whose rows
-- are in order, and changes no other key of any table.
pub read-remove :
    (s : Opened) (key : List ℕ) (name : String) (j : List ℕ)
    → s.backend.poisoned ≡ false
    → effective_key s.cursor ≡ ok key
    → IsSorted (rows_or_empty (BTreeMap.lookup s.cursor.table_name s.backend.tables))
    → read (remove s).1.backend name j
      ≡ when_eq
          (compare s.cursor.table_name name)
          (when_eq (cmp_bytes key j) none (read s.backend name j))
          (read s.backend name j)
read-remove s key name j healthy k sorted =
    rw (remove-erase_row s key healthy k)
      (read-erase_row s.backend s.cursor.table_name key name j sorted)

-- Over table names in order and a lock that is not poisoned, `rename_table` moves the rows of a
-- table that is there to the new name and leaves nothing under the old one, if it is another; the
-- other tables stay.
pub read-rename_table :
    (b : MemBackend) (from to : String) (rows : TableStore) (name : String) (j : List ℕ)
    → b.poisoned ≡ false
    → IsSorted b.tables
    → BTreeMap.lookup from b.tables ≡ some rows
    → read (rename_table from to b).1 name j
      ≡ when_eq (compare to name) (read b from j) (when_eq (compare from name) none (read b name j))
unfolding read rename_table
read-rename_table b from to rows name j healthy sorted there = ground (
  arith,
  lookup-nil {V = List ℕ} j,
  there,
  healthy,
  lookup-insert to name rows (BTreeMap.remove from b.tables),
  lookup-remove from name b.tables sorted,
)
