-- ===== src/Storage/Memory.antt =====
-- rust/smongo-engine/src/storage/memory.rs: the in-memory backend.
-- The backend and its session; the cursor is in the sibling module.

use Prim.Native.String.{◌++◌ as append}
use mdb_embedded.Prelude.{
  ℕ, String, Bool, false, Option, none, some, List, [], map, is_some, if◌then◌else◌,
}
use mdb_embedded.Std.Order.{bytes_ord, string_ord}
use mdb_embedded.Std.BTreeMap
use mdb_embedded.Storage.{StorageError, not_found, other, StorageResult, ok, err, Exec}

abbrev pub Row : Type 0
Row = List ℕ × List ℕ

-- `BTreeMap<Vec<u8>, Vec<u8>>`
abbrev pub TableStore : Type 0
TableStore = List Row

-- `Arc<Mutex<BTreeMap<String, TableStore>>>`; the lock is poisoned once a holder has panicked.
pub record MemBackend : Type 0 where
  pub tables : List (String × TableStore)
  pub poisoned : Bool

pub record MemCursor : Type 0 where
  pub table_name : String
  pub entries : Option (List Row)
  pub position : Option ℕ
  pub current_key : Option (List ℕ)
  pub current_value : Option (List ℕ)
  pub pending_key : Option (List ℕ)
  pub pending_value : Option (List ℕ)

-- A cursor beside the tables that it shares.
pub record Opened : Type 0 where
  pub cursor : MemCursor
  pub backend : MemBackend

abbrev pub lock_error : StorageError
lock_error = other "lock poisoned: poisoned lock: another task failed inside"

unfoldable pub lock_map : MemBackend → StorageResult (List (String × TableStore))
lock_map b = if b.poisoned then err lock_error else ok b.tables

abbrev pub new : MemBackend
new = record { tables = []; poisoned = false }

-- A change of the tables under the lock.
with_lock :
    {A : Type 0}
    → (List (String × TableStore) → StorageResult A × List (String × TableStore))
    → Exec MemBackend A
with_lock f b =
    if b.poisoned
    then (err lock_error, b)
    else ((f b.tables).0, record b { tables = (f b.tables).1 })

unfoldable pub list_tables : Exec MemBackend (List String)
unfolding with_lock
list_tables = with_lock λ tables. (ok (map (λ e. e.0) tables), tables)

-- `tables.entry(name).or_default()`
unfoldable pub or_default : String → List (String × TableStore) → List (String × TableStore)
or_default name tables =
    if is_some (BTreeMap.lookup name tables) then tables else BTreeMap.insert name [] tables

unfoldable pub create_table : String → Exec MemBackend Unit
unfolding with_lock or_default
create_table name = with_lock λ tables. (ok tt, or_default name tables)

unfoldable pub drop_table : String → Exec MemBackend Unit
unfolding with_lock
drop_table name = with_lock λ tables. (ok tt, BTreeMap.remove name tables)

unfoldable pub rename_table : String → String → Exec MemBackend Unit
unfolding with_lock
rename_table from to = with_lock λ tables. elim (BTreeMap.lookup from tables) [
  | none ↦ (err (not_found (append "table " (append from " does not exist"))), tables)
  | some rows ↦ (ok tt, BTreeMap.insert to rows (BTreeMap.remove from tables))
]

unfoldable pub open_cursor : String → MemCursor
open_cursor name = record {
  table_name = name;
  entries = none;
  position = none;
  current_key = none;
  current_value = none;
  pending_key = none;
  pending_value = none;
}

-- Transactions do nothing here.
unfoldable pub in_transaction : MemBackend → Bool
in_transaction b = false

unfoldable pub begin_transaction : Exec MemBackend Unit
begin_transaction b = (ok tt, b)

unfoldable pub commit_transaction : Exec MemBackend Unit
commit_transaction b = (ok tt, b)

unfoldable pub rollback_transaction : Exec MemBackend Unit
rollback_transaction b = (ok tt, b)

-- `unwrap_or_default` of the rows of a table.
abbrev pub rows_or_empty : Option TableStore → TableStore
rows_or_empty none = []
rows_or_empty (some rows) = rows
