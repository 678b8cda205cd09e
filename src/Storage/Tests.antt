-- ===== src/Storage/Tests.antt =====
-- The in-memory backend at concrete tables, and the theorems at inputs that meet their hypotheses.
use mdb_embedded.Prelude.{ℕ, ◌≡◌, refl, false, none, some, is_some, List, [], ◌∷◌, arith}
use mdb_embedded.Std.Order.{cmp_bytes, string_ord, bytes_ord}
use mdb_embedded.Std.BTreeMap
use mdb_embedded.Std.BTreeMap.{IsSorted}
use mdb_embedded.Storage.{is_ok}
use mdb_embedded.Storage.Memory.{Row, MemBackend, MemCursor, Opened, open_cursor}
use mdb_embedded.Storage.Cursor.{
  search, search_near, insert, remove, effective_key, effective_value, set_key_raw, set_value_raw,
}
use mdb_embedded.Storage.View.{read, moved, search-read, read-insert, read-remove}
use mdb_embedded.Storage.Runs.{Op, put, take, find, run_ops, map_ops, IsHealthy, run_ops-map_ops}
use mdb_embedded.Storage.Scan.{scan, scan-rows}
use mdb_embedded.Storage.Near.{Near, search_near-Near}

program : Unit {0}
unfolding BTreeMap.lookup effective_key effective_value open_cursor set_key_raw set_value_raw
    cmp_bytes BTreeMap.insert BTreeMap.remove
program = tt

abbrev row1 : Row
row1 = (1 ∷ [], 10 ∷ [])

abbrev row3 : Row
row3 = (3 ∷ [], 30 ∷ [])

abbrev rows : List Row
rows = row1 ∷ row3 ∷ []

abbrev backend : MemBackend
backend = record { tables = ("t", rows) ∷ []; poisoned = false }

abbrev at_key : List ℕ → MemCursor
at_key k = record {
  table_name = "t";
  entries = none;
  position = none;
  current_key = none;
  current_value = none;
  pending_key = some k;
  pending_value = some (20 ∷ []);
}

abbrev there : Opened
there = record { cursor = at_key (3 ∷ []); backend = backend }

abbrev between : Opened
between = record { cursor = at_key (2 ∷ []); backend = backend }

abbrev shut : Opened
shut = record { cursor = open_cursor "t"; backend = backend }

rows-IsSorted : IsSorted rows
unfolding cmp_bytes
rows-IsSorted = ((ground arith, tt), (tt, tt))

search-read_example :
    (is_ok (search there).0 ≡ is_some (read backend "t" (3 ∷ [])))
    × ((search there).1 ≡ moved there (3 ∷ []) (read backend "t" (3 ∷ [])))
unfolding program
search-read_example = search-read there (3 ∷ []) refl refl

read-insert_example : read (insert between).1.backend "t" (2 ∷ []) ≡ some (20 ∷ [])
unfolding program
read-insert_example = read-insert between (2 ∷ []) (20 ∷ []) "t" (2 ∷ []) refl refl refl

read-remove_example : read (remove there).1.backend "t" (3 ∷ []) ≡ none
unfolding program
read-remove_example = read-remove there (3 ∷ []) "t" (3 ∷ []) refl refl rows-IsSorted

scan-rows_example : scan 3 shut ≡ rows
unfolding program
scan-rows_example = scan-rows 3 shut rows refl refl refl (ground arith)

abbrev filled : Opened
filled = record shut { cursor = record shut.cursor { entries = some rows } }

search_near-Near_example : Near rows (2 ∷ []) (search_near between).1.cursor (search_near between).0
unfolding program
search_near-Near_example =
    search_near-Near between (2 ∷ []) row1 (row3 ∷ []) refl refl refl rows-IsSorted

backend-IsHealthy : IsHealthy backend
unfolding BTreeMap.lookup
backend-IsHealthy = record { healthy = refl; sorted = λ name. ground (arith, rows-IsSorted) }

abbrev ops : List Op
ops =
    put "t" (2 ∷ []) (20 ∷ [])
    ∷ find "t" (2 ∷ [])
    ∷ take "t" (3 ∷ [])
    ∷ find "t" (3 ∷ [])
    ∷ find "u" (2 ∷ [])
    ∷ []

run_ops-map_ops_example :
    ((run_ops ops backend).0 ≡ none ∷ some (20 ∷ []) ∷ none ∷ none ∷ none ∷ [])
    × (read (run_ops ops backend).1 ≡ (map_ops ops (read backend)).1)
unfolding program read
run_ops-map_ops_example = run_ops-map_ops ops backend backend-IsHealthy
