-- ===== src/Storage/Runs.antt =====
-- The tables as a map: what a client that opens a cursor for each call reads and leaves.
use Prim.Native.String.{compare}
use mdb_embedded.Prelude.{
  ℕ, ◌≡◌, refl, sym, ap, subst, ◌∙◌, String, false, Option, none, some, List, [], ◌∷◌, arith,
}
use mdb_embedded.Std.Order.{bytes_ord, string_ord, cmp_bytes}
use mdb_embedded.Std.BTreeMap
use mdb_embedded.Std.BTreeMap.{IsSorted}
use mdb_embedded.Std.BTreeMap.Laws.{when_eq, lookup-insert, insert-IsSorted, remove-IsSorted}
use mdb_embedded.Storage.{StorageResult, ok}
use mdb_embedded.Storage.Memory.{TableStore, MemBackend, Opened, rows_or_empty, open_cursor}
use mdb_embedded.Storage.Cursor.{
  set_key_raw, set_value_raw, get_value_raw, effective_key, effective_value, search, insert, remove,
  write_row, erase_row,
}
use mdb_embedded.Storage.View.{
  read, Found, search-Found, insert-write_row, read-write_row, remove-erase_row, read-erase_row,
}

-- A call on a table, by name: `insert`, `remove` or `search` of a cursor that is opened for it.
pub data Op : Type 0 where
  put : String → List ℕ → List ℕ → Op
  take find : String → List ℕ → Op

abbrev at_key : String → List ℕ → MemBackend → Opened
at_key name key b = record { cursor = set_key_raw key (open_cursor name); backend = b }

abbrev at_value : String → List ℕ → List ℕ → MemBackend → Opened
at_value name key value b = record {
  cursor = set_value_raw value (set_key_raw key (open_cursor name));
  backend = b;
}

abbrev ok_value : StorageResult (List ℕ) → Option (List ℕ)
ok_value (ok value) = some value
ok_value _ = none

-- What a client reads off the cursor after a search, if it succeeded.
abbrev reply_of : StorageResult (Unit {0}) → Opened → Option (List ℕ)
reply_of (ok _) s = ok_value (get_value_raw s.cursor)
reply_of _ s = none

abbrev pub run_op : Op → MemBackend → Option (List ℕ) × MemBackend
run_op (put name key value) b = (none, (insert (at_value name key value b)).1.backend)
run_op (take name key) b = (none, (remove (at_key name key b)).1.backend)
run_op (find name key) b = let r = search (at_key name key b) in (reply_of r.0 r.1, r.1.backend)

abbrev pub run_ops : List Op → MemBackend → List (Option (List ℕ)) × MemBackend
run_ops [] b = ([], b)
run_ops (op ∷ ops) b =
    let (reply, b') = run_op op b in let (replies, b'') = run_ops ops b' in (reply ∷ replies, b'')

-- The same calls on a map from a table's name and a key to a value.
abbrev pub Map : Type 0
Map = String → List ℕ → Option (List ℕ)

abbrev pub changed : String → List ℕ → Option (List ℕ) → Map → Map
changed name key value m =
    λ t j. when_eq (compare name t) (when_eq (cmp_bytes key j) value (m t j)) (m t j)

abbrev pub map_op : Op → Map → Option (List ℕ) × Map
map_op (put name key value) m = (none, changed name key (some value) m)
map_op (take name key) m = (none, changed name key none m)
map_op (find name key) m = (m name key, m)

abbrev pub map_ops : List Op → Map → List (Option (List ℕ)) × Map
map_ops [] m = ([], m)
map_ops (op ∷ ops) m =
    let (reply, m') = map_op op m in let (replies, m'') = map_ops ops m' in (reply ∷ replies, m'')

-- The lock is not poisoned, and the rows of every table are in order.
pub record IsHealthy (b : MemBackend) : Type 0 where
  pub healthy : b.poisoned ≡ false
  pub sorted : (name : String) → IsSorted (rows_or_empty (BTreeMap.lookup name b.tables))

abbrev Ends : Op → MemBackend → Option (List ℕ) × MemBackend → Type 0
Ends op b (reply, b') =
    (reply ≡ (map_op op (read b)).0) × (read b' ≡ (map_op op (read b)).1) × IsHealthy b'

abbrev IsDone : Op → MemBackend → Type 0
IsDone op b = Ends op b (run_op op b)

same_map : (m n : Map) → ((t : String) (j : List ℕ) → m t j ≡ n t j) → m ≡ n
same_map m n h i t j = h t j i

write_row-IsSorted :
    (tables : List (String × TableStore)) (name : String) (key value : List ℕ) (t : String)
    → ((u : String) → IsSorted (rows_or_empty (BTreeMap.lookup u tables)))
    → IsSorted (rows_or_empty (BTreeMap.lookup t (write_row name key value tables)))
write_row-IsSorted tables name key value t s = ground (
  arith,
  lookup-insert name t (BTreeMap.insert key value (rows_or_empty (BTreeMap.lookup name tables)))
      tables,
  s t,
  insert-IsSorted key value (rows_or_empty (BTreeMap.lookup name tables)) (s name),
)

erase_row-IsSorted :
    (tables : List (String × TableStore)) (name : String) (key : List ℕ) (t : String)
    → ((u : String) → IsSorted (rows_or_empty (BTreeMap.lookup u tables)))
    → IsSorted (rows_or_empty (BTreeMap.lookup t (erase_row name key tables)))
erase_row-IsSorted tables name key t s = by_table (BTreeMap.lookup name tables) refl
  where
    by_table :
        (o : Option TableStore)
        → BTreeMap.lookup name tables ≡ o
        → IsSorted (rows_or_empty (BTreeMap.lookup t (erase_row name key tables)))
    by_table none e = rw (erase_row, e) (s t)
    by_table (some rows) e = ground (
      arith,
      e,
      lookup-insert name t (BTreeMap.remove key rows) tables,
      s t,
      remove-IsSorted key rows (rw e at (s name)),
    )

run_put :
    (name : String) (key value : List ℕ) (b : MemBackend)
    → IsHealthy b
    → IsDone (put name key value) b
unfolding effective_key effective_value set_value_raw set_key_raw open_cursor
run_put name key value b h =
    subst (λ r. Ends (put name key value) b (none, r.1.backend))
      (sym (insert-write_row (at_value name key value b) key value h.healthy refl refl))
      (
        refl,
        same_map _ _ (λ t j. read-write_row b name key value t j),
        record {
          healthy = h.healthy;
          sorted = λ t. write_row-IsSorted b.tables name key value t h.sorted;
        },
      )

run_take : (name : String) (key : List ℕ) (b : MemBackend) → IsHealthy b → IsDone (take name key) b
unfolding effective_key set_key_raw open_cursor
run_take name key b h =
    subst (λ r. Ends (take name key) b (none, r.1.backend))
      (sym (remove-erase_row (at_key name key b) key h.healthy refl))
      (
        refl,
        same_map _ _ (λ t j. read-erase_row b name key t j (h.sorted name)),
        record {
          healthy = h.healthy;
          sorted = λ t. erase_row-IsSorted b.tables name key t h.sorted;
        },
      )

run_find : (name : String) (key : List ℕ) (b : MemBackend) → IsHealthy b → IsDone (find name key) b
unfolding get_value_raw effective_key set_key_raw open_cursor
run_find name key b h =
    by_found (read b name key) refl (search-Found (at_key name key b) key h.healthy refl)
  where
    by_found :
        (o : Option (List ℕ))
        → read b name key ≡ o
        → Found (at_key name key b) key o
        → IsDone (find name key) b
    by_found none e (_, f) =
        subst (λ r. Ends (find name key) b (reply_of r.0 r.1, r.1.backend)) (sym f) (sym e, refl, h)
    by_found (some value) e f =
        subst (λ r. Ends (find name key) b (reply_of r.0 r.1, r.1.backend)) (sym f) (sym e, refl, h)

run_op-IsDone : (op : Op) (b : MemBackend) → IsHealthy b → IsDone op b
run_op-IsDone (put name key value) b h = run_put name key value b h
run_op-IsDone (take name key) b h = run_take name key b h
run_op-IsDone (find name key) b h = run_find name key b h

-- Over a lock that is not poisoned and tables whose rows are in order, any sequence of insertions,
-- removals and searches, each by a cursor that is opened for it, answers its searches as the same
-- sequence on a map from table names and keys to values does, and leaves the tables holding what
-- that map holds in the end.
pub run_ops-map_ops :
    (ops : List Op) (b : MemBackend)
    → IsHealthy b
    → ((run_ops ops b).0 ≡ (map_ops ops (read b)).0)
      × (read (run_ops ops b).1 ≡ (map_ops ops (read b)).1)
run_ops-map_ops [] b h = (refl, refl)
run_ops-map_ops (op ∷ ops) b h =
    let (reply, view, healthy) = run_op-IsDone op b h in
    let (replies, views) = run_ops-map_ops ops (run_op op b).1 healthy in
    (
      ap (λ r. r ∷ (run_ops ops (run_op op b).1).0) reply
          ∙ ap (λ rs. (map_op op (read b)).0 ∷ rs) (replies ∙ ap (λ m. (map_ops ops m).0) view),
      views ∙ ap (λ m. (map_ops ops m).1) view,
    )
