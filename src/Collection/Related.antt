-- ===== src/Collection/Related.antt =====
-- Two runs that end in the same state, with values that are related.
use mdb_embedded.Prelude.{ℕ, ◌≡◌, refl, false, String, List, inl, inr, Bool-cases, if◌then◌else◌}
use mdb_embedded.Storage.Memory.{Row, MemCursor, lock_error}
use mdb_embedded.Storage.Cursor.{effective_key, remove, erase_row}
use mdb_embedded.Collection.{
  CollectionError, CollectionResult, ok, err, panic, storage_error, Store, Action, continue, ◌>>=◌,
  on_cursor, Flow, stop, go,
}
use mdb_embedded.Collection.Loop.{Step, done, more, StandsOn, Follows, goes, stops, fails, panics}

pub data Related {A B : Type 0} (P : A → B → Type 0)
    : CollectionResult A × Store → CollectionResult B × Store → Type 0 where
  oks : (a : A) (b : B) (s : Store) → P a b → Related P (ok a, s) (ok b, s)
  errs : (e : CollectionError) (s : Store) → Related P (err e, s) (err e, s)
  panicked : (s : Store) → Related P (panic, s) (panic, s)

pub Related-continue :
    {A B C D : Type 0} {P : A → B → Type 0} {Q : C → D → Type 0} {x : CollectionResult A × Store}
    {y : CollectionResult B × Store} (g : A → Action C) (h : B → Action D)
    → Related P x y
    → ((a : A) (b : B) (s : Store) → P a b → Related Q (g a s) (h b s))
    → Related Q (continue x.0 g x.1) (continue y.0 h y.1)
Related-continue g h (oks a b s p) q = q a b s p
Related-continue g h (errs e s) q = errs e s
Related-continue g h (panicked s) q = panicked s

-- The same first part, as its run and as an action.
pub Related-run :
    {A C D : Type 0} {Q : C → D → Type 0} (x : CollectionResult A × Store) (g : A → Action C)
    (h : A → Action D)
    → ((a : A) (t : Store) → Related Q (g a t) (h a t))
    → Related Q (continue x.0 g x.1) (continue x.0 h x.1)
Related-run (ok a, s) g h q = q a s
Related-run (err e, s) g h q = errs e s
Related-run (panic, s) g h q = panicked s

pub Related-bind :
    {A C D : Type 0} {Q : C → D → Type 0} (m : Action A) (g : A → Action C) (h : A → Action D)
    (s : Store)
    → ((a : A) (t : Store) → Related Q (g a t) (h a t))
    → Related Q ((m >>= g) s) ((m >>= h) s)
Related-bind m g h s q = Related-run (m s) g h q

-- The cursor is where another one was.
pub record SamePlace (c d : MemCursor) : Type 0 where
  pub table : d.table_name ≡ c.table_name
  pub entries : d.entries ≡ c.entries
  pub position : d.position ≡ c.position

-- The round goes on with this value from the cursor's place.
pub data GoesOn {B : Type 0} (c : MemCursor) : Flow B → Step B → Type 0 where
  on : (d : MemCursor) (b : B) → SamePlace c d → GoesOn c (go d b) (more b)
  off : (b : B) → GoesOn c (stop b) (done b)

GoesOn-Follows :
    {B : Type 0} (c : MemCursor) (x : Flow B) (y : Step B) (s : Store)
    → GoesOn c x y
    → Follows c (ok x, s) (ok y, s)
GoesOn-Follows c x y s (on d b p) = goes d b s p.table p.entries p.position
GoesOn-Follows c x y s (off b) = stops b s

pub Related-Follows :
    {B : Type 0} {c : MemCursor} {x : CollectionResult (Flow B) × Store}
    {y : CollectionResult (Step B) × Store}
    → Related (GoesOn c) x y
    → Follows c x y
Related-Follows {c = c} (oks a b s g) = GoesOn-Follows c a b s g
Related-Follows (errs e s) = fails e s
Related-Follows (panicked s) = panics s

-- A method of the cursor that leaves the cursor at its place, and the value it gives.
abbrev pub Keeps : {A : Type 0} → MemCursor → A × MemCursor → A → Type 0
Keeps c (a, d) b = (a ≡ b) × SamePlace c d

-- `remove` of the current row of a table.
unfoldable pub erase_key : String → List ℕ → Action (Unit {0})
erase_key name key s = if s.backend.poisoned then (err (storage_error lock_error), s) else (
  ok tt,
  record s { backend = record s.backend { tables = erase_row name key s.backend.tables } },
)

pub remove-erase_key :
    (name : String) (r : Row) (c : MemCursor) (s : Store)
    → StandsOn name r c
    → Related (Keeps c) (on_cursor c remove s) (erase_key name r.0 s)
unfolding remove erase_key effective_key
remove-erase_key name r c s at_row = elim (Bool-cases s.backend.poisoned) [
  | inl e ↦ simp (at_row.pending, e) (errs (storage_error lock_error) s)
  | inr e ↦
      simp (at_row.pending, at_row.table, e)
        (oks (tt, c) tt
          (record s {
            backend = record { tables = erase_row name r.0 s.backend.tables; poisoned = false };
          })
          (refl, record { table = refl; entries = refl; position = refl }))
]
