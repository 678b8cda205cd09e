-- ===== src/Storage.antt =====
-- rust/smongo-engine/src/storage/mod.rs: the errors and results of every storage backend.
pub mod Memory
pub mod Cursor
pub mod View
pub mod Runs
pub mod Scan
pub mod Near
mod Tests
use mdb_embedded.Prelude.{String, Bool, true, false}

pub data StorageError : Type 0 where
  not_found duplicate_key other : String → StorageError

-- `StorageResult<T>`, and a panic.
pub data StorageResult (A : Type 0) : Type 0 where
  ok : A → StorageResult A
  err : StorageError → StorageResult A
  panic : StorageResult A

-- A method that may change `S` before it fails.
abbrev pub Exec : Type 0 → Type 0 → Type 0
Exec S A = S → StorageResult A × S

infixl 10 ◌>>=◌ ◌>>◌
abbrev pub continue : {S A B : Type 0} → StorageResult A → (A → Exec S B) → Exec S B
continue (ok a) f s = f a s
continue (err e) f s = (err e, s)
continue panic f s = (panic, s)

abbrev pub ◌>>=◌ : {S A B : Type 0} → Exec S A → (A → Exec S B) → Exec S B
◌>>=◌ m f s = continue (m s).0 f (m s).1

abbrev pub ◌>>◌ : {S A B : Type 0} → Exec S A → Exec S B → Exec S B
m >> n = m >>= λ _. n

abbrev pub is_ok : {A : Type 0} → StorageResult A → Bool
is_ok (ok a) = true
is_ok _ = false
