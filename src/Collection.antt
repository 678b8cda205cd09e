-- ===== src/Collection.antt =====
-- rust/smongo-engine/src/collection/mod.rs: the errors, the results and the state of a collection
-- over the in-memory backend.
pub mod Documents
pub mod Session
pub mod Indexes
pub mod Catalog
pub mod Crud
pub mod Find
pub mod Loop
pub mod Scans
pub mod Reads
pub mod Related
pub mod Removal
pub mod Unmatched
pub mod Deletion
pub mod Insertion
pub mod Prefixes
mod Tests
use mdb_embedded.Prelude.{ℕ, ℤ, String, Bool, true, false, Option, List}
use mdb_embedded.Bson.{Bson, Document, Error, Result}
use mdb_embedded.Bson
use mdb_embedded.Storage.{StorageError, StorageResult, Exec}
use mdb_embedded.Storage
use mdb_embedded.Storage.Memory.{MemBackend, MemCursor, Opened}
use mdb_embedded.Index.{IndexSpec}

pub data CollectionError : Type 0 where
  storage_error : StorageError → CollectionError
  serialization_error deserialization_error query_error update_error : Error → CollectionError
  missing_id_error : CollectionError
  unique_constraint_violation index_already_exists : String → CollectionError
  invalid_index_spec other : Error → CollectionError

-- `CollectionResult<T>`, and a panic.
pub data CollectionResult (A : Type 0) : Type 0 where
  ok : A → CollectionResult A
  err : CollectionError → CollectionResult A
  panic : CollectionResult A

pub record CollectionOplogSettings : Type 0 where
  pub oplog_table : String
  pub namespace : String
  pub node_id : Option String

-- `Collection<S>` without its session and its cache, which are the state of a call.
pub record Collection : Type 0 where
  pub table_name : String
  pub collection_name : String
  pub validator : Option Document
  pub oplog : Option CollectionOplogSettings

-- The tables of the session, the cached index list, and how many ObjectIds were made.
pub record Store : Type 0 where
  pub backend : MemBackend
  pub index_cache : Option (List IndexSpec)
  pub object_ids : ℕ

-- What the collection takes from other crates, and from the engine's modules that stand outside this
-- model (schema, oplog, collation, geometry, tokens).
pub record Services : Type 0 where
  -- Document::to_writer and from_reader, and the same of an IndexSpec; bson::to_document
  pub to_writer : Document → Result (List ℕ)
  pub from_reader : List ℕ → Result Document
  pub spec_to_vec : IndexSpec → Result (List ℕ)
  pub spec_from_slice : List ℕ → Result IndexSpec
  pub spec_to_document : IndexSpec → Option Document
  -- the n-th ObjectId::new() of the process, its to_hex, `to_string` of an integer, `{}` of a Bson
  pub object_id_new : ℕ → List ℕ
  pub to_hex : List ℕ → String
  pub int_to_string : ℤ → String
  pub display : Bson → String
  -- String::from_utf8 and `str::trim`
  pub from_utf8 : List ℕ → Option String
  pub trim : String → String
  -- schema::validate_document(doc, schema)
  pub validate_document : Document → Document → Result (Unit {0})
  -- oplog::append_oplog(settings, op, doc_id, payload, changed_fields)
  pub append_oplog :
      CollectionOplogSettings
      → String
      → Bson
      → Option Document
      → Option (List String)
      → MemBackend
      → Result (Unit {0}) × MemBackend
  -- the index_key_bytes of Collation::from_doc, twodsphere_index_key, tokenize
  pub collation : Document → String → List ℕ
  pub twodsphere_index_key : Document → Document → Option (List ℕ)
  pub tokenize : String → List String

-- A method that may change the state before it fails.
abbrev pub Action : Type 0 → Type 0
Action A = Store → CollectionResult A × Store

infixl 10 ◌>>=◌ ◌>>◌
abbrev pub continue : {A B : Type 0} → CollectionResult A → (A → Action B) → Action B
continue (ok a) f s = f a s
continue (err e) f s = (err e, s)
continue panic f s = (panic, s)

abbrev pub ◌>>=◌ : {A B : Type 0} → Action A → (A → Action B) → Action B
◌>>=◌ m f s = continue (m s).0 f (m s).1

abbrev pub ◌>>◌ : {A B : Type 0} → Action A → Action B → Action B
m >> n = m >>= λ _. n

abbrev pub pure : {A : Type 0} → A → Action A
pure a s = (ok a, s)

abbrev pub fail : {A : Type 0} → CollectionError → Action A
fail e s = (err e, s)

-- `r.map_err(f)?`
abbrev pub of_result : {A : Type 0} → (Error → CollectionError) → Result A → CollectionResult A
of_result f (Bson.ok a) = ok a
of_result f (Bson.err e) = err (f e)
of_result f Bson.panic = panic

abbrev pub raise : {A : Type 0} → (Error → CollectionError) → Result A → Action A
raise f r s = (of_result f r, s)

-- `CollectionError::from`
abbrev pub of_storage : {A : Type 0} → StorageResult A → CollectionResult A
of_storage (Storage.ok a) = ok a
of_storage (Storage.err e) = err (storage_error e)
of_storage Storage.panic = panic

-- A method of the session.
abbrev pub on_session : {A : Type 0} → Exec MemBackend A → Action A
on_session m s = (of_storage (m s.backend).0, record s { backend = (m s.backend).1 })

-- A method of a cursor, which returns the cursor too.
abbrev pub with_cursor :
    {A : Type 0} → MemCursor → CollectionResult A → CollectionResult (A × MemCursor)
with_cursor c (ok a) = ok (a, c)
with_cursor c (err e) = err e
with_cursor c panic = panic

abbrev pub opened : MemCursor → Store → Opened
opened c s = record { cursor = c; backend = s.backend }

abbrev pub on_cursor : {A : Type 0} → MemCursor → Exec Opened A → Action (A × MemCursor)
on_cursor c m s = (
  with_cursor (m (opened c s)).1.cursor (of_storage (m (opened c s)).0),
  record s { backend = (m (opened c s)).1.backend },
)

-- `m.is_ok()`, with the cursor.
abbrev pub answers :
    {A : Type 0} → MemCursor → StorageResult A → CollectionResult (Bool × MemCursor)
answers c (Storage.ok a) = ok (true, c)
answers c (Storage.err e) = ok (false, c)
answers c Storage.panic = panic

abbrev pub succeeds : {A : Type 0} → MemCursor → Exec Opened A → Action (Bool × MemCursor)
succeeds c m s = (
  answers (m (opened c s)).1.cursor (m (opened c s)).0,
  record s { backend = (m (opened c s)).1.backend },
)

-- How a round of a loop over a cursor ends: `break`, or the next round.
pub data Flow (B : Type 0) : Type 0 where
  stop : B → Flow B
  go : MemCursor → B → Flow B
