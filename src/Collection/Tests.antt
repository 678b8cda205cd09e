-- ===== src/Collection/Tests.antt =====
-- A collection of two documents, and the theorems at inputs that meet their hypotheses.
use mdb_embedded.Prelude.{
  ℕ, zero, suc, ◌+◌, ℤ, pos, ◌≡◌, refl, String, true, false, Option, none, some, List, [], ◌∷◌,
  as_bytes, if◌then◌else◌, split_dots, arith,
}
use mdb_embedded.Std.Order.{string_ord, bytes_ord, cmp_bytes}
use mdb_embedded.Std.BTreeMap
use mdb_embedded.Std.BTreeMap.{IsSorted}
use mdb_embedded.Std.BTreeMap.Laws.{when_eq}
use mdb_embedded.Bson.{Bson, int32, string, Document, end, field, message, Result}
use mdb_embedded.Bson
use mdb_embedded.Sample.{sample, find}
use mdb_embedded.Paths.{get_value, get_from, enter}
use mdb_embedded.Query.{eval_query, eval_operator}
use mdb_embedded.Query.Compare.{bson_eq, bson_cmp, cmp_typed, cmp_values, bson_type_order}
use mdb_embedded.Storage.Memory.{Row, open_cursor}
use mdb_embedded.Storage.View.{read}
use mdb_embedded.Collection.{ok, Collection, Store, Services, go}
use mdb_embedded.Collection.Documents.{extract_id_string, id_string}
use mdb_embedded.Collection.Session.{fetch_doc_by_id_str, each_row, validate_doc}
use mdb_embedded.Collection.Indexes.{index_has_prefix, starts_with}
use mdb_embedded.Collection.Crud.{count_documents, count_round, delete_many_inner, insert_one_inner}
use mdb_embedded.Collection.Find.{collect_collection_scan, find_one_with_collection_scan}
use mdb_embedded.Collection.Loop.{run_rows, each_row-open_cursor}
use mdb_embedded.Collection.Scans.{matching, scan_step, scan_round-Follows}
use mdb_embedded.Collection.Reads.{
  count_hit, count_documents-matching, find_one_with_collection_scan-first,
}
use mdb_embedded.Collection.Unmatched.{unmatched}
use mdb_embedded.Collection.Deletion.{delete_many-unmatched}
use mdb_embedded.Collection.Insertion.{
  fetch_doc_by_id_str-read, insert_one_inner-fetch_doc_by_id_str,
}
use mdb_embedded.Collection.Prefixes.{any_prefix, index_has_prefix-any_prefix}

program : Unit {0}
unfolding BTreeMap.lookup BTreeMap.insert BTreeMap.remove cmp_bytes eval_query eval_operator bson_eq
    bson_cmp cmp_typed cmp_values bson_type_order get_value get_from enter split_dots matching
    unmatched id_string extract_id_string as_bytes validate_doc any_prefix starts_with read
program = tt

abbrev number_in : Document → String → Option ℕ
number_in doc name = elim (find doc name) [ some (int32 (pos n)) ↦ some n | _ ↦ none ]

abbrev encode : Option ℕ → Option ℕ → Result (List ℕ)
encode (some n) (some m) = Bson.ok (n ∷ m ∷ [])
encode _ _ = Bson.err (message "no number")

abbrev record_of : ℕ → ℕ → Document
record_of n m = field "_id" (int32 (pos n)) (field "a" (int32 (pos m)) end)

abbrev decode : List ℕ → Result Document
decode (n ∷ m ∷ []) = Bson.ok (record_of n m)
decode _ = Bson.err (message "not two bytes")

abbrev digit : ℤ → String
digit (pos (suc zero)) = "1"
digit (pos (suc (suc zero))) = "2"
digit _ = "3"

abbrev services : Services
services = record {
  to_writer = λ doc. encode (number_in doc "_id") (number_in doc "a");
  from_reader = decode;
  spec_to_vec = λ spec. Bson.ok [];
  spec_from_slice = λ bytes. Bson.err (message "no index");
  spec_to_document = λ spec. none;
  object_id_new = λ n. n ∷ [];
  to_hex = λ bytes. "";
  int_to_string = digit;
  display = λ v. "";
  from_utf8 = λ bytes. none;
  trim = λ s. s;
  validate_document = λ doc schema. Bson.ok tt;
  append_oplog = λ cfg op id payload changed b. (Bson.ok tt, b);
  collation = λ c s. as_bytes s;
  twodsphere_index_key = λ doc keys. none;
  tokenize = λ s. s ∷ [];
}

abbrev col : Collection
col = record { table_name = "t"; collection_name = "t"; validator = none; oplog = none }

abbrev rows : List Row
rows = (49 ∷ [], 1 ∷ 7 ∷ []) ∷ (50 ∷ [], 2 ∷ 8 ∷ []) ∷ []

abbrev store : Store
store = record {
  backend = record { tables = ("t", rows) ∷ []; poisoned = false };
  index_cache = some [];
  object_ids = 0;
}

abbrev sevens : Document
sevens = field "a" (int32 (pos 7)) end

rows-IsSorted : IsSorted rows
unfolding cmp_bytes
rows-IsSorted = ((ground arith, tt), (tt, tt))

matching-sevens : matching sample services sevens rows ≡ ok (record_of 1 7 ∷ [])
unfolding program
matching-sevens = refl

count_documents-matching_example :
    (count_documents sample services col (some sevens) store ≡ (ok 1, store))
    × (collect_collection_scan sample services col sevens store ≡ (ok (record_of 1 7 ∷ []), store))
unfolding program
count_documents-matching_example =
    count_documents-matching sample services sevens col store rows refl refl

find_one_with_collection_scan-first_example :
    find_one_with_collection_scan sample services col sevens store
    ≡ (ok (some (record_of 1 7)), store)
unfolding program
find_one_with_collection_scan-first_example =
    find_one_with_collection_scan-first sample services sevens col store rows refl refl
      (record_of 1 7 ∷ []) matching-sevens

delete_many-unmatched_example :
    (t : Store) × (delete_many_inner sample services col sevens false store ≡ (ok 1, t))
    × (BTreeMap.lookup "t" t.backend.tables ≡ some ((50 ∷ [], 2 ∷ 8 ∷ []) ∷ []))
    × (count_documents sample services col (some sevens) t ≡ (ok 0, t))
unfolding program
delete_many-unmatched_example =
    delete_many-unmatched sample services sevens col refl store rows (record_of 1 7 ∷ []) false refl
      refl refl rows-IsSorted ((λ doc e. ground (arith, e)), ((λ doc e. ground (arith, e)), tt))
      matching-sevens

fetch_doc_by_id_str-read_example :
    fetch_doc_by_id_str services col "2" store ≡ (ok (some (record_of 2 8)), store)
unfolding program
fetch_doc_by_id_str-read_example = fetch_doc_by_id_str-read services col "2" store refl

insert_one_inner-fetch_doc_by_id_str_example :
    (t : Store) × (insert_one_inner sample services col (record_of 2 9) false store
      ≡ (ok (int32 (pos 2)), t))
    × ((j : String)
        → fetch_doc_by_id_str services col j t ≡ (
          when_eq
              (cmp_bytes (as_bytes "2") (as_bytes j))
              (ok (some (record_of 2 9)))
              (fetch_doc_by_id_str services col j store).0,
          t,
        ))
unfolding program
insert_one_inner-fetch_doc_by_id_str_example =
    insert_one_inner-fetch_doc_by_id_str sample services col (record_of 2 9) (int32 (pos 2)) "2"
      (2 ∷ 9 ∷ []) false store refl refl refl refl refl refl refl refl

index_has_prefix-any_prefix_example :
    index_has_prefix (open_cursor "t") (50 ∷ []) store ≡ (ok true, store)
unfolding program
index_has_prefix-any_prefix_example =
    index_has_prefix-any_prefix "t" (50 ∷ []) store rows refl refl rows-IsSorted

each_row-open_cursor_example :
    each_row 5 (count_round sample services col sevens) (open_cursor "t") 0 store
    ≡ run_rows (scan_step sample services sevens (count_hit sample services sevens)) rows 0 store
unfolding program count_round
each_row-open_cursor_example =
    each_row-open_cursor (count_round sample services col sevens)
      (scan_step sample services sevens (count_hit sample services sevens)) "t"
      (scan_round-Follows sample services sevens (count_hit sample services sevens)
        (λ c n doc hit. go c (if hit then n + 1 else n)) (λ c n doc hit. refl) "t")
      5 0 store rows refl refl (ground arith)
