-- ===== src/Index/Order.antt =====
-- The order of index keys as bytes.
use mdb_embedded.Prelude.{
  ℕ, ℤ, IsI32, compare_ℤ, ◌%◌, ◌^◌, ◌<◌, compare, pos, negsuc, to_word, ◌≡◌, ◌⊎◌, inl, inr, refl,
  sym, ap, ◌∙◌, none, some, ◌∷◌, length, Ordering, opposite, arith,
}
use mdb_embedded.Std.Order.{cmp_bytes, then}
use mdb_embedded.Bson.{Bson, int32, Document, end, field, Externals}
use mdb_embedded.Paths.{get_value}
use mdb_embedded.Index.{from_bson}
use mdb_embedded.Index.Keys.{
  be_bytes, invert_bytes, serialized, join_parts, key_part, key_parts,
  extract_index_key_with_collation, extract_index_key,
}
use mdb_embedded.Aggregation.{compare_bson, compare_present, as_f64, type_order}
use mdb_embedded.Query.Doubles.{cmp_f64}
use mdb_embedded.Aggregation.Stages.Sort.{compare_docs, is_descending, turned}
use mdb_embedded.Index.Bytes.{
  cmp_bytes-append, cmp_bytes-be_bytes, then_eq, then_elim, be_bytes-IsBytes,
  cmp_bytes-invert_bytes,
}

-- The directions of the fields are 1 or -1 as `Int32`, and at each field the document has an `Int32`
-- that is not negative.
abbrev pub HasNaturals : Externals → Document → Document → Type 0
HasNaturals ext end doc = Unit
HasNaturals ext (field name direction keys) doc =
    ((direction ≡ int32 (pos 1)) ⊎ (direction ≡ int32 (negsuc 0)))
    × ((n : ℕ) × (get_value ext doc name ≡ some (int32 (pos n))) × (n < 2 ^ 31))
    × HasNaturals ext keys doc

-- Every `Int32` is a double exactly.
pub record IsExact (ext : Externals) : Type 0 where
  pub same_order :
      (a b : ℤ) → IsI32 a → IsI32 b → cmp_f64 ext (ext.of_int a) (ext.of_int b) ≡ compare_ℤ a b

module _ (ext : Externals) (exact : IsExact ext) where
  natural_order :
      (m n : ℕ)
      → m < 2 ^ 31
      → n < 2 ^ 31
      → cmp_f64 ext (ext.of_int (pos m)) (ext.of_int (pos n)) ≡ compare m n
  natural_order m n hm hn =
      exact.same_order (pos m) (pos n) (omega (arith, hm), omega arith)
        (omega (arith, hn), omega arith)
      ∙ ground arith

  digits_order :
      (m n : ℕ)
      → m < 2 ^ 31
      → n < 2 ^ 31
      → cmp_bytes (be_bytes 4 (to_word 32 (pos m))) (be_bytes 4 (to_word 32 (pos n))) ≡ compare m n
  digits_order m n hm hn =
      let em : m % 2 ^ 32 ≡ m = omega (arith, hm) in
      let en : n % 2 ^ 32 ≡ n = omega (arith, hn) in
      rw (em, en) (cmp_bytes-be_bytes 4 m n (omega (arith, hm)) (omega (arith, hn)))

  part_order :
      (direction : Bson) (m n : ℕ)
      → (direction ≡ int32 (pos 1)) ⊎ (direction ≡ int32 (negsuc 0))
      → m < 2 ^ 31
      → n < 2 ^ 31
      → cmp_bytes
          (key_part ext none (some (int32 (pos m))) direction)
          (key_part ext none (some (int32 (pos n))) direction)
        ≡ turned
            (is_descending direction)
            (compare_bson ext (some (int32 (pos m))) (some (int32 (pos n))))
  unfolding key_part from_bson serialized compare_bson compare_present as_f64 type_order
  part_order direction m n (inl e) hm hn =
      rw (e) (digits_order m n hm hn ∙ sym (natural_order m n hm hn))
  part_order direction m n (inr e) hm hn =
      let a = be_bytes 4 (to_word 32 (pos m)) in
      let b = be_bytes 4 (to_word 32 (pos n)) in
      rw (e) (
        cmp_bytes-invert_bytes a b (be_bytes-IsBytes 4 (to_word 32 (pos m)))
          (be_bytes-IsBytes 4 (to_word 32 (pos n))) refl
        ∙ ap opposite (digits_order m n hm hn ∙ sym (natural_order m n hm hn)))

  part_length :
      (direction : Bson) (m : ℕ)
      → (direction ≡ int32 (pos 1)) ⊎ (direction ≡ int32 (negsuc 0))
      → length (key_part ext none (some (int32 (pos m))) direction) ≡ 4
  unfolding key_part from_bson serialized be_bytes invert_bytes
  part_length direction m (inl e) = rw (e) refl
  part_length direction m (inr e) = rw (e) refl

  parts_order :
      (keys a b : Document)
      → HasNaturals ext keys a
      → HasNaturals ext keys b
      → cmp_bytes (join_parts (key_parts ext none a keys)) (join_parts (key_parts ext none b keys))
        ≡ compare_docs ext keys a b
  unfolding join_parts key_parts compare_docs cmp_bytes
  parts_order end a b ha hb = refl
  parts_order (field name direction end) a b (d, (m, em, lm), _) (d', (n, en, ln), _) =
      rw (compare_docs, em, en)
        (part_order direction m n d lm ln
          ∙ then_eq (
              turned (is_descending direction)
                (compare_bson ext (some (int32 (pos m))) (some (int32 (pos n)))))
          ∙ then_elim
              (turned (is_descending direction)
                (compare_bson ext (some (int32 (pos m))) (some (int32 (pos n)))))
              Ordering.eq)
  parts_order (field name direction (field k v keys)) a b (d, (m, em, lm), ha)
        (d', (n, en, ln), hb) =
      let rest = parts_order (field k v keys) a b ha hb in
      let pa = key_part ext none (some (int32 (pos m))) direction in
      let pb = key_part ext none (some (int32 (pos n))) direction in
      rw (compare_docs, em, en)
        (cmp_bytes-append pa pb (254 ∷ join_parts (key_parts ext none a (field k v keys)))
            (254 ∷ join_parts (key_parts ext none b (field k v keys)))
            (part_length direction m d ∙ sym (part_length direction n d))
          ∙ ap
              (λ o. (then) o (
                cmp_bytes (join_parts (key_parts ext none a (field k v keys)))
                  (join_parts (key_parts ext none b (field k v keys)))))
              (part_order direction m n d lm ln)
          ∙ ap
              ((then) (
                turned (is_descending direction)
                  (compare_bson ext (some (int32 (pos m))) (some (int32 (pos n))))))
              rest
          ∙ then_elim
              (turned (is_descending direction)
                (compare_bson ext (some (int32 (pos m))) (some (int32 (pos n)))))
              (compare_docs ext (field k v keys) a b))

  -- The bytes of two documents' keys are in the order in which `$sort` by the index's key pattern puts
  -- the documents, where every direction of the pattern is 1 or -1 as `Int32` and both documents hold
  -- an `Int32` that is not negative at each of its fields.
  pub extract_index_key-compare_docs :
      (keys a b : Document)
      → HasNaturals ext keys a
      → HasNaturals ext keys b
      → cmp_bytes (extract_index_key ext a keys) (extract_index_key ext b keys)
        ≡ compare_docs ext keys a b
  unfolding extract_index_key extract_index_key_with_collation
  extract_index_key-compare_docs keys a b ha hb = parts_order keys a b ha hb
