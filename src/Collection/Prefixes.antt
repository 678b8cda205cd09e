-- ===== src/Collection/Prefixes.antt =====
-- `index_has_prefix` against a search of the whole index table.
use mdb_embedded.Prelude.{
  ℕ, zero, suc, ◌+◌, ◌<◌, ◌≡◌, ◌≢◌, refl, ap, sym, ◌∙◌, Bool, true, false, ◌||◌, none, some, List,
  [], ◌∷◌, inl, inr, Bool-cases, length, get_elem?, get_elem?-lt, Ordering, ltb, String, arith,
}
use mdb_embedded.Std.Order.{string_ord, bytes_ord, cmp_bytes}
use mdb_embedded.Std.BinarySearch.{
  Search, found, missing, Answers, binary_search_by, binary_search_by-Answers,
}
use mdb_embedded.Std.BTreeMap
use mdb_embedded.Std.BTreeMap.{IsAbove, IsSorted}
use mdb_embedded.Storage
use mdb_embedded.Storage.{StorageResult}
use mdb_embedded.Storage.Memory.{Row, Opened, open_cursor, rows_or_empty}
use mdb_embedded.Storage.Cursor.{
  Position, exact, larger, smaller, near, materialize, row_cmp, search_near, set_key_raw,
  effective_key, get_key_raw,
}
use mdb_embedded.Storage.Near.{
  near-found, near-larger, near-smaller, place-placed, placed, search_near-near,
  row_cmp-IsPartitioned,
}
use mdb_embedded.Storage.Scan.{next-end}
use mdb_embedded.Collection.{CollectionResult, ok, Store}
use mdb_embedded.Collection.Indexes.{starts_with, near_prefix, index_has_prefix}

-- Some key of the rows has the prefix.
unfoldable pub any_prefix : List Row → List ℕ → Bool
any_prefix [] p = false
any_prefix (r ∷ rows) p = let rest = any_prefix rows p in starts_with r.0 p || rest

starts_with-not_lt : (k p : List ℕ) → starts_with k p ≡ true → cmp_bytes k p ≢ Ordering.lt
unfolding starts_with cmp_bytes
starts_with-not_lt [] [] h = ground arith
starts_with-not_lt (b ∷ k) [] h = ground arith
starts_with-not_lt [] (q ∷ p) h = ground (arith, h)
starts_with-not_lt (b ∷ k) (q ∷ p) h = ground (arith, h, starts_with-not_lt k p)

starts_with_refl : (p : List ℕ) → starts_with p p ≡ true
unfolding starts_with
starts_with_refl [] = refl
starts_with_refl (b ∷ p) = ground (arith, starts_with_refl p)

get_elem?-length : {A : Type 0} (xs : List A) (k : ℕ) → length xs ≡ k → get_elem? xs k ≡ none
get_elem?-length [] k e = refl
get_elem?-length (x ∷ xs) zero e = absurd (omega arith)
get_elem?-length (x ∷ xs) (suc k) e = get_elem?-length xs k (omega arith)

-- A key between a prefix and a key that has it has it too.
starts_with-between :
    (k j p : List ℕ)
    → cmp_bytes k p ≢ Ordering.lt
    → cmp_bytes k j ≡ Ordering.lt
    → starts_with j p ≡ true
    → starts_with k p ≡ true
unfolding starts_with cmp_bytes
starts_with-between k j [] not_lt lt h = refl
starts_with-between [] j (q ∷ p) not_lt lt h = ground (arith, not_lt)
starts_with-between (b ∷ k) [] (q ∷ p) not_lt lt h = ground (arith, h)
starts_with-between (b ∷ k) (c ∷ j) (q ∷ p) not_lt lt h =
    ground (arith, not_lt, lt, h, starts_with-between k j p)

any_prefix-at :
    (rows : List Row) (p : List ℕ) (i : ℕ) (r : Row)
    → get_elem? rows i ≡ some r
    → starts_with r.0 p ≡ true
    → any_prefix rows p ≡ true
unfolding any_prefix
any_prefix-at [] p i r e h = ground (arith, e)
any_prefix-at (t ∷ rows) p zero r e h = ground (arith, e, h)
any_prefix-at (t ∷ rows) p (suc i) r e h = ground (arith, any_prefix-at rows p i r e h)

any_prefix-above :
    (k : List ℕ) (rows : List Row) (p : List ℕ)
    → IsAbove k rows
    → cmp_bytes k p ≢ Ordering.lt
    → starts_with k p ≡ false
    → any_prefix rows p ≡ false
unfolding any_prefix
any_prefix-above k [] p above not_lt h = refl
any_prefix-above k (t ∷ rows) p above not_lt h = ground (
  arith,
  h,
  above.0,
  starts_with-between k t.0 p not_lt,
  any_prefix-above k rows p above.1 not_lt h,
)

-- The first row that does not come before the prefix decides.
any_prefix-first :
    (rows : List Row) (p : List ℕ) (i : ℕ) (r : Row)
    → IsSorted rows
    → get_elem? rows i ≡ some r
    → cmp_bytes r.0 p ≢ Ordering.lt
    → ((j : ℕ) → j < i → row_cmp rows p j ≡ Ordering.lt)
    → any_prefix rows p ≡ starts_with r.0 p
unfolding any_prefix
any_prefix-first [] p i r sorted e not_lt before = ground (arith, e)
any_prefix-first (t ∷ rows) p zero r sorted e not_lt before =
    ground (arith, e, not_lt, any_prefix-above t.0 rows p sorted.0)
any_prefix-first (t ∷ rows) p (suc i) r sorted e not_lt before = ground (
  arith,
  before 0 (omega arith),
  starts_with-not_lt t.0 p,
  any_prefix-first rows p i r sorted.1 e not_lt (λ j lt. before (suc j) (omega arith)),
)

any_prefix-none :
    (rows : List Row) (p : List ℕ)
    → ((j : ℕ) → j < length rows → row_cmp rows p j ≡ Ordering.lt)
    → any_prefix rows p ≡ false
unfolding any_prefix
any_prefix-none [] p before = refl
any_prefix-none (t ∷ rows) p before = ground (
  arith,
  before 0 (omega arith),
  starts_with-not_lt t.0 p,
  any_prefix-none rows p (λ j lt. before (suc j) (omega arith)),
)

-- The state in which `search_near` looks through the rows.
abbrev sought : String → List ℕ → List Row → Store → Opened
sought table p rows s = record {
  cursor = record (set_key_raw p (open_cursor table)) { entries = some rows; position = none };
  backend = s.backend;
}

-- What is made of the answer of `search_near`.
abbrev from_near : List ℕ → Store → StorageResult Position × Opened → CollectionResult Bool × Store
from_near p s (r, t) = near_prefix p t.cursor r (record s { backend = t.backend })

module _ (table : String) (p : List ℕ) (row : Row) (rows : List Row) (s : Store)
    (sorted : IsSorted (row ∷ rows)) where
  abbrev all_rows : List Row
  all_rows = row ∷ rows

  from_near-placed :
      (i : ℕ) (r : Row) (answer : Position)
      → answer ≢ smaller
      → from_near p s (Storage.ok answer, placed (sought table p all_rows s) i r)
        ≡ (ok (starts_with r.0 p), s)
  unfolding near_prefix get_key_raw
  from_near-placed i r exact h = refl
  from_near-placed i r larger h = refl
  from_near-placed i r smaller h = absurd (h refl)

  from_near-last :
      (i : ℕ) (r : Row)
      → length all_rows ≡ suc i
      → from_near p s (Storage.ok smaller, placed (sought table p all_rows s) i r) ≡ (ok false, s)
  unfolding near_prefix
  from_near-last i r last =
      rw
        (next-end (placed (sought table p all_rows s) i r) all_rows refl
          (get_elem?-length all_rows (i + 1) (omega (arith, last))))
        refl

  past_end :
      (i : ℕ)
      → i ≡ length all_rows
      → ((j : ℕ) → j < i → row_cmp all_rows p j ≡ Ordering.lt)
      → from_near p s (near all_rows (missing i) (sought table p all_rows s))
        ≡ (ok (any_prefix all_rows p), s)
  past_end zero eq before = absurd (omega arith)
  past_end (suc i) eq before =
      let (r, e) = get_elem?-lt all_rows i (omega arith) in
      ap (from_near p s) (
        ap (λ f. f (sought table p all_rows s)) (near-smaller all_rows i eq)
        ∙ place-placed all_rows i smaller r (sought table p all_rows s) e)
      ∙ (from_near-last i r (omega arith)
          ∙ ap (λ b. (ok b, s)) (sym (any_prefix-none all_rows p (λ j lt. before j (omega arith)))))

  from_near-answer :
      (a : Search)
      → Answers (length all_rows) (row_cmp all_rows p) a
      → from_near p s (near all_rows a (sought table p all_rows s))
        ≡ (ok (any_prefix all_rows p), s)
  from_near-answer (found i) ans =
      let (r, e) = get_elem?-lt all_rows i ans.0 in
      let same : r.0 ≡ p = bytes_ord.eq_of_cmp r.0 p (ground (arith, e, ans.1)) in
      let has : starts_with r.0 p ≡ true = rw same (starts_with_refl p) in
      ap (from_near p s)
        (ap (λ f. f st) (near-found all_rows i) ∙ place-placed all_rows i exact r st e)
      ∙ (from_near-placed i r exact (λ h. ground (arith, h))
          ∙ ap (λ b. (ok b, s)) (has ∙ sym (any_prefix-at all_rows p i r e has)))
    where
      st : Opened
      st = sought table p all_rows s
  from_near-answer (missing i) ans = elim (Bool-cases (ltb i (length all_rows))) [
    | inl less ↦
        let lt : i < length all_rows = ground arith in
        let (r, e) = get_elem?-lt all_rows i lt in
        ap (from_near p s) (
          ap (λ f. f (sought table p all_rows s)) (near-larger all_rows i lt)
          ∙ place-placed all_rows i larger r (sought table p all_rows s) e)
        ∙ (from_near-placed i r larger (λ h. ground (arith, h))
            ∙ ap (λ b. (ok b, s))
                (sym (
                  any_prefix-first all_rows p i r sorted e
                    (ground (arith, e, ans.2 i (omega arith) lt)) ans.1)))
    | inr last ↦ past_end i (ground (arith, ans.0)) ans.1
  ]

module _ (table : String) (p : List ℕ) (s : Store) where
  search_near-none :
      s.backend.poisoned ≡ false
      → rows_or_empty (BTreeMap.lookup table s.backend.tables) ≡ []
      → index_has_prefix (open_cursor table) p s ≡ (ok false, s)
  unfolding index_has_prefix near_prefix search_near materialize effective_key set_key_raw
      open_cursor
  search_near-none healthy held = simp (healthy, held) refl

  -- Over a lock that is not poisoned and an index table whose rows are in order, `index_has_prefix`
  -- tells whether some key of the table has the prefix, and changes no state.
  pub index_has_prefix-any_prefix :
      (rows : List Row)
      → s.backend.poisoned ≡ false
      → rows_or_empty (BTreeMap.lookup table s.backend.tables) ≡ rows
      → IsSorted rows
      → index_has_prefix (open_cursor table) p s ≡ (ok (any_prefix rows p), s)
  unfolding index_has_prefix effective_key set_key_raw open_cursor any_prefix
  index_has_prefix-any_prefix [] healthy held sorted = search_near-none healthy held
  index_has_prefix-any_prefix (row ∷ rows) healthy held sorted =
      ap (from_near p s) (
        search_near-near
          (record { cursor = set_key_raw p (open_cursor table); backend = s.backend }) p row rows
          healthy refl held)
      ∙ from_near-answer table p row rows s sorted
          (binary_search_by (length (row ∷ rows)) (row_cmp (row ∷ rows) p))
          (binary_search_by-Answers (length (row ∷ rows)) (row_cmp (row ∷ rows) p)
            (row_cmp-IsPartitioned (row ∷ rows) p sorted))
