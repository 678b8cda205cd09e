-- ===== src/Storage/Scan.antt =====
-- The loop `while cursor.next().is_ok()`, over a cursor of the in-memory backend.
use mdb_embedded.Prelude.{
  ℕ, zero, suc, ◌+◌, ◌<◌, ◌≡◌, refl, ap, sym, ◌∙◌, false, none, some, List, [], ◌∷◌, ◌++◌, inl, inr,
  Option-cases, length, get_elem?, drop, arith,
}
use mdb_embedded.Std.Order.{string_ord}
use mdb_embedded.Std.BTreeMap
use mdb_embedded.Storage.{not_found, ok, err}
use mdb_embedded.Storage.Memory.{Row, MemBackend, MemCursor, Opened, rows_or_empty}
use mdb_embedded.Storage.Cursor.{next, next_position, materialize, get_key_raw, get_value_raw}

-- The entry that `get_key_raw` and `get_value_raw` give.
unfoldable pub current_row : MemCursor → List Row
unfolding get_key_raw get_value_raw
current_row c = elim (get_key_raw c) [
  | ok k ↦ elim (get_value_raw c) [ ok v ↦ (k, v) ∷ [] | _ ↦ [] ]
  | _ ↦ []
]

-- The rows that at most `fuel` rounds of the loop see.
unfoldable pub scan : ℕ → Opened → List Row
unfolding current_row
scan zero s = []
scan (suc fuel) s = elim (next s).0 [
  | ok _ ↦ current_row (next s).1.cursor ++ scan fuel (next s).1
  | _ ↦ []
]

pub drop-none : {A : Type 0} (xs : List A) (p : ℕ) → get_elem? xs p ≡ none → drop p xs ≡ []
drop-none [] zero h = refl
drop-none [] (suc p) h = refl
drop-none (x ∷ xs) zero h = ground arith
drop-none (x ∷ xs) (suc p) h = drop-none xs p h

pub drop_all : {A : Type 0} (xs : List A) (p : ℕ) → length xs < p + 0 → drop p xs ≡ []
drop_all [] zero h = refl
drop_all [] (suc p) h = refl
drop_all (x ∷ xs) zero h = absurd (omega arith)
drop_all (x ∷ xs) (suc p) h = drop_all xs p (omega arith)

pub drop-some :
    {A : Type 0} (xs : List A) (p : ℕ) (x : A)
    → get_elem? xs p ≡ some x
    → (drop p xs ≡ x ∷ drop (suc p) xs) × (p < length xs)
drop-some [] p x h = ground arith
drop-some (y ∷ xs) zero x h = ground arith
drop-some (y ∷ xs) (suc p) x h = let (e, l) = drop-some xs p x h in (e, omega (arith, l))

-- The state after `next` has moved to the entry at `p`.
abbrev pub stepped : Opened → ℕ → Row → Opened
stepped s p (k, v) = record s {
  cursor = record s.cursor {
    current_key = some k;
    current_value = some v;
    position = some p;
    pending_key = some k;
  };
}

pub next-end :
    (s : Opened) (rows : List Row)
    → s.cursor.entries ≡ some rows
    → get_elem? rows (next_position s.cursor.position) ≡ none
    → next s ≡ (err (not_found "end of cursor"), s)
unfolding next materialize
next-end s rows e end = ground arith

pub next-step :
    (s : Opened) (rows : List Row) (r : Row)
    → s.cursor.entries ≡ some rows
    → get_elem? rows (next_position s.cursor.position) ≡ some r
    → next s ≡ (ok tt, stepped s (next_position s.cursor.position) r)
unfolding next materialize
next-step s rows r e there = ground arith

module _ (fuel : ℕ) (s t : Opened) where
  scan-ok :
      (r : Row)
      → next s ≡ (ok tt, t)
      → current_row t.cursor ≡ r ∷ []
      → scan (suc fuel) s ≡ r ∷ scan fuel t
  unfolding scan
  scan-ok r e row = ground arith

  scan-err : next s ≡ (err (not_found "end of cursor"), t) → scan (suc fuel) s ≡ []
  unfolding scan
  scan-err e = ground arith

  scan-next : next s ≡ next t → scan (suc fuel) s ≡ scan (suc fuel) t
  unfolding scan
  scan-next e = ground arith

-- From a cursor that has its rows, the loop sees those that are left.
scan_left :
    (fuel : ℕ) (s : Opened) (rows : List Row)
    → s.cursor.entries ≡ some rows
    → length rows < next_position s.cursor.position + fuel
    → scan fuel s ≡ drop (next_position s.cursor.position) rows
unfolding scan
scan_left zero s rows e le = sym (drop_all rows (next_position s.cursor.position) (omega arith))
scan_left (suc fuel) s rows e le =
    elim (Option-cases (get_elem? rows (next_position s.cursor.position))) [
      | inl end ↦ scan-err fuel s s (next-end s rows e end) ∙ sym (drop-none rows _ end)
      | inr (r, there) ↦
          let p : ℕ = next_position s.cursor.position in
          let (split, _) = drop-some rows p r there in
          scan-ok fuel s (stepped s p r) r (next-step s rows r e there) refl
          ∙ (ap (◌∷◌ r) (scan_left fuel (stepped s p r) rows e (omega (arith, le)))
              ∙ sym (split ∙ ap (λ n. r ∷ drop n rows) {x = suc p} (omega arith)))
    ]

-- The state once the rows have been read.
abbrev pub filled : Opened → List Row → Opened
filled s rows = record s { cursor = record s.cursor { entries = some rows; position = none } }

pub next-fresh :
    (s : Opened) (rows : List Row)
    → s.cursor.entries ≡ none
    → s.backend.poisoned ≡ false
    → rows_or_empty (BTreeMap.lookup s.cursor.table_name s.backend.tables) ≡ rows
    → next s ≡ next (filled s rows)
unfolding next materialize
next-fresh s rows fresh healthy held = simp (fresh, healthy, held)

-- A cursor that has not started, over a lock that is not poisoned, sees the rows of its table,
-- each once and in the table's order; more fuel than there are rows is enough.
pub scan-rows :
    (fuel : ℕ) (s : Opened) (rows : List Row)
    → s.cursor.entries ≡ none
    → s.backend.poisoned ≡ false
    → rows_or_empty (BTreeMap.lookup s.cursor.table_name s.backend.tables) ≡ rows
    → length rows < fuel
    → scan fuel s ≡ rows
scan-rows zero s rows fresh healthy held le = absurd (omega arith)
scan-rows (suc fuel) s rows fresh healthy held le =
    scan-next fuel s (filled s rows) (next-fresh s rows fresh healthy held)
    ∙ scan_left (suc fuel) (filled s rows) rows refl (omega arith)

-- A cursor that has its rows sees the same ones over any other tables, and over a poisoned lock.
pub scan_snapshot :
    (fuel : ℕ) (s : Opened) (rows : List Row) (b : MemBackend)
    → s.cursor.entries ≡ some rows
    → scan fuel (record s { backend = b }) ≡ scan fuel s
unfolding scan
scan_snapshot zero s rows b e = refl
scan_snapshot (suc fuel) s rows b e =
    elim (Option-cases (get_elem? rows (next_position s.cursor.position))) [
      | inl end ↦
          scan-err fuel t t (next-end t rows e end)
          ∙ sym (scan-err fuel s s (next-end s rows e end))
      | inr (r, there) ↦
          let p : ℕ = next_position s.cursor.position in
          scan-ok fuel t (stepped t p r) r (next-step t rows r e there) refl
          ∙ (ap (◌∷◌ r) (scan_snapshot fuel (stepped s p r) rows b e)
              ∙ sym (scan-ok fuel s (stepped s p r) r (next-step s rows r e there) refl))
    ]
  where
    t : Opened
    t = record s { backend = b }
