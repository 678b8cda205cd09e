-- ===== src/Collection/Loop.antt =====
-- The loop over a cursor as a run over the rows of its table.
use mdb_embedded.Prelude.{
  ℕ, zero, suc, ◌+◌, ◌<◌, ◌≤◌, ◌≡◌, refl, ap, sym, ◌∙◌, false, none, some, List, [], ◌∷◌, inl, inr,
  Option-cases, length, get_elem?, drop, String, arith,
}
use mdb_embedded.Std.Order.{string_ord}
use mdb_embedded.Std.BTreeMap
use mdb_embedded.Storage.Memory.{Row, MemCursor, open_cursor, rows_or_empty}
use mdb_embedded.Storage.Cursor.{next_position}
use mdb_embedded.Storage.Scan.{
  next-end, next-step, next-fresh, drop-none, drop-some, stepped, filled,
}
use mdb_embedded.Collection.{
  CollectionError, CollectionResult, ok, err, panic, Store, Action, continue, ◌>>=◌, pure, opened,
  Flow, stop, go,
}
use mdb_embedded.Collection.Session.{each_row, over_table}

-- What a round decides about the row: `break`, or the next row.
pub data Step (B : Type 0) : Type 0 where
  done more : B → Step B

-- The rows in turn.
unfoldable pub run_rows : {B : Type 0} → (Row → B → Action (Step B)) → List Row → B → Action B
run_rows f [] b s = (ok b, s)
run_rows f (r ∷ rows) b s =
    (f r b >>= (λ step. elim step [ done a ↦ pure a | more a ↦ run_rows f rows a ])) s

-- The cursor that a round of the loop over a table begins with.
pub record StandsOn (name : String) (r : Row) (c : MemCursor) : Type 0 where
  pub table : c.table_name ≡ name
  pub key : c.current_key ≡ some r.0
  pub value : c.current_value ≡ some r.1
  pub pending : c.pending_key ≡ some r.0

-- A round and what it decides: the state is the same, and the cursor goes on from where it was.
pub data Follows {B : Type 0} (c : MemCursor)
    : CollectionResult (Flow B) × Store → CollectionResult (Step B) × Store → Type 0 where
  goes :
      (d : MemCursor) (b : B) (s : Store)
      → d.table_name ≡ c.table_name
      → d.entries ≡ c.entries
      → d.position ≡ c.position
      → Follows c (ok (go d b), s) (ok (more b), s)
  stops : (b : B) (s : Store) → Follows c (ok (stop b), s) (ok (done b), s)
  fails : (e : CollectionError) (s : Store) → Follows c (err e, s) (err e, s)
  panics : (s : Store) → Follows c (panic, s) (panic, s)

module _ {B : Type 0} (body : MemCursor → B → Action (Flow B)) (f : Row → B → Action (Step B)) where
  -- The part of the loop after a round, and of the run after a row.
  abbrev loop_rest : ℕ → CollectionResult (Flow B) × Store → CollectionResult B × Store
  loop_rest fuel (ok (stop a), s) = (ok a, s)
  loop_rest fuel (ok (go d a), s) = each_row fuel body d a s
  loop_rest fuel (err e, s) = (err e, s)
  loop_rest fuel (panic, s) = (panic, s)

  abbrev run_rest : List Row → CollectionResult (Step B) × Store → CollectionResult B × Store
  run_rest rows (ok (done a), s) = (ok a, s)
  run_rest rows (ok (more a), s) = run_rows f rows a s
  run_rest rows (err e, s) = (err e, s)
  run_rest rows (panic, s) = (panic, s)

  loop_rest-continue :
      (fuel : ℕ) (r : CollectionResult (Flow B)) (s : Store)
      → continue r (λ flow. elim flow [ stop a ↦ pure a | go d a ↦ each_row fuel body d a ]) s
        ≡ loop_rest fuel (r, s)
  loop_rest-continue fuel (ok (stop a)) s = refl
  loop_rest-continue fuel (ok (go d a)) s = refl
  loop_rest-continue fuel (err e) s = refl
  loop_rest-continue fuel panic s = refl

  run_rest-continue :
      (rows : List Row) (r : CollectionResult (Step B)) (s : Store)
      → continue r (λ step. elim step [ done a ↦ pure a | more a ↦ run_rows f rows a ]) s
        ≡ run_rest rows (r, s)
  run_rest-continue rows (ok (done a)) s = refl
  run_rest-continue rows (ok (more a)) s = refl
  run_rest-continue rows (err e) s = refl
  run_rest-continue rows panic s = refl

  each_row-end :
      (fuel : ℕ) (c : MemCursor) (b : B) (s : Store) (rows : List Row)
      → c.entries ≡ some rows
      → get_elem? rows (next_position c.position) ≡ none
      → each_row (suc fuel) body c b s ≡ (ok b, s)
  unfolding each_row
  each_row-end fuel c b s rows e end = rw (next-end (opened c s) rows e end) refl

  each_row-step :
      (fuel : ℕ) (c : MemCursor) (b : B) (s : Store) (rows : List Row) (r : Row)
      → c.entries ≡ some rows
      → get_elem? rows (next_position c.position) ≡ some r
      → each_row (suc fuel) body c b s
        ≡ loop_rest fuel (body (stepped (opened c s) (next_position c.position) r).cursor b s)
  unfolding each_row
  each_row-step fuel c b s rows r e there = rw (next-step (opened c s) rows r e there) (
      let x : CollectionResult (Flow B) × Store =
        body (stepped (opened c s) (next_position c.position) r).cursor b s in
      loop_rest-continue fuel x.0 x.1)

  run_rows-nil :
      (b : B) (s : Store) → ◌≡◌ {A = CollectionResult B × Store} (ok b, s) (run_rows f [] b s)
  unfolding run_rows
  run_rows-nil b s = refl

  run_rows-cons :
      (r : Row) (rows : List Row) (b : B) (s : Store)
      → run_rows f (r ∷ rows) b s ≡ run_rest rows (f r b s)
  unfolding run_rows
  run_rows-cons r rows b s = run_rest-continue rows (f r b s).0 (f r b s).1

  -- A round for each row that is left, where a round decides like `f`.
  module _ (name : String)
      (follows : (c : MemCursor) (r : Row) (b : B) (s : Store)
        → StandsOn name r c
        → Follows c (body c b s) (f r b s)) where
    rest_same :
        (fuel : ℕ) (c : MemCursor) (rows left : List Row) (x : CollectionResult (Flow B) × Store)
        (y : CollectionResult (Step B) × Store)
        → Follows c x y
        → ((d : MemCursor) (b : B) (s : Store)
            → d.table_name ≡ c.table_name
            → d.entries ≡ c.entries
            → d.position ≡ c.position
            → each_row fuel body d b s ≡ run_rows f left b s)
        → loop_rest fuel x ≡ run_rest left y
    rest_same fuel c rows left x y (goes d b s t e p) next_rounds = next_rounds d b s t e p
    rest_same fuel c rows left x y (stops b s) next_rounds = refl
    rest_same fuel c rows left x y (fails e s) next_rounds = refl
    rest_same fuel c rows left x y (panics s) next_rounds = refl

    each_row-run_rows :
        (fuel : ℕ) (c : MemCursor) (b : B) (s : Store) (rows : List Row)
        → c.table_name ≡ name
        → c.entries ≡ some rows
        → next_position c.position ≤ length rows
        → length rows < next_position c.position + fuel
        → each_row fuel body c b s ≡ run_rows f (drop (next_position c.position) rows) b s
    each_row-run_rows zero c b s rows t e in_rows le = absurd (omega (arith, le))
    each_row-run_rows (suc fuel) c b s rows t e in_rows le =
        elim (Option-cases (get_elem? rows (next_position c.position))) [
          | inl end ↦
              each_row-end fuel c b s rows e end
              ∙ run_rows-nil b s
              ∙ ap (λ l. run_rows f l b s) (sym (drop-none rows (next_position c.position) end))
          | inr (r, there) ↦
              let p : ℕ = next_position c.position in
              let (split, lt) = drop-some rows p r there in
              let d : MemCursor = (stepped (opened c s) p r).cursor in
              let rest : List Row = drop (suc p) rows in
              each_row-step fuel c b s rows r e there
              ∙ (rest_same fuel d rows rest (body d b s) (f r b s)
                    (follows d r b s
                      (record { table = t; key = refl; value = refl; pending = refl }))
                    (λ d' b' s' t' e' p'.
                      let q : next_position d'.position ≡ suc p =
                        ap next_position p' ∙ omega arith in
                      each_row-run_rows fuel d' b' s' rows (t' ∙ t) (e' ∙ e) (omega (arith, q, lt))
                        (omega (arith, q, le))
                      ∙ ap (λ n. run_rows f (drop n rows) b' s') q)
                  ∙ (sym (run_rows-cons r rest b s) ∙ ap (λ l. run_rows f l b s) (sym split)))
        ]

    each_row-fresh :
        (fuel : ℕ) (c : MemCursor) (b : B) (s : Store) (rows : List Row)
        → c.entries ≡ none
        → s.backend.poisoned ≡ false
        → rows_or_empty (BTreeMap.lookup c.table_name s.backend.tables) ≡ rows
        → each_row fuel body c b s ≡ each_row fuel body (filled (opened c s) rows).cursor b s
    unfolding each_row
    each_row-fresh zero c b s rows fresh healthy held = refl
    each_row-fresh (suc fuel) c b s rows fresh healthy held =
        rw (next-fresh (opened c s) rows fresh healthy held) refl

    -- Where each round decides about its row as `f` does, the loop over a table whose lock is not
    -- poisoned runs `f` on each row in turn; more fuel than there are rows is enough for it, whatever
    -- the rounds write to the tables.
    pub each_row-open_cursor :
        (fuel : ℕ) (b : B) (s : Store) (rows : List Row)
        → s.backend.poisoned ≡ false
        → rows_or_empty (BTreeMap.lookup name s.backend.tables) ≡ rows
        → length rows < fuel
        → each_row fuel body (open_cursor name) b s ≡ run_rows f rows b s
    unfolding open_cursor
    each_row-open_cursor fuel b s rows healthy held le =
        each_row-fresh fuel (open_cursor name) b s rows refl healthy held
        ∙ each_row-run_rows fuel (filled (opened (open_cursor name) s) rows).cursor b s rows refl
            refl (omega arith) (omega (arith, le))

    pub over_table-run_rows :
        (b : B) (s : Store) (rows : List Row)
        → s.backend.poisoned ≡ false
        → rows_or_empty (BTreeMap.lookup name s.backend.tables) ≡ rows
        → over_table name body b s ≡ run_rows f rows b s
    unfolding over_table
    over_table-run_rows b s rows healthy held =
        each_row-open_cursor (suc (length (rows_or_empty (BTreeMap.lookup name s.backend.tables))))
          b s rows healthy held (omega (arith, ap length held))
