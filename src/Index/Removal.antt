-- ===== src/Index/Removal.antt =====
-- The removal of a document from a bitmap index.
use text.Mathlib.TextEquality.{eq_iff}
use mdb_embedded.Prelude.{
  ℕ, zero, suc, ◌<◌, ◌≡◌, ◌≢◌, refl, ap, sym, ◌∙◌, ◌==◌, String, str_eq, false, none, some, List,
  [], ◌∷◌, inl, inr, Bool-cases, Option-cases, length, get_elem?, if◌then◌else◌, arith,
}
use mdb_embedded.Std.Order.{string_ord, bytes_ord}
use mdb_embedded.Std.BTreeMap
use mdb_embedded.Std.BTreeMap.Laws.{lookup-remove, remove-IsSorted}
use mdb_embedded.Index.Bitmap.{
  BitmapIndex, positions_of, without, retain_each, clear_at, remove, ids_at,
}
use mdb_embedded.Index.Postings.{ids_under, AllLess, AllBelow, IsIndexed, get_elem?-some}

-- The ids but one.
unfoldable pub without_id : String → List String → List String
without_id doc_id [] = []
without_id doc_id (id ∷ ids) =
    let rest = without_id doc_id ids in if str_eq id doc_id then rest else id ∷ rest

length-clear_at : (p : ℕ) (ids : List String) → length (clear_at p ids) ≡ length ids
unfolding clear_at
length-clear_at p [] = refl
length-clear_at zero (j ∷ ids) = refl
length-clear_at (suc p) (j ∷ ids) = ap suc (length-clear_at p ids)

get_elem?-clear_at :
    (pos p : ℕ) (ids : List String)
    → (p == pos) ≡ false
    → get_elem? (clear_at pos ids) p ≡ get_elem? ids p
unfolding clear_at
get_elem?-clear_at pos p [] ne = refl
get_elem?-clear_at zero zero (j ∷ ids) ne = ground (arith, ne)
get_elem?-clear_at zero (suc p) (j ∷ ids) ne = refl
get_elem?-clear_at (suc pos) zero (j ∷ ids) ne = refl
get_elem?-clear_at (suc pos) (suc p) (j ∷ ids) ne =
    get_elem?-clear_at pos p ids (ground (arith, ne))

get_elem?-cleared :
    (pos : ℕ) (ids : List String) → pos < length ids → get_elem? (clear_at pos ids) pos ≡ some ""
unfolding clear_at
get_elem?-cleared pos [] lt = absurd (omega arith)
get_elem?-cleared zero (j ∷ ids) lt = refl
get_elem?-cleared (suc pos) (j ∷ ids) lt = get_elem?-cleared pos ids (omega arith)

lookup-retain_each :
    (pos : ℕ) (v : List ℕ) (m : List (List ℕ × List ℕ))
    → positions_of (BTreeMap.lookup v (retain_each pos m))
      ≡ without pos (positions_of (BTreeMap.lookup v m))
unfolding retain_each without BTreeMap.lookup
lookup-retain_each pos v [] = refl
lookup-retain_each pos v ((j, w) ∷ m) = ground (arith, lookup-retain_each pos v m)

AllLess-without : (n pos : ℕ) (ps : List ℕ) → AllLess n ps → AllLess n (without pos ps)
unfolding without
AllLess-without n pos [] l = tt
AllLess-without n pos (p ∷ ps) l = ground (arith, l.0, AllLess-without n pos ps l.1)

AllBelow-retain_each :
    (n pos : ℕ) (m : List (List ℕ × List ℕ)) → AllBelow n m → AllBelow n (retain_each pos m)
unfolding retain_each
AllBelow-retain_each n pos [] b = tt
AllBelow-retain_each n pos ((v, ps) ∷ m) b =
    (AllLess-without n pos ps b.0, AllBelow-retain_each n pos m b.1)

module _ (idx : BitmapIndex) (well : IsIndexed idx) (doc_id : String) (named : doc_id ≢ "") where
  -- The index without the document at a position.
  abbrev removed : ℕ → BitmapIndex
  removed pos = record idx {
    bitmaps = retain_each pos idx.bitmaps;
    id_to_pos = BTreeMap.remove doc_id idx.id_to_pos;
    pos_to_id = clear_at pos idx.pos_to_id;
  }

  pub remove-known :
      (pos : ℕ) → BTreeMap.lookup doc_id idx.id_to_pos ≡ some pos → remove doc_id idx ≡ removed pos
  unfolding remove
  remove-known pos e = rw e refl

  pub remove-unknown : BTreeMap.lookup doc_id idx.id_to_pos ≡ none → remove doc_id idx ≡ idx
  unfolding remove
  remove-unknown e = rw e refl

  -- A position holds the document exactly if it is the document's.
  at_pos :
      (pos p : ℕ) (id : String)
      → BTreeMap.lookup doc_id idx.id_to_pos ≡ some pos
      → get_elem? idx.pos_to_id p ≡ some id
      → str_eq id doc_id ≡ (p == pos)
  at_pos pos p id e there = elim (Bool-cases (p == pos)) [
    | inl same ↦
        let q : p ≡ pos = ground (arith, same) in
        ground (
          arith,
          same,
          there,
          ap (get_elem? idx.pos_to_id) q,
          well.back doc_id pos e,
          eq_iff id doc_id,
        )
    | inr other ↦ elim (Bool-cases (str_eq id doc_id)) [
      | inl same_id ↦
          let r : id ≡ doc_id = (eq_iff id doc_id).0 same_id in
          ground (arith, other, e, well.forth p doc_id (there ∙ ap some r) named)
      | inr other_id ↦ other_id ∙ sym other
    ]
  ]

  ids_at-without :
      (pos : ℕ) (ps : List ℕ)
      → BTreeMap.lookup doc_id idx.id_to_pos ≡ some pos
      → ids_at (clear_at pos idx.pos_to_id) (without pos ps)
        ≡ without_id doc_id (ids_at idx.pos_to_id ps)
  unfolding ids_at without without_id
  ids_at-without pos [] e = refl
  ids_at-without pos (p ∷ ps) e = elim (Option-cases (get_elem? idx.pos_to_id p)) [
    | inl gone ↦ ground (
      arith,
      gone,
      get_elem?-clear_at pos p idx.pos_to_id,
      ap (get_elem? idx.pos_to_id) {x = p} {y = pos},
      well.back doc_id pos e,
      ids_at-without pos ps e,
    )
    | inr (id, there) ↦ ground (
      arith,
      there,
      get_elem?-clear_at pos p idx.pos_to_id,
      at_pos pos p id e there,
      eq_iff id doc_id,
      eq_iff id "",
      named,
      ids_at-without pos ps e,
    )
  ]

  -- A document without a position stands under no value.
  not_there :
      (p : ℕ) (id : String)
      → BTreeMap.lookup doc_id idx.id_to_pos ≡ none
      → get_elem? idx.pos_to_id p ≡ some id
      → str_eq id doc_id ≡ false
  not_there p id e there = elim (Bool-cases (str_eq id doc_id)) [
    | inl same ↦
        let r : id ≡ doc_id = (eq_iff id doc_id).0 same in
        ground (arith, e, well.forth p doc_id (there ∙ ap some r) named)
    | inr other ↦ other
  ]

  ids_at-absent :
      (ps : List ℕ)
      → BTreeMap.lookup doc_id idx.id_to_pos ≡ none
      → ids_at idx.pos_to_id ps ≡ without_id doc_id (ids_at idx.pos_to_id ps)
  unfolding ids_at without_id
  ids_at-absent [] e = refl
  ids_at-absent (p ∷ ps) e = elim (Option-cases (get_elem? idx.pos_to_id p)) [
    | inl gone ↦ rw gone (ids_at-absent ps e)
    | inr (id, there) ↦ ground (arith, there, not_there p id e there, ids_at-absent ps e)
  ]

  kept_back :
      (pos : ℕ)
      → BTreeMap.lookup doc_id idx.id_to_pos ≡ some pos
      → (id : String) (p : ℕ) → BTreeMap.lookup id (BTreeMap.remove doc_id idx.id_to_pos) ≡ some p
      → get_elem? (clear_at pos idx.pos_to_id) p ≡ some id
  kept_back pos e id p h = ground (
    arith,
    h,
    old,
    lookup-remove doc_id id idx.id_to_pos well.sorted,
    string_ord.cmp_refl doc_id,
    there,
    at_pos pos p id e there,
    eq_iff id doc_id,
    get_elem?-clear_at pos p idx.pos_to_id,
  )
    where
      old : BTreeMap.lookup id idx.id_to_pos ≡ some p
      old = ground (arith, h, lookup-remove doc_id id idx.id_to_pos well.sorted)

      there : get_elem? idx.pos_to_id p ≡ some id
      there = well.back id p old

  kept_forth :
      (pos : ℕ)
      → BTreeMap.lookup doc_id idx.id_to_pos ≡ some pos
      → (p : ℕ) (id : String) → get_elem? (clear_at pos idx.pos_to_id) p ≡ some id
      → id ≢ ""
      → BTreeMap.lookup id (BTreeMap.remove doc_id idx.id_to_pos) ≡ some p
  kept_forth pos e p id h ne = elim (Bool-cases (p == pos)) [
    | inl same ↦
        let q : p ≡ pos = ground (arith, same) in
        let cleared : get_elem? (clear_at pos idx.pos_to_id) pos ≡ some "" =
          get_elem?-cleared pos idx.pos_to_id
            (get_elem?-some idx.pos_to_id pos doc_id (well.back doc_id pos e)) in
        ground (arith, h, ne, cleared, ap (get_elem? (clear_at pos idx.pos_to_id)) q)
    | inr other ↦
        let there : get_elem? idx.pos_to_id p ≡ some id =
          sym (get_elem?-clear_at pos p idx.pos_to_id other) ∙ h in
        ground (
          arith,
          well.forth p id there ne,
          at_pos pos p id e there,
          other,
          eq_iff id doc_id,
          string_ord.eq_of_cmp doc_id id,
          lookup-remove doc_id id idx.id_to_pos well.sorted,
        )
  ]

  pub remove-IsIndexed : IsIndexed (remove doc_id idx)
  remove-IsIndexed = elim (Option-cases (BTreeMap.lookup doc_id idx.id_to_pos)) [
    | inl e ↦ rw (remove-unknown e) well
    | inr (pos, e) ↦ rw (remove-known pos e) (record {
      size = length-clear_at pos idx.pos_to_id ∙ well.size;
      sorted = remove-IsSorted doc_id idx.id_to_pos well.sorted;
      back = kept_back pos e;
      forth = kept_forth pos e;
      bounded = AllBelow-retain_each idx.next_pos pos idx.bitmaps well.bounded;
    })
  ]

  -- On a well-formed index, the removal of a document whose id is not the empty text takes the id out
  -- from under every value, and leaves the other ids in their order.
  pub ids_under-remove :
      (w : List ℕ) → ids_under w (remove doc_id idx) ≡ without_id doc_id (ids_under w idx)
  unfolding ids_under
  ids_under-remove w = elim (Option-cases (BTreeMap.lookup doc_id idx.id_to_pos)) [
    | inl e ↦ rw (remove-unknown e) (ids_at-absent (positions_of (BTreeMap.lookup w idx.bitmaps)) e)
    | inr (pos, e) ↦ rw (remove-known pos e) (
        ap (ids_at (clear_at pos idx.pos_to_id)) (lookup-retain_each pos w idx.bitmaps)
        ∙ ids_at-without pos (positions_of (BTreeMap.lookup w idx.bitmaps)) e)
  ]
