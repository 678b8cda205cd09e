-- ===== src/Index/Postings.antt =====
-- A bitmap index as the ids that stand under each value.
use text.Mathlib.TextEquality.{eq_iff}
use mdb_embedded.Prelude.{
  ℕ, zero, suc, ◌+◌, ◌<◌, ◌^◌, ◌%◌, ◌≡◌, ◌≢◌, refl, ap, sym, ◌∙◌, ◌==◌, String, none, some, List,
  [], ◌∷◌, ◌++◌, inl, inr, Bool-cases, Option-cases, Ordering, length, get_elem?, length-append,
  subst, ◌⊎◌, arith,
}
use mdb_embedded.Std.Order.{string_ord, bytes_ord, cmp_bytes}
use mdb_embedded.Std.BTreeMap
use mdb_embedded.Std.BTreeMap.{IsSorted}
use mdb_embedded.Std.BTreeMap.Laws.{when_eq, lookup-insert, insert-IsSorted}
use mdb_embedded.Index.Bitmap.{
  BitmapIndex, set_at, positions_of, lookup, insert, ids_at, positions_to_ids,
}

-- The ids of the documents under a value, in the order of their insertion.
unfoldable pub ids_under : List ℕ → BitmapIndex → List String
unfolding lookup positions_to_ids
ids_under value idx = positions_to_ids idx (lookup value idx)

abbrev pub AllLess : ℕ → List ℕ → Type 0
AllLess n [] = Unit
AllLess n (p ∷ positions) = (p < n) × AllLess n positions

abbrev pub AllBelow : ℕ → List (List ℕ × List ℕ) → Type 0
AllBelow n [] = Unit
AllBelow n ((v, positions) ∷ bitmaps) = AllLess n positions × AllBelow n bitmaps

-- Positions and ids name each other, and every position of a bitmap has been given out.
pub record IsIndexed (idx : BitmapIndex) : Type 0 where
  pub size : length idx.pos_to_id ≡ idx.next_pos
  pub sorted : IsSorted idx.id_to_pos
  pub back :
      (id : String) (p : ℕ)
      → BTreeMap.lookup id idx.id_to_pos ≡ some p
      → get_elem? idx.pos_to_id p ≡ some id
  pub forth :
      (p : ℕ) (id : String)
      → get_elem? idx.pos_to_id p ≡ some id
      → id ≢ ""
      → BTreeMap.lookup id idx.id_to_pos ≡ some p
  pub bounded : AllBelow idx.next_pos idx.bitmaps

AllLess-positions_of :
    (n : ℕ) (v : List ℕ) (m : List (List ℕ × List ℕ))
    → AllBelow n m
    → AllLess n (positions_of (BTreeMap.lookup v m))
unfolding BTreeMap.lookup
AllLess-positions_of n v [] b = tt
AllLess-positions_of n v ((j, w) ∷ m) b = ground (arith, b.0, AllLess-positions_of n v m b.1)

AllBelow-insert :
    (n : ℕ) (v ps : List ℕ) (m : List (List ℕ × List ℕ))
    → AllLess n ps
    → AllBelow n m
    → AllBelow n (BTreeMap.insert v ps m)
unfolding BTreeMap.insert
AllBelow-insert n v ps [] l b = (l, tt)
AllBelow-insert n v ps ((j, w) ∷ m) l b = ground (arith, AllBelow-insert n v ps m l b.1)

AllLess-append : (n : ℕ) (ps qs : List ℕ) → AllLess n ps → AllLess n qs → AllLess n (ps ++ qs)
AllLess-append n [] qs l k = k
AllLess-append n (p ∷ ps) qs l k = (l.0, AllLess-append n ps qs l.1 k)

AllLess-suc : (n : ℕ) (ps : List ℕ) → AllLess n ps → AllLess (n + 1) ps
AllLess-suc n [] l = tt
AllLess-suc n (p ∷ ps) l = (omega (arith, l.0), AllLess-suc n ps l.1)

AllBelow-suc : (n : ℕ) (m : List (List ℕ × List ℕ)) → AllBelow n m → AllBelow (n + 1) m
AllBelow-suc n [] b = tt
AllBelow-suc n ((v, ps) ∷ m) b = (AllLess-suc n ps b.0, AllBelow-suc n m b.1)

set_at-length : (id : String) (ids : List String) → set_at (length ids) id ids ≡ ids ++ id ∷ []
unfolding set_at
set_at-length id [] = refl
set_at-length id (j ∷ ids) = ap (◌∷◌ j) (set_at-length id ids)

get_elem?-append :
    (ids : List String) (id : String) (p : ℕ)
    → p < length ids
    → get_elem? (ids ++ id ∷ []) p ≡ get_elem? ids p
get_elem?-append [] id p lt = absurd (omega arith)
get_elem?-append (j ∷ ids) id zero lt = refl
get_elem?-append (j ∷ ids) id (suc p) lt = get_elem?-append ids id p (omega arith)

get_elem?-last :
    (ids : List String) (id : String) → get_elem? (ids ++ id ∷ []) (length ids) ≡ some id
get_elem?-last [] id = refl
get_elem?-last (j ∷ ids) id = get_elem?-last ids id

pub get_elem?-some :
    (ids : List String) (p : ℕ) (id : String) → get_elem? ids p ≡ some id → p < length ids
get_elem?-some [] p id e = ground (arith, e)
get_elem?-some (j ∷ ids) zero id e = omega arith
get_elem?-some (j ∷ ids) (suc p) id e = omega (arith, get_elem?-some ids p id e)

ids_at-append :
    (ids : List String) (ps qs : List ℕ) → ids_at ids (ps ++ qs) ≡ ids_at ids ps ++ ids_at ids qs
unfolding ids_at
ids_at-append ids [] qs = refl
ids_at-append ids (p ∷ ps) qs = ground (arith, ids_at-append ids ps qs)

-- An id at the end changes nothing under the positions before it.
ids_at-longer :
    (ids : List String) (id : String) (ps : List ℕ)
    → AllLess (length ids) ps
    → ids_at (ids ++ id ∷ []) ps ≡ ids_at ids ps
unfolding ids_at
ids_at-longer ids id [] l = refl
ids_at-longer ids id (p ∷ ps) l =
    rw (get_elem?-append ids id p l.0, ids_at-longer ids id ps l.1) refl

ids_at-one :
    (ids : List String) (p : ℕ) (id : String)
    → get_elem? ids p ≡ some id
    → id ≢ ""
    → ids_at ids (p ∷ []) ≡ id ∷ []
unfolding ids_at
ids_at-one ids p id e ne = ground (arith, e, eq_iff id "", ne)

module _ (idx : BitmapIndex) (well : IsIndexed idx) (doc_id : String) (value : List ℕ)
    (named : doc_id ≢ "") (room : idx.next_pos + 1 < 2 ^ 32) where
  -- The index with a position pushed under the value.
  abbrev pushed : ℕ → List (List ℕ × List ℕ)
  pushed p =
      BTreeMap.insert value (positions_of (BTreeMap.lookup value idx.bitmaps) ++ p ∷ []) idx.bitmaps

  pub insert-known :
      (p : ℕ)
      → BTreeMap.lookup doc_id idx.id_to_pos ≡ some p
      → insert doc_id value idx ≡ record idx { bitmaps = pushed p }
  unfolding insert
  insert-known p e = rw e refl

  pub insert-new :
      BTreeMap.lookup doc_id idx.id_to_pos ≡ none
      → insert doc_id value idx ≡ record {
        bitmaps = pushed idx.next_pos;
        pos_to_id = idx.pos_to_id ++ doc_id ∷ [];
        id_to_pos = BTreeMap.insert doc_id idx.next_pos idx.id_to_pos;
        next_pos = idx.next_pos + 1;
      }
  unfolding insert
  insert-new e =
      let wraps : (idx.next_pos + 1) % 2 ^ 32 ≡ idx.next_pos + 1 = omega arith in
      let appended : set_at idx.next_pos doc_id idx.pos_to_id ≡ idx.pos_to_id ++ doc_id ∷ [] =
        ap (λ n. set_at n doc_id idx.pos_to_id) (sym well.size)
        ∙ set_at-length doc_id idx.pos_to_id in
      rw (e, appended, wraps) refl

  lookup-pushed :
      (p : ℕ) (w : List ℕ)
      → positions_of (BTreeMap.lookup w (pushed p))
        ≡ when_eq
            (cmp_bytes value w)
            (positions_of (BTreeMap.lookup w idx.bitmaps) ++ p ∷ [])
            (positions_of (BTreeMap.lookup w idx.bitmaps))
  lookup-pushed p w = ground (
    arith,
    lookup-insert value w (positions_of (BTreeMap.lookup value idx.bitmaps) ++ p ∷ []) idx.bitmaps,
    bytes_ord.eq_of_cmp value w,
  )

  pushed-AllBelow : (n p : ℕ) → p < n → AllBelow n idx.bitmaps → AllBelow n (pushed p)
  pushed-AllBelow n p lt b =
      AllBelow-insert n value (positions_of (BTreeMap.lookup value idx.bitmaps) ++ p ∷ [])
        idx.bitmaps
        (AllLess-append n (positions_of (BTreeMap.lookup value idx.bitmaps)) (p ∷ [])
          (AllLess-positions_of n value idx.bitmaps b) (lt, tt))
        b

  -- The position of an id that is known.
  known-lt : (p : ℕ) → BTreeMap.lookup doc_id idx.id_to_pos ≡ some p → p < idx.next_pos
  known-lt p e =
      omega (arith, get_elem?-some idx.pos_to_id p doc_id (well.back doc_id p e), well.size)

  new_back :
      BTreeMap.lookup doc_id idx.id_to_pos ≡ none
      → (id : String) (p : ℕ)
      → BTreeMap.lookup id (BTreeMap.insert doc_id idx.next_pos idx.id_to_pos) ≡ some p
      → get_elem? (idx.pos_to_id ++ doc_id ∷ []) p ≡ some id
  new_back e id p h = elim which [
    | inl (same, last) ↦
        let eq : length idx.pos_to_id ≡ p = well.size ∙ last in
        ap (get_elem? (idx.pos_to_id ++ doc_id ∷ [])) (sym eq)
        ∙ (get_elem?-last idx.pos_to_id doc_id ∙ ap some same)
    | inr old ↦
        let there : get_elem? idx.pos_to_id p ≡ some id = well.back id p old in
        get_elem?-append idx.pos_to_id doc_id p (get_elem?-some idx.pos_to_id p id there) ∙ there
  ]
    where
      which : ((doc_id ≡ id) × (idx.next_pos ≡ p)) ⊎ (BTreeMap.lookup id idx.id_to_pos ≡ some p)
      which = ground (
        arith,
        h,
        lookup-insert doc_id id idx.next_pos idx.id_to_pos,
        string_ord.eq_of_cmp doc_id id,
      )

  new_forth :
      BTreeMap.lookup doc_id idx.id_to_pos ≡ none
      → (p : ℕ) (id : String) → get_elem? (idx.pos_to_id ++ doc_id ∷ []) p ≡ some id
      → id ≢ ""
      → BTreeMap.lookup id (BTreeMap.insert doc_id idx.next_pos idx.id_to_pos) ≡ some p
  new_forth e p id h ne = elim (Bool-cases (p == idx.next_pos)) [
    | inl last ↦
        let eq : length idx.pos_to_id ≡ p = well.size ∙ ground (arith, last) in
        ground (
          arith,
          h,
          last,
          ap (get_elem? (idx.pos_to_id ++ doc_id ∷ [])) eq,
          get_elem?-last idx.pos_to_id doc_id,
          lookup-insert doc_id id idx.next_pos idx.id_to_pos,
          string_ord.cmp_refl id,
        )
    | inr before ↦
        let lt : p < length idx.pos_to_id = ground (
          arith,
          before,
          get_elem?-some (idx.pos_to_id ++ doc_id ∷ []) p id h,
          length-append idx.pos_to_id (doc_id ∷ []),
          well.size,
        ) in
        let old : BTreeMap.lookup id idx.id_to_pos ≡ some p =
          well.forth p id (sym (get_elem?-append idx.pos_to_id doc_id p lt) ∙ h) ne in
        ground (
          arith,
          old,
          e,
          lookup-insert doc_id id idx.next_pos idx.id_to_pos,
          string_ord.eq_of_cmp doc_id id,
        )
  ]

  ids_at-when :
      (ids : List String) (o : Ordering) (ps : List ℕ) (p : ℕ)
      → get_elem? ids p ≡ some doc_id
      → ids_at ids (when_eq o (ps ++ p ∷ []) ps)
        ≡ when_eq o (ids_at ids ps ++ doc_id ∷ []) (ids_at ids ps)
  ids_at-when ids Ordering.lt ps p e = refl
  ids_at-when ids Ordering.eq ps p e =
      ids_at-append ids ps (p ∷ []) ∙ ap (◌++◌ (ids_at ids ps)) (ids_at-one ids p doc_id e named)
  ids_at-when ids Ordering.gt ps p e = refl

  pub insert-IsIndexed : IsIndexed (insert doc_id value idx)
  insert-IsIndexed = elim (Option-cases (BTreeMap.lookup doc_id idx.id_to_pos)) [
    | inr (p, e) ↦ rw (insert-known p e) (record {
      size = well.size;
      sorted = well.sorted;
      back = well.back;
      forth = well.forth;
      bounded = pushed-AllBelow idx.next_pos p (known-lt p e) well.bounded;
    })
    | inl e ↦ rw (insert-new e) (record {
      size = omega (arith, length-append idx.pos_to_id (doc_id ∷ []), well.size);
      sorted = insert-IsSorted doc_id idx.next_pos idx.id_to_pos well.sorted;
      back = new_back e;
      forth = new_forth e;
      bounded =
          pushed-AllBelow (idx.next_pos + 1) idx.next_pos (omega arith)
            (AllBelow-suc idx.next_pos idx.bitmaps well.bounded);
    })
  ]

  -- On a well-formed index with a position to spare, the insertion of a document whose id is not the
  -- empty text puts the id behind those that stand under its value, and leaves the other values alone.
  pub ids_under-insert :
      (w : List ℕ)
      → ids_under w (insert doc_id value idx)
        ≡ when_eq (cmp_bytes value w) (ids_under w idx ++ doc_id ∷ []) (ids_under w idx)
  unfolding ids_under
  ids_under-insert w = elim (Option-cases (BTreeMap.lookup doc_id idx.id_to_pos)) [
    | inr (p, e) ↦ rw (insert-known p e) (
        ap (ids_at idx.pos_to_id) (lookup-pushed p w)
        ∙ ids_at-when idx.pos_to_id (cmp_bytes value w)
            (positions_of (BTreeMap.lookup w idx.bitmaps)) p (well.back doc_id p e))
    | inl e ↦
        let ps : List ℕ = positions_of (BTreeMap.lookup w idx.bitmaps) in
        let longer : ids_at (idx.pos_to_id ++ doc_id ∷ []) ps ≡ ids_at idx.pos_to_id ps =
          ids_at-longer idx.pos_to_id doc_id ps (in_range w) in
        rw (insert-new e) (
          ap (ids_at (idx.pos_to_id ++ doc_id ∷ [])) (lookup-pushed idx.next_pos w)
          ∙ (ids_at-when (idx.pos_to_id ++ doc_id ∷ []) (cmp_bytes value w) ps idx.next_pos (
                ap (get_elem? (idx.pos_to_id ++ doc_id ∷ [])) (sym well.size)
                ∙ get_elem?-last idx.pos_to_id doc_id)
              ∙ ap (λ l. when_eq (cmp_bytes value w) (l ++ doc_id ∷ []) l) longer))
  ]
    where
      in_range :
          (v : List ℕ)
          → AllLess (length idx.pos_to_id) (positions_of (BTreeMap.lookup v idx.bitmaps))
      in_range v =
          subst (λ n. AllLess n (positions_of (BTreeMap.lookup v idx.bitmaps))) (sym well.size)
            (AllLess-positions_of idx.next_pos v idx.bitmaps well.bounded)
