-- ===== src/Aggregation/Sorting.antt =====
-- `$sort`, alone and fused with `$limit`: what the stages give, and in which order.
use mathlib.Core.List.Perm
use mathlib.Core.List.{Perm, foldr, append-nil}
use mathlib.Core.Bool.{Bool-set}
use native.Mathlib.Nat.{ℕ_set}
use mdb_embedded.Prelude.{
  ℕ, zero, suc, pos, as_usize, ◌^◌, ◌+◌, ◌-◌, ◌<◌, ◌≤◌, min, ltb, ◌==◌, Bool, true, false, ◌&&◌,
  Bool-cases, inl, inr, ◌≡◌, refl, sym, ap, subst, ◌∙◌, none, List, [], ◌∷◌, ◌++◌, map, Ordering,
  length, take, drop, get_elem?-lt, take-append-drop, arith, some, String, split_dots,
}
use mdb_embedded.Bson.{int64, document, Document, end, field, ok, Externals, IsMap}
use mdb_embedded.Std.Sort.{sort_by}
use mdb_embedded.Std.Membership.{IsPreorder, IsAscending, sort_by-IsAscending}
use mdb_embedded.Std.Sorting.{
  IsSplit, IsSplit-nil, sort_by-IsSplit, sort_by-perm, map-sort_by, map-IsSplit, map-IsAscending,
  pullback-IsPreorder, IsSelection,
}
use mdb_embedded.Query.Doubles.{IsFloatOrder}
use mdb_embedded.Paths.{get_value, get_from}
use mdb_embedded.Aggregation.Ranks.{HasNoNan, compare_docs-IsPreorder}
use mdb_embedded.Aggregation.Stages.{of_docs}
use mdb_embedded.Aggregation.Streams.{collect-of_docs}
use mdb_embedded.Aggregation.Stages.Sort.{
  compare_docs, doc_at, at_indices, indices_from, docs_at, collect_with_limit, within_limit,
  top_indices, sort_limited, stage_sort_limit_stream,
}

abbrev in_range : ℕ → List ℕ → Bool
in_range n = foldr (λ i b. ltb i n && b) true

length-foldr : {A : Type 0} (xs : List A) → length xs ≡ foldr (λ _ n. suc n) 0 xs
length-foldr [] = refl
length-foldr (x ∷ xs) = ap suc (length-foldr xs)

length-perm : {A : Type 0} {xs ys : List A} → Perm xs ys → length xs ≡ length ys
length-perm {A} {xs} {ys} p =
    length-foldr xs ∙ Perm.foldr-eq ℕ_set (λ _ n. suc n) (λ a b n. refl) p 0 ∙ sym (length-foldr ys)

length-map : {A B : Type 0} (f : A → B) (xs : List A) → length (map f xs) ≡ length xs
length-map f [] = refl
length-map f (x ∷ xs) = ap suc (length-map f xs)

map-append : {A B : Type 0} (f : A → B) (xs ys : List A) → map f (xs ++ ys) ≡ map f xs ++ map f ys
map-append f [] ys = refl
map-append f (x ∷ xs) ys = ap (λ r. f x ∷ r) (map-append f xs ys)

length-take : {A : Type 0} (n : ℕ) (xs : List A) → length (take n xs) ≡ min n (length xs)
length-take zero xs = omega arith
length-take (suc n) [] = omega arith
length-take (suc n) (x ∷ xs) = ground (arith, length-take n xs)

module _ (docs : List Document) where
  docs_at-map :
      (indices : List ℕ)
      → in_range (length docs) indices ≡ true
      → docs_at docs indices ≡ ok (map (doc_at docs) indices)
  unfolding docs_at
  docs_at-map [] h = refl
  docs_at-map (i ∷ indices) h =
      let (doc, e) = get_elem?-lt docs i (ground (arith, h)) in
      ground (arith, e, docs_at-map indices (ground (arith, h)))

shift :
    (doc : Document) (docs : List Document) (k n : ℕ)
    → map (doc_at (doc ∷ docs)) (indices_from (k + 1) n) ≡ map (doc_at docs) (indices_from k n)
unfolding indices_from
shift doc docs k zero = refl
shift doc docs k (suc n) =
    let e : k + 1 ≡ suc k = omega arith in
    ap (λ j. doc_at (doc ∷ docs) j ∷ map (doc_at (doc ∷ docs)) (indices_from (k + 1 + 1) n)) e
    ∙ ap (λ r. doc_at docs k ∷ r) (shift doc docs (k + 1) n)

doc_at-indices_from :
    (docs : List Document) → map (doc_at docs) (indices_from 0 (length docs)) ≡ docs
unfolding indices_from
doc_at-indices_from [] = refl
doc_at-indices_from (doc ∷ docs) =
    ap (λ r. doc ∷ r) (shift doc docs 0 (length docs) ∙ doc_at-indices_from docs)

indices_from-in_range : (k n m : ℕ) → k + n ≤ m → in_range m (indices_from k n) ≡ true
unfolding indices_from
indices_from-in_range k zero m h = refl
indices_from-in_range k (suc n) m h =
    ground (arith, h, indices_from-in_range (k + 1) n m (omega arith))

length-indices_from : (k n : ℕ) → length (indices_from k n) ≡ n
unfolding indices_from
length-indices_from k zero = refl
length-indices_from k (suc n) = ap suc (length-indices_from (k + 1) n)

in_range-perm : (n : ℕ) {xs ys : List ℕ} → Perm xs ys → in_range n ys ≡ true → in_range n xs ≡ true
in_range-perm n p h =
    Perm.foldr-eq Bool-set (λ i b. ltb i n && b) (λ i j b. ground arith) p true ∙ h

in_range-append : (n : ℕ) (xs ys : List ℕ) → in_range n (xs ++ ys) ≡ true → in_range n xs ≡ true
in_range-append n [] ys h = refl
in_range-append n (x ∷ xs) ys h = ground (arith, h, in_range-append n xs ys)

-- A part of a list that a sort takes, and the others.
record IsTop (cmp : ℕ → ℕ → Ordering) (size : ℕ) (whole chosen others : List ℕ) : Type 0 where
  perm : Perm (chosen ++ others) whole
  split : IsSplit cmp chosen others
  count : length chosen ≡ size

-- Every document has no NaN at the fields of the sort specification.
abbrev pub AllWithoutNan : Externals → Document → List Document → Type 0
AllWithoutNan ext spec [] = Unit
AllWithoutNan ext spec (doc ∷ docs) = HasNoNan ext spec doc × AllWithoutNan ext spec docs

module _ (ext : Externals) (m : IsMap ext) (p : IsFloatOrder ext) where
  get_value-end : (name : String) → get_value ext end name ≡ none
  unfolding get_value
  get_value-end name = from_segments (split_dots name)
    where
      from_segments :
          (parts : List String)
          → (elim parts [
            | [] ↦ none
            | first ∷ rest ↦ elim (ext.get end first) [ none ↦ none | some v ↦ get_from ext rest v ]
          ])
            ≡ none
      from_segments [] = refl
      from_segments (first ∷ rest) = rw (m.get-new first) refl

  HasNoNan-end : (spec : Document) → HasNoNan ext spec end
  HasNoNan-end end = tt
  HasNoNan-end (field name direction rest) = (rw (get_value-end name) tt, HasNoNan-end rest)

  HasNoNan-doc_at :
      (spec : Document) (docs : List Document) (i : ℕ)
      → AllWithoutNan ext spec docs
      → HasNoNan ext spec (doc_at docs i)
  HasNoNan-doc_at spec [] i h = HasNoNan-end spec
  HasNoNan-doc_at spec (doc ∷ docs) zero h = h.0
  HasNoNan-doc_at spec (doc ∷ docs) (suc i) h = HasNoNan-doc_at spec docs i h.1

  at_indices-IsPreorder :
      (spec : Document) (docs : List Document)
      → AllWithoutNan ext spec docs
      → IsPreorder (at_indices (compare_docs ext spec) docs)
  at_indices-IsPreorder spec docs h =
      pullback-IsPreorder (λ i. (doc_at docs i, HasNoNan-doc_at spec docs i h))
        (λ a b. compare_docs ext spec a.0 b.0) (compare_docs-IsPreorder ext p spec)

  module _ (size : Document → ℕ) (select_nth : ℕ → (ℕ → ℕ → Ordering) → List ℕ → List ℕ)
      (selection : IsSelection select_nth) where
    top_indices-IsTop :
        (spec : Document) (docs : List Document) (k : ℕ)
        → AllWithoutNan ext spec docs
        → (others : List ℕ) × IsTop
            (at_indices (compare_docs ext spec) docs)
            (min (suc k) (length docs))
            (indices_from 0 (length docs))
            (top_indices ext size select_nth (compare_docs ext spec) docs (suc k))
            others
    unfolding top_indices
    top_indices-IsTop spec docs k clean =
        elim (Bool-cases (ltb (suc k) (length (indices_from 0 (length docs))))) [
          | inl lt ↦
              let cmp = at_indices (compare_docs ext spec) docs in
              let whole = indices_from 0 (length docs) in
              let q = at_indices-IsPreorder spec docs clean in
              let less : k < length whole = ground (arith, lt) in
              let sel = select_nth k cmp whole in
              let less_one : suc k - 1 ≡ k = omega arith in
              (
                drop (suc k) sel,
                rw (lt, less_one)
                    (record {
                      perm =
                          subst (λ l. Perm l whole) (sym (take-append-drop (suc k) sel))
                            (selection.perm k cmp whole less);
                      split = selection.split k cmp whole q less;
                      count =
                          length-take (suc k) sel
                          ∙ ap (min (suc k)) (
                              length-perm (selection.perm k cmp whole less)
                              ∙ length-indices_from 0 (length docs));
                    }),
              )
          | inr ge ↦ (
            [],
            rw (ge) (record {
              perm =
                  subst (λ l. Perm l (indices_from 0 (length docs)))
                    (sym (append-nil (indices_from 0 (length docs)))) Perm.rfl;
              split =
                  IsSplit-nil (at_indices (compare_docs ext spec) docs)
                    (indices_from 0 (length docs));
              count =
                  length-indices_from 0 (length docs)
                  ∙ ground (arith, ge, length-indices_from 0 (length docs));
            }),
          )
        ]

    -- `$sort` with a `$limit` behind it, on documents without NaN at the fields of the sort, gives the
    -- documents that come first, as many as the limit allows and in ascending order: with the others
    -- they are the documents that came, and none of them comes after one of the others. The limit is
    -- an `Int64` above 0, and there is no memory limit.
    pub stage_sort_limit_stream-IsSplit :
        (docs : List Document) (spec : Document) (k : ℕ)
        → AllWithoutNan ext spec docs
        → suc k < 2 ^ 64
        → (out : List Document) × (rest : List Document) × (stage_sort_limit_stream ext size
              select_nth
              (of_docs docs)
              (document spec)
              (int64 (pos (suc k)))
              none
            ≡ ok (of_docs out))
          × (length out ≡ min (suc k) (length docs))
          × IsAscending (compare_docs ext spec) out
          × IsSplit (compare_docs ext spec) out rest
          × Perm (out ++ rest) docs
    unfolding stage_sort_limit_stream sort_limited collect_with_limit within_limit
    stage_sort_limit_stream-IsSplit docs spec k clean small =
        let (others, top) = top_indices-IsTop spec docs k clean in
        let cmp = compare_docs ext spec in
        let chosen = top_indices ext size select_nth cmp docs (suc k) in
        let f = doc_at docs in
        let whole = indices_from 0 (length docs) in
        let same : as_usize (pos (suc k)) ≡ suc k = omega (arith, small) in
        let positive : (suc k == 0) ≡ false = ground arith in
        let perm_chosen = sort_by-perm (at_indices cmp docs) chosen in
        let range = in_range-perm (length docs) perm_chosen (
          in_range-append (length docs) chosen others (
            in_range-perm (length docs) top.perm
              (indices_from-in_range 0 (length docs) (length docs) (omega arith)))) in
        (
          sort_by cmp (map f chosen),
          map f others,
          rw
              (
                same,
                positive,
                collect-of_docs docs,
                docs_at-map docs (sort_by (at_indices cmp docs) chosen) range,
                map-sort_by f cmp chosen,
              )
              refl,
          length-perm (sort_by-perm cmp (map f chosen)) ∙ length-map f chosen ∙ top.count,
          subst (IsAscending cmp) (map-sort_by f cmp chosen) (
              map-IsAscending f cmp (sort_by (at_indices cmp docs) chosen) (
                sort_by-IsAscending (at_indices cmp docs) (at_indices-IsPreorder spec docs clean)
                  chosen)),
          sort_by-IsSplit cmp (map f chosen) (map f others)
              (map-IsSplit f cmp chosen others top.split),
          Perm.trans (Perm.append_right (map f others) (sort_by-perm cmp (map f chosen))) (
              subst (Perm (map f chosen ++ map f others)) (doc_at-indices_from docs) (
                subst (λ l. Perm l (map f whole)) (map-append f chosen others)
                  (Perm.map f top.perm))),
        )
