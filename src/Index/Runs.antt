-- ===== src/Index/Runs.antt =====
-- A bitmap index through any insertions and removals, against lists of ids under values.
use mdb_embedded.Prelude.{
  ℕ, ◌+◌, ◌<◌, ◌≤◌, ◌^◌, ◌≡◌, ◌≢◌, refl, ap, ◌∙◌, String, List, [], ◌∷◌, ◌++◌, inl, inr,
  Option-cases, length, arith,
}
use mdb_embedded.Std.Order.{string_ord, bytes_ord, cmp_bytes}
use mdb_embedded.Std.BTreeMap
use mdb_embedded.Std.BTreeMap.Laws.{when_eq}
use mdb_embedded.Index.Bitmap.{BitmapIndex, new, insert, remove, ids_at}
use mdb_embedded.Index.Postings.{
  ids_under, IsIndexed, insert-IsIndexed, ids_under-insert, insert-known, insert-new,
}
use mdb_embedded.Index.Removal.{
  without_id, remove-IsIndexed, ids_under-remove, remove-known, remove-unknown,
}

pub data Change : Type 0 where
  put : String → List ℕ → Change
  take : String → Change

unfoldable pub run_changes : List Change → BitmapIndex → BitmapIndex
run_changes [] idx = idx
run_changes (put id v ∷ changes) idx = run_changes changes (insert id v idx)
run_changes (take id ∷ changes) idx = run_changes changes (remove id idx)

-- The same changes to the ids under each value.
unfoldable pub postings : List Change → (List ℕ → List String) → List ℕ → List String
postings [] f = f
postings (put id v ∷ changes) f =
    postings changes (λ w. when_eq (cmp_bytes v w) (f w ++ id ∷ []) (f w))
postings (take id ∷ changes) f = postings changes (λ w. without_id id (f w))

abbrev pub AllNamed : List Change → Type 0
AllNamed [] = Unit
AllNamed (put id v ∷ changes) = (id ≢ "") × AllNamed changes
AllNamed (take id ∷ changes) = (id ≢ "") × AllNamed changes

postings-same :
    (changes : List Change) (f g : List ℕ → List String)
    → ((v : List ℕ) → f v ≡ g v)
    → (w : List ℕ) → postings changes f w ≡ postings changes g w
unfolding postings
postings-same [] f g h w = h w
postings-same (put id v ∷ changes) f g h w =
    postings-same changes (λ u. when_eq (cmp_bytes v u) (f u ++ id ∷ []) (f u))
      (λ u. when_eq (cmp_bytes v u) (g u ++ id ∷ []) (g u))
      (λ u. ap (λ l. when_eq (cmp_bytes v u) (l ++ id ∷ []) l) (h u)) w
postings-same (take id ∷ changes) f g h w =
    postings-same changes (λ u. without_id id (f u)) (λ u. without_id id (g u))
      (λ u. ap (without_id id) (h u)) w

-- An insertion takes at most one position, and a removal none.
next_pos-insert :
    (idx : BitmapIndex) (id : String) (v : List ℕ)
    → IsIndexed idx
    → id ≢ ""
    → idx.next_pos + 1 < 2 ^ 32
    → (insert id v idx).next_pos ≤ idx.next_pos + 1
next_pos-insert idx id v well ne room = elim (Option-cases (BTreeMap.lookup id idx.id_to_pos)) [
  | inl e ↦ rw (insert-new idx well id v ne room e) (omega arith)
  | inr (p, e) ↦ rw (insert-known idx well id v ne room p e) (omega arith)
]

next_pos-remove :
    (idx : BitmapIndex) (id : String)
    → IsIndexed idx
    → id ≢ ""
    → (remove id idx).next_pos ≡ idx.next_pos
next_pos-remove idx id well ne = elim (Option-cases (BTreeMap.lookup id idx.id_to_pos)) [
  | inl e ↦ rw (remove-unknown idx well id ne e) refl
  | inr (p, e) ↦ rw (remove-known idx well id ne p e) refl
]

run_changes-from :
    (changes : List Change) (idx : BitmapIndex) (w : List ℕ)
    → IsIndexed idx
    → AllNamed changes
    → idx.next_pos + length changes < 2 ^ 32
    → ids_under w (run_changes changes idx) ≡ postings changes (λ v. ids_under v idx) w
unfolding run_changes postings
run_changes-from [] idx w well named room = refl
run_changes-from (put id v ∷ changes) idx w well named room =
    let one : idx.next_pos + 1 < 2 ^ 32 = omega (arith, room) in
    run_changes-from changes (insert id v idx) w (insert-IsIndexed idx well id v named.0 one)
      named.1 (omega (arith, room, next_pos-insert idx id v well named.0 one))
    ∙ postings-same changes (λ u. ids_under u (insert id v idx))
        (λ u. when_eq (cmp_bytes v u) (ids_under u idx ++ id ∷ []) (ids_under u idx))
        (ids_under-insert idx well id v named.0 one) w
run_changes-from (take id ∷ changes) idx w well named room =
    run_changes-from changes (remove id idx) w (remove-IsIndexed idx well id named.0) named.1
      (omega (arith, room, next_pos-remove idx id well named.0))
    ∙ postings-same changes (λ u. ids_under u (remove id idx))
        (λ u. without_id id (ids_under u idx)) (ids_under-remove idx well id named.0) w

new-IsIndexed : IsIndexed new
unfolding new BTreeMap.lookup
new-IsIndexed = record {
  size = refl;
  sorted = tt;
  back = λ id p h. ground (arith, h);
  forth = λ p id h ne. ground (arith, h);
  bounded = tt;
}

ids_under-new : (v : List ℕ) → ids_under v new ≡ []
unfolding ids_under new BTreeMap.lookup ids_at
ids_under-new v = refl

-- From an empty index, after fewer than 2^32 insertions and removals of documents whose ids are not
-- the empty text, the ids that the index gives for a value are those that the same changes leave
-- under the value in a list: an insertion appends the id, a removal takes it out of every list.
pub run_changes-postings :
    (changes : List Change) (w : List ℕ)
    → AllNamed changes
    → length changes < 2 ^ 32
    → ids_under w (run_changes changes new) ≡ postings changes (λ v. []) w
unfolding new
run_changes-postings changes w named room =
    run_changes-from changes new w new-IsIndexed named (omega (arith, room))
    ∙ postings-same changes (λ v. ids_under v new) (λ v. []) ids_under-new w
