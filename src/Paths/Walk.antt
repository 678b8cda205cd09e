-- ===== src/Paths/Walk.antt =====
-- `get_value` as one walk from the document, and the ways in which two paths part.
use mdb_embedded.Prelude.{
  ◌≡◌, ◌≢◌, String, List, ◌∷◌, some, split_dots, inl, inr, Option-cases, split_dots-ne-nil, arith,
}
use mdb_embedded.Bson.{document, Document, Externals}
use mdb_embedded.Paths.{enter, get_from, get_value}

-- The paths differ at a segment that both have.
pub data Diverge : List String → List String → Type 0 where
  here : {p q : String} {ps qs : List String} → p ≢ q → Diverge (p ∷ ps) (q ∷ qs)
  below :
      {p p' : String} {ps qs : List String} → Diverge (p' ∷ ps) qs → Diverge (p ∷ p' ∷ ps) (p ∷ qs)

-- The paths differ at a segment of a document that stands in `d` below documents.
pub data Apart (ext : Externals) : Document → List String → List String → Type 0 where
  here : {d : Document} {p q : String} {ps qs : List String} → p ≢ q → Apart ext d (p ∷ ps) (q ∷ qs)
  below :
      {d e : Document} {p p' : String} {ps qs : List String}
      → ext.get d p ≡ some (document e)
      → Apart ext e (p' ∷ ps) qs
      → Apart ext d (p ∷ p' ∷ ps) (p ∷ qs)

module _ (ext : Externals) where
  pub get_value_lem :
      (d : Document) (key : String)
      → get_value ext d key ≡ get_from ext (split_dots key) (document d)
  unfolding get_value
  get_value_lem d key =
      let (p, ps, e) = split_dots-ne-nil key in
      rw e (
        unfold get_from enter in
        elim (Option-cases (ext.get d p)) [
          | inl h ↦ ground (arith, h)
          | inr (v, h) ↦ ground (arith, h)
        ])
