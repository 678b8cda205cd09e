-- ===== src/Paths/Unset.antt =====
-- What `unset_value` removes, and what it leaves alone.
use text.Mathlib.TextEquality.{eq_iff}
use text.Mathlib.TextPositions.{eq_refl}
use mdb_embedded.Prelude.{
  ◌≡◌, ◌≢◌, refl, String, List, [], ◌∷◌, Option, none, some, ap, ◌∙◌, split_dots, inl, inr,
  Option-cases, arith,
}
use mdb_embedded.Bson.{Bson, document, array, Document, Items, ok, Externals, IsMap}
use mdb_embedded.Paths.Walk.{Diverge, get_value_lem}
use mdb_embedded.Paths.{enter, get_from, get_value, unset_from, unset_value}

-- No array stands in `d` on the way to the last segment.
pub data NoArray (ext : Externals) : Document → List String → Type 0 where
  last : {d : Document} {p : String} → NoArray ext d (p ∷ [])
  below :
      {d : Document} {p p' : String} {ps : List String}
      → ((arr : Items) → ext.get d p ≢ some (array arr))
      → ((e : Document) → ext.get d p ≡ some (document e) → NoArray ext e (p' ∷ ps))
      → NoArray ext d (p ∷ p' ∷ ps)

module _ (ext : Externals) (m : IsMap ext) where
  get-insert_self : (d : Document) (k : String) (v : Bson) → ext.get (ext.insert d k v) k ≡ some v
  get-insert_self d k v = rw (m.get-insert d k k v, eq_refl k)

  -- One level of the removal: it goes on in a document, or stops with nothing changed.
  data Level (d : Document) (p p' : String) (ps : List String) : Type 0 where
    inside :
        (e : Document)
        → ext.get d p ≡ some (document e)
        → ((e' : Document)
            → unset_from ext (p' ∷ ps) e ≡ ok e'
            → unset_from ext (p ∷ p' ∷ ps) d ≡ ok (ext.insert d p (document e')))
        → Level d p p' ps
    stop :
        unset_from ext (p ∷ p' ∷ ps) d ≡ ok d
        → ((e : Document) → ext.get d p ≢ some (document e))
        → Level d p p' ps

  level : (d : Document) (p p' : String) (ps : List String) → Level d p p' ps
  unfolding unset_from
  level d p p' ps = by_value (ext.get d p) refl
    where
      by_value : (o : Option Bson) → ext.get d p ≡ o → Level d p p' ps
      by_value (some (document e)) h =
          inside e h (λ e' r. ground (arith, h, r, m.contains_key-get d p))
      by_value none h =
          stop (ground (arith, h, m.contains_key-get d p)) (λ e q. ground (arith, h, q))
      by_value (some _) h =
          stop (ground (arith, h, m.contains_key-get d p)) (λ e q. ground (arith, h, q))

  unset_from_total :
      (ps : List String) (d : Document) → (d' : Document) × (unset_from ext ps d ≡ ok d')
  unset_from_total [] d = unfold unset_from in (d, refl)
  unset_from_total (p ∷ []) d = unfold unset_from in (ext.remove d p, refl)
  unset_from_total (p ∷ p' ∷ ps) d = by_level (level d p p' ps) (unset_from_total (p' ∷ ps))
    where
      by_level :
          Level d p p' ps
          → ((e : Document) → (e' : Document) × (unset_from ext (p' ∷ ps) e ≡ ok e'))
          → (d' : Document) × (unset_from ext (p ∷ p' ∷ ps) d ≡ ok d')
      by_level (inside e found step) ih =
          let (e', done) = ih e in (ext.insert d p (document e'), step e' done)
      by_level (stop same other) ih = (d, same)

  get_from-unset_from :
      {d : Document} {ps : List String}
      → NoArray ext d ps
      → (d' : Document) → unset_from ext ps d ≡ ok d'
      → get_from ext ps (document d') ≡ none
  unfolding get_from enter
  get_from-unset_from {d} (NoArray.last {p = p}) d' done =
      unfold unset_from in ground (arith, m.get-remove d p p, eq_refl p)
  get_from-unset_from {d} (NoArray.below {p = p} {p' = p'} {ps = ps} plain deeper) d' done =
      by_level (level d p p' ps) (λ e found. get_from-unset_from (deeper e found))
    where
      enter-none :
          (v : Bson)
          → ext.get d p ≡ some v
          → ((e : Document) → v ≢ document e)
          → enter ext v p' ≡ none
      enter-none (document e) h other = absurd (other e refl)
      enter-none (array arr) h other = absurd (plain arr h)
      enter-none _ h other = refl

      by_level :
          Level d p p' ps
          → ((e : Document)
              → ext.get d p ≡ some (document e)
              → (e' : Document) → unset_from ext (p' ∷ ps) e ≡ ok e'
              → get_from ext (p' ∷ ps) (document e') ≡ none)
          → get_from ext (p ∷ p' ∷ ps) (document d') ≡ none
      by_level (inside e found step) ih =
          let (e', below') = unset_from_total (p' ∷ ps) e in
          ground (arith, step e' below', get-insert_self d p (document e'), ih e found e' below')
      by_level (stop same other) ih = elim (Option-cases (ext.get d p)) [
        | inl h ↦ ground (arith, h, same)
        | inr (v, h) ↦ ground (arith, h, same, enter-none v h (λ e q. other e (h ∙ ap some q)))
      ]

  pub unset_value-ok :
      (d : Document) (key : String) → (d' : Document) × (unset_value ext d key ≡ ok d')
  unset_value-ok d key = unfold unset_value in unset_from_total (split_dots key) d

  -- Where no array stands on the way, `unset_value` succeeds, and the path then leads nowhere.
  pub get_value-unset_value :
      (d : Document) (key : String)
      → NoArray ext d (split_dots key)
      → (d' : Document) × (unset_value ext d key ≡ ok d') × (get_value ext d' key ≡ none)
  unfolding unset_value
  get_value-unset_value d key plain =
      let (d', done) = unset_from_total (split_dots key) d in
      (d', done, rw (get_value_lem ext d' key) (get_from-unset_from plain d' done))

  get-unset_from_ne :
      {p q : String} (ps : List String) (d d' : Document)
      → unset_from ext (p ∷ ps) d ≡ ok d'
      → p ≢ q
      → ext.get d' q ≡ ext.get d q
  get-unset_from_ne {p} {q} [] d d' done ne =
      unfold unset_from in ground (arith, m.get-remove d p q, eq_iff p q)
  get-unset_from_ne {p} {q} (p' ∷ ps) d d' done ne = by_level (level d p p' ps)
    where
      by_level : Level d p p' ps → ext.get d' q ≡ ext.get d q
      by_level (inside e found step) =
          let (e', below') = unset_from_total (p' ∷ ps) e in
          ground (arith, step e' below', m.get-insert d p q (document e'), eq_iff p q)
      by_level (stop same other) = ground (arith, same)

  get_from-unset_from-Diverge :
      {ps qs : List String}
      → Diverge ps qs
      → (d d' : Document) → unset_from ext ps d ≡ ok d'
      → get_from ext qs (document d') ≡ get_from ext qs (document d)
  unfolding get_from enter
  get_from-unset_from-Diverge (Diverge.here {ps = ps} ne) d d' done =
      ground (arith, get-unset_from_ne ps d d' done ne)
  get_from-unset_from-Diverge (Diverge.below {p = p} {p' = p'} {ps = ps} {qs = qs} v) d d' done =
      by_level (level d p p' ps) (get_from-unset_from-Diverge v)
    where
      by_level :
          Level d p p' ps
          → ((e e' : Document)
              → unset_from ext (p' ∷ ps) e ≡ ok e'
              → get_from ext qs (document e') ≡ get_from ext qs (document e))
          → get_from ext (p ∷ qs) (document d') ≡ get_from ext (p ∷ qs) (document d)
      by_level (inside e found step) ih =
          let (e', below') = unset_from_total (p' ∷ ps) e in
          ground (arith, step e' below', found, get-insert_self d p (document e'), ih e e' below')
      by_level (stop same other) ih = ground (arith, same)

  -- A removal at one path that succeeds leaves what every path that differs from it at a segment
  -- leads to.
  pub get_value-unset_value-Diverge :
      (d d' : Document) (key other : String)
      → unset_value ext d key ≡ ok d'
      → Diverge (split_dots key) (split_dots other)
      → get_value ext d' other ≡ get_value ext d other
  unfolding unset_value
  get_value-unset_value-Diverge d d' key other done v =
      rw (get_value_lem ext d' other, get_value_lem ext d other)
        (get_from-unset_from-Diverge v d d' done)
