-- ===== src/Paths/Set.antt =====
-- What `set_value` writes, and what it leaves alone.
use text.Mathlib.TextEquality.{eq_iff}
use text.Mathlib.TextPositions.{eq_refl}
use mdb_embedded.Prelude.{
  ◌≡◌, ◌≢◌, refl, String, List, [], ◌∷◌, Option, none, some, split_dots, split_dots-ne-nil, arith,
}
use mdb_embedded.Bson.{Bson, document, array, Document, Items, end, ok, Externals, IsMap}
use mdb_embedded.Paths.Walk.{Apart, get_value_lem}
use mdb_embedded.Paths.{enter, get_from, get_value, make_parent, set_from, set_value}

module _ (ext : Externals) (m : IsMap ext) where
  get-insert_self : (d : Document) (k : String) (v : Bson) → ext.get (ext.insert d k v) k ≡ some v
  get-insert_self d k v = rw (m.get-insert d k k v, eq_refl k)

  -- The parent of the next segment is a document, made where there was none.
  get-make_parent :
      (d : Document) (k : String)
      → (e : Document) × (ext.get (make_parent ext d k) k ≡ some (document e))
  unfolding make_parent
  get-make_parent d k = parent_of (ext.get d k) refl
    where
      parent_of :
          (o : Option Bson)
          → ext.get d k ≡ o
          → (e : Document) × (ext.get (make_parent ext d k) k ≡ some (document e))
      parent_of (some (document e)) h = (e, ground (arith, h))
      parent_of none h = (end, ground (arith, h, get-insert_self d k (document end)))
      parent_of (some _) h = (end, ground (arith, h, get-insert_self d k (document end)))

  get-set_from :
      (first : String) (parts : List String) (value : Bson) (d : Document)
      → (d' : Document) × (set_from ext (first ∷ parts) value d ≡ ok d')
        × (get_from ext (first ∷ parts) (document d') ≡ some value)
  unfolding set_from get_from enter
  get-set_from last [] value d =
      (ext.insert d last value, refl, ground (arith, get-insert_self d last value))
  get-set_from part (next ∷ parts) value d =
      let (e, found) = get-make_parent d part in
      let (e', done, there) = get-set_from next parts value e in
      let whole : Document = ext.insert (make_parent ext d part) part (document e') in
      (
        whole,
        ground (arith, found, done),
        ground (arith, there, get-insert_self (make_parent ext d part) part (document e')),
      )

  -- `set_value` never fails, and the path then leads to the value.
  pub get_value-set_value :
      (d : Document) (key : String) (value : Bson)
      → (d' : Document) × (set_value ext d key value ≡ ok d') × (get_value ext d' key ≡ some value)
  unfolding set_value
  get_value-set_value d key value =
      let (p, ps, e) = split_dots-ne-nil key in
      let (d', done, there) = get-set_from p ps value d in
      (d', rw e done, rw (get_value_lem ext d' key, e) there)

  get-make_parent_ne :
      (d : Document) (p q : String) → p ≢ q → ext.get (make_parent ext d p) q ≡ ext.get d q
  unfolding make_parent
  get-make_parent_ne d p q ne = ground (arith, m.get-insert d p q (document end), eq_iff p q)

  get-set_from_ne :
      {p q : String} (ps : List String) (value : Bson) (d d' : Document)
      → set_from ext (p ∷ ps) value d ≡ ok d'
      → p ≢ q
      → ext.get d' q ≡ ext.get d q
  unfolding set_from
  get-set_from_ne {p} {q} [] value d d' done ne =
      ground (arith, m.get-insert d p q value, eq_iff p q)
  get-set_from_ne {p} {q} (p' ∷ ps) value d d' done ne =
      let parent : Document = make_parent ext d p in
      let (e, found) = get-make_parent d p in
      let (e', below, _) = get-set_from p' ps value e in
      ground (
        arith,
        found,
        below,
        m.get-insert parent p q (document e'),
        get-make_parent_ne d p q,
        eq_iff p q,
      )

  set_from_document :
      (d e e' : Document) (p p' : String) (ps : List String) (value : Bson)
      → ext.get d p ≡ some (document e)
      → set_from ext (p' ∷ ps) value e ≡ ok e'
      → set_from ext (p ∷ p' ∷ ps) value d ≡ ok (ext.insert d p (document e'))
  unfolding set_from make_parent
  set_from_document d e e' p p' ps value found below = ground arith

  get_from-set_from-Apart :
      {d : Document} {ps qs : List String}
      → Apart ext d ps qs
      → (value : Bson) (d' : Document) → set_from ext ps value d ≡ ok d'
      → get_from ext qs (document d') ≡ get_from ext qs (document d)
  unfolding get_from enter
  get_from-set_from-Apart {d} (Apart.here {ps = ps} ne) value d' done =
      ground (arith, get-set_from_ne ps value d d' done ne)
  get_from-set_from-Apart {d} (Apart.below {e = e} {p = p} {p' = p'} {ps = ps} g a) value d' done =
      let (e', below, _) = get-set_from p' ps value e in
      let whole = set_from_document d e e' p p' ps value g below in
      ground
        (arith, whole, get-insert_self d p (document e'), get_from-set_from-Apart a value e' below)

  -- A write at one path that succeeds leaves every path that parts from it below documents as it
  -- was.
  pub get_value-set_value-Apart :
      (d d' : Document) (key other : String) (value : Bson)
      → set_value ext d key value ≡ ok d'
      → Apart ext d (split_dots key) (split_dots other)
      → get_value ext d' other ≡ get_value ext d other
  unfolding set_value
  get_value-set_value-Apart d d' key other value done a =
      rw (get_value_lem ext d' other, get_value_lem ext d other)
        (get_from-set_from-Apart a value d' done)

  -- Where the first of two segments leads to an array, the write succeeds and leaves a document
  -- with the one field in place of the array.
  pub set_value-array :
      (d : Document) (key p i : String) (value : Bson) (arr : Items)
      → split_dots key ≡ p ∷ i ∷ []
      → ext.get d p ≡ some (array arr)
      → (d' : Document) × (set_value ext d key value ≡ ok d')
        × (ext.get d' p ≡ some (document (ext.insert end i value)))
  unfolding set_value
  set_value-array d key p i value arr e there =
      let parent : Document = ext.insert d p (document end) in
      let made : Document = ext.insert end i value in
      (
        ext.insert parent p (document made),
        rw e (unfold set_from make_parent in ground (arith, get-insert_self d p (document end))),
        get-insert_self parent p (document made),
      )
