-- ===== src/Paths/Exists.antt =====
-- `field_exists`, which clones as it walks, against `get_value`.
use mdb_embedded.Prelude.{
  ◌≡◌, refl, String, Bool, false, List, [], ◌∷◌, Option, none, some, is_some, inl, inr,
  Option-cases, split_dots-ne-nil, arith,
}
use mdb_embedded.Bson.{Bson, document, array, Document, Externals}
use mdb_embedded.Paths.{enter, get_from, get_value, exists_from, field_exists}

module _ (ext : Externals) where
  abbrev after : Option Bson → List String → Bool
  after none parts = false
  after (some v) parts = exists_from ext parts v

  exists_from-enter :
      (part : String) (parts : List String) (v : Bson)
      → exists_from ext (part ∷ parts) v ≡ after (enter ext v part) parts
  unfolding exists_from enter
  exists_from-enter part parts (document d) = ground arith
  exists_from-enter part parts (array arr) = ground arith
  exists_from-enter part parts _ = refl

  exists-get_from :
      (parts : List String) (v : Bson) → exists_from ext parts v ≡ is_some (get_from ext parts v)
  unfolding get_from exists_from
  exists-get_from [] v = refl
  exists-get_from (part ∷ parts) v =
      rw (exists_from-enter part parts v) (elim (Option-cases (enter ext v part)) [
        | inl e ↦ ground (arith, e)
        | inr (next, e) ↦ ground (arith, e, exists-get_from parts next)
      ])

  -- For every document and every path, `field_exists` is true exactly where `get_value` finds a
  -- value (a `Null` included).
  pub field_exists-get_value :
      (doc : Document) (key : String) → field_exists ext doc key ≡ is_some (get_value ext doc key)
  unfolding field_exists get_value
  field_exists-get_value doc key =
      let (p, ps, e) = split_dots-ne-nil key in
      rw (e, exists_from-enter p ps (document doc))
        (unfold enter in
          elim (Option-cases (ext.get doc p)) [
            | inl h ↦ ground (arith, h)
            | inr (v, h) ↦ ground (arith, h, exists-get_from ps v)
          ])
