-- ===== src/Update/Order.antt =====
-- The order in which the operators of an update document run, and updates with one operator.
use text.Mathlib.TextEquality.{eq_iff}
use mdb_embedded.Prelude.{
  ◌≡◌, refl, String, str_eq, Bool, true, false, not, ◌&&◌, ◌||◌, none, some, List, [], ◌∷◌,
  has_prefix, if◌then◌else◌, Bool-cases, inl, inr, arith,
}
use mdb_embedded.Bson.{
  Bson, document, Document, end, field, Error, message_text, Result, ok, err, panic, ◌>>=◌,
  Externals, IsMap,
}
use mdb_embedded.Paths.{get_value}
use mdb_embedded.Paths.Set.{get_value-set_value}
use mdb_embedded.Update.{
  wrong_key, operator_order, apply_operator, apply_spec, apply_operators, apply_update_impl,
  apply_update, apply_update_for_upsert,
}
use mdb_embedded.Update.Positional.{FilterMap, parse_array_filters}
use mdb_embedded.Update.Fields.{apply_set}

-- Whether a key stands in a document, and all of them are operators.
abbrev pub has_key : Document → String → Bool
has_key end k = false
has_key (field j v d) k = str_eq j k || has_key d k

some-wrong_key :
    (u : Document) (k : String)
    → has_key u k ≡ true
    → has_prefix k "$" ≡ false
    → (j : String) × (wrong_key u ≡ some j)
unfolding wrong_key
some-wrong_key end k there plain = ground (arith, there)
some-wrong_key (field j v d) k there plain = elim (Bool-cases (has_prefix j "$")) [
  | inl p ↦
      let (i, e) = some-wrong_key d k (ground (arith, there, plain, p, eq_iff j k)) plain in
      (i, ground (arith, p, e))
  | inr p ↦ (j, ground (arith, p))
]

-- Whether a name is among some names, and whether they are all different.
abbrev pub member : String → List String → Bool
member k [] = false
member k (x ∷ xs) = str_eq k x || member k xs

abbrev distinct : List String → Bool
distinct [] = true
distinct (x ∷ xs) = not (member x xs) && distinct xs

module _ (ext : Externals) where
  bind_same :
      (r : Result Document) (f g : Document → Result Document)
      → ((d : Document) → f d ≡ g d)
      → (r >>= f) ≡ (r >>= g)
  bind_same (ok d) f g h = h d
  bind_same _ f g h = refl

  apply_operators-same :
      (ops : List String) (doc u w : Document) (up : Bool) (fs : FilterMap)
      → ((k : String) → ext.get u k ≡ ext.get w k)
      → apply_operators ext ops doc u up fs ≡ apply_operators ext ops doc w up fs
  unfolding apply_operators
  apply_operators-same [] doc u w up fs h = refl
  apply_operators-same (op ∷ ops) doc u w up fs h = rw (h op) (
      bind_same (apply_spec ext up fs doc op (ext.get w op))
        (λ d. apply_operators ext ops d u up fs) (λ d. apply_operators ext ops d w up fs)
        (λ d. apply_operators-same ops d u w up fs h))

  -- Two update documents of operators only that hold the same specifications, in whatever order,
  -- give the same result on every document.
  pub apply_update_impl-same :
      (doc u w : Document) (up : Bool) (filters : List Document)
      → wrong_key u ≡ none
      → wrong_key w ≡ none
      → ((k : String) → ext.get u k ≡ ext.get w k)
      → apply_update_impl ext doc u up filters ≡ apply_update_impl ext doc w up filters
  unfolding apply_update_impl
  apply_update_impl-same doc u w up filters hu hw h = ground (
    arith,
    hu,
    hw,
    apply_operators-same operator_order doc u w up (parse_array_filters filters) h,
  )

  -- An update document with a key that does not start with `$` gives an error, for every document.
  wrong_key-err :
      (doc u : Document) (k : String) (up : Bool) (filters : List Document)
      → has_key u k ≡ true
      → has_prefix k "$" ≡ false
      → (e : Error) × (apply_update_impl ext doc u up filters ≡ err e)
  unfolding apply_update_impl
  wrong_key-err doc u k up filters there plain =
      let (j, e) = some-wrong_key u k there plain in
      (message_text "Update keys must be operators starting with $, found: " j, ground (arith, e))

  -- The update document holds one operator and nothing else.
  abbrev pub IsOnly : Document → String → Document → Type 0
  IsOnly u op spec =
      (k : String) → ext.get u k ≡ (if str_eq op k then some (document spec) else none)

  bind_ok :
      (r : Result Document) (f : Document → Result Document)
      → ((d : Document) → f d ≡ ok d)
      → (r >>= f) ≡ r
  bind_ok (ok d) f h = h d
  bind_ok (err _) f h = refl
  bind_ok panic f h = refl

  apply_operators-Only :
      (ops : List String) (doc u : Document) (op : String) (spec : Document) (up : Bool)
      → distinct ops ≡ true
      → IsOnly u op spec
      → apply_operators ext ops doc u up []
        ≡ (if member op ops then apply_operator ext doc op spec up else ok doc)
  unfolding apply_operators apply_spec
  apply_operators-Only [] doc u op spec up d h = refl
  apply_operators-Only (x ∷ ops) doc u op spec up d h = elim (Bool-cases (str_eq op x)) [
    | inl e ↦ ground (
      arith,
      h x,
      e,
      eq_iff op x,
      bind_ok (apply_operator ext doc op spec up) (λ doc'. apply_operators ext ops doc' u up [])
          (λ doc'. ground (
            arith,
            d,
            e,
            eq_iff op x,
            apply_operators-Only ops doc' u op spec up (ground (arith, d)) h,
          )),
    )
    | inr e ↦
        ground (arith, h x, e, apply_operators-Only ops doc u op spec up (ground (arith, d)) h)
  ]

  -- An update document of operators that holds one operator of the thirteen, and no array filters,
  -- does what that operator does with its specification.
  pub apply_update-Only :
      (doc u : Document) (op : String) (spec : Document) (up : Bool)
      → wrong_key u ≡ none
      → member op operator_order ≡ true
      → IsOnly u op spec
      → apply_update_impl ext doc u up [] ≡ apply_operator ext doc op spec up
  unfolding apply_update_impl parse_array_filters
  apply_update-Only doc u op spec up keys known h =
      ground (arith, keys, known, apply_operators-Only operator_order doc u op spec up refl h)

  -- An update document of operators that holds only `$set` of one path gives a document where the
  -- path leads to the value; with `$setOnInsert` in its place an insertion gives the same
  -- document, and an update leaves the document as it was.
  pub apply_update-set :
      (doc u w : Document) (key : String) (value : Bson)
      → IsMap ext
      → wrong_key u ≡ none
      → wrong_key w ≡ none
      → IsOnly u "$set" (field key value end)
      → IsOnly w "$setOnInsert" (field key value end)
      → (d' : Document) × (apply_update ext doc u ≡ ok d')
        × (apply_update_for_upsert ext doc w ≡ ok d')
        × (apply_update ext doc w ≡ ok doc)
        × (get_value ext d' key ≡ some value)
  unfolding apply_update apply_update_for_upsert apply_operator apply_set
  apply_update-set doc u w key value m hu hw only_u only_w =
      let (d', done, there) = get_value-set_value ext m doc key value in
      (
        d',
        ground (
          arith,
          apply_update-Only doc u "$set" (field key value end) false hu refl only_u,
          done,
        ),
        ground (
          arith,
          apply_update-Only doc w "$setOnInsert" (field key value end) true hw refl only_w,
          done,
        ),
        ground (
          arith,
          apply_update-Only doc w "$setOnInsert" (field key value end) false hw refl only_w,
        ),
        there,
      )
