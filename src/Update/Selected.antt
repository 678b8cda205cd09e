-- ===== src/Update/Selected.antt =====
-- What a positional `$set` leaves in the array.
use mdb_embedded.Prelude.{
  ◌≡◌, refl, String, str_eq, Bool, true, false, Option, none, some, List, [], ◌∷◌, map, split_dots,
  join_dots, if◌then◌else◌, arith,
}
use mdb_embedded.Bson.{
  Bson, array, document, Items, Document, to_list, of_list, Result, ok, err, panic, unwrap_or,
  Externals, IsMap,
}
use mdb_embedded.Paths.{get_value}
use mdb_embedded.Paths.Set.{get_value-set_value}
use mdb_embedded.Query.{eval_query}
use mdb_embedded.Update.Positional.{
  FilterMap, split_positional, identifier_of, or_empty, filter_of, element_matches, update_element,
  update_elements, update_at, rewrite_filter_for_element, apply_positional_operator,
}

abbrev pub IsCalm : Result Bool → Type 0
IsCalm panic = ⊥
IsCalm _ = Unit

abbrev holds : Result Bool → Bool
holds (ok b) = b
holds _ = false

unwrap_or-holds : (r : Result Bool) → IsCalm r → unwrap_or false r ≡ ok (holds r)
unwrap_or-holds (ok b) h = refl
unwrap_or-holds (err e) h = refl
unwrap_or-holds panic h = absurd h

module _ (ext : Externals) where
  -- Whether an element is one of those that a positional operator names: all of them, or the
  -- documents on which the filter holds.
  abbrev pub is_selected : Bool → Option Document → String → Bson → Bool
  is_selected true filter id elem = true
  is_selected false (some f) id (document d) =
      holds (eval_query ext d (rewrite_filter_for_element ext f id))
  is_selected false filter id elem = false

  -- The filter's evaluation on an element does not panic.
  abbrev pub IsTested : Option Document → String → Bson → Type 0
  IsTested (some f) id (document d) =
      IsCalm (eval_query ext d (rewrite_filter_for_element ext f id))
  IsTested filter id elem = Unit

  abbrev pub AllTested : Option Document → String → List Bson → Type 0
  AllTested filter id [] = Unit
  AllTested filter id (e ∷ es) = IsTested filter id e × AllTested filter id es

  element_matches-is_selected :
      (all : Bool) (filter : Option Document) (id : String) (e : Bson)
      → IsTested filter id e
      → element_matches ext all filter id e ≡ ok (is_selected all filter id e)
  unfolding element_matches
  element_matches-is_selected true filter id e h = refl
  element_matches-is_selected false (some f) id (document d) h =
      unwrap_or-holds (eval_query ext d (rewrite_filter_for_element ext f id)) h
  element_matches-is_selected false (some f) id _ h = refl
  element_matches-is_selected false none id e h = refl

  update_elements-is_selected :
      (all : Bool) (filter : Option Document) (id : String) (value : Bson) (es : List Bson)
      → AllTested filter id es
      → update_elements ext
          (element_matches ext all filter id)
          (update_element ext "$set" none value)
          es
        ≡ ok (map (λ e. if is_selected all filter id e then value else e) es)
  unfolding update_elements update_element
  update_elements-is_selected all filter id value [] h = refl
  update_elements-is_selected all filter id value (e ∷ es) h = ground (
    arith,
    element_matches-is_selected all filter id e h.0,
    update_elements-is_selected all filter id value es h.1,
  )

  -- A `$set` on a path that ends in a positional operator replaces, in the array that the path up to
  -- the operator leads to, exactly the elements that the operator names, and keeps the others and
  -- the order, where no evaluation of the operator's filter panics.
  pub apply_positional_operator-is_selected :
      IsMap ext
      → (doc : Document) (path : String) (before : List String) (positional : String)
        (id : Option String) (value : Bson) (filters : FilterMap) (items : Items)
      → split_positional (split_dots path) ≡ some (before, positional, [])
      → identifier_of positional ≡ ok id
      → get_value ext doc (join_dots before) ≡ some (array items)
      → AllTested (filter_of ext filters id) (or_empty ext id) (to_list items)
      → (doc' : Document) × (apply_positional_operator ext doc path value "$set" filters ≡ ok doc')
        × (get_value ext doc' (join_dots before)
            ≡ some (
                array (
                  of_list (
                    map
                      (λ e.
                        if is_selected
                          (str_eq positional "$[]")
                          (filter_of ext filters id)
                          (or_empty ext id)
                          e
                        then value
                        else e)
                      (to_list items)))))
  unfolding apply_positional_operator update_at
  apply_positional_operator-is_selected m doc path before positional id value filters items split
        ident there tested =
      let (doc', done, got) = get_value-set_value ext m doc (join_dots before) (
        array (
          of_list (
            map
              (λ e.
                if is_selected (str_eq positional "$[]") (filter_of ext filters id)
                  (or_empty ext id) e
                then value
                else e)
              (to_list items)))) in
      (
        doc',
        rw
            (
              apply_positional_operator,
              split,
              there,
              update_at,
              ident,
              update_elements-is_selected (str_eq positional "$[]") (filter_of ext filters id)
                  (or_empty ext id) value (to_list items) tested,
            )
            done,
        got,
      )
