-- ===== src/Update/Positional.antt =====
-- rust/smongo-engine/src/update/mod.rs: `arrayFilters` and the positional operators `$[]` and
-- `$[identifier]` in a field path.
use Prim.Native.String.{◌++◌ as append}
use mdb_embedded.Prelude.{
  String, Bool, true, false, Option, none, some, List, [], ◌∷◌, length, ltb, str_eq, is_lt, is_gt,
  if◌then◌else◌, ◌||◌, split_dots, join_dots, strip_prefix, has_prefix, contains_str, as_bytes,
  drop_last_byte,
}
use mdb_embedded.Bson.{
  Bson, array, document, Document, end, field, to_list, of_list, message_text, Result, ok, err,
  panic, ◌>>=◌, map_ok, unwrap_or, Externals,
}
use mdb_embedded.Paths.{get_value, set_value, unset_value}
use mdb_embedded.Query.{eval_query}
use mdb_embedded.Update.Fields.{add_numbers, multiply_numbers, should_set}

-- `HashMap<String, Document>`, the entry inserted last in front.
abbrev pub FilterMap : Type 0
FilterMap = List (record { 0 : String; 1 : Document })

abbrev first_segment : List String → String → String
first_segment [] first_key = first_key
first_segment (segment ∷ _) first_key = segment

unfoldable pub parse_from : FilterMap → List Document → FilterMap
parse_from map [] = map
parse_from map (end ∷ filters) = parse_from map filters
parse_from map (field first_key value rest ∷ filters) =
    parse_from ((first_segment (split_dots first_key) first_key, field first_key value rest) ∷ map)
      filters

unfoldable pub parse_array_filters : List Document → FilterMap
unfolding parse_from
parse_array_filters filters = parse_from [] filters

unfoldable pub find_filter : FilterMap → String → Option Document
find_filter [] id = none
find_filter ((name, filter) ∷ map) id = if str_eq name id then some filter else find_filter map id

unfoldable pub has_positional_paths : Document → Bool
has_positional_paths end = false
has_positional_paths (field k v rest) = contains_str k "$[" || has_positional_paths rest

-- The segments before the first that starts with `$[`, that segment, and those behind it.
unfoldable pub split_positional :
    List String → Option (record { 0 : List String; 1 : String; 2 : List String })
split_positional [] = none
split_positional (part ∷ parts) =
    let rest = split_positional parts in
    if has_prefix part "$[" then some ([], part, parts) else elim rest [
      | none ↦ none
      | some (before, positional, after) ↦ some (part ∷ before, positional, after)
    ]

abbrev suffix_of : List String → Option String
suffix_of [] = none
suffix_of (p ∷ ps) = some (join_dots (p ∷ ps))

-- The identifier between `$[` and the last byte, when there are more than three bytes.
unfoldable pub identifier_of : String → Result (Option String)
identifier_of positional =
    if str_eq positional "$[]"
    then ok none
    else if ltb 3 (length (as_bytes positional))
    then elim (strip_prefix positional "$[") [
      | none ↦ ok none
      | some s ↦ elim (drop_last_byte s) [ none ↦ panic | some id ↦ ok (some id) ]
    ]
    else ok none

abbrev pub Split : Type 0
Split = record { 0 : List (record { 0 : String; 1 : Bson }); 1 : Document }

module _ (ext : Externals) where
  -- The entries with a positional path, and a document of the others.
  unfoldable pub split_positional_paths : Document → Document → Split
  split_positional_paths normal end = ([], normal)
  split_positional_paths normal (field key value rest) = elim (contains_str key "$[") [
    | true ↦
        let (positional, others) = split_positional_paths normal rest in
        ((key, value) ∷ positional, others)
    | false ↦ split_positional_paths (ext.insert normal key value) rest
  ]

  element_key : String → String → String
  element_key identifier key =
      if str_eq key identifier
      then key
      else elim (strip_prefix key (append identifier ".")) [ none ↦ key | some rest ↦ rest ]

  unfoldable pub rewrite_from : String → Document → Document → Document
  unfolding element_key
  rewrite_from identifier rewritten end = rewritten
  rewrite_from identifier rewritten (field key value filter) =
      rewrite_from identifier (ext.insert rewritten (element_key identifier key) value) filter

  unfoldable pub rewrite_filter_for_element : Document → String → Document
  rewrite_filter_for_element filter identifier = rewrite_from identifier end filter

  -- The operator acts on a document of the array below the suffix.
  abbrev at_suffix : (Document → String → Result Document) → Option String → Bson → Result Bson
  at_suffix change (some sfx) (document d) = map_ok document (change d sfx)
  at_suffix change suffix elem = ok elem

  abbrev set_number : (Option Bson → Result Bson) → Document → String → Result Document
  set_number change d sfx = change (get_value ext d sfx) >>= λ v. set_value ext d sfx v

  abbrev set_if : Bool → Document → String → Bson → Result Document
  set_if wanted d sfx value = if wanted then set_value ext d sfx value else ok d

  unfoldable pub update_element : String → Option String → Bson → Bson → Result Bson
  update_element operator suffix value elem =
      if str_eq operator "$set" || str_eq operator "$setOnInsert"
      then elim suffix [
        | none ↦ ok value
        | some sfx ↦ at_suffix (λ d s. set_value ext d s value) (some sfx) elem
      ]
      else if str_eq operator "$unset"
      then at_suffix (unset_value ext) suffix elem
      else if str_eq operator "$inc"
      then elim suffix [
        | none ↦ add_numbers ext (some elem) value
        | some sfx ↦ at_suffix (set_number (λ v. add_numbers ext v value)) (some sfx) elem
      ]
      else if str_eq operator "$mul"
      then elim suffix [
        | none ↦ multiply_numbers ext (some elem) value
        | some sfx ↦ at_suffix (set_number (λ v. multiply_numbers ext v value)) (some sfx) elem
      ]
      else if str_eq operator "$min"
      then at_suffix (λ d s. set_if (should_set ext is_lt value (get_value ext d s)) d s value)
          suffix elem
      else if str_eq operator "$max"
      then at_suffix (λ d s. set_if (should_set ext is_gt value (get_value ext d s)) d s value)
          suffix elem
      else ok elem

  -- Whether an element is to be updated: `$[]` takes all, an identifier those that its filter holds of.
  unfoldable pub element_matches : Bool → Option Document → String → Bson → Result Bool
  element_matches true filter identifier elem = ok true
  element_matches false (some f) identifier (document elem_doc) =
      unwrap_or false (eval_query ext elem_doc (rewrite_filter_for_element f identifier))
  element_matches false filter identifier elem = ok false

  unfoldable pub update_elements :
      (Bson → Result Bool) → (Bson → Result Bson) → List Bson → Result (List Bson)
  update_elements matches update [] = ok []
  update_elements matches update (elem ∷ arr) = do
    hit ← matches elem
    elem' ← if hit then update elem else ok elem
    arr' ← update_elements matches update arr
    ok (elem' ∷ arr')

  unfoldable pub filter_of : FilterMap → Option String → Option Document
  filter_of filter_map none = none
  filter_of filter_map (some id) = find_filter filter_map id

  abbrev pub or_empty : Option String → String
  or_empty none = ""
  or_empty (some id) = id

  -- The array at the prefix, with the elements that match updated; anything else is passed over.
  unfoldable pub update_at :
      Document
      → String
      → String
      → Option String
      → Bson
      → String
      → FilterMap
      → Option Bson
      → Result Document
  unfolding filter_of
  update_at doc prefix positional suffix value operator filter_map (some (array a)) = do
    identifier ← identifier_of positional
    arr ←
        update_elements
          (element_matches (str_eq positional "$[]") (filter_of filter_map identifier)
            (or_empty identifier))
          (update_element operator suffix value) (to_list a)
    set_value ext doc prefix (array (of_list arr))
  update_at doc prefix positional suffix value operator filter_map other = ok doc

  unfoldable pub apply_positional_operator :
      Document → String → Bson → String → FilterMap → Result Document
  apply_positional_operator doc path value operator filter_map =
      elim (split_positional (split_dots path)) [
        | none ↦ err (message_text "no positional operator in path: " path)
        | some (before, positional, after) ↦
            update_at doc (join_dots before) positional (suffix_of after) value operator filter_map
              (get_value ext doc (join_dots before))
      ]
