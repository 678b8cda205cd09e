-- ===== src/Planner/Directions.antt =====
-- The indexes that a sort can walk.
use text.Mathlib.TextEquality.{eq_iff}
use mdb_embedded.Prelude.{
  ltb, ◌≡◌, refl, sym, ap, ◌∙◌, String, Bool, true, false, none, some, List, [], ◌∷◌, ◌++◌, map,
  length, if◌then◌else◌, not, ◌&&◌, arith,
}
use mdb_embedded.Bson.{Document}
use mdb_embedded.Index.{IndexDirection, ascending, descending}
use mdb_embedded.Planner.{directions, same_direction, compare_directions, sort_matches_index}

abbrev pub turned_direction : Bool → IndexDirection → IndexDirection
turned_direction false d = d
turned_direction true ascending = descending
turned_direction true descending = ascending

abbrev pub turned_field :
    Bool → record { 0 : String; 1 : IndexDirection } → record { 0 : String; 1 : IndexDirection }
turned_field reverse (name, d) = (name, turned_direction reverse d)

abbrev flag : Bool → Bool → Bool → Bool
flag false all_same all_inverted = all_same
flag true all_same all_inverted = all_inverted

flag_cons :
    (reverse all_same all_inverted : Bool) (sd id : IndexDirection)
    → flag reverse (all_same && same_direction sd id) (all_inverted && not (same_direction sd id))
      ≡ true
    → (flag reverse all_same all_inverted ≡ true) × (id ≡ turned_direction reverse sd)
flag_cons false all_same all_inverted ascending ascending h = (ground (arith, h), refl)
flag_cons false all_same all_inverted descending descending h = (ground (arith, h), refl)
flag_cons true all_same all_inverted ascending descending h = (ground (arith, h), refl)
flag_cons true all_same all_inverted descending ascending h = (ground (arith, h), refl)
flag_cons reverse all_same all_inverted sd id h = absurd (ground (arith, h))

compare_directions-prefix :
    (reverse all_same all_inverted : Bool)
    (sort_fields index_fields : List (record { 0 : String; 1 : IndexDirection }))
    → compare_directions all_same all_inverted sort_fields index_fields ≡ some reverse
    → (flag reverse all_same all_inverted ≡ true)
      × (rest : List (record { 0 : String; 1 : IndexDirection })) × (index_fields
          ≡ map (turned_field reverse) sort_fields ++ rest)
unfolding compare_directions
compare_directions-prefix reverse all_same all_inverted [] index_fields h =
    (ground (arith, h), index_fields, refl)
compare_directions-prefix reverse all_same all_inverted (s ∷ sort_fields) [] h =
    absurd (ground (arith, h))
compare_directions-prefix reverse same inv ((sf, sd) ∷ sort_fields) ((ik, id) ∷ index_fields) h =
    let (p, rest, e) =
      compare_directions-prefix reverse (same && same_direction sd id)
        (inv && not (same_direction sd id)) sort_fields index_fields (ground (arith, h)) in
    let (q, turned) = flag_cons reverse same inv sd id p in
    let name : sf ≡ ik = (eq_iff sf ik).0 (ground (arith, h)) in
    (
      q,
      rest,
      ap (λ d. (ik, d) ∷ index_fields) turned
          ∙ ap (λ k. (k, turned_direction reverse sd) ∷ index_fields) (sym name)
          ∙ ap (λ r. (sf, turned_direction reverse sd) ∷ r) e,
    )

matched_prefix :
    (reverse : Bool) (sort_fields index_fields : List (record { 0 : String; 1 : IndexDirection }))
    → (elim sort_fields [
      | [] ↦ none
      | s ∷ more ↦
          if ltb (length index_fields) (length (s ∷ more))
          then none
          else compare_directions true true (s ∷ more) index_fields
    ])
      ≡ some reverse
    → (rest : List (record { 0 : String; 1 : IndexDirection })) × (index_fields
        ≡ map (turned_field reverse) sort_fields ++ rest)
matched_prefix reverse [] index_fields h = absurd (ground (arith, h))
matched_prefix reverse (s ∷ more) index_fields h =
    let (p, rest, e) =
      compare_directions-prefix reverse true true (s ∷ more) index_fields (ground (arith, h)) in
    (rest, e)

-- Of a sort and of the index that it is matched with, take the entries whose value is 1 or -1 as
-- `Int32` or `Int64`, and pass over the others in both: those of the index start with those of the sort, in the
-- order of the sort, each in the direction of the sort or, in reverse, each in the other direction.
pub sort_matches_index-prefix :
    (sort index_keys : Document) (reverse : Bool)
    → sort_matches_index sort index_keys ≡ some reverse
    → (rest : List (record { 0 : String; 1 : IndexDirection })) × (directions index_keys
        ≡ map (turned_field reverse) (directions sort) ++ rest)
unfolding sort_matches_index
sort_matches_index-prefix sort index_keys reverse h =
    matched_prefix reverse (directions sort) (directions index_keys) h
