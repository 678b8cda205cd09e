-- ===== src/Index/Bitmap.antt =====
-- rust/smongo-engine/src/index/bitmap_index.rs: the positions of documents under the values of a
-- field. The hash map from ids to positions is the list of its entries in order.
use mdb_embedded.Prelude.{
  ℕ, zero, suc, ◌+◌, ◌%◌, ◌^◌, ◌==◌, String, str_eq, Bool, true, false, ◌&&◌, ◌||◌, Option, none,
  some, List, [], ◌∷◌, ◌++◌, Ordering, compare, length, get_elem?, if◌then◌else◌,
}
use mdb_embedded.Std.Order.{string_ord, bytes_ord, cmp_bytes}
use mdb_embedded.Std.Sort.{sort_by}
use mdb_embedded.Std.BTreeMap
use mdb_embedded.Bson.{Result, ok, panic}

pub record BitmapIndex : Type 0 where
  pub bitmaps : List (List ℕ × List ℕ)
  pub pos_to_id : List String
  pub id_to_pos : List (String × ℕ)
  pub next_pos : ℕ

unfoldable pub new : BitmapIndex
new = record { bitmaps = []; pos_to_id = []; id_to_pos = []; next_pos = 0 }

-- `v[p] = id`, after `v.resize(p + 1, String::new())` where it is shorter.
unfoldable pub set_at : ℕ → String → List String → List String
set_at zero id [] = id ∷ []
set_at zero id (j ∷ ids) = id ∷ ids
set_at (suc p) id [] = "" ∷ set_at p id []
set_at (suc p) id (j ∷ ids) = j ∷ set_at p id ids

abbrev pub positions_of : Option (List ℕ) → List ℕ
positions_of none = []
positions_of (some positions) = positions

unfoldable pub lookup : List ℕ → BitmapIndex → List ℕ
lookup value_bytes idx = positions_of (BTreeMap.lookup value_bytes idx.bitmaps)

-- `entry(value).or_default().push(pos)`
abbrev push_position : List ℕ → ℕ → BitmapIndex → BitmapIndex
push_position value_bytes pos idx = record idx {
  bitmaps =
      BTreeMap.insert value_bytes
        (positions_of (BTreeMap.lookup value_bytes idx.bitmaps) ++ pos ∷ []) idx.bitmaps;
}

-- The position of a new document; `next_pos` wraps around at 2^32.
abbrev assign : String → BitmapIndex → BitmapIndex
assign doc_id idx = record idx {
  pos_to_id = set_at idx.next_pos doc_id idx.pos_to_id;
  id_to_pos = BTreeMap.insert doc_id idx.next_pos idx.id_to_pos;
  next_pos = (idx.next_pos + 1) % 2 ^ 32;
}

abbrev insert_at : Option ℕ → String → List ℕ → BitmapIndex → BitmapIndex
insert_at (some existing) doc_id value_bytes idx = push_position value_bytes existing idx
insert_at none doc_id value_bytes idx = push_position value_bytes idx.next_pos (assign doc_id idx)

unfoldable pub insert : String → List ℕ → BitmapIndex → BitmapIndex
unfolding set_at
insert doc_id value_bytes idx =
    insert_at (BTreeMap.lookup doc_id idx.id_to_pos) doc_id value_bytes idx

unfoldable pub build : List (List ℕ × String) → BitmapIndex → BitmapIndex
unfolding insert
build [] idx = idx
build ((value_bytes, doc_id) ∷ entries) idx = build entries (insert doc_id value_bytes idx)

-- `retain(|&p| p != pos)`
unfoldable pub without : ℕ → List ℕ → List ℕ
without pos [] = []
without pos (p ∷ positions) =
    let rest = without pos positions in if p == pos then rest else p ∷ rest

unfoldable pub retain_each : ℕ → List (List ℕ × List ℕ) → List (List ℕ × List ℕ)
unfolding without
retain_each pos [] = []
retain_each pos ((value, positions) ∷ bitmaps) =
    (value, without pos positions) ∷ retain_each pos bitmaps

-- `if pos < len { v[pos] = String::new() }`
unfoldable pub clear_at : ℕ → List String → List String
clear_at p [] = []
clear_at zero (j ∷ ids) = "" ∷ ids
clear_at (suc p) (j ∷ ids) = j ∷ clear_at p ids

abbrev remove_at : Option ℕ → String → BitmapIndex → BitmapIndex
remove_at none doc_id idx = idx
remove_at (some pos) doc_id idx = record idx {
  bitmaps = retain_each pos idx.bitmaps;
  id_to_pos = BTreeMap.remove doc_id idx.id_to_pos;
  pos_to_id = clear_at pos idx.pos_to_id;
}

unfoldable pub remove : String → BitmapIndex → BitmapIndex
unfolding retain_each clear_at
remove doc_id idx = remove_at (BTreeMap.lookup doc_id idx.id_to_pos) doc_id idx

-- `dedup`: of neighbours that are equal, the first is kept.
unfoldable pub dedup : List ℕ → List ℕ
dedup [] = []
dedup (p ∷ []) = p ∷ []
dedup (p ∷ q ∷ positions) = let rest = dedup (q ∷ positions) in if p == q then rest else p ∷ rest

-- `sort_unstable` and `dedup`; equal positions cannot be told apart.
unfoldable pub sorted_set : List ℕ → List ℕ
unfolding dedup
sorted_set positions = dedup (sort_by compare positions)

unfoldable pub all_positions : List (List ℕ) → BitmapIndex → List ℕ
all_positions [] idx = []
all_positions (v ∷ values) idx = lookup v idx ++ all_positions values idx

unfoldable pub lookup_in : List (List ℕ) → BitmapIndex → List ℕ
unfolding sorted_set all_positions
lookup_in values idx = sorted_set (all_positions values idx)

abbrev above : Option (List ℕ) → List ℕ → Bool
above none v = true
above (some lo) v = elim (cmp_bytes v lo) [ Ordering.lt ↦ false | _ ↦ true ]

abbrev below : Option (List ℕ) → List ℕ → Bool
below none v = true
below (some hi) v = elim (cmp_bytes v hi) [ Ordering.gt ↦ false | _ ↦ true ]

unfoldable range_positions : Option (List ℕ) → Option (List ℕ) → List (List ℕ × List ℕ) → List ℕ
range_positions lo hi [] = []
range_positions lo hi ((v, positions) ∷ bitmaps) =
    let rest = range_positions lo hi bitmaps in
    if above lo v && below hi v then positions ++ rest else rest

-- `BTreeMap::range` panics where the range starts behind its end.
abbrev is_backward : Option (List ℕ) → Option (List ℕ) → Bool
is_backward (some lo) (some hi) = elim (cmp_bytes lo hi) [ Ordering.gt ↦ true | _ ↦ false ]
is_backward _ _ = false

unfoldable pub lookup_range : Option (List ℕ) → Option (List ℕ) → BitmapIndex → Result (List ℕ)
unfolding sorted_set range_positions
lookup_range lo hi idx =
    if is_backward lo hi then panic else ok (sorted_set (range_positions lo hi idx.bitmaps))

abbrev has_position : List ℕ → ℕ → Bool
has_position [] p = false
has_position (q ∷ positions) p = (q == p) || has_position positions p

-- `BitmapIndex::and` and `BitmapIndex::or`
unfoldable pub and_positions : List ℕ → List ℕ → List ℕ
and_positions a [] = []
and_positions a (p ∷ b) =
    let rest = and_positions a b in if has_position a p then p ∷ rest else rest

unfoldable pub or_positions : List ℕ → List ℕ → List ℕ
unfolding sorted_set
or_positions a b = sorted_set (a ++ b)

-- `filter(|s| !s.is_empty())`
abbrev present : Option String → List String → List String
present none ids = ids
present (some id) ids = if str_eq id "" then ids else id ∷ ids

unfoldable pub ids_at : List String → List ℕ → List String
ids_at ids [] = []
ids_at ids (p ∷ positions) = present (get_elem? ids p) (ids_at ids positions)

unfoldable pub positions_to_ids : BitmapIndex → List ℕ → List String
unfolding ids_at
positions_to_ids idx positions = ids_at idx.pos_to_id positions

unfoldable pub len : BitmapIndex → ℕ
len idx = length idx.id_to_pos

unfoldable pub distinct_count : BitmapIndex → ℕ
distinct_count idx = length idx.bitmaps
