-- ===== src/Update/Writes.antt =====
-- What `$inc` and `$rename` leave at the paths they name.
use mdb_embedded.Prelude.{ℤ, ◌+ℤ◌, IsI32, ◌≡◌, refl, String, some, if◌then◌else◌, arith}
use mdb_embedded.Bson.{Bson, double, string, int32, Document, end, field, ok, Externals, IsMap}
use mdb_embedded.Paths.{get_value}
use mdb_embedded.Paths.Unset.{unset_value-ok}
use mdb_embedded.Paths.Set.{get_value-set_value}
use mdb_embedded.Update.Fields.{apply_inc, apply_rename, rename_field}
use mdb_embedded.Update.Numbers.{IsIeee, fits_i32, add_numbers-int32}

module _ (ext : Externals) (m : IsMap ext) where
  -- Over IEEE doubles, `$inc` of a path that leads to an `i32` by an `i32` succeeds, and the path
  -- then leads to the exact sum as an `i32` where it is in the range, and else to the double of
  -- that sum.
  pub apply_inc-int32 :
      (d : Document) (key : String) (a b : ℤ)
      → IsIeee ext
      → get_value ext d key ≡ some (int32 a)
      → IsI32 a
      → IsI32 b
      → (d' : Document) × (apply_inc ext d (field key (int32 b) end) ≡ ok d')
        × (get_value ext d' key
            ≡ some (if fits_i32 (a +ℤ b) then int32 (a +ℤ b) else double (ext.of_int (a +ℤ b))))
  unfolding apply_inc
  apply_inc-int32 d key a b ieee there ha hb =
      let sum : Bson = if fits_i32 (a +ℤ b) then int32 (a +ℤ b) else double (ext.of_int (a +ℤ b)) in
      let (d', done, found) = get_value-set_value ext m d key sum in
      (d', simp (there, add_numbers-int32 ext ieee a b ha hb, done) refl, found)

  -- `$rename` of a path that leads to a value succeeds, and the new path then leads to the value.
  pub apply_rename-moves :
      (d : Document) (old_name name : String) (value : Bson)
      → get_value ext d old_name ≡ some value
      → (d' : Document) × (apply_rename ext d (field old_name (string name) end) ≡ ok d')
        × (get_value ext d' name ≡ some value)
  unfolding apply_rename rename_field
  apply_rename-moves d old_name name value there =
      let (removed, gone) = unset_value-ok ext m d old_name in
      let (d', done, found) = get_value-set_value ext m removed name value in
      (d', ground (arith, there, gone, done), found)
