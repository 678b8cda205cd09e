-- ===== src/Update/Sets.antt =====
-- Arrays as sets: `$addToSet` and `$pull`.
use mdb_embedded.Prelude.{
  ◌≡◌, refl, ap, sym, Bool, true, false, not, ◌&&◌, ◌||◌, List, [], ◌∷◌, ◌++◌, if◌then◌else◌,
  Bool-cases, inl, inr, arith,
}
use mdb_embedded.Bson.{Bson, document, ok, Externals}
use mdb_embedded.Update.Arrays.{holds_value, add_missing, add_each, pull_from}

abbrev pub Every : (Bson → Type 0) → List Bson → Type 0
Every P [] = Unit
Every P (x ∷ xs) = P x × Every P xs

abbrev pub is_document : Bson → Bool
is_document (document d) = true
is_document _ = false

append_nil : (xs : List Bson) → xs ++ [] ≡ xs
append_nil [] = refl
append_nil (x ∷ xs) = ap (◌∷◌ x) (append_nil xs)

append_assoc : (xs ys zs : List Bson) → (xs ++ ys) ++ zs ≡ xs ++ (ys ++ zs)
append_assoc [] ys zs = refl
append_assoc (x ∷ xs) ys zs = ap (◌∷◌ x) (append_assoc xs ys zs)

module _ (ext : Externals) where
  -- Each element differs from those in `seen` and from those before it.
  abbrev pub fresh : List Bson → List Bson → Bool
  fresh seen [] = true
  fresh seen (x ∷ xs) = not (holds_value ext seen x) && fresh (seen ++ (x ∷ [])) xs

  holds_value-append :
      (xs ys : List Bson) (v : Bson)
      → holds_value ext (xs ++ ys) v ≡ (holds_value ext xs v || holds_value ext ys v)
  unfolding holds_value
  holds_value-append [] ys v = refl
  holds_value-append (x ∷ xs) ys v = ground (arith, holds_value-append xs ys v)

  fresh-append :
      (seen xs : List Bson) (e : Bson)
      → fresh seen (xs ++ (e ∷ [])) ≡ (fresh seen xs && not (holds_value ext (seen ++ xs) e))
  fresh-append seen [] e = rw (append_nil seen) (ground arith)
  fresh-append seen (x ∷ xs) e =
      ground (arith, fresh-append (seen ++ (x ∷ [])) xs e, append_assoc seen (x ∷ []) xs)

  add_missing-fresh :
      (arr : List Bson) (e : Bson) → fresh [] arr ≡ true → fresh [] (add_missing ext arr e) ≡ true
  unfolding add_missing
  add_missing-fresh arr e h = ground (arith, fresh-append [] arr e, h)

  add_each-fresh :
      (arr es : List Bson) → fresh [] arr ≡ true → fresh [] (add_each ext arr es) ≡ true
  unfolding add_each
  add_each-fresh arr [] h = h
  add_each-fresh arr (e ∷ es) h =
      add_each-fresh (add_missing ext arr e) es (add_missing-fresh arr e h)

  add_each-prefix : (arr es : List Bson) → (more : List Bson) × (add_each ext arr es ≡ arr ++ more)
  unfolding add_each add_missing
  add_each-prefix arr [] = ([], sym (append_nil arr))
  add_each-prefix arr (e ∷ es) = elim (Bool-cases (holds_value ext arr e)) [
    | inl h ↦ let (more, p) = add_each-prefix arr es in (more, ground (arith, h, p))
    | inr h ↦
        let (more, p) = add_each-prefix (arr ++ (e ∷ [])) es in
        (e ∷ more, ground (arith, h, p, append_assoc arr (e ∷ []) more))
  ]

  add_each-keeps :
      (arr es : List Bson) (v : Bson)
      → holds_value ext arr v ≡ true
      → holds_value ext (add_each ext arr es) v ≡ true
  add_each-keeps arr es v h =
      let (more, p) = add_each-prefix arr es in rw (p, holds_value-append arr more v, h) refl

  add_each-holds :
      (arr es : List Bson)
      → Every (λ e. ext.beq e e ≡ true) es
      → Every (λ e. holds_value ext (add_each ext arr es) e ≡ true) es
  unfolding add_each add_missing holds_value
  add_each-holds arr [] h = tt
  add_each-holds arr (e ∷ es) (r, h) = (
    add_each-keeps (add_missing ext arr e) es e
        (ground (arith, holds_value-append arr (e ∷ []) e, r)),
    add_each-holds (add_missing ext arr e) es h,
  )

  -- `$addToSet` of elements that equal themselves leaves the array in front as it was, holds every
  -- one of them, and makes no duplicate in an array that has none.
  pub add_each-set :
      (arr es : List Bson)
      → Every (λ e. ext.beq e e ≡ true) es
      → ((more : List Bson) × (add_each ext arr es ≡ arr ++ more))
        × Every (λ e. holds_value ext (add_each ext arr es) e ≡ true) es
        × (fresh [] arr ≡ true → fresh [] (add_each ext arr es) ≡ true)
  add_each-set arr es h = (add_each-prefix arr es, add_each-holds arr es h, add_each-fresh arr es)

  -- The elements that do not equal a value.
  abbrev pub others : Bson → List Bson → List Bson
  others condition [] = []
  others condition (e ∷ es) =
      let rest = others condition es in if ext.beq e condition then rest else e ∷ rest

  holds_value-others :
      (condition : Bson) (arr : List Bson)
      → holds_value ext (others condition arr) condition ≡ false
  unfolding holds_value
  holds_value-others condition [] = refl
  holds_value-others condition (e ∷ es) = ground (arith, holds_value-others condition es)

  pulled :
      (condition : Bson) (arr : List Bson)
      → is_document condition ≡ false
      → pull_from ext condition arr ≡ ok (others condition arr)
  unfolding pull_from
  pulled condition [] h = refl
  pulled (document d) (e ∷ es) h = ground (arith, h)
  pulled condition (e ∷ es) h = ground (arith, pulled condition es h)

  -- `$pull` of a value that is no document never fails; it keeps the elements that do not equal the
  -- value, in their order, and none that does.
  pub pull_from-others :
      (condition : Bson) (arr : List Bson)
      → is_document condition ≡ false
      → (pull_from ext condition arr ≡ ok (others condition arr))
        × (holds_value ext (others condition arr) condition ≡ false)
  pull_from-others condition arr h = (pulled condition arr h, holds_value-others condition arr)
