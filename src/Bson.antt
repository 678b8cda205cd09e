-- ===== src/Bson.antt =====
-- BSON values as the engine sees them, its errors, and what it takes from other crates.
use mdb_embedded.Prelude.{
  ℕ, ℤ, String, Bool, Option, none, some, List, [], ◌∷◌, Ordering, ◌≡◌, str_eq, is_some, is_ge,
  is_le, if◌then◌else◌,
}

-- `bson::Bson`, `Vec<Bson>` and the entries of a `bson::Document` in their order. A double is its bit
-- pattern, and an ObjectId and a Decimal128 are their bytes. A DbPointer's fields are private.
mutual
  pub data Bson : Type 0 where
    double : ℕ → Bson
    string : String → Bson
    array : Items → Bson
    document : Document → Bson
    boolean : Bool → Bson
    null : Bson
    regular_expression : String → String → Bson
    javascript_code : String → Bson
    javascript_code_with_scope : String → Document → Bson
    int32 : ℤ → Bson
    int64 : ℤ → Bson
    timestamp : ℕ → ℕ → Bson
    binary : ℕ → List ℕ → Bson
    object_id : List ℕ → Bson
    date_time : ℤ → Bson
    symbol : String → Bson
    decimal128 : List ℕ → Bson
    undefined max_key min_key db_pointer : Bson

  pub data Items : Type 0 where
    nil : Items
    cons : Bson → Items → Items

  pub data Document : Type 0 where
    end : Document
    field : String → Bson → Document → Document

-- A `Vec<Bson>` as a list, and back.
abbrev pub to_list : Items → List Bson
to_list nil = []
to_list (cons x xs) = x ∷ to_list xs

abbrev pub of_list : List Bson → Items
of_list [] = nil
of_list (x ∷ xs) = cons x (of_list xs)

abbrev pub entries : Document → List (record { 0 : String; 1 : Bson })
entries end = []
entries (field k v d) = (k, v) ∷ entries d

-- An error's text: as it stands, followed by a text, or followed by a value's debug form.
pub data Error : Type 0 where
  message : String → Error
  message_text : String → String → Error
  message_value : String → Bson → Error
  message_int : String → ℤ → Error

-- `Result<T, String>`, and a panic of the process.
pub data Result {ℓ} (A : Type ℓ) : Type ℓ where
  ok : A → Result A
  err : Error → Result A
  panic : Result A

infixl 5 ◌>>=◌ ◌>>◌
abbrev pub ◌>>=◌ {ℓ κ} : {A : Type ℓ} {B : Type κ} → Result A → (A → Result B) → Result B
ok a >>= f = f a
err e >>= f = err e
panic >>= f = panic

abbrev pub ◌>>◌ {ℓ κ} : {A : Type ℓ} {B : Type κ} → Result A → Result B → Result B
m >> k = m >>= λ _. k

abbrev pub map_ok {ℓ κ} : {A : Type ℓ} {B : Type κ} → (A → B) → Result A → Result B
map_ok f (ok a) = ok (f a)
map_ok f (err e) = err e
map_ok f panic = panic

-- `r.unwrap_or(d)`, which passes a panic on.
abbrev pub unwrap_or {ℓ} : {A : Type ℓ} → A → Result A → Result A
unwrap_or d (ok a) = ok a
unwrap_or d (err e) = ok d
unwrap_or d panic = panic

-- What the engine takes from the `bson` and `regex` crates, from the machine's floating point and
-- clock, and from its own modules that stand outside this model (expressions, geometry, `$text`).
pub record Externals : Type 0 where
  -- bson::Document
  pub get : Document → String → Option Bson
  pub contains_key : Document → String → Bool
  pub insert : Document → String → Bson → Document
  pub remove : Document → String → Document
  -- bson::to_vec of `{"": value}`, and `==` of Bson
  pub canonical_key : Bson → List ℕ
  pub beq : Bson → Bson → Bool
  -- f64, on bit patterns: `n as f64`, `partial_cmp`, `+`, `*`, `x.fract() == 0.0`, `x as i32`, `x as i64`
  pub of_int : ℤ → ℕ
  pub partial_cmp : ℕ → ℕ → Option Ordering
  pub add_f64 : ℕ → ℕ → ℕ
  pub mul_f64 : ℕ → ℕ → ℕ
  pub is_whole : ℕ → Bool
  pub f64_as_i32 : ℕ → ℤ
  pub f64_as_i64 : ℕ → ℤ
  -- regex::Regex::new(pattern) and is_match(text)
  pub regex : String → Result (String → Bool)
  -- bson::DateTime::now()
  pub now : ℤ
  -- eval_expr, eval_text and the geospatial tests of the engine
  pub expr_holds : Document → Bson → Result Bool
  pub text_holds : Document → Bson → Result Bool
  pub near_holds : Option Bson → Document → Result Bool
  pub geo_within_holds : Option Bson → Document → Result Bool
  pub geo_intersects_holds : Option Bson → Document → Result Bool

-- `a >= b` and `a <= b` of f64.
abbrev pub f64_ge : Externals → ℕ → ℕ → Bool
f64_ge ext a b = elim (ext.partial_cmp a b) [ none ↦ Bool.false | some o ↦ is_ge o ]

abbrev pub f64_le : Externals → ℕ → ℕ → Bool
f64_le ext a b = elim (ext.partial_cmp a b) [ none ↦ Bool.false | some o ↦ is_le o ]

-- The documented behaviour of `bson::Document`: a map from keys to values.
pub record IsMap (ext : Externals) : Type 0 where
  pub get-new : (k : String) → ext.get end k ≡ none
  pub get-insert :
      (d : Document) (k j : String) (v : Bson)
      → ext.get (ext.insert d k v) j ≡ (if str_eq k j then some v else ext.get d j)
  pub get-remove :
      (d : Document) (k j : String)
      → ext.get (ext.remove d k) j ≡ (if str_eq k j then none else ext.get d j)
  pub contains_key-get : (d : Document) (k : String) → ext.contains_key d k ≡ is_some (ext.get d k)
