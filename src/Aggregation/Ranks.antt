-- ===== src/Aggregation/Ranks.antt =====
-- The order of `compare_bson`: a total preorder of the values that are not NaN.
use Prim.Native.String.{compare as compare_text}
use mdb_embedded.Prelude.{
  ℕ, ℤ, compare, compare_ℤ, ◌≡◌, refl, subst, String, Bool, false, List, Option, none, some,
  Ordering, is_gt, opposite, ◌==◌, if◌then◌else◌, arith,
}
use mdb_embedded.Std.Order.{cmp_bytes, Ord, bytes_ord, string_ord}
use mdb_embedded.Std.Membership.{IsPreorder}
use mdb_embedded.Bson.{
  Bson, double, string, array, document, boolean, null, int32, int64, object_id, date_time,
  Document, end, field, Externals,
}
use mdb_embedded.Query.Compare.{cmp_bool}
use mdb_embedded.Query.Doubles.{IsNumber, IsFloatOrder, cmp_f64, cmp_f64_flip, cmp_f64_trans}
use mdb_embedded.Paths.{get_value}
use mdb_embedded.Aggregation.{compare_present, compare_bson}
use mdb_embedded.Aggregation.Stages.Sort.{is_descending, turned, compare_docs}

-- What the order looks at.
data Key : Type 0 where
  absent : Key
  num : ℕ → Key
  text : String → Key
  flag : Bool → Key
  id : List ℕ → Key
  date : ℤ → Key
  nothing : Key
  fields : Key
  items : Key
  other : Key

abbrev rank : Key → ℕ
rank absent = 0
rank (num _) = 2
rank (text _) = 3
rank (flag _) = 6
rank (id _) = 7
rank (date _) = 8
rank nothing = 1
rank fields = 4
rank items = 5
rank other = 9

Ord-IsPreorder : {K : Type 0} (o : Ord K) → IsPreorder o.cmp
Ord-IsPreorder o = record {
  flip = o.cmp_flip;
  le_trans = λ a b c h k. ground (arith, h, k, o.lt_trans a b c, o.eq_of_cmp a b, o.eq_of_cmp b c);
}

-- One key of a sort, then the others.
abbrev key_then : Bool → Ordering → Ordering → Ordering
key_then down o more = elim (turned down o) [
  | Ordering.eq ↦ more
  | Ordering.lt ↦ Ordering.lt
  | Ordering.gt ↦ Ordering.gt
]

key_then_flip :
    (down : Bool) (o o' more more' : Ordering)
    → o' ≡ opposite o
    → more' ≡ opposite more
    → key_then down o' more' ≡ opposite (key_then down o more)
key_then_flip down o o' more more' e f = ground (arith, e, f)

lexicographic :
    {A : Type 0} {cmp : A → A → Ordering} (down : Bool) (p : IsPreorder cmp) (a b c : A)
    (ab bc ac : Ordering)
    → (is_gt ab ≡ false → is_gt bc ≡ false → is_gt ac ≡ false)
    → is_gt (key_then down (cmp a b) ab) ≡ false
    → is_gt (key_then down (cmp b c) bc) ≡ false
    → is_gt (key_then down (cmp a c) ac) ≡ false
lexicographic down p a b c ab bc ac more h k = ground (
  arith,
  h,
  k,
  more,
  p.le_trans a b c,
  p.le_trans b c a,
  p.le_trans c a b,
  p.le_trans c b a,
  p.le_trans a c b,
  p.le_trans b a c,
  p.flip a b,
  p.flip b c,
  p.flip a c,
)

module _ (ext : Externals) where
  abbrev compare_inner : Key → Key → Ordering
  compare_inner (num a) (num b) = cmp_f64 ext a b
  compare_inner (text a) (text b) = compare_text a b
  compare_inner (flag a) (flag b) = cmp_bool a b
  compare_inner (id a) (id b) = cmp_bytes a b
  compare_inner (date a) (date b) = compare_ℤ a b
  compare_inner _ _ = Ordering.eq

  abbrev compare_key : Key → Key → Ordering
  compare_key a b = if rank a == rank b then compare_inner a b else compare (rank a) (rank b)

  abbrev key : Bson → Key
  key (int32 n) = num (ext.of_int n)
  key (int64 n) = num (ext.of_int n)
  key (double d) = num d
  key (string s) = text s
  key (boolean b) = flag b
  key (object_id b) = id b
  key (date_time t) = date t
  key null = nothing
  key (document _) = fields
  key (array _) = items
  key _ = other

  abbrev key_of : Option Bson → Key
  key_of none = absent
  key_of (some v) = key v

  compare_present-key : (a b : Bson) → compare_present ext a b ≡ compare_key (key a) (key b)
  unfolding compare_present
  compare_present-key (int32 a) (int32 b) = refl
  compare_present-key (int32 a) _ = refl
  compare_present-key (int64 a) (int32 b) = refl
  compare_present-key (int64 a) _ = refl
  compare_present-key (double a) (int32 b) = refl
  compare_present-key (double a) _ = refl
  compare_present-key (string a) (int32 b) = refl
  compare_present-key (string a) _ = refl
  compare_present-key (boolean a) (int32 b) = refl
  compare_present-key (boolean a) _ = refl
  compare_present-key (object_id a) (int32 b) = refl
  compare_present-key (object_id a) _ = refl
  compare_present-key (date_time a) (int32 b) = refl
  compare_present-key (date_time a) _ = refl
  compare_present-key _ (int32 b) = refl
  compare_present-key _ _ = refl

  -- A value that is not NaN, or none at all.
  abbrev pub IsNotNan : Option Bson → Type 0
  IsNotNan (some (double d)) = IsNumber ext d
  IsNotNan _ = Unit

  -- At each field of a sort specification, the document's value is not NaN.
  abbrev pub HasNoNan : Document → Document → Type 0
  HasNoNan end doc = Unit
  HasNoNan (field name direction rest) doc = IsNotNan (get_value ext doc name) × HasNoNan rest doc

  abbrev IsClean : Key → Type 0
  IsClean (num d) = IsNumber ext d
  IsClean _ = Unit

  module _ (p : IsFloatOrder ext) where
    key_of-IsClean : (v : Option Bson) → IsNotNan v → IsClean (key_of v)
    key_of-IsClean none h = tt
    key_of-IsClean (some (double d)) h = h
    key_of-IsClean (some (int32 n)) h = p.of_int-IsNumber n
    key_of-IsClean (some (int64 n)) h = p.of_int-IsNumber n
    key_of-IsClean (some _) h = tt

    inner_flip : (a b : Key) → compare_inner b a ≡ opposite (compare_inner a b)
    inner_flip (num a) (num b) = cmp_f64_flip ext p a b
    inner_flip (text a) (text b) = string_ord.cmp_flip a b
    inner_flip (flag a) (flag b) = ground arith
    inner_flip (id a) (id b) = bytes_ord.cmp_flip a b
    inner_flip (date a) (date b) = ground arith
    inner_flip _ (num b) = refl
    inner_flip _ _ = refl

    inner_trans :
        (a b c : Key)
        → IsClean a
        → IsClean b
        → IsClean c
        → rank a ≡ rank b
        → is_gt (compare_inner a b) ≡ false
        → is_gt (compare_inner b c) ≡ false
        → is_gt (compare_inner a c) ≡ false
    inner_trans (num a) (num b) (num c) na nb nc e h k = cmp_f64_trans ext p a b c na nb nc h k
    inner_trans (text a) (text b) (text c) na nb nc e h k =
        (Ord-IsPreorder string_ord).le_trans a b c h k
    inner_trans (id a) (id b) (id c) na nb nc e h k = (Ord-IsPreorder bytes_ord).le_trans a b c h k
    inner_trans (flag a) (flag b) (flag c) na nb nc e h k = ground (arith, h, k)
    inner_trans (date a) (date b) (date c) na nb nc e h k = ground (arith, h, k)
    inner_trans a b c na nb nc e h k = ground (arith, e)

    compare_key_flip : (a b : Key) → compare_key b a ≡ opposite (compare_key a b)
    compare_key_flip a b = ground (arith, inner_flip a b)

    compare_key_trans :
        (a b c : Key)
        → IsClean a
        → IsClean b
        → IsClean c
        → is_gt (compare_key a b) ≡ false
        → is_gt (compare_key b c) ≡ false
        → is_gt (compare_key a c) ≡ false
    compare_key_trans a b c na nb nc h k = ground (arith, h, k, inner_trans a b c na nb nc)

    compare_bson-key :
        (a b : Option Bson) → compare_bson ext a b ≡ compare_key (key_of a) (key_of b)
    unfolding compare_bson
    compare_bson-key none none = refl
    compare_bson-key none (some (int32 b)) = refl
    compare_bson-key none (some _) = refl
    compare_bson-key (some (int32 a)) none = refl
    compare_bson-key (some _) none = refl
    compare_bson-key (some a) (some b) = compare_present-key a b

    -- The values that the order of `compare_bson` is one of.
    abbrev Value : Type 0
    Value = (v : Option Bson) × IsNotNan v

    compare_bson-IsPreorder : IsPreorder {A = Value} (λ a b. compare_bson ext a.0 b.0)
    compare_bson-IsPreorder = record {
      flip = λ a b.
          rw (compare_bson-key a.0 b.0, compare_bson-key b.0 a.0)
            (compare_key_flip (key_of a.0) (key_of b.0));
      le_trans = λ a b c h k. rw (compare_bson-key a.0 c.0) (
          compare_key_trans (key_of a.0) (key_of b.0) (key_of c.0) (key_of-IsClean a.0 a.1)
            (key_of-IsClean b.0 b.1) (key_of-IsClean c.0 c.1)
            (subst (λ o. is_gt o ≡ false) (compare_bson-key a.0 b.0) h)
            (subst (λ o. is_gt o ≡ false) (compare_bson-key b.0 c.0) k));
    }

    compare_bson_flip : (a b : Option Bson) → compare_bson ext b a ≡ opposite (compare_bson ext a b)
    compare_bson_flip a b =
        rw (compare_bson-key a b, compare_bson-key b a) (compare_key_flip (key_of a) (key_of b))

    compare_docs_flip :
        (spec a b : Document) → compare_docs ext spec b a ≡ opposite (compare_docs ext spec a b)
    unfolding compare_docs
    compare_docs_flip end a b = refl
    compare_docs_flip (field name direction rest) a b =
        key_then_flip (is_descending direction) _ _ _ _
          (compare_bson_flip (get_value ext a name) (get_value ext b name))
          (compare_docs_flip rest a b)

    compare_docs_trans :
        (spec a b c : Document)
        → HasNoNan spec a
        → HasNoNan spec b
        → HasNoNan spec c
        → is_gt (compare_docs ext spec a b) ≡ false
        → is_gt (compare_docs ext spec b c) ≡ false
        → is_gt (compare_docs ext spec a c) ≡ false
    unfolding compare_docs
    compare_docs_trans end a b c na nb nc h k = refl
    compare_docs_trans (field name direction rest) a b c na nb nc h k =
        lexicographic (is_descending direction) compare_bson-IsPreorder (get_value ext a name, na.0)
          (get_value ext b name, nb.0) (get_value ext c name, nc.0) (compare_docs ext rest a b)
          (compare_docs ext rest b c) (compare_docs ext rest a c)
          (compare_docs_trans rest a b c na.1 nb.1 nc.1) h k

    -- Among documents without NaN at its fields, the comparison by a sort specification is a total
    -- preorder.
    pub compare_docs-IsPreorder :
        (spec : Document)
        → IsPreorder {A = (d : Document) × HasNoNan spec d} (λ a b. compare_docs ext spec a.0 b.0)
    compare_docs-IsPreorder spec = record {
      flip = λ a b. compare_docs_flip spec a.0 b.0;
      le_trans = λ a b c h k. compare_docs_trans spec a.0 b.0 c.0 a.1 b.1 c.1 h k;
    }
