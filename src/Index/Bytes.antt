-- ===== src/Index/Bytes.antt =====
-- Bytes in order: numbers as digits, inverted bytes, prefixes.
use native.Mathlib.Nat.{pow-succ'}
use mdb_embedded.Prelude.{
  ℕ, zero, suc, ◌+◌, ◌/◌, ◌%◌, ◌^◌, ◌<◌, compare, ◌≡◌, refl, sym, ap, ◌∙◌, false, List, [], ◌∷◌,
  ◌++◌, length, length-append, take, Ordering, opposite, is_gt, arith,
}
use mdb_embedded.Std.Order.{cmp_bytes, then, cmp_bytes_refl}
use mdb_embedded.Index.Keys.{be_bytes, invert_bytes, truncate_key}

pub cmp_bytes-append :
    (a b c d : List ℕ)
    → length a ≡ length b
    → cmp_bytes (a ++ c) (b ++ d) ≡ (then) (cmp_bytes a b) (cmp_bytes c d)
unfolding cmp_bytes
cmp_bytes-append [] [] c d e = refl
cmp_bytes-append [] (y ∷ b) c d e = absurd (omega (arith, e))
cmp_bytes-append (x ∷ a) [] c d e = absurd (omega (arith, e))
cmp_bytes-append (x ∷ a) (y ∷ b) c d e = ground (arith, cmp_bytes-append a b c d (omega (arith, e)))

pub length-be_bytes : (k a b : ℕ) → length (be_bytes k a) ≡ length (be_bytes k b)
unfolding be_bytes
length-be_bytes zero a b = refl
length-be_bytes (suc k) a b =
    length-append (be_bytes k (a / 256)) (a % 256 ∷ [])
    ∙ ap (λ n. n + 1) (length-be_bytes k (a / 256) (b / 256))
    ∙ sym (length-append (be_bytes k (b / 256)) (b % 256 ∷ []))

pub compare-digits :
    (a b : ℕ) → compare a b ≡ (then) (compare (a / 256) (b / 256)) (compare (a % 256) (b % 256))
compare-digits a b = ground arith

-- As many digits as the number needs keep its order.
pub cmp_bytes-be_bytes :
    (k a b : ℕ) → a < 256 ^ k → b < 256 ^ k → cmp_bytes (be_bytes k a) (be_bytes k b) ≡ compare a b
unfolding be_bytes cmp_bytes
cmp_bytes-be_bytes zero a b ha hb = ground (arith, ha, hb)
cmp_bytes-be_bytes (suc k) a b ha hb =
    let lower =
      cmp_bytes-be_bytes k (a / 256) (b / 256) (omega (arith, ha, pow-succ' 256 k))
        (omega (arith, hb, pow-succ' 256 k)) in
    cmp_bytes-append (be_bytes k (a / 256)) (be_bytes k (b / 256)) (a % 256 ∷ []) (b % 256 ∷ [])
      (length-be_bytes k (a / 256) (b / 256))
    ∙ ground (arith, lower, compare-digits a b)

pub then_eq : (o : Ordering) → o ≡ (then) o Ordering.eq
then_eq Ordering.eq = refl
then_eq Ordering.lt = refl
then_eq Ordering.gt = refl

pub then_elim :
    (o more : Ordering)
    → (then) o more
      ≡ (elim o [ Ordering.eq ↦ more | Ordering.lt ↦ Ordering.lt | Ordering.gt ↦ Ordering.gt ])
then_elim Ordering.eq more = refl
then_elim Ordering.lt more = refl
then_elim Ordering.gt more = refl

-- A list of bytes.
abbrev pub IsBytes : List ℕ → Type 0
IsBytes [] = Unit
IsBytes (b ∷ bs) = (b < 256) × IsBytes bs

pub IsBytes-append : (a b : List ℕ) → IsBytes a → IsBytes b → IsBytes (a ++ b)
IsBytes-append [] b h k = k
IsBytes-append (x ∷ a) b h k = (h.0, IsBytes-append a b h.1 k)

pub be_bytes-IsBytes : (k n : ℕ) → IsBytes (be_bytes k n)
unfolding be_bytes
be_bytes-IsBytes zero n = tt
be_bytes-IsBytes (suc k) n =
    IsBytes-append (be_bytes k (n / 256)) (n % 256 ∷ []) (be_bytes-IsBytes k (n / 256))
      (omega arith, tt)

pub length-invert_bytes : (a : List ℕ) → length (invert_bytes a) ≡ length a
unfolding invert_bytes
length-invert_bytes [] = refl
length-invert_bytes (b ∷ bs) = ap suc (length-invert_bytes bs)

-- Inverting the bytes turns the order of keys of one length around.
pub cmp_bytes-invert_bytes :
    (a b : List ℕ)
    → IsBytes a
    → IsBytes b
    → length a ≡ length b
    → cmp_bytes (invert_bytes a) (invert_bytes b) ≡ opposite (cmp_bytes a b)
unfolding cmp_bytes invert_bytes
cmp_bytes-invert_bytes [] [] h k e = refl
cmp_bytes-invert_bytes [] (y ∷ b) h k e = absurd (omega (arith, e))
cmp_bytes-invert_bytes (x ∷ a) [] h k e = absurd (omega (arith, e))
cmp_bytes-invert_bytes (x ∷ a) (y ∷ b) h k e =
    ground (arith, h.0, k.0, cmp_bytes-invert_bytes a b h.1 k.1 (omega (arith, e)))

pub truncate_key-take : (n : ℕ) (a : List ℕ) → truncate_key a n ≡ take n a
unfolding truncate_key
truncate_key-take zero [] = refl
truncate_key-take zero (x ∷ a) = ground arith
truncate_key-take (suc n) [] = ground arith
truncate_key-take (suc n) (x ∷ a) = ground (arith, truncate_key-take n a)

pub cmp_bytes-take :
    (n : ℕ) (a b : List ℕ)
    → cmp_bytes a b ≡ Ordering.lt
    → is_gt (cmp_bytes (take n a) (take n b)) ≡ false
unfolding cmp_bytes
cmp_bytes-take zero a b h = refl
cmp_bytes-take (suc n) [] [] h = refl
cmp_bytes-take (suc n) [] (y ∷ b) h = refl
cmp_bytes-take (suc n) (x ∷ a) [] h = ground (arith, h)
cmp_bytes-take (suc n) (x ∷ a) (y ∷ b) h =
    ground (arith, h, cmp_bytes-take n a b, cmp_bytes_refl (take n a))

-- Cutting keys to a prefix never turns their order around.
pub cmp_bytes-truncate_key :
    (n : ℕ) (a b : List ℕ)
    → cmp_bytes a b ≡ Ordering.lt
    → is_gt (cmp_bytes (truncate_key a n) (truncate_key b n)) ≡ false
cmp_bytes-truncate_key n a b h =
    rw (truncate_key-take n a, truncate_key-take n b) (cmp_bytes-take n a b h)
