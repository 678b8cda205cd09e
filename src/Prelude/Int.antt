-- ===== src/Prelude/Int.antt =====
-- Signed integers over the native numbers, and the conversions of `i32`, `i64` and `usize`.
use Prim.Native.Nat.{ℕ, zero, suc, ◌+◌, ◌-◌, ◌*◌, ◌%◌, ◌^◌, ◌≤◌, compare, Ordering}
use mathlib.Core.Path.{◌≡◌}
use native.Mathlib.Omega.{arith}
use mdb_embedded.Prelude.Tests.{ltb, leb, if◌then◌else◌}

-- `negsuc n` is -(n + 1).
pub data ℤ : Type 0 where
  pos : ℕ → ℤ
  negsuc : ℕ → ℤ

abbrev pub pos_part : ℤ → ℕ
pos_part (pos n) = n
pos_part (negsuc n) = 0

abbrev pub neg_part : ℤ → ℕ
neg_part (pos n) = 0
neg_part (negsuc n) = suc n

-- a - b, as an integer.
abbrev pub sub_ℕ : ℕ → ℕ → ℤ
sub_ℕ a b = if leb b a then pos (a - b) else negsuc (b - a - 1)

infixl 65 ◌+ℤ◌
infixl 70 ◌*ℤ◌
infix 50 ◌≤ℤ◌
unfoldable pub ◌+ℤ◌ : ℤ → ℤ → ℤ
a +ℤ b = sub_ℕ (pos_part a + pos_part b) (neg_part a + neg_part b)

unfoldable pub ◌*ℤ◌ : ℤ → ℤ → ℤ
a *ℤ b =
    sub_ℕ (pos_part a * pos_part b + neg_part a * neg_part b)
      (pos_part a * neg_part b + neg_part a * pos_part b)

abbrev pub ◌≤ℤ◌ : ℤ → ℤ → Type 0
a ≤ℤ b = pos_part a + neg_part b ≤ pos_part b + neg_part a

-- `Ord::cmp` of `i32` and `i64`.
abbrev pub compare_ℤ : ℤ → ℤ → Ordering
compare_ℤ a b = compare (pos_part a + neg_part b) (pos_part b + neg_part a)

pub compare_ℤ_eq : (a b : ℤ) → compare_ℤ a b ≡ Ordering.eq → a ≡ b
compare_ℤ_eq a b h = ground arith

pub compare_ℤ_refl : (a : ℤ) → compare_ℤ a a ≡ Ordering.eq
compare_ℤ_refl a = ground arith

-- The values of a signed type of `w + 1` bits.
abbrev pub IsSigned : ℕ → ℤ → Type 0
IsSigned w n = (pos_part n + 1 ≤ 2 ^ w) × (neg_part n ≤ 2 ^ w)

abbrev pub IsI32 : ℤ → Type 0
IsI32 = IsSigned 31

abbrev pub IsI64 : ℤ → Type 0
IsI64 = IsSigned 63

-- The bit pattern of `w` bits, as a number: `n as uN`.
abbrev pub to_word : ℕ → ℤ → ℕ
to_word w (pos n) = n % 2 ^ w
to_word w (negsuc n) = 2 ^ w - 1 - n % 2 ^ w

-- The signed value of a bit pattern of `w + 1` bits.
abbrev pub of_word : ℕ → ℕ → ℤ
of_word w b = if ltb b (2 ^ w) then pos b else negsuc (2 ^ (w + 1) - b - 1)

-- `n as i32` from an `i64`: the low 32 bits.
abbrev pub as_i32 : ℤ → ℤ
as_i32 n = of_word 31 (to_word 32 n)

-- `n as usize` from an `i32` or `i64`, on a 64-bit target.
abbrev pub as_usize : ℤ → ℕ
as_usize n = to_word 64 n

-- `-n` of an `i64`; at the least value the negation overflows, and a release build wraps to it.
abbrev pub neg_i64 : ℤ → ℤ
neg_i64 (pos zero) = pos zero
neg_i64 (pos (suc n)) = negsuc n
neg_i64 (negsuc n) = if ltb (n + 1) (2 ^ 63) then pos (n + 1) else negsuc n

-- `a % b` of `i64` with `b` not 0: the sign of the dividend.
abbrev pub rem_ℤ : ℤ → ℤ → ℤ
rem_ℤ (pos n) b = pos (n % (pos_part b + neg_part b))
rem_ℤ (negsuc n) b = sub_ℕ 0 (suc n % (pos_part b + neg_part b))
