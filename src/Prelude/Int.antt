-- ===== src/Prelude/Int.antt =====
-- Signed integers over the native numbers, under the library's names, and Go's `int`, `int64` and
-- `int32`: integers whose sums wrap round at the width.
use Prim.Native.Nat.{ℕ, suc, ◌+◌, ◌-◌, ◌%◌, ◌^◌, ◌≤◌, ◌<◌}
use mathlib.Core.Path.{◌≡◌}
use mathlib.Core.Logic.{◌↔◌}
use mathlib.Core.Bool.{Bool, true}
use native.Mathlib.Omega.{arith}
use intelligent_odoo_dev_too.Prelude.Tests.{ltb, leb, ◌==◌, if◌then◌else◌}

-- `negsuc n` is -(n + 1).
pub data ℤ : Type 0 where
  pos : ℕ → ℤ
  negsuc : ℕ → ℤ

abbrev pub pos_part : ℤ → ℕ
pos_part (pos n) = n
pos_part (negsuc n) = 0

abbrev pub neg_part : ℤ → ℕ
neg_part (pos n) = 0
neg_part (negsuc n) = suc n

-- a - b, as an integer.
abbrev pub sub_ℕ : ℕ → ℕ → ℤ
sub_ℕ a b = if leb b a then pos (a - b) else negsuc (b - a - 1)

infixl 65 ◌+ℤ◌
infix 50 ◌≤ℤ◌
unfoldable pub ◌+ℤ◌ : ℤ → ℤ → ℤ
a +ℤ b = sub_ℕ (pos_part a + pos_part b) (neg_part a + neg_part b)

abbrev pub ◌≤ℤ◌ : ℤ → ℤ → Type 0
a ≤ℤ b = pos_part a + neg_part b ≤ pos_part b + neg_part a

abbrev pub ltb_ℤ : ℤ → ℤ → Bool
ltb_ℤ a b = ltb (pos_part a + neg_part b) (pos_part b + neg_part a)

abbrev pub leb_ℤ : ℤ → ℤ → Bool
leb_ℤ a b = leb (pos_part a + neg_part b) (pos_part b + neg_part a)

abbrev pub eqb_ℤ : ℤ → ℤ → Bool
eqb_ℤ a b = (pos_part a + neg_part b) == (pos_part b + neg_part a)

pub +ℤ_parts :
    (a b : ℤ)
    → pos_part (a +ℤ b) + neg_part a + neg_part b ≡ neg_part (a +ℤ b) + pos_part a + pos_part b
unfolding ◌+ℤ◌
+ℤ_parts a b = ground arith

pub eq_of_parts : (a b : ℤ) → pos_part a + neg_part b ≡ pos_part b + neg_part a → a ≡ b
eq_of_parts a b h = ground arith

pub eqb_ℤ_iff : (a b : ℤ) → (eqb_ℤ a b ≡ true) ↔ (a ≡ b)
eqb_ℤ_iff a b = ground arith

pub eqb_ℤ_refl : (a : ℤ) → eqb_ℤ a a ≡ true
eqb_ℤ_refl a = ground arith

-- The integer of a bit pattern `n < 2 ^ (w + 1)` in two's complement, with `half = 2 ^ w`.
abbrev pub signed : ℕ → ℕ → ℤ
signed half n = if ltb n half then pos n else negsuc (half + half - n - 1)

-- The bit pattern of an integer: its residue, with the modulus added below zero.
abbrev pub pattern_of : ℕ → ℤ → ℕ
pattern_of half (pos n) = n % (half + half)
pattern_of half (negsuc n) = half + half - 1 - n % (half + half)

-- What a `w + 1`-bit signed variable holds after an integer is stored in it.
unfoldable pub wrap : ℕ → ℤ → ℤ
wrap half a = signed half (pattern_of half a)

abbrev pub half64 : ℕ
half64 = 2 ^ 63

abbrev pub half32 : ℕ
half32 = 2 ^ 31

-- The values of an `int64`, which is also Go's `int`, and of an `int32`.
abbrev pub IsInt64 : ℤ → Type 0
IsInt64 a = (pos_part a < half64) × (neg_part a ≤ half64)

abbrev pub IsInt32 : ℤ → Type 0
IsInt32 a = (pos_part a < half32) × (neg_part a ≤ half32)

-- Addition of two `int64`s, and of two `int32`s.
unfoldable pub add64 : ℤ → ℤ → ℤ
add64 a b = wrap half64 (a +ℤ b)

unfoldable pub add32 : ℤ → ℤ → ℤ
add32 a b = wrap half32 (a +ℤ b)

pub wrap64_of_IsInt64 : (a : ℤ) → IsInt64 a → wrap half64 a ≡ a
unfolding wrap
wrap64_of_IsInt64 (pos n) h = ground arith
wrap64_of_IsInt64 (negsuc n) h = ground arith

pub wrap32_of_IsInt32 : (a : ℤ) → IsInt32 a → wrap half32 a ≡ a
unfolding wrap
wrap32_of_IsInt32 (pos n) h = ground arith
wrap32_of_IsInt32 (negsuc n) h = ground arith
