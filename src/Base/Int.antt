-- ===== src/Base/Int.antt =====
-- Signed machine integers: an `i8`, `i32` or `i64` is a ℤ in its range, and a cast keeps the bits.
use Prim.Native.Nat.{ℕ, suc, ◌+◌, ◌-◌, ◌%◌, ◌^◌, ◌<◌}
use mathlib.Core.Path.{◌≡◌}
use mathlib.Core.Bool.{Bool, true}
use mathlib.Core.Option.{Option, none, some}
use native.Mathlib.Omega.{arith}
use native.Mathlib.Nat.{mod-eq_of_lt}
use cecil_rs.Base.Tests.{ltb, leb, if◌then◌else◌, Bool-cases}
use mathlib.Core.Logic.{inl, inr}

-- `negsuc n` is -(n + 1).
pub data ℤ : Type 0 where
  pos : ℕ → ℤ
  negsuc : ℕ → ℤ

abbrev pub pos_part : ℤ → ℕ
pos_part (pos n) = n
pos_part (negsuc n) = 0

abbrev pub neg_part : ℤ → ℕ
neg_part (pos n) = 0
neg_part (negsuc n) = suc n

-- a - b, as an integer.
abbrev pub sub_ℕ : ℕ → ℕ → ℤ
sub_ℕ a b = if leb b a then pos (a - b) else negsuc (b - a - 1)

infixl 65 ◌+ℤ◌ ◌-ℤ◌
unfoldable pub ◌+ℤ◌ : ℤ → ℤ → ℤ
a +ℤ b = sub_ℕ (pos_part a + pos_part b) (neg_part a + neg_part b)

unfoldable pub ◌-ℤ◌ : ℤ → ℤ → ℤ
a -ℤ b = sub_ℕ (pos_part a + neg_part b) (neg_part a + pos_part b)

-- `z` lies in `-m .. m - 1`, the range of a signed word with `2 * m` values.
unfoldable pub in_range : ℕ → ℤ → Bool
in_range m (pos n) = ltb n m
in_range m (negsuc n) = ltb n m

abbrev pub IsSigned : ℕ → ℤ → Type 0
IsSigned m (pos n) = n < m
IsSigned m (negsuc n) = n < m

abbrev pub half32 : ℕ
half32 = 2 ^ 31

abbrev pub IsI32 : ℤ → Type 0
IsI32 = IsSigned half32

-- A cast from the unsigned word with `2 * m` values to the signed one.
abbrev pub to_signed : ℕ → ℕ → ℤ
to_signed m u = if ltb u m then pos u else negsuc (m + m - 1 - u)

-- A cast from a signed integer to the unsigned word with `2 * m` values.
abbrev pub to_unsigned : ℕ → ℤ → ℕ
to_unsigned m (pos n) = n % (m + m)
to_unsigned m (negsuc n) = m + m - 1 - n % (m + m)

-- `checked_add` and `checked_sub` of `i32`.
unfoldable pub checked_i32 : ℤ → Option ℤ
unfolding in_range
checked_i32 z = if in_range half32 z then some z else none

pub to_signed-to_unsigned : (m : ℕ) (z : ℤ) → IsSigned m z → to_signed m (to_unsigned m z) ≡ z
to_signed-to_unsigned m (pos n) h = ground (arith, mod-eq_of_lt {n = n} {m = m + m})
to_signed-to_unsigned m (negsuc n) h = ground (arith, mod-eq_of_lt {n = n} {m = m + m})

pub to_unsigned-lt : (m : ℕ) (z : ℤ) → 0 < m → to_unsigned m z < m + m
to_unsigned-lt m (pos n) h = grind arith
to_unsigned-lt m (negsuc n) h = grind arith

pub to_unsigned-to_signed : (m u : ℕ) → u < m + m → to_unsigned m (to_signed m u) ≡ u
to_unsigned-to_signed m u h =
    ground (arith, mod-eq_of_lt {n = u} {m = m + m}, mod-eq_of_lt {n = m + m - 1 - u} {m = m + m})

pub to_signed-IsSigned : (m u : ℕ) → u < m + m → IsSigned m (to_signed m u)
to_signed-IsSigned m u h = ground arith

pub +ℤ-sub_cancel : (a b : ℤ) → b +ℤ (a -ℤ b) ≡ a
unfolding ◌+ℤ◌ ◌-ℤ◌
+ℤ-sub_cancel a b = ground arith

pub IsSigned-in_range : (m : ℕ) (z : ℤ) → in_range m z ≡ true → IsSigned m z
unfolding in_range
IsSigned-in_range m (pos n) h = ground arith
IsSigned-in_range m (negsuc n) h = ground arith

pub in_range-IsSigned : (m : ℕ) (z : ℤ) → IsSigned m z → in_range m z ≡ true
unfolding in_range
in_range-IsSigned m (pos n) h = ground arith
in_range-IsSigned m (negsuc n) h = ground arith

pub checked_i32-IsI32 : (z : ℤ) → IsI32 z → checked_i32 z ≡ some z
unfolding checked_i32
checked_i32-IsI32 z h = rw (in_range-IsSigned half32 z h)

pub checked_i32-eq_some : (z : ℤ) {y : ℤ} → checked_i32 z ≡ some y → (y ≡ z) × IsI32 z
unfolding checked_i32
checked_i32-eq_some z h = elim (Bool-cases (in_range half32 z)) [
  | inl inside ↦ (cc, IsSigned-in_range half32 z inside)
  | inr outside ↦ absurd (ground arith)
]
