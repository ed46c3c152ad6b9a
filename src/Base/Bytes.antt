-- ===== src/Base/Bytes.antt =====
-- Masks on one byte as arithmetic; each is a table of 256 entries, checked by evaluation.
use Prim.Native.Nat.{ℕ, zero, suc, ◌+◌, ◌*◌, ◌/◌, ◌%◌, ◌<◌, bit_and, bit_or}
use mathlib.Core.Path.{◌≡◌, refl}
use mathlib.Core.Bool.{Bool, true, ◌&&◌}
use native.Mathlib.Omega.{arith}
use cecil_rs.Base.Tests.{◌==◌, ==_iff}
use cecil_rs.Base.Bits.{bit_clear}

unfoldable pub holds_below : ℕ → (ℕ → Bool) → Bool
holds_below zero p = true
holds_below (suc n) p = p n && holds_below n p

pub holds_below_at : (n : ℕ) (p : ℕ → Bool) (x : ℕ) → holds_below n p ≡ true → x < n → p x ≡ true
unfolding holds_below
holds_below_at zero p x h lt = absurd (omega arith)
holds_below_at (suc n) p x h lt = ground (arith, holds_below_at n p x)

module _ (f g : ℕ → ℕ) where
  agree : holds_below 256 (λ x. f x == g x) ≡ true → (x : ℕ) → x < 256 → f x ≡ g x
  agree h x lt = (==_iff _ _).0 (holds_below_at 256 (λ x. f x == g x) x h lt)

pub bit_and-0x80 : (b : ℕ) → b < 256 → bit_and b 0x80 ≡ b / 128 * 128
unfolding holds_below
bit_and-0x80 = agree _ _ refl

pub bit_and-0x40 : (b : ℕ) → b < 256 → bit_and b 0x40 ≡ b % 128 / 64 * 64
unfolding holds_below
bit_and-0x40 = agree _ _ refl

pub bit_and-0xC0 : (b : ℕ) → b < 256 → bit_and b 0xC0 ≡ b / 64 * 64
unfolding holds_below
bit_and-0xC0 = agree _ _ refl

pub bit_clear-0x80 : (b : ℕ) → b < 256 → bit_clear b 0x80 ≡ b % 128
unfolding holds_below
bit_clear-0x80 = agree _ _ refl

pub bit_clear-0xC0 : (b : ℕ) → b < 256 → bit_clear b 0xC0 ≡ b % 64
unfolding holds_below
bit_clear-0xC0 = agree _ _ refl

pub bit_or-0xC0 : (b : ℕ) → b < 256 → bit_or b 0xC0 ≡ b % 64 + 192
unfolding holds_below
bit_or-0xC0 = agree _ _ refl
