-- ===== src/Base/Bits.antt =====
-- Laws of `&`, `|` and `!` on native numbers, at every width, from the digit recursion.
use Prim.Native.Nat.{
  ℕ, zero, suc, ◌+◌, ◌-◌, ◌*◌, ◌/◌, ◌%◌, ◌^◌, ◌≤◌, ◌<◌, min, max, bit_and, bit_or, digits,
  bit_and-bitwise, bit_or-bitwise,
}
use mathlib.Core.Path.{◌≡◌, refl, sym, ap, ◌∙◌}
use native.Mathlib.Omega.{arith}
use native.Mathlib.Nat.{div-add-mod, div-div-eq-div-mul}

-- `a & !m`: the bits of `a` that `m` does not keep.
abbrev pub bit_clear : ℕ → ℕ → ℕ
bit_clear a m = a - bit_and a m

-- The digits of a number do not depend on the fuel, once there is enough.
module _ (f : ℕ → ℕ) (g : ℕ → ℕ → ℕ) where
  fuel_free : (x y m n : ℕ) → x ≤ m → x ≤ n → digits f g m x y ≡ digits f g n x y
  fuel_free zero y zero zero h k = refl
  fuel_free zero y zero (suc n) h k = refl
  fuel_free zero y (suc m) zero h k = refl
  fuel_free zero y (suc m) (suc n) h k = refl
  fuel_free (suc x) y zero n h k = absurd (omega arith)
  fuel_free (suc x) y (suc m) zero h k = absurd (omega arith)
  fuel_free (suc x) y (suc m) (suc n) h k =
      ap (λ t. t * 2 + g (suc x % 2) (y % 2))
        (fuel_free (suc x / 2) (y / 2) m n (omega arith) (omega arith))

and_of_zero : (y : ℕ) → bit_and 0 y ≡ 0
and_of_zero y = bit_and-bitwise 0 y

pub bit_and_step : (x y : ℕ) → bit_and x y ≡ bit_and (x / 2) (y / 2) * 2 + min (x % 2) (y % 2)
bit_and_step zero y = omega (arith, and_of_zero (y / 2), and_of_zero y)
bit_and_step (suc x) y =
    bit_and-bitwise (suc x) y
    ∙ ap (λ t. t * 2 + min (suc x % 2) (y % 2))
        (fuel_free (λ _. zero) min (suc x / 2) (y / 2) x (suc x / 2) (omega arith) (omega arith)
          ∙ sym (bit_and-bitwise (suc x / 2) (y / 2)))

pub zero-bit_or : (y : ℕ) → bit_or 0 y ≡ y
zero-bit_or y = bit_or-bitwise 0 y

pub bit_or_step : (x y : ℕ) → bit_or x y ≡ bit_or (x / 2) (y / 2) * 2 + max (x % 2) (y % 2)
bit_or_step zero y = omega (arith, zero-bit_or (y / 2), zero-bit_or y)
bit_or_step (suc x) y =
    bit_or-bitwise (suc x) y
    ∙ ap (λ t. t * 2 + max (suc x % 2) (y % 2))
        (fuel_free (λ z. z) max (suc x / 2) (y / 2) x (suc x / 2) (omega arith) (omega arith)
          ∙ sym (bit_or-bitwise (suc x / 2) (y / 2)))

double : (k : ℕ) → 2 ^ suc k ≡ 2 * 2 ^ k
double k = omega arith

pub pow_pos : (k : ℕ) → 0 < 2 ^ k
pow_pos zero = omega arith
pow_pos (suc k) = omega (arith, double k, pow_pos k)

mod_double : (k a : ℕ) → a % 2 ^ suc k ≡ a / 2 % 2 ^ k * 2 + a % 2
mod_double k a =
    let m = 2 ^ k in
    let e : a / (2 * m) ≡ a / 2 / m = sym (div-div-eq-div-mul a 2 m) in
    rw (double k)
      (omega (arith, rw e at (div-add-mod a (2 * m)), div-add-mod (a / 2) m, div-add-mod a 2))

bit_and-zero : (a : ℕ) → bit_and a 0 ≡ 0
bit_and-zero a = go a a (omega arith)
  where
    go : (n a : ℕ) → a ≤ n → bit_and a 0 ≡ 0
    go zero zero h = refl
    go zero (suc a) h = absurd (omega arith)
    go (suc n) zero h = refl
    go (suc n) (suc a) h = omega (arith, bit_and_step (suc a) 0, go n (suc a / 2) (omega arith))

pub bit_or-zero : (a : ℕ) → bit_or a 0 ≡ a
bit_or-zero a = go a a (omega arith)
  where
    go : (n a : ℕ) → a ≤ n → bit_or a 0 ≡ a
    go zero zero h = refl
    go zero (suc a) h = absurd (omega arith)
    go (suc n) zero h = refl
    go (suc n) (suc a) h = omega (arith, bit_or_step (suc a) 0, go n (suc a / 2) (omega arith))

bit_or_double : (p b : ℕ) → bit_or (2 * p) b ≡ bit_or p (b / 2) * 2 + b % 2
bit_or_double p b =
    let half : 2 * p / 2 ≡ p = omega arith in omega (arith, rw half at (bit_or_step (2 * p) b))

-- The low `k` bits joined to a multiple of 2 ^ k.
pub bit_or_disjoint : (k a b : ℕ) → b < 2 ^ k → bit_or (a * 2 ^ k) b ≡ a * 2 ^ k + b
bit_or_disjoint zero a b h =
    let e : b ≡ 0 = omega arith in rw e (omega (arith, bit_or-zero (a * 1)))
bit_or_disjoint (suc k) a b h =
    let e : a * 2 ^ suc k ≡ 2 * (a * 2 ^ k) = omega (arith, ap (λ t. a * t) (double k)) in
    rw e (
      omega
        (arith, bit_or_double (a * 2 ^ k) b, bit_or_disjoint k a (b / 2) (omega (arith, double k))))

-- A mask of `k` ones keeps the low `k` bits.
pub bit_and_mask : (k a : ℕ) → bit_and a (2 ^ k - 1) ≡ a % 2 ^ k
bit_and_mask zero a = omega (arith, bit_and-zero a)
bit_and_mask (suc k) a =
    let half : (2 ^ suc k - 1) / 2 ≡ 2 ^ k - 1 = omega (arith, double k, pow_pos k) in
    omega (
      arith,
      rw half at (bit_and_step a (2 ^ suc k - 1)),
      bit_and_mask k (a / 2),
      double k,
      pow_pos k,
      mod_double k a,
    )

bit_and_double : (a m : ℕ) → bit_and a (2 * m) ≡ bit_and (a / 2) m * 2
bit_and_double a m =
    let half : 2 * m / 2 ≡ m = omega arith in omega (arith, rw half at (bit_and_step a (2 * m)))

-- A mask whose low `k` bits are clear works on what is left above them.
pub bit_and_high : (k a m : ℕ) → bit_and a (m * 2 ^ k) ≡ bit_and (a / 2 ^ k) m * 2 ^ k
bit_and_high zero a m =
    let e : m * 2 ^ 0 ≡ m = omega arith in
    let d : a / 2 ^ 0 ≡ a = omega arith in rw (e, d) (omega arith)
bit_and_high (suc k) a m =
    let e : m * 2 ^ suc k ≡ 2 * (m * 2 ^ k) = omega (arith, ap (λ t. m * t) (double k)) in
    let d : a / 2 ^ suc k ≡ a / 2 / 2 ^ k =
      ap (λ t. a / t) (double k) ∙ sym (div-div-eq-div-mul a 2 (2 ^ k)) in
    rw (e, d)
      (omega (
        arith,
        bit_and_double a (m * 2 ^ k),
        bit_and_high k (a / 2) m,
        ap (λ t. bit_and (a / 2 / 2 ^ k) m * t) (double k),
      ))

pub bit_or_comm : (a b : ℕ) → bit_or a b ≡ bit_or b a
bit_or_comm a b = go (a + b) a b (omega arith)
  where
    go : (n a b : ℕ) → a + b ≤ n → bit_or a b ≡ bit_or b a
    go zero a b h = let e : a ≡ b = omega arith in ap (λ t. bit_or t b) e ∙ ap (bit_or b) (sym e)
    go (suc n) a b h =
        omega (arith, bit_or_step a b, bit_or_step b a, go n (a / 2) (b / 2) (omega arith))
