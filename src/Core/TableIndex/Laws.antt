-- ===== src/Core/TableIndex/Laws.antt =====
-- crates/cecil-core/src/token.rs, the bytes of the tables against `from_u8`.
use cecil_rs.Base.{
  ℕ, ◌<◌, ◌≡◌, ◌↔◌, refl, sym, ap, ◌∙◌, Bool, true, false, ◌&&◌, ◌||◌, Option, none, some, List, [],
  ◌∷◌, leb, ◌==◌, arith,
}
use mathlib.Core.Bool.{not}
use cecil_rs.Base.Bytes.{holds_below, holds_below_at}
use cecil_rs.Core.TableIndex.{TableIndex, module_, value, match_arms, from_u8, from_u8_arms}

abbrev pub is_some {ℓ} : {A : Type ℓ} → Option A → Bool
is_some none = false
is_some (some a) = true

-- Every arm of a match carries the number of its value.
abbrev pub arms_agree {ℓ} : {A : Type ℓ} → (A → ℕ) → List (ℕ × A) → Bool
arms_agree f [] = true
arms_agree f ((k, a) ∷ arms) = f a == k && arms_agree f arms

pub match_arms-value {ℓ} :
    {A : Type ℓ} (f : A → ℕ) (arms : List (ℕ × A)) {v : ℕ} {a : A}
    → arms_agree f arms ≡ true
    → match_arms v arms ≡ some a
    → f a ≡ v
match_arms-value f [] h e = cc
match_arms-value f ((k, b) ∷ arms) {v} {a} h e =
    ground (arith, match_arms-value f arms {v = v} {a = a})

same : Bool → Bool → Bool
same true b = b
same false b = not b

same→eq : (a b : Bool) → same a b ≡ true → a ≡ b
unfolding same
same→eq a b h = ground arith

pub from_u8-value : (t : TableIndex) → from_u8 (value t) ≡ some t
unfolding from_u8 value
from_u8-value module_ = refl
from_u8-value _ = refl

pub value-injective : (t u : TableIndex) → value t ≡ value u → t ≡ u
value-injective t u e =
    let read : some t ≡ some u = sym (from_u8-value t) ∙ ap from_u8 e ∙ from_u8-value u in cc

-- The byte of a table reads back as the table, and a byte reads back as a table only if it is the
-- table's byte.
pub from_u8_iff : (v : ℕ) (t : TableIndex) → (from_u8 v ≡ some t) ↔ (value t ≡ v)
unfolding from_u8 value
from_u8_iff v t = (match_arms-value value from_u8_arms refl, λ e. rw (← e) (from_u8-value t))

-- A byte is a table's exactly when it lies in one of two ranges: the tables of ECMA-335, and those
-- of portable debug files.
pub from_u8_range :
    (v : ℕ) → v < 256 → is_some (from_u8 v) ≡ (leb v 0x2C || (leb 0x30 v && leb v 0x37))
unfolding from_u8 holds_below same
from_u8_range v h = same→eq _ _ (
    holds_below_at 256 (λ v. same (is_some (from_u8 v)) (leb v 0x2C || (leb 0x30 v && leb v 0x37)))
      v refl h)
