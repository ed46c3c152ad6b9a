-- ===== src/Core/TokenType/Laws.antt =====
-- What `from_value` makes of the high byte of a token.
use cecil_rs.Base.{
  ℕ, ◌+◌, ◌*◌, ◌/◌, ◌%◌, ◌^◌, ◌<◌, ◌≡◌, refl, ◌∙◌, Option, none, some, arith, bit_and, Option-cases,
  inl, inr, true,
}
use cecil_rs.Base.Bits.{bit_and_high, bit_and_mask}
use cecil_rs.Core.Error.{ok}
use cecil_rs.Core.TableIndex
use cecil_rs.Core.TableIndex.{TableIndex, from_u8}
use cecil_rs.Core.TableIndex.Laws.{match_arms-value, is_some, from_u8_iff}
use cecil_rs.Core.TokenType.{TokenType, module_, value, from_value, from_value_arms, table}

high_byte : (v : ℕ) → bit_and v 0xff00_0000 ≡ v / 2 ^ 24 % 256 * 2 ^ 24
high_byte v = omega (arith, bit_and_high 24 v 255, bit_and_mask 8 (v / 2 ^ 24))

value_bits : (t : TokenType) → (value t % 2 ^ 24 ≡ 0) × (value t < 2 ^ 32)
unfolding value
value_bits module_ = omega arith
value_bits _ = omega arith

-- The token type that `from_value` finds for a type's value: it has no arm for the module table.
abbrev pub recognised : TokenType → Option TokenType
recognised module_ = none
recognised t = some t

from_value-value : (t : TokenType) → from_value (value t) ≡ recognised t
unfolding from_value value
from_value-value module_ = refl
from_value-value _ = refl

high_bits :
    (t : TokenType) (rid : ℕ)
    → rid < 2 ^ 24
    → bit_and (value t + rid) 0xff00_0000 ≡ bit_and (value t) 0xff00_0000
high_bits t rid h = omega (arith, high_byte (value t + rid), high_byte (value t), value_bits t)

-- Whatever its row number, a token of a type other than the module's is recognised, and one of the
-- module's type is not.
pub from_value_token :
    (t : TokenType) (rid : ℕ) → rid < 2 ^ 24 → from_value (value t + rid) ≡ recognised t
from_value_token t rid h = unfold from_value in (rw (high_bits t rid h) (from_value-value t))

-- A token is recognised as a type only if its high byte is the type's.
pub value-from_value :
    (v : ℕ) (t : TokenType) → from_value v ≡ some t → value t ≡ v / 2 ^ 24 % 256 * 2 ^ 24
unfolding from_value value
value-from_value v t e = match_arms-value value from_value_arms refl e ∙ high_byte v

has_table : (t : TokenType) → is_some (from_u8 (value t / 2 ^ 24 % 256)) ≡ true
unfolding value from_u8
has_table module_ = refl
has_table _ = refl

-- The table of a token type exists: `table` does not panic, and it has the type's high byte.
pub table_lem :
    (t : TokenType) → (i : TableIndex) × (table t ≡ ok i) × (TableIndex.value i * 2 ^ 24 ≡ value t)
unfolding table
table_lem t = elim (Option-cases (from_u8 (value t / 2 ^ 24 % 256))) [
  | inl missing ↦ cc (has_table t)
  | inr (i, found) ↦ (i, rw found, omega (arith, (from_u8_iff _ i).0 found, value_bits t))
]
