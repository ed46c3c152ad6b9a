-- ===== src/Core/Token.antt =====
-- crates/cecil-core/src/token.rs, `Token`: the high byte is a table, the low 24 bits a row number.
pub mod Laws
use cecil_rs.Base.{ℕ, ◌*◌, ◌/◌, ◌%◌, ◌^◌, bit_and, bit_or, Bool, Option, ◌==◌}
use cecil_rs.Core.Error.{Result, expect}
use cecil_rs.Core.TableIndex.{TableIndex, value, from_u8}

pub record Token : Type 0 where
  pub raw : ℕ

abbrev pub nil : Token
nil = record { raw = 0 }

unfoldable pub new : TableIndex → ℕ → Token
new table rid = record { raw = bit_or (value table * 2 ^ 24) (bit_and rid 0x00ff_ffff) }

abbrev pub is_nil : Token → Bool
is_nil t = t.raw == 0

unfoldable pub table_byte : Token → ℕ
table_byte t = t.raw / 2 ^ 24 % 256

-- `expect` panics where the byte names no table.
unfoldable pub table : Token → Result TableIndex
table t = expect (from_u8 (t.raw / 2 ^ 24 % 256))

unfoldable pub try_table : Token → Option TableIndex
unfolding table_byte
try_table t = from_u8 (table_byte t)

unfoldable pub rid : Token → ℕ
rid t = bit_and t.raw 0x00ff_ffff
