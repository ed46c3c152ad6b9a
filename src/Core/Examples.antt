-- ===== src/Core/Examples.antt =====
-- The theorems on the core types at concrete values.
use cecil_rs.Base.{
  ◌*◌, ◌/◌, ◌%◌, ◌+◌, ◌^◌, ◌<◌, ◌≡◌, refl, ◌↔◌, [], ◌∷◌, ◌++◌, length, some, arith, replicate, leb,
  ◌||◌, ◌&&◌,
}
use cecil_rs.Base.Int.{negsuc}
use cecil_rs.Core.Error.{ok}
use cecil_rs.Core.Reader
use cecil_rs.Core.Reader.{at}
use cecil_rs.Core.Writer.{ByteWriter, compressed_u32, compressed_i32, align}
use cecil_rs.Core.Writer.RoundTrip.{compressed_u32_round_trip}
use cecil_rs.Core.Writer.Signed.{compressed_i32_round_trip, wrap28}
use cecil_rs.Core.Writer.Align.{align_lem, gap}
use cecil_rs.Core.TableIndex
use cecil_rs.Core.TableIndex.{TableIndex, from_u8}
use cecil_rs.Core.TableIndex.Laws.{from_u8_iff, from_u8_range, is_some}
use cecil_rs.Core.TokenType
use cecil_rs.Core.TokenType.{TokenType, from_value}
use cecil_rs.Core.TokenType.Laws.{from_value_token, value-from_value, table_lem, recognised}
use cecil_rs.Core.Token
use cecil_rs.Core.Token.{Token}
use cecil_rs.Core.Token.Laws.{table-new, new-table-rid}

abbrev one_byte_before : ByteWriter
one_byte_before = record { buf = 7 ∷ [] }

-- A value of four bytes, behind one byte and before another.
compressed_u32_round_trip_example :
    Reader.compressed_u32 (at ((compressed_u32 0x4000 one_byte_before).buf ++ (9 ∷ [])) 1)
    ≡ ok (
      0x4000,
      at
          ((compressed_u32 0x4000 one_byte_before).buf ++ (9 ∷ []))
          (length (compressed_u32 0x4000 one_byte_before).buf),
    )
compressed_u32_round_trip_example =
    compressed_u32_round_trip one_byte_before 0x4000 (9 ∷ []) (omega arith)

-- The integer -300, in two bytes.
compressed_i32_round_trip_example :
    Reader.compressed_i32 (at ((compressed_i32 (negsuc 299) one_byte_before).buf ++ (9 ∷ [])) 1)
    ≡ ok (
      wrap28 (negsuc 299),
      at
          ((compressed_i32 (negsuc 299) one_byte_before).buf ++ (9 ∷ []))
          (length (compressed_i32 (negsuc 299) one_byte_before).buf),
    )
compressed_i32_round_trip_example =
    compressed_i32_round_trip one_byte_before (negsuc 299) (9 ∷ []) (omega arith)

-- One byte aligned to four.
align_lem_example :
    (align 4 one_byte_before ≡ ok (record { buf = 7 ∷ replicate (gap 4 1) 0 }))
    × (gap 4 1 < 4)
    × ((1 + gap 4 1) % 4 ≡ 0)
align_lem_example = align_lem 4 one_byte_before (omega arith)

from_value_token_example :
    from_value (TokenType.value TokenType.type_def + 5) ≡ recognised TokenType.type_def
from_value_token_example = from_value_token TokenType.type_def 5 (omega arith)

value-from_value_example : TokenType.value TokenType.type_def ≡ 0x0200_0005 / 2 ^ 24 % 256 * 2 ^ 24
unfolding from_value
value-from_value_example = value-from_value 0x0200_0005 TokenType.type_def refl

table_lem_example :
    (i : TableIndex) × (TokenType.table TokenType.type_def ≡ ok i)
    × (TableIndex.value i * 2 ^ 24 ≡ TokenType.value TokenType.type_def)
table_lem_example = table_lem TokenType.type_def

from_u8_iff_example :
    (from_u8 0x02 ≡ some TableIndex.type_def) ↔ (TableIndex.value TableIndex.type_def ≡ 0x02)
from_u8_iff_example = from_u8_iff 0x02 TableIndex.type_def

from_u8_range_example : is_some (from_u8 0x2D) ≡ (leb 0x2D 0x2C || (leb 0x30 0x2D && leb 0x2D 0x37))
from_u8_range_example = from_u8_range 0x2D (omega arith)

table-new_example :
    (Token.table (Token.new TableIndex.type_def 5) ≡ ok TableIndex.type_def)
    × (Token.try_table (Token.new TableIndex.type_def 5) ≡ some TableIndex.type_def)
    × (Token.rid (Token.new TableIndex.type_def 5) ≡ 5)
table-new_example = table-new TableIndex.type_def 5

abbrev a_token : Token
a_token = record { raw = 0x0200_0005 }

new-table-rid_example : Token.new TableIndex.type_def (Token.rid a_token) ≡ a_token
unfolding Token.try_table from_u8
new-table-rid_example = new-table-rid a_token TableIndex.type_def (omega arith) refl
