-- ===== src/Cil/Exceptions.antt =====
-- crates/cecil-cil/src/exceptions.rs: exception clauses and their sections, small or fat.
pub mod RoundTrip
pub mod Section
use cecil_rs.Base.{
  ℕ, zero, suc, ◌+◌, ◌-◌, ◌*◌, ◌/◌, ◌%◌, ◌^◌, bit_and, bit_or, Bool, true, false, not, ◌||◌, Option,
  some, none, List, [], ◌∷◌, ◌++◌, length, ltb, leb, ◌==◌, if◌then◌else◌,
}
use cecil_rs.Base.Int.{ℤ, pos, negsuc, to_unsigned, half32}
use cecil_rs.Core.Error
use cecil_rs.Core.Error.{Result, ok, err, out_of_fuel, Error, bad_image, invalid_operation, ok_or}
use cecil_rs.Core.Reader
use cecil_rs.Core.Reader.{ByteReader, Read, ◌>>=◌, return, lift, new}
use cecil_rs.Core.Token
use cecil_rs.Core.Token.{Token}
use cecil_rs.Core.Writer
use cecil_rs.Core.Writer.{ByteWriter}

pub data ExceptionHandlerType : Type 0 where
  catch_ filter finally_ fault : ExceptionHandlerType

unfoldable pub discriminant : ExceptionHandlerType → ℕ
discriminant catch_ = 0
discriminant filter = 1
discriminant finally_ = 2
discriminant fault = 4

-- The low three bits of the flags of a clause.
abbrev pub type_of_bits : ℕ → Option ExceptionHandlerType
type_of_bits n =
    if n == 0
    then some catch_
    else if n == 1
    then some filter
    else if n == 2
    then some finally_
    else if n == 4
    then some fault
    else none

unfoldable pub from_discriminant : ℕ → Option ExceptionHandlerType
from_discriminant raw = type_of_bits (bit_and raw 0x7)

pub record ExceptionHandler : Type 0 where
  pub try_start : ℤ
  pub try_length : ℤ
  pub handler_start : ℤ
  pub handler_length : ℤ
  pub filter_start : Option ℤ
  pub catch_type : Token
  pub handler_type : ExceptionHandlerType

abbrev pub unwrap_or_default : Option ℤ → ℤ
unwrap_or_default (some z) = z
unwrap_or_default none = pos 0

-- `z < 0 || z > most`
abbrev pub beyond : ℕ → ℤ → Bool
beyond most (pos n) = ltb most n
beyond most (negsuc n) = true

-- `o.is_some_and(..)`
abbrev pub some_beyond : Option ℤ → Bool
some_beyond (some z) = beyond 0xFFFF z
some_beyond none = false

abbrev pub filter_beyond : ExceptionHandlerType → Option ℤ → Bool
filter_beyond filter o = some_beyond o
filter_beyond _ o = false

-- The last four bytes of a clause, in either form: a `u32` and an `i32` of the same bits have the same
-- bytes.
unfoldable pub write_tail : ExceptionHandler → ExceptionHandlerType → ByteWriter → ByteWriter
unfolding Writer.u32 Writer.i32
write_tail h catch_ w = Writer.u32 h.catch_type.raw w
write_tail h filter w = Writer.i32 (unwrap_or_default h.filter_start) w
write_tail h finally_ w = Writer.u32 0 w
write_tail h fault w = Writer.u32 0 w

unfoldable pub write_fat_clause : ExceptionHandler → ByteWriter → ByteWriter
unfolding discriminant write_tail Writer.u32 Writer.i32
write_fat_clause h w = write_tail h h.handler_type (
    Writer.i32 h.handler_length (
      Writer.i32 h.handler_start (
        Writer.i32 h.try_length
          (Writer.i32 h.try_start (Writer.u32 (discriminant h.handler_type) w)))))

-- `z as u16`, `z as u8`
abbrev pub cast : ℕ → ℤ → ℕ
cast width z = to_unsigned half32 z % 2 ^ width

unfoldable pub put_small_clause : ExceptionHandler → ByteWriter → ByteWriter
unfolding discriminant write_tail Writer.u16 Writer.u8
put_small_clause h w = write_tail h h.handler_type (
    Writer.u8 (cast 8 h.handler_length) (
      Writer.u16 (cast 16 h.handler_start) (
        Writer.u8 (cast 8 h.try_length) (
          Writer.u16 (cast 16 h.try_start) (Writer.u16 (discriminant h.handler_type % 2 ^ 16) w)))))

unfoldable pub write_small_clause : ExceptionHandler → ByteWriter → Result ByteWriter
unfolding put_small_clause
write_small_clause h w =
    if beyond 0xFFFF h.try_start
    then err invalid_operation
    else if beyond 0xFF h.try_length
    then err invalid_operation
    else if beyond 0xFFFF h.handler_start
    then err invalid_operation
    else if beyond 0xFF h.handler_length
    then err invalid_operation
    else if filter_beyond h.handler_type h.filter_start
    then err invalid_operation
    else ok (put_small_clause h w)

unfoldable pub write_clause : ExceptionHandler → Bool → ByteWriter → Result ByteWriter
unfolding write_fat_clause write_small_clause
write_clause h true w = ok (write_fat_clause h w)
write_clause h false w = write_small_clause h w

-- The fields that every clause has: its kind, and the two ranges.
pub record Fields : Type 0 where
  pub kind_raw : ℕ
  pub try_start : ℤ
  pub try_len : ℤ
  pub handler_start : ℤ
  pub handler_len : ℤ

unfoldable pub read_fields : Bool → Read Fields
unfolding Reader.u32 Reader.i32 Reader.u16 Reader.u8
read_fields true = do
  kind_raw ← Reader.u32
  try_start ← Reader.i32
  try_len ← Reader.i32
  handler_start ← Reader.i32
  handler_len ← Reader.i32
  return (record {
    kind_raw = kind_raw;
    try_start = try_start;
    try_len = try_len;
    handler_start = handler_start;
    handler_len = handler_len;
  })
read_fields false = do
  kind_raw ← Reader.u16
  try_start ← Reader.u16
  try_len ← Reader.u8
  handler_start ← Reader.u16
  handler_len ← Reader.u8
  return (record {
    kind_raw = kind_raw;
    try_start = pos try_start;
    try_len = pos try_len;
    handler_start = pos handler_start;
    handler_len = pos handler_len;
  })

abbrev pub handler_of : Fields → ExceptionHandlerType → Option ℤ → Token → ExceptionHandler
handler_of f handler_type filter_start catch_type = record {
  try_start = f.try_start;
  try_length = f.try_len;
  handler_start = f.handler_start;
  handler_length = f.handler_len;
  filter_start = filter_start;
  catch_type = catch_type;
  handler_type = handler_type;
}

unfoldable pub read_tail : Fields → ExceptionHandlerType → Read ExceptionHandler
unfolding Reader.u32 Reader.i32 Reader.take_bytes
read_tail f catch_ = do raw ← Reader.u32; return (handler_of f catch_ none (record { raw = raw }))
read_tail f filter = do start ← Reader.i32; return (handler_of f filter (some start) Token.nil)
read_tail f finally_ = do
  skipped ← Reader.take_bytes 4
  return (handler_of f finally_ none Token.nil)
read_tail f fault = do skipped ← Reader.take_bytes 4; return (handler_of f fault none Token.nil)

unfoldable pub read_clause : Bool → Read ExceptionHandler
unfolding read_fields read_tail from_discriminant
read_clause fat = do
  f ← read_fields fat
  handler_type ← lift (ok_or (from_discriminant f.kind_raw) bad_image)
  read_tail f handler_type

-- `handlers.iter().any(..)`
unfoldable pub any_beyond : List ExceptionHandler → Bool
any_beyond [] = false
any_beyond (h ∷ hs) =
    beyond 0xFFFF h.try_start
    || beyond 0xFF h.try_length
    || beyond 0xFFFF h.handler_start
    || beyond 0xFF h.handler_length
    || some_beyond h.filter_start
    || any_beyond hs

unfoldable pub requires_fat_section : List ExceptionHandler → Bool → Bool
unfolding any_beyond
requires_fat_section handlers force_fat =
    if force_fat || leb 0x15 (length handlers) then true else any_beyond handlers
