-- ===== src/Cil/Header.antt =====
-- crates/cecil-cil/src/body.rs: the header of a method body, tiny or fat.
pub mod Fat
pub mod RoundTrip
use cecil_rs.Base.{
  ℕ, ◌+◌, ◌-◌, ◌*◌, ◌/◌, ◌%◌, ◌^◌, bit_and, bit_or, Bool, true, false, not, ◌||◌, List, [], ◌∷◌,
  length, get_elem?, ltb, leb, ◌==◌, if◌then◌else◌,
}
use cecil_rs.Core.Error
use cecil_rs.Core.Error.{Result, ok, err, Error, bad_image, invalid_operation, ok_or, expect}
use cecil_rs.Core.Reader
use cecil_rs.Core.Reader.{Read, ◌>>=◌, return, new}
use cecil_rs.Core.Token
use cecil_rs.Core.Token.{Token, is_nil}
use cecil_rs.Core.Writer

pub record ParsedHeader : Type 0 where
  pub fat : Bool
  pub code_size : ℕ
  pub max_stack : ℕ
  pub locals_token : Token
  pub init_locals : Bool
  pub more_sects : Bool

-- The size of a fat header, in its second byte.
unfoldable pub fat_header_len : List ℕ → Result ℕ
fat_header_len bytes = Error.◌>>=◌ (ok_or (get_elem? bytes 1) bad_image) λ second.
    if ltb (second / 2 ^ 4 * 4) 12 || ltb (length bytes) (second / 2 ^ 4 * 4)
    then err bad_image
    else ok (second / 2 ^ 4 * 4)

unfoldable pub method_body_header_len : List ℕ → Result ℕ
unfolding fat_header_len
method_body_header_len bytes = Error.◌>>=◌ (ok_or (get_elem? bytes 0) bad_image) λ first.
    if bit_and first 3 == 0x2
    then ok 1
    else if bit_and first 3 == 0x3
    then fat_header_len bytes
    else err bad_image

abbrev pub tiny_header : ℕ → ParsedHeader
tiny_header flags_byte = record {
  fat = false;
  code_size = flags_byte / 2 ^ 2;
  max_stack = 8;
  locals_token = Token.nil;
  init_locals = false;
  more_sects = false;
}

-- The twelve bytes of a fat header.
unfoldable pub fat_header : Read ParsedHeader
unfolding Reader.u16 Reader.u32
fat_header = do
  flags ← Reader.u16
  max_stack ← Reader.u16
  code_size ← Reader.u32
  locals_token ← Reader.u32
  return (record {
    fat = true;
    code_size = code_size;
    max_stack = max_stack;
    locals_token = record { raw = locals_token };
    init_locals = not (bit_and flags 0x10 == 0);
    more_sects = not (bit_and flags 0x8 == 0);
  })

unfoldable pub parse_fat : List ℕ → Result ParsedHeader
unfolding fat_header
parse_fat bytes =
    if ltb (length bytes) 12
    then err bad_image
    else Error.◌>>=◌ (fat_header (new bytes)) λ p. ok p.0

-- An index past the end panics; the length has been tested before.
unfoldable pub parse_body_header : List ℕ → Result ParsedHeader
unfolding method_body_header_len parse_fat
parse_body_header bytes = Error.◌>>=◌ (method_body_header_len bytes) λ _.
    Error.◌>>=◌ (expect (get_elem? bytes 0)) λ flags_byte.
      if bit_and flags_byte 0x3 == 0x2
      then ok (tiny_header flags_byte)
      else if bit_and flags_byte 0x3 == 0x3
      then parse_fat bytes
      else err bad_image

-- `encode_body_header`
unfoldable pub encode_tiny : ℕ → ℕ → Token → Bool → Result (List ℕ)
encode_tiny code_size max_stack locals init_locals =
    if leb 64 code_size
    then err invalid_operation
    else if not (is_nil locals) || init_locals || ltb 8 max_stack
    then err invalid_operation
    else ok (bit_or 0x2 (code_size % 256 * 2 ^ 2 % 256) ∷ [])

unfoldable pub encode_fat : ℕ → ℕ → Token → Bool → Result (List ℕ)
unfolding Writer.u16 Writer.u32
encode_fat code_size max_stack locals init_locals =
    if ltb ((2 ^ 32 - 1) / 2) code_size
    then err invalid_operation
    else ok
        (Writer.u32 locals.raw (
          Writer.u32 code_size (
            Writer.u16 max_stack (
              Writer.u16
                (if init_locals then bit_or (bit_or 0x3 0x3000) 0x10 else bit_or 0x3 0x3000)
                Writer.new)))).buf

unfoldable pub encode_body_header : Bool → ℕ → ℕ → Token → Bool → Result (List ℕ)
unfolding encode_tiny encode_fat
encode_body_header tiny code_size max_stack locals init_locals =
    if tiny
    then encode_tiny code_size max_stack locals init_locals
    else encode_fat code_size max_stack locals init_locals
