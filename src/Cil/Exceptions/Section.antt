-- ===== src/Cil/Exceptions/Section.antt =====
-- crates/cecil-cil/src/exceptions.rs: the sections that hold the clauses.
pub mod RoundTrip
pub mod Safety
pub mod Encoding
use cecil_rs.Base.{
  ℕ, zero, suc, ◌+◌, ◌-◌, ◌*◌, ◌/◌, ◌%◌, ◌^◌, bit_and, bit_or, Bool, true, false, not, List, [],
  ◌∷◌, ◌++◌, length, ltb, ◌==◌, if◌then◌else◌,
}
use cecil_rs.Core.Error
use cecil_rs.Core.Error.{Result, ok, err, out_of_fuel, Error, bad_image, invalid_operation}
use cecil_rs.Core.Reader
use cecil_rs.Core.Reader.{ByteReader, Read, ◌>>=◌, ◌>>◌, return, lift, new}
use cecil_rs.Core.Writer
use cecil_rs.Core.Writer.{ByteWriter}
use cecil_rs.Cil.Exceptions.{ExceptionHandler, requires_fat_section, write_clause, read_clause}

abbrev pub clause_size : Bool → ℕ
clause_size fat = if fat then 24 else 12

abbrev pub section_size : Bool → List ExceptionHandler → ℕ
section_size fat handlers = length handlers * clause_size fat + 4

-- The four bytes in front of the clauses: the flags, and the size in one byte or in three.
unfoldable pub section_header : Bool → ℕ → Result ByteWriter
unfolding Writer.u8 Writer.u16
section_header true size =
    if ltb 0xFFFFFF size
    then err invalid_operation
    else ok (
        Writer.u8 (bit_and (size / 2 ^ 16) 0xFF % 256) (
          Writer.u8 (bit_and (size / 2 ^ 8) 0xFF % 256)
            (Writer.u8 (bit_and size 0xFF % 256) (Writer.u8 (bit_or 0x1 0x40) Writer.new))))
section_header false size =
    if ltb 0xFF size
    then err invalid_operation
    else ok (Writer.u16 0 (Writer.u8 (size % 256) (Writer.u8 0x1 Writer.new)))

unfoldable pub write_clauses : List ExceptionHandler → Bool → ByteWriter → Result ByteWriter
unfolding write_clause
write_clauses [] fat w = ok w
write_clauses (h ∷ hs) fat w = Error.◌>>=◌ (write_clause h fat w) (write_clauses hs fat)

unfoldable pub write_section : List ExceptionHandler → Bool → Result (List ℕ)
unfolding requires_fat_section section_header write_clauses
write_section handlers force_fat =
    let fat : Bool = requires_fat_section handlers force_fat in
    Error.◌>>=◌ (section_header fat (section_size fat handlers))
      λ w. Error.◌>>=◌ (write_clauses handlers fat w) λ w'. ok w'.buf

-- The size in a section, after its flags.
unfoldable pub read_size : Bool → Read ℕ
unfolding Reader.u8 Reader.take_bytes
read_size true = do
  b0 ← Reader.u8
  b1 ← Reader.u8
  b2 ← Reader.u8
  return (bit_or (bit_or b0 (b1 * 2 ^ 8)) (b2 * 2 ^ 16))
read_size false = do size ← Reader.u8; padding ← Reader.take_bytes 2; return size

-- The size with the header, whether or not the section counts it. A size has 24 bits, so that the
-- checked additions of the code do not overflow.
unfoldable pub whole_size : ℕ → ℕ → Result ℕ
whole_size size clause =
    if ltb size 4
    then err bad_image
    else if (size - 4) % clause == 0
    then ok size
    else if size % clause == 0
    then ok (size + 4)
    else err bad_image

unfoldable pub read_clauses : ℕ → Bool → Read (List ExceptionHandler)
unfolding read_clause
read_clauses zero fat = return []
read_clauses (suc count) fat = do h ← read_clause fat; hs ← read_clauses count fat; return (h ∷ hs)

-- The clauses of a section that starts at `start` and has `size` bytes.
unfoldable pub read_bounded : ℕ → ℕ → Bool → Read (List ExceptionHandler)
unfolding read_clauses Reader.seek
read_bounded start size fat r =
    if ltb (length r.bytes) (start + size)
    then err bad_image
    else (read_clauses ((size - 4) / clause_size fat) fat >>= λ hs.
          Reader.seek (start + size) >> return hs)
        r

-- A section after its flags.
unfoldable pub read_sized : ℕ → Bool → Read (List ExceptionHandler)
unfolding read_size whole_size read_bounded
read_sized start fat = do
  size ← read_size fat
  whole ← lift (whole_size size (clause_size fat))
  read_bounded start whole fat

-- One round of the loop: the clauses of a section, and whether another follows.
unfoldable pub read_section : Read (List ExceptionHandler × Bool)
unfolding read_sized Reader.u8
read_section r =
    (Reader.u8 >>= λ flags.
    if bit_and flags 0x1 == 0
    then lift (err bad_image)
    else read_sized r.position (not (bit_and flags 0x40 == 0)) >>= λ hs.
        return (hs, not (bit_and flags 0x80 == 0)))
      r

-- The loop. Its result has the end of the last section. Each round takes a byte at least.
unfoldable pub parse_loop :
    ℕ → List ExceptionHandler → ByteReader → Result (List ExceptionHandler × ℕ)
unfolding read_section Reader.align
parse_loop zero handlers r = out_of_fuel
parse_loop (suc fuel) handlers r = Error.◌>>=◌ (read_section r) λ p.
    let rest : Result (List ExceptionHandler × ℕ) =
      Error.◌>>=◌ (Reader.align 4 p.1) λ q. parse_loop fuel (handlers ++ p.0.0) q.1 in
    if p.0.1 then rest else ok (handlers ++ p.0.0, p.1.position)

unfoldable pub parse_sections_with_len : List ℕ → Result (List ExceptionHandler × ℕ)
unfolding parse_loop
parse_sections_with_len bytes = parse_loop (length bytes + 1) [] (new bytes)

unfoldable pub parse_sections : List ℕ → Result (List ExceptionHandler × Bool)
unfolding parse_sections_with_len
parse_sections bytes = Error.◌>>=◌ (parse_sections_with_len bytes) λ p. ok (p.0, false)
