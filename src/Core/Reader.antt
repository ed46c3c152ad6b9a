-- ===== src/Core/Reader.antt =====
-- crates/cecil-core/src/io.rs, `ByteReader`: a cursor over a byte slice. A `usize` is a ℕ, a byte
-- slice a list of numbers below 256. A reader whose read has failed is dropped by every caller, so
-- only a success returns the moved reader.
pub mod Laws
pub mod Safety
use Prim.Native.Nat.{min}
use cecil_rs.Base.{
  ℕ, ◌+◌, ◌-◌, ◌*◌, ◌/◌, ◌%◌, ◌^◌, bit_and, bit_or, Bool, true, false, ◌||◌, List, [], ◌∷◌, length,
  take, drop, get_elem?, ltb, ◌==◌, if◌then◌else◌,
}
use cecil_rs.Base.Bits.{bit_clear}
use cecil_rs.Base.Int.{ℤ, pos, to_signed, half32, ◌-ℤ◌}
use cecil_rs.Core.Error.{Result, ok, err, panic, out_of_fuel, Error, bad_image, argument, expect}
use cecil_rs.Core.Error

pub record ByteReader : Type 0 where
  pub bytes : List ℕ
  pub position : ℕ

abbrev pub Read {ℓ} : Type ℓ → Type ℓ
Read A = ByteReader → Result (A × ByteReader)

infixl 5 ◌>>=◌ ◌>>◌
abbrev pub ◌>>=◌ {ℓ κ} : {A : Type ℓ} {B : Type κ} → Read A → (A → Read B) → Read B
◌>>=◌ m f r = Error.◌>>=◌ (m r) λ p. f p.0 p.1

abbrev pub ◌>>◌ {ℓ} : {B : Type ℓ} → Read (Unit {0}) → Read B → Read B
◌>>◌ m k r = Error.◌>>=◌ (m r) λ p. k p.1

abbrev pub return {ℓ} : {A : Type ℓ} → A → Read A
return a r = ok (a, r)

abbrev pub fail {ℓ} : {A : Type ℓ} → Error → Read A
fail e r = err e

-- A computation that leaves the reader alone.
abbrev pub lift {ℓ} : {A : Type ℓ} → Result A → Read A
lift m r = Error.◌>>=◌ m λ a. ok (a, r)

abbrev pub new : List ℕ → ByteReader
new bytes = record { bytes = bytes; position = 0 }

abbrev pub at : List ℕ → ℕ → ByteReader
at bytes position = record { bytes = bytes; position = position }

-- `saturating_sub` is the subtraction of ℕ.
unfoldable pub remaining : ByteReader → ℕ
remaining r = length r.bytes - r.position

unfoldable pub is_empty : ByteReader → Bool
unfolding remaining
is_empty r = remaining r == 0

unfoldable pub seek : ℕ → Read (Unit {0})
seek to r = if ltb (length r.bytes) to then err bad_image else ok (tt, at r.bytes to)

-- The slice `bytes[position .. position + n]` lies in range after the test.
unfoldable pub take_bytes : ℕ → Read (List ℕ)
unfolding remaining
take_bytes n r =
    if ltb (length r.bytes) r.position || ltb (remaining r) n
    then err bad_image
    else ok (take n (drop r.position r.bytes), at r.bytes (r.position + n))

-- `from_le_bytes`
abbrev pub le_value : List ℕ → ℕ
le_value [] = 0
le_value (b ∷ bs) = b + 256 * le_value bs

unfoldable pub u8 : Read ℕ
unfolding take_bytes
u8 = do b ← take_bytes 1; lift (expect (get_elem? b 0))

unfoldable pub i8 : Read ℤ
unfolding u8
i8 = do b ← u8; return (to_signed 128 b)

unfoldable pub u16 : Read ℕ
unfolding take_bytes
u16 = do b ← take_bytes 2; return (le_value b)

unfoldable pub i16 : Read ℤ
unfolding u16
i16 = do b ← u16; return (to_signed (2 ^ 15) b)

unfoldable pub u32 : Read ℕ
unfolding take_bytes
u32 = do b ← take_bytes 4; return (le_value b)

unfoldable pub i32 : Read ℤ
unfolding u32
i32 = do b ← u32; return (to_signed half32 b)

unfoldable pub u64 : Read ℕ
unfolding take_bytes
u64 = do b ← take_bytes 8; return (le_value b)

unfoldable pub i64 : Read ℤ
unfolding u64
i64 = do b ← u64; return (to_signed (2 ^ 63) b)

-- A float is the pattern of its bits.
unfoldable pub f32 : Read ℕ
unfolding u32
f32 = u32

unfoldable pub f64 : Read ℕ
unfolding u64
f64 = u64

-- The compressed unsigned integer: one, two or four bytes, by the two top bits of the first.
compressed_two : ℕ → Read ℕ
unfolding u8
compressed_two first = do b ← u8; return (bit_or (bit_clear first 0x80 * 2 ^ 8) b)

compressed_four : ℕ → Read ℕ
unfolding u8
compressed_four first = do
  a ← u8
  b ← u8
  c ← u8
  return (bit_or (bit_or (bit_or (bit_clear first 0xC0 * 2 ^ 24) (a * 2 ^ 16)) (b * 2 ^ 8)) c)

compressed_tail : ℕ → Read ℕ
unfolding compressed_two compressed_four
compressed_tail first =
    if bit_and first 0x80 == 0
    then return first
    else if bit_and first 0x40 == 0
    then compressed_two first
    else compressed_four first

unfoldable pub compressed_u32 : Read ℕ
unfolding u8 compressed_tail
compressed_u32 = do first ← u8; compressed_tail first

-- The bias of a negative compressed integer, by the first byte.
abbrev pub bias : ℕ → ℕ
bias first =
    let top = bit_and first 0xC0 in
    if top == 0 || top == 0x40 then 0x40 else if top == 0x80 then 0x2000 else 0x10000000

signed_tail : ℕ → Read ℤ
unfolding compressed_u32
signed_tail first = do
  u ← compressed_u32
  return (if bit_and u 1 == 0 then pos (u / 2) else pos (u / 2) -ℤ pos (bias first))

-- `u >> 1` is below 2^29, so the subtractions do not leave the range of `i32`.
unfoldable pub compressed_i32 : Read ℤ
unfolding is_empty signed_tail
compressed_i32 r =
    if is_empty r
    then err bad_image
    else Error.◌>>=◌ (expect (get_elem? r.bytes r.position)) λ first. signed_tail first r

unfoldable pub align : ℕ → Read (Unit {0})
unfolding seek
align alignment r =
    if alignment == 0
    then err argument
    else if ltb (length r.bytes) r.position
    then err bad_image
    else let rem = r.position % alignment in
      let aligned = r.position + (alignment - rem) in
      if rem == 0
      then ok (tt, r)
      else if ltb aligned (2 ^ 64)
      then seek aligned r
      else err bad_image
